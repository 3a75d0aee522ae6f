-- ===== src/CoapTcp/Stream/RoundTrip.antt =====
-- Built messages, one after the other, through the stream decoder.
use smart_things_local.Prelude.{
  ℕ, ◌+◌, ◌≡◌, refl, ap, ◌∙◌, inl, List, [], ◌∷◌, ◌++◌, some, arith, map, append_assoc, length,
  length-append, take-append_exact, drop-append_exact,
}
use smart_things_local.Prelude.Bytes.{Bytes}
use smart_things_local.Errors.{ok}
use smart_things_local.Coap.Options.{sort_options, mark_payload}
use smart_things_local.CoapTcp.Frame.{CoapTcpMessage, frame_size_from_prefix}
use smart_things_local.CoapTcp.Frame.Length.{encode_length-Announces}
use smart_things_local.CoapTcp.Frame.RoundTrip.{
  build_tcp, build_tcp-Built, HasBytes, parse-build_tcp,
}
use smart_things_local.CoapTcp.Stream.{Decoder, finish}
use smart_things_local.CoapTcp.Stream.Chunks.{Frames, Pending-empty}
use smart_things_local.CoapTcp.Stream.Whole.{feed_all, concat, feed_all-Frames}

-- The wires of messages, each built under the limit.
abbrev pub Wires : ℕ → List CoapTcpMessage → List Bytes → Type 0
Wires maximum [] [] = Unit
Wires maximum (m ∷ ms) (w ∷ ws) = HasBytes m × (build_tcp m maximum ≡ ok w) × Wires maximum ms ws
Wires maximum [] (w ∷ ws) = ⊥
Wires maximum (m ∷ ms) [] = ⊥

abbrev pub sorted : CoapTcpMessage → CoapTcpMessage
sorted m = record m { options = sort_options m.options }

-- The decoder finds the end of a built message, whatever follows it.
pub frame_size-build_tcp :
    (m : CoapTcpMessage) (maximum : ℕ) (wire rest : Bytes)
    → build_tcp m maximum ≡ ok wire
    → frame_size_from_prefix (wire ++ rest) maximum ≡ ok (some (length wire))
frame_size-build_tcp m maximum wire rest h =
    let b = build_tcp-Built m maximum wire h in
    let a = encode_length-Announces _ _ b.prefix b.accepted.3 b.announced in
    let body = b.body ++ mark_payload m.payload in
    let after = m.code ∷ (m.token ++ body) in
    let size : length wire ≡ length b.prefix + 1 + length m.token + length body =
      ap length b.whole ∙ omega (arith, length-append b.prefix after, length-append m.token body) in
    rw (size, b.whole, append_assoc b.prefix after rest) (a.frames (after ++ rest) maximum b.fits)

Wires-Frames :
    (maximum : ℕ) (ms : List CoapTcpMessage) (ws : List Bytes)
    → Wires maximum ms ws
    → Frames maximum (concat ws) (map sorted ms) []
unfolding frame_size_from_prefix
Wires-Frames maximum [] [] h = (refl, inl refl)
Wires-Frames maximum (m ∷ ms) (w ∷ ws) (bytes, built, h) = (
  length w,
  frame_size-build_tcp m maximum w (concat ws) built,
  omega (arith, length-append w (concat ws)),
  rw (take-append_exact (length w) w (concat ws) refl) (parse-build_tcp m maximum w bytes built),
  rw (drop-append_exact (length w) w (concat ws) refl) (Wires-Frames maximum ms ws h),
)
Wires-Frames maximum [] (w ∷ ws) h = absurd h
Wires-Frames maximum (m ∷ ms) [] h = absurd h

-- A decoder as `init` returns it.
abbrev pub empty : ℕ → Decoder
empty maximum = record { max_message_size = maximum; buffer = [] }

-- Messages that `build_coap_tcp_message` has built under a decoder's limit, sent one after the other and
-- cut into chunks anywhere: the decoder returns them in order, each with its options sorted, and the end of the stream is accepted.
pub feed_all-Wires :
    (maximum : ℕ) (ms : List CoapTcpMessage) (ws chunks : List Bytes)
    → Wires maximum ms ws
    → concat chunks ≡ concat ws
    → (feed_all (empty maximum) chunks ≡ (empty maximum, ok (map sorted ms)))
      × (finish (empty maximum) ≡ (empty maximum, ok tt))
unfolding finish
feed_all-Wires maximum ms ws chunks h e = (
  feed_all-Frames maximum [] chunks (map sorted ms) [] (Pending-empty maximum)
      (rw e (Wires-Frames maximum ms ws h)),
  refl,
)
