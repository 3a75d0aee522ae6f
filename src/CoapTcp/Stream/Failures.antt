-- ===== src/CoapTcp/Stream/Failures.antt =====
-- Malformed streams: the only failure, and the buffer between calls.
use smart_things_local.Prelude.{
  ℕ, zero, suc, ◌-◌, ◌≤◌, ◌<◌, ◌≡◌, refl, ◌∙◌, inl, inr, List, [], ◌∷◌, ◌++◌, none, some, arith,
  ltb, length, take, drop, min, length-drop, All-append, All-take, All-drop, Bool-cases,
}
use smart_things_local.Prelude.Bytes.{Bytes, IsByte, IsBytes}
use smart_things_local.Errors.{Result, Error, ok, err, codec_error, ◌>>=◌, Result-cases}
use smart_things_local.CoapTcp.Frame.{
  CoapTcpMessage, frame_size_from_prefix, parse_coap_tcp_message,
}
use smart_things_local.CoapTcp.Frame.Failures.{parse_coap_tcp_message_failure}
use smart_things_local.CoapTcp.Stream.{Decoder, feed_loop, feed, emit, reset, buffered_bytes}
use smart_things_local.CoapTcp.Stream.Prefix.{
  frame_size_failure, frame_size_positive, frame_size-append,
}
use smart_things_local.CoapTcp.Stream.Whole.{feed-ok}
use smart_things_local.CoapTcp.Stream.Chunks.{Pending, Pending-empty, Pending-snoc}

-- A result of the loop: a buffer without a whole frame, or the codec's error.
abbrev Sound : ℕ → Result (List CoapTcpMessage × Bytes) → Type 0
Sound maximum (ok r) = Pending maximum r.1 × IsBytes r.1
Sound maximum (err e) = e ≡ codec_error

emit-Sound :
    (maximum : ℕ) (m : CoapTcpMessage) (r : Result (List CoapTcpMessage × Bytes))
    → Sound maximum r
    → Sound maximum (emit m r)
emit-Sound maximum m (ok r) h = h
emit-Sound maximum m (err e) h = h

parse-Sound :
    (maximum : ℕ) (frame : Bytes) (later : Result (List CoapTcpMessage × Bytes))
    → IsBytes frame
    → Sound maximum later
    → Sound maximum (parse_coap_tcp_message frame maximum >>= λ m. emit m later)
parse-Sound maximum frame later bytes h =
    elim (Result-cases (parse_coap_tcp_message frame maximum)) [
      | inl (m, e) ↦ rw e (emit-Sound maximum m later h)
      | inr (x, e) ↦ rw e (parse_coap_tcp_message_failure frame maximum x bytes e)
    ]

short-Pending :
    (maximum n : ℕ) (bs : Bytes)
    → frame_size_from_prefix bs maximum ≡ ok (some n)
    → length bs < n
    → Pending maximum bs
short-Pending maximum n bs e lt k h = ground arith

none-Pending :
    (maximum : ℕ) (bs : Bytes) → frame_size_from_prefix bs maximum ≡ ok none → Pending maximum bs
none-Pending maximum bs e k h = ground arith

-- What the loop does once the size of the frame in the chunk is known.
direct-Sound :
    (fuel maximum c : ℕ) (cs : Bytes)
    → IsBytes (c ∷ cs)
    → ((n : ℕ) → 0 < n → Sound maximum (feed_loop fuel maximum [] (drop n (c ∷ cs))))
    → Sound maximum (feed_loop (suc fuel) maximum [] (c ∷ cs))
unfolding feed_loop
direct-Sound fuel maximum c cs bytes later =
    elim (Result-cases (frame_size_from_prefix (c ∷ cs) maximum)) [
      | inr (x, e) ↦ rw e (frame_size_failure (c ∷ cs) maximum x e)
      | inl (none, e) ↦ rw e (none-Pending maximum (c ∷ cs) e, bytes)
      | inl (some n, e) ↦ elim (Bool-cases (ltb (length (c ∷ cs)) n)) [
        | inl short ↦ rw (e, short) (short-Pending maximum n (c ∷ cs) e (ground arith), bytes)
        | inr whole ↦
            rw (e, whole)
              (parse-Sound maximum (take n (c ∷ cs)) _ (All-take IsByte n (c ∷ cs) bytes)
                (later n (frame_size_positive (c ∷ cs) maximum n e)))
      ]
    ]

-- What it does once the size of the frame in the buffer is known.
filled-Sound :
    (fuel maximum n b c : ℕ) (bs cs : Bytes)
    → IsBytes (b ∷ bs)
    → IsBytes (c ∷ cs)
    → frame_size_from_prefix (b ∷ bs) maximum ≡ ok (some n)
    → length (b ∷ bs) < n
    → ((k : ℕ) → 0 < k → Sound maximum (feed_loop fuel maximum [] (drop k (c ∷ cs))))
    → Sound maximum (feed_loop (suc fuel) maximum (b ∷ bs) (c ∷ cs))
unfolding feed_loop
filled-Sound fuel maximum n b c bs cs bytes bytes' e lt later =
    let taken = min (n - length (b ∷ bs)) (length (c ∷ cs)) in
    let frame = b ∷ (bs ++ take taken (c ∷ cs)) in
    let frame_bytes : IsBytes frame =
      All-append IsByte (b ∷ bs) (take taken (c ∷ cs)) bytes
        (All-take IsByte taken (c ∷ cs) bytes') in
    elim (Bool-cases (ltb (length frame) n)) [
      | inl short ↦
          rw (e, short)
            (
              short-Pending maximum n frame
                  (frame_size-append (b ∷ bs) (take taken (c ∷ cs)) maximum (λ h. ground arith) ∙ e)
                  (ground arith),
              frame_bytes,
            )
      | inr whole ↦
          rw (e, whole) (parse-Sound maximum frame _ frame_bytes (later taken (omega arith)))
    ]

feed_loop-Sound :
    (fuel maximum : ℕ) (buffer chunk : Bytes)
    → Pending maximum buffer
    → IsBytes buffer
    → IsBytes chunk
    → length chunk ≤ fuel
    → Sound maximum (feed_loop fuel maximum buffer chunk)
unfolding feed_loop
feed_loop-Sound fuel maximum buffer [] p bytes bytes' len = (p, bytes)
feed_loop-Sound zero maximum buffer (c ∷ cs) p bytes bytes' len = absurd (omega arith)
feed_loop-Sound (suc fuel) maximum [] (c ∷ cs) p bytes bytes' len =
    direct-Sound fuel maximum c cs bytes' (λ n pos.
      feed_loop-Sound fuel maximum [] (drop n (c ∷ cs)) (Pending-empty maximum) tt
        (All-drop IsByte n (c ∷ cs) bytes') (omega (arith, length-drop n (c ∷ cs))))
feed_loop-Sound (suc fuel) maximum (b ∷ bs) (c ∷ cs) p bytes bytes' len =
    elim (Result-cases (frame_size_from_prefix (b ∷ bs) maximum)) [
      | inr (x, e) ↦ rw e (frame_size_failure (b ∷ bs) maximum x e)
      | inl (none, e) ↦ rw e (
          feed_loop-Sound fuel maximum (b ∷ (bs ++ (c ∷ []))) cs (Pending-snoc maximum b c bs e)
            (All-append IsByte (b ∷ bs) (c ∷ []) bytes (bytes'.0, tt)) bytes'.1 (omega arith))
      | inl (some n, e) ↦ filled-Sound fuel maximum n b c bs cs bytes bytes' e (p n e) (λ k pos.
          feed_loop-Sound fuel maximum [] (drop k (c ∷ cs)) (Pending-empty maximum) tt
            (All-drop IsByte k (c ∷ cs) bytes') (omega (arith, length-drop k (c ∷ cs))))
    ]

feed-err :
    (d : Decoder) (chunk : Bytes) (e : Error)
    → feed_loop (length chunk) d.max_message_size d.buffer chunk ≡ err e
    → feed d chunk ≡ (record d { buffer = [] }, err e)
unfolding feed reset
feed-err d chunk e h = ground arith

-- Between two calls the buffer is made of bytes, and no frame in it is whole.
pub record IsOpen (d : Decoder) : Type 0 where
  pub pending : Pending d.max_message_size d.buffer
  pub bytes : IsBytes d.buffer

-- What a call of `feed` leaves and returns: the limit stands, the buffer still holds no whole frame,
-- and a failure is `CoapTcpCodecError` and has emptied the buffer.
pub feed-IsOpen :
    (d : Decoder) (chunk : Bytes)
    → IsOpen d
    → IsBytes chunk
    → IsOpen (feed d chunk).0
      × ((feed d chunk).0.max_message_size ≡ d.max_message_size)
      × ((e : Error)
          → (feed d chunk).1 ≡ err e
          → (e ≡ codec_error) × (buffered_bytes (feed d chunk).0 ≡ 0))
unfolding buffered_bytes
feed-IsOpen d chunk o bytes =
    let sound =
      feed_loop-Sound (length chunk) d.max_message_size d.buffer chunk o.pending o.bytes bytes
        (omega arith) in
    elim (Result-cases (feed_loop (length chunk) d.max_message_size d.buffer chunk)) [
      | inl (r, e) ↦
          let s = rw e at sound in
          rw (feed-ok d chunk r.1 r.0 e)
            (record { pending = s.0; bytes = s.1 }, refl, λ x h. absurd (ground arith))
      | inr (x, e) ↦
          let s : x ≡ codec_error = rw e at sound in
          rw (feed-err d chunk x e) (
            record { pending = Pending-empty d.max_message_size; bytes = tt },
            refl,
            λ y h. (ground arith, refl),
          )
    ]
