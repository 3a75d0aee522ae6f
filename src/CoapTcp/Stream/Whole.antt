-- ===== src/CoapTcp/Stream/Whole.antt =====
-- The messages that the stream decoder returns do not depend on the chunks.
use smart_things_local.Prelude.{
  ℕ, ◌≤◌, ◌≡◌, refl, ap, ◌∙◌, inl, inr, List, [], ◌∷◌, ◌++◌, some, arith, leb, Bool-cases, length,
  take, drop, length-append, take-append_le, drop-append_le, append-nil, append_assoc,
}
use smart_things_local.Prelude.Bytes.{Bytes}
use smart_things_local.Errors.{Result, ok, err, ◌>>=◌}
use smart_things_local.CoapTcp.Frame.{
  CoapTcpMessage, frame_size_from_prefix, parse_coap_tcp_message,
}
use smart_things_local.CoapTcp.Stream.{Decoder, feed_loop, feed}
use smart_things_local.CoapTcp.Stream.Prefix.{frame_size-append}
use smart_things_local.CoapTcp.Stream.Chunks.{
  Stopped, Frames, Pending, Stopped-Pending, feed_loop-Agrees, frame_size-cases, Frames-Stopped,
}

-- The chunks one after the other, as long as no error stops the reader.
abbrev pub feed_all : Decoder → List Bytes → Decoder × Result (List CoapTcpMessage)
feed_all d [] = (d, ok [])
feed_all d (chunk ∷ chunks) =
    let (d', r) = feed d chunk in
    elim r [
      | err e ↦ (d', err e)
      | ok ms ↦ let later = feed_all d' chunks in (later.0, later.1 >>= λ ms'. ok (ms ++ ms'))
    ]

abbrev pub concat : List Bytes → Bytes
concat [] = []
concat (chunk ∷ chunks) = chunk ++ concat chunks

-- A description of the whole, cut in two.
pub record Cut (maximum : ℕ) (a b : Bytes) (ms : List CoapTcpMessage) (rest : Bytes) : Type 0 where
  pub before : List CoapTcpMessage
  pub buffer : Bytes
  pub after : List CoapTcpMessage
  pub first : Frames maximum a before buffer
  pub second : Frames maximum (buffer ++ b) after rest
  pub whole : ms ≡ before ++ after

here-Cut :
    (maximum : ℕ) (a b : Bytes) (ms : List CoapTcpMessage) (rest : Bytes)
    → Stopped maximum a
    → Frames maximum (a ++ b) ms rest
    → Cut maximum a b ms rest
here-Cut maximum a b ms rest s h = record {
  before = [];
  buffer = a;
  after = ms;
  first = (refl, s);
  second = h;
  whole = refl;
}

nothing_later :
    (maximum n : ℕ) (a b : Bytes)
    → frame_size_from_prefix a maximum ≡ ok (some n)
    → n ≤ length a
    → ¬ Stopped maximum (a ++ b)
nothing_later maximum n a b s le stop =
    let whole = frame_size-append a b maximum (λ none. ground arith) ∙ s in
    absurd (omega (arith, length-append a b, Stopped-Pending maximum (a ++ b) stop n whole))

later-Cut :
    (maximum n : ℕ) (a b : Bytes) (m : CoapTcpMessage) (ms : List CoapTcpMessage) (rest : Bytes)
    → n ≤ length a
    → frame_size_from_prefix a maximum ≡ ok (some n)
    → parse_coap_tcp_message (take n a) maximum ≡ ok m
    → Cut maximum (drop n a) b ms rest
    → Cut maximum a b (m ∷ ms) rest
later-Cut maximum n a b m ms rest le s p c = record {
  before = m ∷ c.before;
  buffer = c.buffer;
  after = c.after;
  first = (n, s, le, p, c.first);
  second = c.second;
  whole = ap (◌∷◌ m) c.whole;
}

pub Frames-append :
    (maximum : ℕ) (a b : Bytes) (ms : List CoapTcpMessage) (rest : Bytes)
    → Frames maximum (a ++ b) ms rest
    → Cut maximum a b ms rest
Frames-append maximum a b [] rest h = elim (frame_size-cases maximum a b [] rest h) [
  | inl e ↦ here-Cut maximum a b [] rest (inl e) h
  | inr (n, e) ↦ elim (Bool-cases (leb n (length a))) [
    | inl le ↦ absurd (nothing_later maximum n a b e (ground arith) h.1)
    | inr gt ↦ here-Cut maximum a b [] rest (inr (n, e, ground arith)) h
  ]
]
Frames-append maximum a b (m ∷ ms) rest (k, s, l, p, h) =
    elim (frame_size-cases maximum a b (m ∷ ms) rest (k, s, l, p, h)) [
      | inl e ↦ here-Cut maximum a b (m ∷ ms) rest (inl e) (k, s, l, p, h)
      | inr (n, e) ↦
          let same : k ≡ n = ground (arith, frame_size-append a b maximum (λ none. ground arith)) in
          elim (Bool-cases (leb n (length a))) [
            | inl true_le ↦
                let le : n ≤ length a = ground arith in
                later-Cut maximum n a b m ms rest le e
                  (rw (take-append_le n a b le) at (rw same at p))
                  (Frames-append maximum (drop n a) b ms rest
                    (rw (drop-append_le n a b le) at (rw same at h)))
            | inr gt ↦ here-Cut maximum a b (m ∷ ms) rest (inr (n, e, ground arith)) (k, s, l, p, h)
          ]
    ]

pub feed-ok :
    (d : Decoder) (chunk rest : Bytes) (ms : List CoapTcpMessage)
    → feed_loop (length chunk) d.max_message_size d.buffer chunk ≡ ok (ms, rest)
    → feed d chunk ≡ (record d { buffer = rest }, ok ms)
unfolding feed
feed-ok d chunk rest ms h = ground arith

feed_all_step :
    (d d' d'' : Decoder) (chunk : Bytes) (chunks : List Bytes) (ms ms' : List CoapTcpMessage)
    → feed d chunk ≡ (d', ok ms)
    → feed_all d' chunks ≡ (d'', ok ms')
    → feed_all d (chunk ∷ chunks) ≡ (d'', ok (ms ++ ms'))
feed_all_step d d' d'' chunk chunks ms ms' h k = ground arith

-- Feeding one chunk to a decoder whose buffer holds no whole frame.
feed-Frames :
    (maximum : ℕ) (buffer chunk : Bytes) (ms : List CoapTcpMessage) (rest : Bytes)
    → Pending maximum buffer
    → Frames maximum (buffer ++ chunk) ms rest
    → feed (record { max_message_size = maximum; buffer = buffer }) chunk
      ≡ (record { max_message_size = maximum; buffer = rest }, ok ms)
feed-Frames maximum buffer chunk ms rest p h =
    feed-ok (record { max_message_size = maximum; buffer = buffer }) chunk rest ms
      (feed_loop-Agrees (length chunk) maximum buffer chunk p (omega arith) ms rest h)

-- A stream that consists of the frames of some messages and an unfinished rest: whatever the chunks that it arrives in,
-- the decoder returns exactly these messages, in their order and without an error, and buffers exactly
-- the rest.
pub feed_all-Frames :
    (maximum : ℕ) (buffer : Bytes) (chunks : List Bytes) (ms : List CoapTcpMessage) (rest : Bytes)
    → Pending maximum buffer
    → Frames maximum (buffer ++ concat chunks) ms rest
    → feed_all (record { max_message_size = maximum; buffer = buffer }) chunks
      ≡ (record { max_message_size = maximum; buffer = rest }, ok ms)
feed_all-Frames maximum buffer [] [] rest p (e, stop) = rw (e, append-nil) refl
feed_all-Frames maximum buffer [] (m ∷ ms) rest p (n, s, le, _, _) =
    let short = p n (rw append-nil at s) in absurd (omega (arith, length-append buffer []))
feed_all-Frames maximum buffer (chunk ∷ chunks) ms rest p h =
    let c =
      Frames-append maximum (buffer ++ chunk) (concat chunks) ms rest
        (rw (append_assoc buffer chunk (concat chunks)) h) in
    let stop = Frames-Stopped maximum (buffer ++ chunk) c.before c.buffer c.first in
    let later =
      feed_all-Frames maximum c.buffer chunks c.after rest (Stopped-Pending maximum c.buffer stop)
        c.second in
    rw c.whole (
      feed_all_step _ _ _ chunk chunks c.before c.after
        (feed-Frames maximum buffer chunk c.before c.buffer p c.first) later)
