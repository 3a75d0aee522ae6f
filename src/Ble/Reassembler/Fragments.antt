-- ===== src/Ble/Reassembler/Fragments.antt =====
-- The frames of one PDU, fed to a reassembler of the frame size that they were cut for.
use smart_things_local.Prelude.{
  ℕ, zero, suc, ◌+◌, ◌-◌, ◌≤◌, ◌<◌, ◌≡◌, refl, ap, sym, ◌∙◌, Bool, true, false, List, [], ◌∷◌, ◌++◌,
  Option, none, some, arith, length, take, drop, min, Bool-cases, inl, inr, ltb, append_assoc,
  length-append, length-take, length-drop, take-append-drop, take_all,
}
use smart_things_local.Prelude.Bytes.{Bytes, pack32, from_bytes}
use smart_things_local.Errors.{ok}
use smart_things_local.Ble.Frame.{
  BleOcfPdu, coerce_bytes, header_of, continuation_frames, fragment_valid, fragment_pdu,
}
use smart_things_local.Ble.Frame.Sendable.{
  Sendable, header_bytes, encode_header-header_of, decode_header-header_bytes,
  fragment_pdu-fragment_valid,
}
use smart_things_local.Ble.Reassembler.{
  Reassembler, idle, completed, feed, feed_frame, feed_header, in_progress, start_frame,
  start_payload, continue_frame, continue_payload, is_foreign, bool_eq,
}

-- A reassembler that holds the beginning of a PDU.
abbrev pub holding : ℕ → ℕ → BleOcfPdu → Bytes → Reassembler
holding mtu max_pdu_size p buffer = record {
  mtu = mtu;
  max_pdu_size = max_pdu_size;
  header = some (header_of p true);
  expected_length = length p.pdu;
  buffer = buffer;
}

-- Frames within the frame size that make up one PDU, which the last of them completes.
pub data Reassembles (mtu max_pdu_size : ℕ) (p : BleOcfPdu)
    : Reassembler → List Bytes → Type 0 where
  last :
      {r : Reassembler} {f : Bytes}
      → length f ≤ mtu
      → feed r f ≡ (idle mtu max_pdu_size, ok (some p))
      → Reassembles mtu max_pdu_size p r (f ∷ [])
  next :
      {r r' : Reassembler} {f : Bytes} {fs : List Bytes}
      → length f ≤ mtu
      → feed r f ≡ (r', ok none)
      → Reassembles mtu max_pdu_size p r' fs
      → Reassembles mtu max_pdu_size p r (f ∷ fs)

bool_eq_refl : (b : Bool) → bool_eq b b ≡ true
bool_eq_refl true = refl
bool_eq_refl false = refl

drop_all : {A : Type 0} (n : ℕ) (xs : List A) → length xs ≤ n → drop n xs ≡ []
drop_all zero [] h = refl
drop_all zero (x ∷ xs) h = absurd (omega arith)
drop_all (suc n) [] h = refl
drop_all (suc n) (x ∷ xs) h = drop_all n xs (omega arith)

from_bytes-pack32 : (v : ℕ) → v ≤ 0xffffffff → from_bytes (pack32 v) ≡ v
from_bytes-pack32 v h = omega arith

abbrev first_payload : ℕ → BleOcfPdu → Bytes
first_payload mtu p = take (min (length p.pdu) (mtu - 6)) p.pdu

abbrev pub first_frame : ℕ → BleOcfPdu → Bytes
first_frame mtu p = header_bytes (header_of p true) ++ pack32 (length p.pdu) ++ first_payload mtu p

feed_ok :
    (r : Reassembler) (f : Bytes) {r' : Reassembler} {o : Option BleOcfPdu}
    → feed_frame r f ≡ ok (r', o)
    → feed r f ≡ (r', ok o)
unfolding feed
feed_ok r f e = ground (arith, e)

no_frames :
    (fuel capacity : ℕ) (header : Bytes) → continuation_frames fuel capacity header [] ≡ ok []
unfolding continuation_frames
no_frames zero capacity header = refl
no_frames (suc fuel) capacity header = refl

module _ (mtu max_pdu_size : ℕ) (p : BleOcfPdu) (s : Sendable mtu max_pdu_size p) where
  feed_frame-continue :
      (buffer payload : Bytes)
      → length payload + 2 ≤ mtu
      → feed_frame (holding mtu max_pdu_size p buffer) (header_bytes (header_of p false) ++ payload)
        ≡ continue_payload (holding mtu max_pdu_size p buffer) (header_of p true) payload
  unfolding feed_frame feed_header continue_frame is_foreign coerce_bytes
  feed_frame-continue buffer payload h =
      ground (
        arith,
        decode_header-header_bytes mtu max_pdu_size p s false payload,
        bool_eq_refl p.secure,
      )

  feed_frame-start :
      (payload : Bytes)
      → length payload + 6 ≤ mtu
      → feed_frame
          (idle mtu max_pdu_size)
          (header_bytes (header_of p true) ++ pack32 (length p.pdu) ++ payload)
        ≡ start_payload (idle mtu max_pdu_size) (header_of p true) (length p.pdu) payload
  unfolding feed_frame feed_header start_frame in_progress coerce_bytes
  feed_frame-start payload h =
      let h1 = s.pdu_some in
      let h2 = s.pdu_fits in
      let h3 = s.bound_fits in
      ground (
        arith,
        decode_header-header_bytes mtu max_pdu_size p s true (pack32 (length p.pdu) ++ payload),
        from_bytes-pack32 (length p.pdu) (omega arith),
      )

  completed-pdu : (pdu : Bytes) → p.pdu ≡ pdu → completed (header_of p true) pdu ≡ p
  completed-pdu pdu e = rw (sym e) refl

  feed-last :
      (buffer payload : Bytes)
      → length payload + 2 ≤ mtu
      → p.pdu ≡ buffer ++ payload
      → feed (holding mtu max_pdu_size p buffer) (header_bytes (header_of p false) ++ payload)
        ≡ (idle mtu max_pdu_size, ok (some p))
  unfolding continue_payload
  feed-last buffer payload h e =
      let size = ap length e in
      feed_ok _ _ (
        feed_frame-continue buffer payload h
        ∙ ground (arith, length-append buffer payload, completed-pdu (buffer ++ payload) e))

  feed-next :
      (buffer payload : Bytes)
      → length payload + 2 ≡ mtu
      → length buffer + length payload < length p.pdu
      → feed (holding mtu max_pdu_size p buffer) (header_bytes (header_of p false) ++ payload)
        ≡ (holding mtu max_pdu_size p (buffer ++ payload), ok none)
  unfolding continue_payload
  feed-next buffer payload h less = feed_ok _ _ (
      feed_frame-continue buffer payload (omega arith)
      ∙ ground (arith, length-append buffer payload))

  frame_fits :
      (payload : Bytes)
      → length payload + 2 ≤ mtu
      → length (header_bytes (header_of p false) ++ payload) ≤ mtu
  frame_fits payload h = omega arith

  continuation_frames-Reassembles :
      (fuel : ℕ) (buffer rest : Bytes)
      → p.pdu ≡ buffer ++ rest
      → length rest ≤ fuel
      → 1 ≤ length rest
      → (fs : List Bytes) × (continuation_frames fuel
            (mtu - 2)
            (header_bytes (header_of p false))
            rest
          ≡ ok fs)
        × Reassembles mtu max_pdu_size p (holding mtu max_pdu_size p buffer) fs
  unfolding continuation_frames
  continuation_frames-Reassembles fuel buffer [] e h some_left = absurd (omega arith)
  continuation_frames-Reassembles zero buffer (b ∷ bs) e h some_left = absurd (omega arith)
  continuation_frames-Reassembles (suc fuel) buffer (b ∷ bs) e h some_left =
      let rest = b ∷ bs in
      let chunk = take (mtu - 2) rest in
      let whole = length-take (mtu - 2) rest in
      let room = s.room in
      let size = ap length e ∙ length-append buffer rest in
      let parts : p.pdu ≡ (buffer ++ chunk) ++ drop (mtu - 2) rest =
        e
        ∙ ap (buffer ++◌) (sym (take-append-drop (mtu - 2) rest))
        ∙ sym (append_assoc buffer chunk (drop (mtu - 2) rest)) in
      elim (Bool-cases (ltb (mtu - 2) (length rest))) [
        | inl more ↦
            let left = length-drop (mtu - 2) rest in
            let (fs, built, feeds) =
              continuation_frames-Reassembles fuel (buffer ++ chunk) (drop (mtu - 2) rest) parts
                (ground arith) (ground arith) in
            (
              (header_bytes (header_of p false) ++ chunk) ∷ fs,
              rw built refl,
              next (ground arith) (feed-next buffer chunk (ground arith) (ground arith)) feeds,
            )
        | inr done ↦
            let gone : drop (mtu - 2) rest ≡ [] = drop_all (mtu - 2) rest (ground arith) in
            let all : chunk ≡ rest = take_all (mtu - 2) rest (ground arith) in
            (
              (header_bytes (header_of p false) ++ chunk) ∷ [],
              rw gone (ground (arith, no_frames fuel (mtu - 2) (header_bytes (header_of p false)))),
              last (ground arith)
                  (feed-last buffer chunk (ground arith) (e ∙ ap (buffer ++◌) (sym all))),
            )
      ]

  -- The first frame, and the others.
  fragment_pdu_parts :
      (fs : List Bytes)
      → continuation_frames
          (length p.pdu)
          (mtu - 2)
          (header_bytes (header_of p false))
          (drop (min (length p.pdu) (mtu - 6)) p.pdu)
        ≡ ok fs
      → fragment_pdu p mtu max_pdu_size ≡ ok (first_frame mtu p ∷ fs)
  unfolding fragment_valid
  fragment_pdu_parts fs built =
      let whole = encode_header-header_of mtu max_pdu_size p s true in
      let others = encode_header-header_of mtu max_pdu_size p s false in
      fragment_pdu-fragment_valid mtu max_pdu_size p s ∙ rw (whole, others, built) refl

  -- What `fragment_pdu` returns is reassembled.
  pub fragment_pdu-Reassembles :
      (fs : List Bytes) × (fragment_pdu p mtu max_pdu_size ≡ ok (first_frame mtu p ∷ fs))
      × Reassembles mtu max_pdu_size p (idle mtu max_pdu_size) (first_frame mtu p ∷ fs)
  unfolding start_payload
  fragment_pdu-Reassembles =
      let n = min (length p.pdu) (mtu - 6) in
      let payload = take n p.pdu in
      let rest = drop n p.pdu in
      let room = s.room in
      let some_pdu = s.pdu_some in
      let whole = length-take n p.pdu in
      let left = length-drop n p.pdu in
      elim (Bool-cases (ltb (mtu - 6) (length p.pdu))) [
        | inl more ↦
            let (fs, built, feeds) =
              continuation_frames-Reassembles (length p.pdu) payload rest
                (sym (take-append-drop n p.pdu)) (omega arith) (ground arith) in
            (
              fs,
              fragment_pdu_parts fs built,
              next (omega arith)
                  (feed_ok _ _ (feed_frame-start payload (omega arith) ∙ ground (arith, whole)))
                  feeds,
            )
        | inr done ↦
            let gone : rest ≡ [] = drop_all n p.pdu (ground arith) in
            let all : payload ≡ p.pdu = take_all n p.pdu (ground arith) in
            (
              [],
              fragment_pdu_parts []
                  (rw gone (no_frames (length p.pdu) (mtu - 2) (header_bytes (header_of p false)))),
              last (omega arith) (
                  feed_ok _ _ (
                    feed_frame-start payload (omega arith)
                    ∙ ground (arith, whole, completed-pdu payload (sym all)))),
            )
      ]

  -- A PDU that fits one frame is cut in the same way for the size of that frame.
  pub fragment_pdu_fitted :
      length p.pdu + 6 ≤ mtu
      → (fragment_pdu p mtu max_pdu_size ≡ ok (first_frame mtu p ∷ []))
        × (first_frame mtu p ≡ first_frame (length p.pdu + 6) p)
  fragment_pdu_fitted fits =
      let n = min (length p.pdu) (mtu - 6) in
      let gone : drop n p.pdu ≡ [] = drop_all n p.pdu (omega arith) in
      (
        fragment_pdu_parts []
            (rw gone (no_frames (length p.pdu) (mtu - 2) (header_bytes (header_of p false)))),
        ap (λ (k : ℕ). header_bytes (header_of p true) ++ pack32 (length p.pdu) ++ take k p.pdu)
            (omega arith),
      )
