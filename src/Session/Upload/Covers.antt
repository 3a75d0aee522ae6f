-- ===== src/Session/Upload/Covers.antt =====
-- An upload sends the body block by block, and says that it succeeded only after the whole of it.
use smart_things_local.Prelude.{
  ℕ, zero, suc, ◌+◌, ◌*◌, ◌/◌, ◌%◌, ◌^◌, ◌≤◌, ◌<◌, ◌≡◌, ◌≢◌, refl, sym, ap, ◌∙◌, Bool, true, false,
  not, ◌||◌, List, [], ◌∷◌, ◌++◌, arith, leb, ◌==◌, length, take, drop, length-take, length-drop,
  take-append-drop, Bool-cases, inl, inr,
}
use native.Mathlib.Nat.{pow-suc}
use smart_things_local.Prelude.Bytes.{Bytes}
use smart_things_local.Errors.{Error, Result, ok, err, blockwise, out_of_fuel, ◌>>=◌}
use smart_things_local.Coap.Options.{CoapOption}
use smart_things_local.Coap.Wire.{CoapMessage}
use smart_things_local.Coap.Block.{block_value, block_word}
use smart_things_local.Coap.Response.{is_empty}
use smart_things_local.Session.Blocks.{is_success}
use smart_things_local.Session.Upload.{
  continue_code, Chunk, Reply, proceed, finish, judge_continue, judge_more, judge_final, judge_last,
  judge, bit, Sent, conclude, send_chunk, upload_from, post_blockwise,
}

-- The chunks begin at the offset and follow one another through the bytes that are left; each is numbered for its
-- place in blocks of its size, is not empty, and says whether more bytes follow it.
abbrev pub Covers : ℕ → Bytes → List Chunk → Type 0
Covers offset rest [] = Unit
Covers offset rest (c ∷ cs) =
    (c.start ≡ offset)
    × (c.block_num * 2 ^ (c.szx + 4) ≡ offset)
    × (1 ≤ length c.payload)
    × (later : Bytes) × (c.payload ++ later ≡ rest)
    × (c.more ≡ not (is_empty later))
    × Covers (offset + length c.payload) later cs

abbrev pub joined : List Chunk → Bytes
joined [] = []
joined (c ∷ cs) = c.payload ++ joined cs

-- What was sent, and what it was for.
pub record Uploaded (count offset : ℕ) (rest : Bytes) (sent : Sent) : Type 0 where
  pub covers : Covers offset rest sent.0
  pub bounded : length sent.0 + count ≤ 1024
  pub whole :
      (code : ℕ) (payload : Bytes)
      → sent.1 ≡ ok (code, payload)
      → code / 32 ≡ 2
      → joined sent.0 ≡ rest
  pub ended : sent.1 ≢ err out_of_fuel

one_le_pow : (n : ℕ) → 1 ≤ 2 ^ n
one_le_pow zero = omega arith
one_le_pow (suc n) = omega (arith, one_le_pow n, pow-suc 2 n)

judge_continue_failure :
    (szx offset : ℕ) (values : List Bytes) → judge_continue szx offset values ≢ err out_of_fuel
unfolding judge_continue
judge_continue_failure szx offset [] e = ground arith
judge_continue_failure szx offset (v ∷ []) e = ground arith
judge_continue_failure szx offset (v ∷ w ∷ vs) e = ground arith

judge_final_failure :
    (szx : ℕ) (m : CoapMessage) (values : List Bytes) → judge_final szx m values ≢ err out_of_fuel
unfolding judge_final
judge_final_failure szx m [] e = ground arith
judge_final_failure szx m (v ∷ []) e = ground arith
judge_final_failure szx m (v ∷ w ∷ vs) e = ground arith

judge_failure :
    (more : Bool) (szx offset : ℕ) (m : CoapMessage) → judge more szx offset m ≢ err out_of_fuel
unfolding judge judge_more judge_last
judge_failure true szx offset m e = elim (Bool-cases (m.code == continue_code)) [
  | inl goes_on ↦ judge_continue_failure szx offset _ (rw goes_on at e)
  | inr other ↦ ground (arith, rw other at e)
]
judge_failure false szx offset m e = elim (Bool-cases (is_success m)) [
  | inr failed ↦ ground (arith, rw failed at e)
  | inl success ↦ elim (Bool-cases (m.code == continue_code)) [
    | inl goes_on ↦ ground (arith, rw (success, goes_on) at e)
    | inr final ↦ judge_final_failure szx m _ (rw (success, final) at e)
  ]
]

judge_continue-finish :
    (szx offset code : ℕ) (payload : Bytes) (values : List Bytes)
    → judge_continue szx offset values ≢ ok (finish code payload)
unfolding judge_continue
judge_continue-finish szx offset code payload [] e = ground arith
judge_continue-finish szx offset code payload (v ∷ []) e = ground arith
judge_continue-finish szx offset code payload (v ∷ w ∷ vs) e = ground arith

-- While more bytes follow, only a failure ends the upload.
judge_more-finish :
    (szx offset code : ℕ) (payload : Bytes) (m : CoapMessage)
    → judge true szx offset m ≡ ok (finish code payload)
    → code / 32 ≢ 2
unfolding judge judge_more
judge_more-finish szx offset code payload m e success =
    elim (Bool-cases (m.code == continue_code)) [
      | inl goes_on ↦ judge_continue-finish szx offset code payload _ (rw goes_on at e)
      | inr other ↦ ground (arith, rw other at e)
    ]

judged_failure :
    (answered : Result CoapMessage) (more : Bool) (szx offset : ℕ)
    → answered ≢ err out_of_fuel
    → (answered >>= judge more szx offset) ≢ err out_of_fuel
judged_failure (err e) more szx offset h k =
    let same : e ≡ out_of_fuel = ground arith in h (ap (λ (x : Error). err x) same)
judged_failure (ok m) more szx offset h k = judge_failure more szx offset m k

judged-finish :
    (answered : Result CoapMessage) (szx offset code : ℕ) (payload : Bytes)
    → (answered >>= judge true szx offset) ≡ ok (finish code payload)
    → code / 32 ≢ 2
judged-finish (err e) szx offset code payload h success = ground arith
judged-finish (ok m) szx offset code payload h success =
    judge_more-finish szx offset code payload m h success

block_value_failure : (num more szx : ℕ) → block_value num more szx ≢ err out_of_fuel
unfolding block_value block_word
block_value_failure num more szx e = ground arith

-- A chunk that begins the bytes that are left.
record Begins (offset : ℕ) (rest later : Bytes) (c : Chunk) : Type 0 where
  started : c.start ≡ offset
  placed : c.block_num * 2 ^ (c.szx + 4) ≡ offset
  some_payload : 1 ≤ length c.payload
  parts : c.payload ++ later ≡ rest
  flagged : c.more ≡ not (is_empty later)

Begins-Covers :
    (offset : ℕ) (rest later : Bytes) (c : Chunk) (cs : List Chunk)
    → Begins offset rest later c
    → Covers (offset + length c.payload) later cs
    → Covers offset rest (c ∷ cs)
Begins-Covers offset rest later c cs b h =
    (b.started, b.placed, b.some_payload, later, b.parts, b.flagged, h)

conclude-Uploaded :
    (count offset : ℕ) (rest later : Bytes) (c : Chunk) (reply : Result Reply) (next : ℕ → Sent)
    → count < 1024
    → Begins offset rest later c
    → reply ≢ err out_of_fuel
    → ((code : ℕ) (payload : Bytes) → reply ≡ ok (finish code payload) → code / 32 ≡ 2 → later ≡ [])
    → ((szx : ℕ) → Uploaded (count + 1) (offset + length c.payload) later (next szx))
    → Uploaded count offset rest (conclude c reply next)
unfolding conclude
conclude-Uploaded count offset rest later c (err e) next less b h k u = record {
  covers = Begins-Covers offset rest later c [] b tt;
  bounded = omega arith;
  whole = λ code payload e. absurd (ground arith);
  ended = λ e. h (ground arith);
}
conclude-Uploaded count offset rest later c (ok (finish code payload)) next less b h k u = record {
  covers = Begins-Covers offset rest later c [] b tt;
  bounded = omega arith;
  whole = λ code' payload' e success.
      let same : code ≡ code' = ground arith in
      let none_left : later ≡ [] = k code payload refl (rw same success) in
      ap (c.payload ++◌) (sym none_left) ∙ b.parts;
  ended = λ e. absurd (ground arith);
}
conclude-Uploaded count offset rest later c (ok (proceed szx)) next less b h k u =
    let v = u szx in
    let bound = v.bounded in
    record {
      covers = Begins-Covers offset rest later c (next szx).0 b v.covers;
      bounded = omega arith;
      whole =
          λ code payload e success. ap (c.payload ++◌) (v.whole code payload e success) ∙ b.parts;
      ended = v.ended;
    }

last_block :
    (later : Bytes) (answered : Result CoapMessage) (szx offset code : ℕ) (payload : Bytes)
    → (answered >>= judge (not (is_empty later)) szx offset) ≡ ok (finish code payload)
    → code / 32 ≡ 2
    → later ≡ []
last_block [] answered szx offset code payload e success = refl
last_block (b ∷ bs) answered szx offset code payload e success =
    absurd (judged-finish answered szx offset code payload e success)

module _ (answer : ℕ → Result CoapMessage) (base extra : List CoapOption) (total : ℕ)
    (answers : (n : ℕ) → answer n ≢ err out_of_fuel) where
  nothing_sent :
      (count offset : ℕ) (rest : Bytes) (e : Error)
      → count ≤ 1024
      → e ≢ out_of_fuel
      → Uploaded count offset rest ([], err e)
  nothing_sent count offset rest e less h = record {
    covers = tt;
    bounded = omega arith;
    whole = λ code payload k. absurd (ground arith);
    ended = λ k. h (ground arith);
  }

  send_chunk-Uploaded :
      (count offset szx : ℕ) (rest later payload : Bytes) (built : Result Bytes) (next : ℕ → Sent)
      → count < 1024
      → offset % 2 ^ (szx + 4) ≡ 0
      → 1 ≤ length payload
      → payload ++ later ≡ rest
      → built ≢ err out_of_fuel
      → ((szx' : ℕ) → Uploaded (count + 1) (offset + length payload) later (next szx'))
      → Uploaded count offset rest (
          send_chunk base extra total offset szx payload
            (not (is_empty later))
            (answer count)
            built
            next)
  unfolding send_chunk
  send_chunk-Uploaded count offset szx rest later payload (err e) next less aligned some_bytes parts
        h u =
      nothing_sent count offset rest e (omega arith) (λ k. h (ap (λ (x : Error). err x) k))
  send_chunk-Uploaded count offset szx rest later payload (ok value) next less aligned some_bytes
        parts h u =
      conclude-Uploaded count offset rest later _ _ next less
        (record {
          started = refl;
          placed = omega arith;
          some_payload = some_bytes;
          parts = parts;
          flagged = refl;
        })
        (judged_failure (answer count) (not (is_empty later)) szx offset (answers count))
        (λ code answered e success.
          last_block later (answer count) szx offset code answered e success)
        u

  upload_from-Uploaded :
      (fuel count offset szx : ℕ) (rest : Bytes)
      → count ≤ 1024
      → length rest ≤ fuel
      → Uploaded count offset rest (upload_from answer base extra total fuel count offset szx rest)
  unfolding upload_from
  upload_from-Uploaded fuel count offset szx [] less enough =
      nothing_sent count offset [] blockwise less (λ e. ground arith)
  upload_from-Uploaded zero count offset szx (b ∷ bs) less enough = absurd (omega arith)
  upload_from-Uploaded (suc fuel) count offset szx (b ∷ bs) less enough =
      let size = 2 ^ (szx + 4) in
      let rest = b ∷ bs in
      let positive : 1 ≤ size = one_le_pow (szx + 4) in
      let taken = length-take size rest in
      let left = length-drop size rest in
      elim (Bool-cases (not (offset % size == 0) || leb 1024 count)) [
        | inl refused ↦
            rw refused (nothing_sent count offset rest blockwise less (λ e. ground arith))
        | inr goes_on ↦ rw goes_on (
            send_chunk-Uploaded count offset szx rest (drop size rest) (take size rest) _ _
              (ground arith) (ground arith) (omega arith) (take-append-drop size rest)
              (block_value_failure (offset / size) (bit (not (is_empty (drop size rest)))) szx)
              (λ szx'.
                upload_from-Uploaded fuel (count + 1) (offset + length (take size rest)) szx'
                  (drop size rest) (ground arith) (omega arith)))
      ]

-- An upload, whatever is answered: the requests carry the body from its beginning, one block after the other, at most 1024 of
-- them, and the call ends; and it returns a success code only where they have carried the whole body.
pub post_blockwise-Uploaded :
    (answer : ℕ → Result CoapMessage) (base extra : List CoapOption) (body : Bytes)
    → ((n : ℕ) → answer n ≢ err out_of_fuel)
    → Uploaded 0 0 body (post_blockwise answer base extra body)
unfolding post_blockwise
post_blockwise-Uploaded answer base extra body answers =
    upload_from-Uploaded answer base extra (length body) answers (length body) 0 0 6 body
      (omega arith) (omega arith)
