-- ===== src/Coap/Flight/Records.antt =====
-- The records of a buffer are those that it is put together from.
use smart_things_local.Prelude.{
  ℕ, zero, suc, ◌+◌, ◌≤◌, ◌<◌, ◌≡◌, refl, sym, ap, ◌∙◌, ◌⊎◌, inl, inr, List, [], ◌∷◌, ◌++◌, arith,
  ltb, length, take, drop, All, append_assoc, length-append, length-drop, length-take,
  take-append-drop, take-append_le, drop-append_le, take-append_exact, drop-append_exact,
  Bool-cases,
}
use smart_things_local.Prelude.Bytes.{Bytes, from_bytes}
use smart_things_local.Coap.Flight.{record_size, split_records, split_dtls}

-- A whole record, and bytes that hold none.
abbrev pub IsRecord : Bytes → Type 0
IsRecord r = (13 ≤ length r) × (length r ≡ record_size r)

abbrev pub IsPartial : Bytes → Type 0
IsPartial rest = (length rest < 13) ⊎ (length rest < record_size rest)

abbrev pub concat : List Bytes → Bytes
concat [] = []
concat (r ∷ rs) = r ++ concat rs

-- The size is in the first bytes.
record_size-append : (r more : Bytes) → 13 ≤ length r → record_size (r ++ more) ≡ record_size r
unfolding record_size
record_size-append r more le =
    let tail = drop 11 r in
    let longer : 2 ≤ length tail = omega (arith, length-drop 11 r) in
    ap (λ (x : Bytes). 13 + from_bytes (take 2 x)) (drop-append_le 11 r more (omega arith))
    ∙ ap (λ (x : Bytes). 13 + from_bytes x) (take-append_le 2 tail more longer)

record_size_min : (buf : Bytes) → 13 ≤ record_size buf
unfolding record_size
record_size_min buf = omega arith

first-IsRecord :
    (buf : Bytes) → record_size buf ≤ length buf → IsRecord (take (record_size buf) buf)
first-IsRecord buf le =
    let n = record_size buf in
    let size : length (take n buf) ≡ n = omega (arith, length-take n buf) in
    let same : record_size (take n buf ++ drop n buf) ≡ record_size (take n buf) =
      record_size-append (take n buf) (drop n buf) (omega (arith, record_size_min buf)) in
    (
      omega (arith, record_size_min buf),
      size ∙ sym (ap record_size (take-append-drop n buf)) ∙ same,
    )

module _ (fuel : ℕ) (buf : Bytes) where
  record_step :
      13 ≤ length buf
      → record_size buf ≤ length buf
      → split_records (suc fuel) buf
        ≡ take (record_size buf) buf ∷ split_records fuel (drop (record_size buf) buf)
  unfolding split_records
  record_step h k = ground arith

  partial_step : IsPartial buf → split_records (suc fuel) buf ≡ []
  unfolding split_records
  partial_step h = ground arith

split_records-concat :
    (rs : List Bytes) (rest : Bytes) (fuel : ℕ)
    → All IsRecord rs
    → IsPartial rest
    → length (concat rs ++ rest) ≤ fuel
    → split_records fuel (concat rs ++ rest) ≡ rs
unfolding split_records
split_records-concat [] rest zero h p len = refl
split_records-concat [] rest (suc fuel) h p len = partial_step fuel rest p
split_records-concat (r ∷ rs) rest zero h p len =
    absurd (omega (arith, h.0.0, length-append (r ++ concat rs) rest, length-append r (concat rs)))
split_records-concat (r ∷ rs) rest (suc fuel) h p len =
    let more = concat rs ++ rest in
    let whole : (r ++ concat rs) ++ rest ≡ r ++ more = append_assoc r (concat rs) rest in
    let size = length-append r more in
    let same = record_size-append r more h.0.0 in
    let left = rw whole at len in
    rw whole (
      record_step fuel (r ++ more) (omega (arith, h.0.0)) (omega (arith, h.0.1, same))
      ∙ rw
          (
            same,
            take-append_exact (record_size r) r more (sym h.0.1),
            drop-append_exact (record_size r) r more (sym h.0.1),
          )
          (ap (◌∷◌ r) (split_records-concat rs rest fuel h.1 p (omega (arith, h.0.0)))))

-- What the loop leaves.
pub record Split (buf : Bytes) (rs : List Bytes) : Type 0 where
  pub rest : Bytes
  pub whole : buf ≡ concat rs ++ rest
  pub records : All IsRecord rs
  pub partial : IsPartial rest

split_records-Split :
    (fuel : ℕ) (buf : Bytes) → length buf ≤ fuel → Split buf (split_records fuel buf)
unfolding split_records
split_records-Split zero buf len = record {
  rest = buf;
  whole = refl;
  records = tt;
  partial = inl (omega arith);
}
split_records-Split (suc fuel) buf len = elim (Bool-cases (ltb (length buf) 13)) [
  | inl short ↦
      rw short (record { rest = buf; whole = refl; records = tt; partial = inl (ground arith) })
  | inr header ↦ elim (Bool-cases (ltb (length buf) (record_size buf))) [
    | inl cut ↦
        rw (header, cut)
          (record { rest = buf; whole = refl; records = tt; partial = inr (ground arith) })
    | inr whole ↦
        let n = record_size buf in
        let le : n ≤ length buf = ground arith in
        let s =
          split_records-Split fuel (drop n buf)
            (omega (arith, length-drop n buf, record_size_min buf)) in
        rw (header, whole)
          (record {
            rest = s.rest;
            whole =
                sym (take-append-drop n buf)
                ∙ ap (λ (x : Bytes). take n buf ++ x) s.whole
                ∙ sym (append_assoc (take n buf) _ s.rest);
            records = (first-IsRecord buf le, s.records);
            partial = s.partial;
          })
  ]
]

-- Whatever the buffer, what `split_dtls` returns are whole records, the buffer consists of them and of bytes that are no whole
-- record; and no other records with such a rest make up the buffer.
pub split_dtls-Split :
    (buf : Bytes)
    → Split buf (split_dtls buf) × ((rs : List Bytes) → Split buf rs → rs ≡ split_dtls buf)
unfolding split_dtls
split_dtls-Split buf = (
  split_records-Split (length buf) buf (omega arith),
  λ rs s. sym (
      ap (split_records (length buf)) s.whole
      ∙ split_records-concat rs s.rest (length buf) s.records s.partial
          (omega (arith, ap length s.whole))),
)
