-- ===== src/Coap/Options/Extended.antt =====
-- One delta or length: reading undoes writing, and writing undoes reading.
use smart_things_local.Prelude.{
  ℕ, ◌+◌, ◌-◌, ◌≤◌, ◌<◌, ◌≡◌, [], ◌∷◌, ◌++◌, arith, take, ltb, ◌==◌, if◌then◌else◌,
}
use smart_things_local.Prelude.Bytes.{Bytes, IsBytes, pack16}
use smart_things_local.Errors.{ok}
use smart_things_local.Coap.Options.{vlen, read_extended}

-- The largest delta or length that has an encoding.
abbrev pub max_extended : ℕ
max_extended = 0xffff + 269

-- What is written is a nibble below 15, at most two bytes, and reads back.
pub record Extends (v n : ℕ) (x : Bytes) : Type 0 where
  pub nibble : n ≤ 14
  pub in_range : v ≤ max_extended
  pub bytes : IsBytes x
  pub reads : (rest : Bytes) → read_extended n (x ++ rest) ≡ ok (v, rest)

pub vlen-Extends : (v n : ℕ) (x : Bytes) → vlen v ≡ ok (n, x) → Extends v n x
vlen-Extends v n x h = record {
  nibble = unfold vlen in ground arith;
  in_range = unfold vlen in ground arith;
  bytes = unfold vlen in ground arith;
  reads = λ rest. unfold vlen read_extended in ground arith;
}

abbrev nibble_of : ℕ → ℕ
nibble_of v = if ltb v 13 then v else if ltb v 269 then 13 else 14

abbrev extension_of : ℕ → Bytes
extension_of v = if ltb v 13 then [] else if ltb v 269 then (v - 13) ∷ [] else pack16 (v - 269)

-- Every number in range is written.
pub vlen_total : (v : ℕ) → v ≤ max_extended → (n : ℕ) × (x : Bytes) × (vlen v ≡ ok (n, x))
unfolding vlen
vlen_total v h = (nibble_of v, extension_of v, ground arith)

-- The bytes that a nibble announces.
abbrev announced : ℕ → ℕ
announced n = if n == 13 then 1 else if n == 14 then 2 else 0

-- What was read is written back as it stood: no other bytes encode the number.
pub vlen-read_extended :
    (n v : ℕ) (bs rest : Bytes)
    → n < 16
    → IsBytes bs
    → read_extended n bs ≡ ok (v, rest)
    → (x : Bytes) × (vlen v ≡ ok (n, x)) × (bs ≡ x ++ rest)
unfolding vlen read_extended
vlen-read_extended n v [] rest lt bytes h = ([], ground arith, ground arith)
vlen-read_extended n v (a ∷ []) rest lt bytes h =
    (take (announced n) (a ∷ []), ground arith, ground arith)
vlen-read_extended n v (a ∷ b ∷ bs) rest lt bytes h =
    (take (announced n) (a ∷ b ∷ bs), ground arith, ground arith)
