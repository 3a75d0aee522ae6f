-- ===== src/Coap/Block/Fields.antt =====
-- `block_fields` reads what `block_value` writes, up to the 20 bits that three bytes leave for
-- the number.
use smart_things_local.Prelude.{
  ℕ, ◌+◌, ◌*◌, ◌/◌, ◌%◌, ◌^◌, ◌≤◌, ◌<◌, bit_or, bit_or_shift, ◌≡◌, refl, ◌∙◌, ap, [], ◌∷◌, arith,
  leb, if◌then◌else◌, length, drop,
}
use smart_things_local.Prelude.Bytes.{Bytes, IsBytes, from_bytes, pack16, pack32}
use smart_things_local.Errors.{ok}
use smart_things_local.Coap.Block.{block_word, block_value, block_fields}

block_word_sum :
    (num more szx : ℕ) → more < 2 → szx < 8 → block_word num more szx ≡ num * 16 + more * 8 + szx
unfolding block_word
block_word_sum num more szx hm hs =
    let e₁ : bit_or (num * 2 ^ 4) (more % 2 * 8) ≡ (num * 2 + more) * 2 ^ 3 =
      bit_or_shift 4 num (more % 2 * 8) (omega arith) ∙ omega arith in
    rw e₁ (bit_or_shift 3 (num * 2 + more) (szx % 8) (omega arith) ∙ omega arith)

-- The bytes that `block_value` chooses for the integer `v`.
abbrev shortest : ℕ → Bytes
shortest v = if leb v 0xff then v ∷ [] else if leb v 0xffff then pack16 v else drop 1 (pack32 v)

shortest_value : (v : ℕ) → v < 2 ^ 32 → from_bytes (shortest v) ≡ v % 2 ^ 24
shortest_value v h = ground arith

length-shortest : (v : ℕ) → (1 ≤ length (shortest v)) × (length (shortest v) ≤ 3)
length-shortest v = ground arith

shortest-IsBytes : (v : ℕ) → IsBytes (shortest v)
shortest-IsBytes v = ground arith

block_value-shortest :
    (num more szx : ℕ)
    → num < 2 ^ 28
    → more < 2
    → szx < 8
    → block_value num more szx ≡ ok (shortest (num * 16 + more * 8 + szx))
unfolding block_value
block_value-shortest num more szx hn hm hs = ground (arith, block_word_sum num more szx hm hs)

-- The fields depend on the integer alone.
fields_of :
    (value : Bytes) (w num more szx : ℕ)
    → from_bytes value ≡ w
    → w / 16 ≡ num
    → w / 8 % 2 ≡ more
    → w % 8 ≡ szx
    → block_fields value ≡ record { num = num; more = more; szx = szx }
unfolding block_fields
fields_of value w num more szx e n m s =
    cc (ap (λ t. t / 16) e, ap (λ t. t / 8 % 2) e, ap (λ t. t % 8) e)

-- For every number below 2 ^ 28 `block_value` returns one to three bytes, and `block_fields`
-- reads from them the flag, the size exponent and the number modulo 2 ^ 20: the number itself
-- where it is below 2 ^ 20, and another one above.
pub block_fields-block_value :
    (num more szx : ℕ)
    → num < 2 ^ 28
    → more < 2
    → szx < 8
    → (out : Bytes) × (block_value num more szx ≡ ok out)
      × (1 ≤ length out)
      × (length out ≤ 3)
      × (block_fields out ≡ record { num = num % 2 ^ 20; more = more; szx = szx })
block_fields-block_value num more szx hn hm hs =
    let v = num * 16 + more * 8 + szx in
    (
      shortest v,
      block_value-shortest num more szx hn hm hs,
      (length-shortest v).0,
      (length-shortest v).1,
      fields_of (shortest v) (v % 2 ^ 24) _ _ _ (shortest_value v (omega arith)) (omega arith)
          (omega arith) (omega arith),
    )

from_bytes_lt : (value : Bytes) → IsBytes value → length value ≤ 3 → from_bytes value < 2 ^ 24
from_bytes_lt [] h l = omega arith
from_bytes_lt (a ∷ []) h l = omega arith
from_bytes_lt (a ∷ b ∷ []) h l = omega arith
from_bytes_lt (a ∷ b ∷ c ∷ []) h l = omega arith
from_bytes_lt (a ∷ b ∷ c ∷ d ∷ r) h l = absurd (omega arith)

-- A block option of at most three bytes, written again from its fields, stands for the same
-- integer, and so has the same fields.
block_value-block_fields :
    (value : Bytes)
    → IsBytes value
    → length value ≤ 3
    → (out : Bytes) × (block_value
          (block_fields value).num
          (block_fields value).more
          (block_fields value).szx
        ≡ ok out)
      × (from_bytes out ≡ from_bytes value)
      × (block_fields out ≡ block_fields value)
unfolding block_fields
block_value-block_fields value h l =
    let v = from_bytes value in
    let lt = from_bytes_lt value h l in
    let whole : v / 16 * 16 + v / 8 % 2 * 8 + v % 8 ≡ v = omega arith in
    let same : from_bytes (shortest v) ≡ v = shortest_value v (omega arith) ∙ omega arith in
    (
      shortest v,
      block_value-shortest (v / 16) (v / 8 % 2) (v % 8) (omega arith) (omega arith) (omega arith)
          ∙ ap (λ t. ok (shortest t)) whole,
      same,
      fields_of (shortest v) v _ _ _ same refl refl refl,
    )
