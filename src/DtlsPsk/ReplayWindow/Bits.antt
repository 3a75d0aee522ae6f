-- ===== src/DtlsPsk/ReplayWindow/Bits.antt =====
-- The bits of the bitmap after each change.
use smart_things_local.Prelude.{
  ℕ, zero, suc, ◌+◌, ◌-◌, ◌*◌, ◌/◌, ◌%◌, ◌^◌, ◌≤◌, ◌<◌, ◌≡◌, ap, ◌∙◌, Bool, true, ◌||◌, ◌&&◌,
  bit_or, bit_or_step, bit_or-zero, bit_or_shift, half_shift, shift_even, arith, leb, ◌==◌,
}
use native.Mathlib.Nat.{pow-suc, mod-add-div, add-mul-mod_self_left, mod-eq_of_lt, mod-lt}
use smart_things_local.DtlsPsk.ReplayWindow.{test_bit}

one_le_pow : (n : ℕ) → 1 ≤ 2 ^ n
one_le_pow zero = omega arith
one_le_pow (suc n) = omega (arith, one_le_pow n, pow-suc 2 n)

half_pow : (n : ℕ) → 2 ^ suc n / 2 ≡ 2 ^ n
half_pow n = omega (arith, pow-suc 2 n)

bit_or-half : (a b : ℕ) → bit_or a b / 2 ≡ bit_or (a / 2) (b / 2)
bit_or-half a b = omega (arith, bit_or_step a b)

-- The lower bits of a number, from those of its half.
double_mod : (x p : ℕ) → 1 ≤ p → x % (p * 2) ≡ x / 2 % p * 2 + x % 2
double_mod x p h =
    let t = x / 2 % p in
    let q = x / 2 / p in
    let parts : x ≡ t * 2 + x % 2 + p * 2 * q = omega (arith, mod-add-div (x / 2) p) in
    ap (λ (y : ℕ). y % (p * 2)) parts
    ∙ add-mul-mod_self_left (t * 2 + x % 2) (p * 2) q
    ∙ mod-eq_of_lt (omega (arith, mod-lt (x / 2) {m = p} (omega arith)))

pub test_bit-bit_or : (i o a : ℕ) → test_bit i (bit_or a (2 ^ o)) ≡ (i == o || test_bit i a)
unfolding test_bit
test_bit-bit_or zero zero a = ground (arith, bit_or_step a 1)
test_bit-bit_or zero (suc o) a = ground (arith, bit_or_step a (2 ^ suc o), pow-suc 2 o)
test_bit-bit_or (suc i) zero a =
    let half : bit_or a 1 / 2 ≡ a / 2 = bit_or-half a 1 ∙ bit_or-zero (a / 2) in
    ap (λ (x : ℕ). test_bit i x) half ∙ ground arith
test_bit-bit_or (suc i) (suc o) a =
    let half : bit_or a (2 ^ suc o) / 2 ≡ bit_or (a / 2) (2 ^ o) =
      bit_or-half a (2 ^ suc o) ∙ ap (λ (x : ℕ). bit_or (a / 2) x) (half_pow o) in
    ap (λ (x : ℕ). test_bit i x) half ∙ test_bit-bit_or i o (a / 2) ∙ ground arith

masked : (w x : ℕ) → x % 2 ^ suc w ≡ x / 2 % 2 ^ w * 2 + x % 2
masked w x = rw (pow-suc 2 w) (double_mod x (2 ^ w) (one_le_pow w))

-- The mask keeps the lower bits.
pub test_bit-mask : (i w x : ℕ) → i < w → test_bit i (x % 2 ^ w) ≡ test_bit i x
unfolding test_bit
test_bit-mask i zero x h = absurd (omega arith)
test_bit-mask zero (suc w) x h = ground (arith, masked w x)
test_bit-mask (suc i) (suc w) x h =
    let half : (x % 2 ^ suc w) / 2 ≡ x / 2 % 2 ^ w = omega (arith, masked w x) in
    ap (λ (y : ℕ). test_bit i y) half ∙ test_bit-mask i w (x / 2) (omega arith)

even_shift : (s b : ℕ) → b * 2 ^ suc s % 2 ≡ 0
even_shift s b = rw (pow-suc 2 s) (shift_even b (2 ^ s))

half_shift_suc : (s b : ℕ) → b * 2 ^ suc s / 2 ≡ b * 2 ^ s
half_shift_suc s b = rw (pow-suc 2 s) (half_shift b (2 ^ s))

-- The test of a bit in a number that was shifted by `s`.
abbrev pub bit_above : ℕ → ℕ → ℕ → Bool
bit_above i s b = leb s i && test_bit (i - s) b

bit_above-suc : (i s b : ℕ) → bit_above i s b ≡ bit_above (suc i) (suc s) b
bit_above-suc i s b =
    let index : i - s ≡ suc i - suc s = omega arith in
    let order : leb s i ≡ leb (suc s) (suc i) = ground arith in
    ap (λ (x : ℕ). leb s i && test_bit x b) index
    ∙ ap (λ (t : Bool). t && test_bit (suc i - suc s) b) order

-- Zeros below a number.
raised : (i s b : ℕ) → test_bit i (b * 2 ^ s) ≡ bit_above i s b
unfolding test_bit
raised i zero b =
    let one : b * 2 ^ 0 ≡ b = omega arith in
    let index : i ≡ i - 0 = omega arith in
    let order : true ≡ leb 0 i = ground arith in
    ap (λ (x : ℕ). test_bit i x) one
    ∙ ap (λ (x : ℕ). test_bit x b) index
    ∙ ap (λ (t : Bool). t && test_bit (i - 0) b) order
raised zero (suc s) b = ground (arith, even_shift s b)
raised (suc i) (suc s) b =
    ap (λ (x : ℕ). test_bit i x) (half_shift_suc s b) ∙ raised i s b ∙ bit_above-suc i s b

shifted : (i s b : ℕ) → test_bit i (b * 2 ^ suc s + 1) ≡ (i == 0 || bit_above i (suc s) b)
unfolding test_bit
shifted zero s b = ground (arith, even_shift s b)
shifted (suc i) s b =
    let half : (b * 2 ^ suc s + 1) / 2 ≡ b * 2 ^ s =
      omega (arith, half_shift_suc s b, even_shift s b) in
    ap (λ (x : ℕ). test_bit i x) half ∙ raised i s b ∙ bit_above-suc i s b ∙ ground arith

-- A shift moves the bits up.
pub test_bit-shift :
    (i s b : ℕ) → 1 ≤ s → test_bit i (bit_or (b * 2 ^ s) 1) ≡ (i == 0 || bit_above i s b)
test_bit-shift i zero b h = absurd (omega arith)
test_bit-shift i (suc s) b h =
    ap (λ (x : ℕ). test_bit i x)
      (bit_or_shift (suc s) b 1 (omega (arith, one_le_pow s, pow-suc 2 s)))
    ∙ shifted i s b
