-- ===== src/DtlsPsk/ReplayWindow/Window.antt =====
-- The bitmap of a window, and the history of accepted numbers that it stands for, the newest first.
use smart_things_local.Prelude.{
  ℕ, zero, suc, ◌+◌, ◌-◌, ◌*◌, ◌^◌, ◌≤◌, ◌<◌, ◌≡◌, refl, sym, ap, ◌∙◌, Bool, false, ◌||◌, ◌&&◌,
  List, [], ◌∷◌, bit_or, min, arith, ltb, leb, ◌==◌, if◌then◌else◌, Bool-cases, inl, inr,
}
use smart_things_local.DtlsPsk.ReplayWindow.{test_bit, slide}
use smart_things_local.DtlsPsk.ReplayWindow.Bits.{
  bit_above, test_bit-bit_or, test_bit-mask, test_bit-shift,
}

unfoldable pub was_accepted : ℕ → List ℕ → Bool
was_accepted seq [] = false
was_accepted seq (s ∷ history) = seq == s || was_accepted seq history

-- The bitmap holds the numbers of a history from its highest down.
pub record Represents (bitmap m : ℕ) (history : List ℕ) : Type 0 where
  pub kept : (s : ℕ) → s ≤ m → m < s + 64 → test_bit (m - s) bitmap ≡ was_accepted s history
  pub above : (s : ℕ) → m < s → was_accepted s history ≡ false

test_bit-zero : (i : ℕ) → test_bit i 0 ≡ false
unfolding test_bit
test_bit-zero zero = refl
test_bit-zero (suc i) = test_bit-zero i

-- A bit after a slide.
slide-test_bit : (i s b : ℕ) → 1 ≤ s → i < 64 → test_bit i (slide b s) ≡ (i == 0 || bit_above i s b)
unfolding slide
slide-test_bit i s b h w = test_bit-mask i 64 (bit_or (b * 2 ^ s) 1) w ∙ test_bit-shift i s b h

bit_above-false : (i s b : ℕ) → i < s → bit_above i s b ≡ false
bit_above-false i s b h = ground arith

bit_above-true : (i s j b : ℕ) → s ≤ i → i - s ≡ j → bit_above i s b ≡ test_bit j b
bit_above-true i s j b h e = ap (λ (x : ℕ). leb s i && test_bit x b) e ∙ ground arith

slide-Represents_kept :
    (b m seq : ℕ)
    → (history : List ℕ) → Represents b m history
    → m < seq
    → (s : ℕ) → s ≤ seq
    → seq < s + 64
    → bit_above (seq - s) (min (seq - m) 64) b ≡ was_accepted s history
slide-Represents_kept b m seq history r h s p q = elim (Bool-cases (ltb m s)) [
  | inl t ↦
      bit_above-false (seq - s) (min (seq - m) 64) b (ground arith) ∙ sym (r.above s (ground arith))
  | inr f ↦
      let le : s ≤ m = ground arith in
      bit_above-true (seq - s) (min (seq - m) 64) (m - s) b (omega arith) (omega arith)
      ∙ r.kept s le (omega arith)
]

pub slide-Represents :
    (b m seq : ℕ)
    → (history : List ℕ) → Represents b m history
    → m < seq
    → Represents (slide b (min (seq - m) 64)) seq (seq ∷ history)
unfolding was_accepted
slide-Represents b m seq history r h = record {
  kept = λ s p q.
      let one : 1 ≤ min (seq - m) 64 = omega arith in
      let same : (seq - s == 0) ≡ (s == seq) = ground arith in
      slide-test_bit (seq - s) (min (seq - m) 64) b one (omega arith)
      ∙ ap (λ (t : Bool). t || bit_above (seq - s) (min (seq - m) 64) b) same
      ∙ ap (λ (t : Bool). s == seq || t) (slide-Represents_kept b m seq history r h s p q);
  above = λ s p. let old = r.above s (omega arith) in ground arith;
}

mark-Represents_kept :
    (b m seq : ℕ)
    → (history : List ℕ) → Represents b m history
    → seq ≤ m
    → (s : ℕ) → s ≤ m
    → m < s + 64
    → test_bit (m - s) (if ltb (m - seq) 64 then bit_or b (2 ^ (m - seq)) else b)
      ≡ was_accepted s (seq ∷ history)
unfolding was_accepted
mark-Represents_kept b m seq history r h s p q = elim (Bool-cases (ltb (m - seq) 64)) [
  | inl t ↦
      let same : (m - s == m - seq) ≡ (s == seq) = ground arith in
      ap (λ (c : Bool). test_bit (m - s) (if c then bit_or b (2 ^ (m - seq)) else b)) t
      ∙ test_bit-bit_or (m - s) (m - seq) b
      ∙ ap (λ (c : Bool). c || test_bit (m - s) b) same
      ∙ ap (λ (c : Bool). s == seq || c) (r.kept s p q)
  | inr f ↦
      let far : false ≡ (s == seq) = ground arith in
      ap (λ (c : Bool). test_bit (m - s) (if c then bit_or b (2 ^ (m - seq)) else b)) f
      ∙ r.kept s p q
      ∙ ap (λ (c : Bool). c || was_accepted s history) far
]

pub mark-Represents :
    (b m seq : ℕ)
    → (history : List ℕ) → Represents b m history
    → seq ≤ m
    → Represents (if ltb (m - seq) 64 then bit_or b (2 ^ (m - seq)) else b) m (seq ∷ history)
unfolding was_accepted
mark-Represents b m seq history r h = record {
  kept = λ s p q. mark-Represents_kept b m seq history r h s p q;
  above = λ s p. let old = r.above s p in ground arith;
}

pub first-Represents : (seq : ℕ) → Represents (slide 0 (min (seq + 1) 64)) seq (seq ∷ [])
unfolding was_accepted
first-Represents seq = record {
  kept = λ s p q.
      let i = seq - s in
      let shift = min (seq + 1) 64 in
      slide-test_bit i shift 0 (omega arith) (omega arith)
      ∙ ap (λ (t : Bool). i == 0 || (leb shift i && t)) (test_bit-zero (i - shift))
      ∙ ground arith;
  above = λ s p. ground arith;
}
