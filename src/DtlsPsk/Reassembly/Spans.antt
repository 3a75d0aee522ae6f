-- ===== src/DtlsPsk/Reassembly/Spans.antt =====
-- The positions of a message that spans of it cover.
use smart_things_local.Prelude.{
  ℕ, zero, suc, ◌+◌, ◌≤◌, ◌≡◌, refl, Bool, true, false, ◌&&◌, ◌||◌, List, [], ◌∷◌, ◌++◌, arith, ltb,
  leb,
}

-- Where a fragment begins, and how long it is.
abbrev pub Span : Type 0
Span = ℕ × ℕ

unfoldable pub covered : List Span → ℕ → Bool
covered [] i = false
covered ((off, size) ∷ spans) i = (leb off i && ltb i (off + size)) || covered spans i

-- Whether a number of positions, from one on, are all covered.
unfoldable pub all_covered : List Span → ℕ → ℕ → Bool
all_covered spans i zero = true
all_covered spans i (suc n) = covered spans i && all_covered spans (suc i) n

covered-append : (a b : List Span) (i : ℕ) → covered (a ++ b) i ≡ (covered a i || covered b i)
unfolding covered
covered-append [] b i = refl
covered-append ((off, size) ∷ a) b i = ground (arith, covered-append a b i)

pub all_covered_same :
    (a b : List Span)
    → ((i : ℕ) → covered a i ≡ covered b i)
    → (i n : ℕ) → all_covered a i n ≡ all_covered b i n
unfolding all_covered
all_covered_same a b h i zero = refl
all_covered_same a b h i (suc n) =
    let here = h i in let there = all_covered_same a b h (suc i) n in ground arith

pub all_covered_more :
    (a b : List Span) (i n : ℕ) → all_covered a i n ≡ true → all_covered (a ++ b) i n ≡ true
unfolding all_covered
all_covered_more a b i zero h = refl
all_covered_more a b i (suc n) h =
    let here = covered-append a b i in
    let there = all_covered_more a b (suc i) n (ground arith) in ground arith

-- A span of the whole message covers it.
pub all_covered_whole :
    (spans : List Span) (size i n : ℕ) → i + n ≡ size → all_covered ((0, size) ∷ spans) i n ≡ true
unfolding all_covered covered
all_covered_whole spans size i zero h = refl
all_covered_whole spans size i (suc n) h =
    let there = all_covered_whole spans size (suc i) n (omega arith) in ground arith

pub none_covered : (n : ℕ) → 1 ≤ n → all_covered [] 0 n ≡ false
unfolding all_covered covered
none_covered zero h = absurd (omega arith)
none_covered (suc n) h = refl

pub moved :
    (a b : List Span) (x : Span) (i : ℕ) → covered ((x ∷ a) ++ b) i ≡ covered (a ++ (x ∷ b)) i
unfolding covered
moved a b (off, size) i =
    let first = covered-append a b i in
    let second = covered-append a ((off, size) ∷ b) i in ground arith
