-- ===== src/Session/Mids.antt =====
-- `_next_available_mid_locked`: a message id that no live request owns.
use smart_things_local.Prelude.{
  ℕ, zero, suc, ◌+◌, ◌%◌, ◌^◌, ◌≤◌, ◌<◌, ◌≡◌, refl, ap, inl, inr, Bool, true, false, ◌||◌, List, [],
  ◌∷◌, Option, none, some, arith, length, All, ◌==◌, min, if◌then◌else◌, Bool-cases, Option-cases,
}

unfoldable pub is_pending : ℕ → List ℕ → Bool
is_pending mid [] = false
is_pending mid (p ∷ ps) = mid == p || is_pending mid ps

-- The loop of so many rounds: the counter that it leaves, and the id unless it raises.
unfoldable pub probe : ℕ → ℕ → List ℕ → ℕ × Option ℕ
probe zero mid pending = (mid, none)
probe (suc rounds) mid pending =
    let next = (mid + 1) % 2 ^ 16 in
    let later = probe rounds next pending in
    if is_pending next pending then later else (next, some next)

unfoldable pub next_available_mid : ℕ → List ℕ → ℕ × Option ℕ
next_available_mid mid pending = probe (min (length pending + 1) 0x10000) mid pending

-- The ids that the loop tries.
abbrev candidates : ℕ → ℕ → List ℕ
candidates zero mid = []
candidates (suc rounds) mid = ((mid + 1) % 2 ^ 16) ∷ candidates rounds ((mid + 1) % 2 ^ 16)

abbrev Pending : List ℕ → ℕ → Type 0
Pending ps c = is_pending c ps ≡ true

-- The loop raises only when every candidate is taken.
probe-none :
    (rounds mid : ℕ) (ps : List ℕ)
    → (probe rounds mid ps).1 ≡ none
    → All (Pending ps) (candidates rounds mid)
unfolding probe
probe-none zero mid ps h = tt
probe-none (suc rounds) mid ps h = elim (Bool-cases (is_pending ((mid + 1) % 2 ^ 16) ps)) [
  | inl taken ↦ (taken, probe-none rounds ((mid + 1) % 2 ^ 16) ps (rw taken at h))
  | inr free ↦ absurd (ground arith)
]

probe-some :
    (rounds mid m : ℕ) (ps : List ℕ)
    → (probe rounds mid ps).1 ≡ some m
    → (m < 0x10000) × (is_pending m ps ≡ false) × ((probe rounds mid ps).0 ≡ m)
unfolding probe
probe-some zero mid m ps h = absurd (ground arith)
probe-some (suc rounds) mid m ps h = elim (Bool-cases (is_pending ((mid + 1) % 2 ^ 16) ps)) [
  | inl taken ↦ rw taken (probe-some rounds ((mid + 1) % 2 ^ 16) m ps (rw taken at h))
  | inr free ↦
      let e : (mid + 1) % 2 ^ 16 ≡ m = ground arith in rw free (omega arith, rw e at free, e)
]

-- Pairwise different numbers.
abbrev Differs : ℕ → ℕ → Type 0
Differs x y = (x == y) ≡ false

abbrev Distinct : List ℕ → Type 0
Distinct [] = Unit
Distinct (x ∷ xs) = All (Differs x) xs × Distinct xs

candidates-Differs :
    (rounds mid i x : ℕ)
    → x < 0x10000
    → i + rounds < 0x10000
    → mid ≡ (x + i) % 2 ^ 16
    → All (Differs x) (candidates rounds mid)
candidates-Differs zero mid i x hx hi e = tt
candidates-Differs (suc rounds) mid i x hx hi e = (
  ground arith,
  candidates-Differs rounds ((mid + 1) % 2 ^ 16) (suc i) x hx (omega arith) (omega arith),
)

candidates-Distinct : (rounds mid : ℕ) → rounds ≤ 0x10000 → Distinct (candidates rounds mid)
candidates-Distinct zero mid h = tt
candidates-Distinct (suc rounds) mid h = (
  candidates-Differs rounds ((mid + 1) % 2 ^ 16) 0 ((mid + 1) % 2 ^ 16) (omega arith) (omega arith)
      (omega arith),
  candidates-Distinct rounds ((mid + 1) % 2 ^ 16) (omega arith),
)

without : ℕ → List ℕ → List ℕ
without x [] = []
without x (p ∷ ps) = let rest = without x ps in if x == p then ps else p ∷ rest

length-without : (x : ℕ) (ps : List ℕ) → Pending ps x → length ps ≡ suc (length (without x ps))
unfolding without is_pending
length-without x [] h = absurd (ground arith)
length-without x (p ∷ ps) h = ground (arith, length-without x ps)

without-Pending : (x y : ℕ) (ps : List ℕ) → Differs x y → Pending ps y → Pending (without x ps) y
unfolding without is_pending
without-Pending x y [] d h = h
without-Pending x y (p ∷ ps) d h = ground (arith, without-Pending x y ps d)

without-All :
    (x : ℕ) (ps ys : List ℕ)
    → All (Differs x) ys
    → All (Pending ps) ys
    → All (Pending (without x ps)) ys
without-All x ps [] d h = tt
without-All x ps (y ∷ ys) d h = (without-Pending x y ps d.0 h.0, without-All x ps ys d.1 h.1)

-- Distinct ids that are all pending are no more than the pending ones.
length-Pending : (xs ps : List ℕ) → Distinct xs → All (Pending ps) xs → length xs ≤ length ps
length-Pending [] ps d h = omega arith
length-Pending (x ∷ xs) ps d h = omega (
  arith,
  length-without x ps h.0,
  length-Pending xs (without x ps) d.1 (without-All x ps xs d.0 h.1),
)

length-candidates : (rounds mid : ℕ) → length (candidates rounds mid) ≡ rounds
length-candidates zero mid = refl
length-candidates (suc rounds) mid = ap suc (length-candidates rounds ((mid + 1) % 2 ^ 16))

-- While fewer than 65536 requests are live, there is an id: of 16 bits, that no live request owns, and that the counter
-- is left at. So probing one more candidate than there are live requests is enough.
pub next_available_mid_total :
    (mid : ℕ) (pending : List ℕ)
    → length pending < 0x10000
    → (m : ℕ) × (next_available_mid mid pending ≡ (m, some m))
      × (m < 0x10000)
      × (is_pending m pending ≡ false)
unfolding next_available_mid
next_available_mid_total mid pending h =
    let rounds = min (length pending + 1) 0x10000 in
    elim (Option-cases (probe rounds mid pending).1) [
      | inl e ↦
          let few =
            length-Pending (candidates rounds mid) pending
              (candidates-Distinct rounds mid (omega arith)) (probe-none rounds mid pending e) in
          absurd (omega (arith, few, length-candidates rounds mid))
      | inr (m, e) ↦
          let (small, free, left) = probe-some rounds mid m pending e in
          (m, ground arith, small, free)
    ]
