-- ===== src/Ocf/StateCache/Stalest.antt =====
-- The resource that was updated longest ago.
use smart_things_local.Prelude.{
  ℕ, ◌-◌, ◌≤◌, ◌≡◌, refl, ◌⊎◌, inl, inr, [], ◌∷◌, none, some, arith, ltb, Bool-cases,
}
use smart_things_local.Ocf.Dict.{Dict, get}
use smart_things_local.Ocf.Dict.Laws.{IsUnique}
use smart_things_local.Ocf.StateCache.{
  href_eq, Href, same_href, same_href_iff, StateCache, oldest, stalest,
}

-- `o` is one of the entries, and none is older.
pub record IsOldest (o : Href × ℕ) (d : Dict Href ℕ) : Type 0 where
  pub entry : get d o.0 ≡ some o.1
  pub least : (href : Href) (ts : ℕ) → get d href ≡ some ts → o.1 ≤ ts

-- A newer entry in front.
newer_first :
    (o b : Href × ℕ) (d : Dict Href ℕ)
    → get d b.0 ≡ none
    → o.1 ≤ b.1
    → IsOldest o d
    → IsOldest o (b ∷ d)
unfolding get
newer_first o b d missing le i = record {
  entry = elim (Bool-cases (same_href o.0 b.0)) [
    | inl found ↦
        let same_key = (same_href_iff o.0 b.0).0 found in
        let clash : get d o.0 ≡ none = rw same_key missing in
        let e = i.entry in absurd (ground arith)
    | inr apart ↦ rw apart i.entry
  ];
  least = λ j t h. elim (Bool-cases (same_href j b.0)) [
    | inl found ↦ let e : b.1 ≡ t = ground arith in omega arith
    | inr apart ↦ i.least j t (rw apart at h)
  ];
}

-- A newer entry in the second place.
newer_second :
    (o b a : Href × ℕ) (d : Dict Href ℕ)
    → get d a.0 ≡ none
    → b.1 ≤ a.1
    → IsOldest o (b ∷ d)
    → IsOldest o (b ∷ a ∷ d)
unfolding get
newer_second o b a d missing le i = record {
  entry = elim (Bool-cases (same_href o.0 b.0)) [
    | inl found ↦ rw found (rw found at i.entry)
    | inr apart ↦ elim (Bool-cases (same_href o.0 a.0)) [
      | inl found ↦
          let same_key = (same_href_iff o.0 a.0).0 found in
          let clash : get d o.0 ≡ none = rw same_key missing in
          let e : get d o.0 ≡ some o.1 = rw apart at i.entry in absurd (ground arith)
      | inr apart' ↦ rw (apart, apart') (rw apart at i.entry)
    ]
  ];
  least = λ j t h. elim (Bool-cases (same_href j b.0)) [
    | inl found ↦ i.least j t (rw found (rw found at h))
    | inr apart ↦ elim (Bool-cases (same_href j a.0)) [
      | inl found ↦
          let e : some a.1 ≡ some t = rw (apart, found) at h in
          let first = i.least b.0 b.1 (rw ((same_href_iff b.0 b.0).1 refl) refl) in ground arith
      | inr apart' ↦ i.least j t (rw apart (rw (apart, apart') at h))
    ]
  ];
}

pub oldest-IsOldest :
    (best : Href × ℕ) (rest : Dict Href ℕ)
    → IsUnique (best ∷ rest)
    → IsOldest (oldest best rest) (best ∷ rest)
unfolding oldest get
oldest-IsOldest best [] u = record {
  entry = rw ((same_href_iff best.0 best.0).1 refl) refl;
  least = λ j t h. ground arith;
}
oldest-IsOldest best ((href, ts) ∷ rest) u = elim (Bool-cases (ltb ts best.1)) [
  | inl older ↦
      let i = oldest-IsOldest (href, ts) rest u.1 in
      let le = i.least href ts (rw ((same_href_iff href href).1 refl) refl) in
      rw older (newer_first (oldest (href, ts) rest) best ((href, ts) ∷ rest) u.0 (ground arith) i)
  | inr newer ↦
      let i = oldest-IsOldest best rest (ground arith, u.1.1) in
      rw newer (newer_second (oldest best rest) best (href, ts) rest u.1.0 (ground arith) i)
]

module _ {Value State : Type 0} where
  from_times :
      (now : ℕ) (c : StateCache Value State) (d : Dict Href ℕ)
      → c.last_updated ≡ d
      → IsUnique d
      → ((stalest now c ≡ none) × (d ≡ []))
        ⊎ ((o : Href × ℕ) × (stalest now c ≡ some (o.0, now - o.1)) × IsOldest o d)
  unfolding stalest
  from_times now c [] e u = inl (ground arith, refl)
  from_times now c (first ∷ rest) e u =
      inr (oldest first rest, ground arith, oldest-IsOldest first rest u)

  -- A cache without a time has no stalest resource; otherwise `stalest` returns a resource that no other was updated
  -- before, with the time since.
  stalest-IsOldest :
      (now : ℕ) (c : StateCache Value State)
      → IsUnique c.last_updated
      → ((stalest now c ≡ none) × (c.last_updated ≡ []))
        ⊎ ((o : Href × ℕ) × (stalest now c ≡ some (o.0, now - o.1)) × IsOldest o c.last_updated)
  stalest-IsOldest now c u = from_times now c c.last_updated refl u
