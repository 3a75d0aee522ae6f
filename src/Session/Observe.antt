-- ===== src/Session/Observe.antt =====
-- `_observe_sequence_is_fresh`: whether a notification is newer than the last one.
use smart_things_local.Prelude.{
  ℕ, ◌+◌, ◌-◌, ◌%◌, ◌≤◌, ◌<◌, ◌≡◌, ◌↔◌, ◌⊎◌, inl, inr, Bool, true, false, ◌&&◌, Option, none, some,
  arith, ltb, if◌then◌else◌, Bool-cases,
}

abbrev pub observe_sequence_modulus : ℕ
observe_sequence_modulus = 0x1000000

abbrev pub observe_sequence_half_range : ℕ
observe_sequence_half_range = 0x800000

abbrev pub observe_sequence_reset_s : ℕ
observe_sequence_reset_s = 128

-- The difference modulo 2 ^ 24, which is negative in Python before the `%`.
unfoldable pub sequence_delta : ℕ → ℕ → ℕ
sequence_delta current previous =
    (current + (observe_sequence_modulus - previous % observe_sequence_modulus))
    % observe_sequence_modulus

-- `previous` is the last value, and when it was received.
unfoldable pub observe_sequence_is_fresh : Option (ℕ × ℕ) → ℕ → ℕ → Bool
observe_sequence_is_fresh none current received_at = true
observe_sequence_is_fresh (some (value, at)) current received_at =
    if ltb observe_sequence_reset_s (received_at - at)
    then true
    else let delta = sequence_delta current value in
      ltb 0 delta && ltb delta observe_sequence_half_range

-- RFC 7641, section 3.4: the second notification is the newer one.
abbrev pub IsNewer : ℕ → ℕ → ℕ → ℕ → Type 0
IsNewer v1 t1 v2 t2 =
    ((v1 < v2) × (v2 - v1 < 0x800000)) ⊎ ((v2 < v1) × (0x800000 < v1 - v2)) ⊎ (t1 + 128 < t2)

fresh-IsNewer :
    (v1 t1 v2 t2 : ℕ)
    → v1 < 0x1000000
    → v2 < 0x1000000
    → observe_sequence_is_fresh (some (v1, t1)) v2 t2 ≡ true
    → IsNewer v1 t1 v2 t2
unfolding observe_sequence_is_fresh sequence_delta
fresh-IsNewer v1 t1 v2 t2 h1 h2 e = elim (Bool-cases (ltb (t1 + 128) t2)) [
  | inl late ↦ inr (inr (ground arith))
  | inr early ↦ elim (Bool-cases (ltb v1 v2)) [
    | inl up ↦ inl (ground arith, ground arith)
    | inr down ↦ inr (inl (ground arith, ground arith))
  ]
]

newer-fresh :
    (v1 t1 v2 t2 : ℕ)
    → v1 < 0x1000000
    → v2 < 0x1000000
    → IsNewer v1 t1 v2 t2
    → observe_sequence_is_fresh (some (v1, t1)) v2 t2 ≡ true
unfolding observe_sequence_is_fresh sequence_delta
newer-fresh v1 t1 v2 t2 h1 h2 (inl up) = ground arith
newer-fresh v1 t1 v2 t2 h1 h2 (inr (inl down)) = ground arith
newer-fresh v1 t1 v2 t2 h1 h2 (inr (inr late)) = ground arith

-- On 24-bit values the test is that of RFC 7641, section 3.4; and of two notifications received within 128
-- seconds at most one is fresh after the other.
pub observe_sequence_is_fresh_iff :
    (v1 t1 v2 t2 : ℕ)
    → v1 < 0x1000000
    → v2 < 0x1000000
    → ((observe_sequence_is_fresh (some (v1, t1)) v2 t2 ≡ true) ↔ IsNewer v1 t1 v2 t2)
      × (t1 ≤ t2 + 128
          → t2 ≤ t1 + 128
          → observe_sequence_is_fresh (some (v1, t1)) v2 t2 ≡ true
          → observe_sequence_is_fresh (some (v2, t2)) v1 t1 ≡ false)
unfolding observe_sequence_is_fresh sequence_delta
observe_sequence_is_fresh_iff v1 t1 v2 t2 h1 h2 =
    ((fresh-IsNewer v1 t1 v2 t2 h1 h2, newer-fresh v1 t1 v2 t2 h1 h2), λ near near' e. ground arith)
