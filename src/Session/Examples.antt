-- ===== src/Session/Examples.antt =====
-- The theorems on dtls_session.py at concrete values.
use smart_things_local.Prelude.{refl, ℕ, ◌≡◌, ◌↔◌, ◌≤◌, ◌<◌, ◌+◌, true, false, [], ◌∷◌, some, arith}
use smart_things_local.Session.Observe.{
  observe_sequence_is_fresh, IsNewer, observe_sequence_is_fresh_iff,
}
use smart_things_local.Session.Mids.{next_available_mid, is_pending, next_available_mid_total}
use smart_things_local.Ocf.Dict.{get}
use smart_things_local.Session.Pending.{
  nat_eq, Registry, register_pending_request, unregister_pending_request,
}
use smart_things_local.Session.Pending.Registered.{Registered, register_pending_request-Registered}

-- Around the end of the sequence.
observe_sequence_is_fresh_iff_example :
    ((observe_sequence_is_fresh (some (0xffffff, 10)) 2 11 ≡ true) ↔ IsNewer 0xffffff 10 2 11)
    × (10 ≤ 11 + 128
        → 11 ≤ 10 + 128
        → observe_sequence_is_fresh (some (0xffffff, 10)) 2 11 ≡ true
        → observe_sequence_is_fresh (some (2, 11)) 0xffffff 10 ≡ false)
observe_sequence_is_fresh_iff_example =
    observe_sequence_is_fresh_iff 0xffffff 10 2 11 (omega arith) (omega arith)

next_available_mid_total_example :
    (m : ℕ) × (next_available_mid 65534 (65535 ∷ 0 ∷ 7 ∷ []) ≡ (m, some m))
    × (m < 0x10000)
    × (is_pending m (65535 ∷ 0 ∷ 7 ∷ []) ≡ false)
next_available_mid_total_example = next_available_mid_total 65534 (65535 ∷ 0 ∷ 7 ∷ []) (omega arith)

-- One request in flight, whose message id is the next one.
abbrev registry : Registry ℕ
registry = record { pending = (5, 1) ∷ []; pending_mids = (8, 1) ∷ []; mid = 7; tok_counter = 5 }

register_pending_request-Registered_example :
    (mid : ℕ) × (r' : Registry ℕ) × (register_pending_request registry 6 2 ≡ (r', some mid))
    × Registered registry r' 6 2 mid
    × ((t : ℕ) → get (unregister_pending_request r' 6 mid 2).pending t ≡ get registry.pending t)
    × ((m : ℕ)
        → get (unregister_pending_request r' 6 mid 2).pending_mids m ≡ get registry.pending_mids m)
unfolding get
register_pending_request-Registered_example =
    register_pending_request-Registered registry 6 2 refl (omega arith)
