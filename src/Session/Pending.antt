-- ===== src/Session/Pending.antt =====
-- The requests in flight: `_register_pending_request`, `_unregister_pending_request` and `_next_tok`. A request
-- stands as its identity, which its event, its container and its exchange share.
pub mod Registered
use smart_things_local.Prelude.{
  ℕ, ◌+◌, ◌%◌, ◌^◌, Bool, true, false, List, [], ◌∷◌, Option, none, some, arith, ◌==◌,
  if◌then◌else◌,
}
use smart_things_local.Prelude.Bytes.{Bytes, pack32}
use smart_things_local.Ocf.Dict.{Eq, Dict, get, set, remove}
use smart_things_local.Session.Mids.{next_available_mid}

instance abbrev pub nat_eq : Eq ℕ
nat_eq = record { equal = ◌==◌; equal_iff = λ a b. (λ e. ground arith, λ e. ground arith) }

-- `_pending`, `_pending_mids`, `_mid` and `_tok_counter`
pub record Registry (Token : Type 0) : Type 0 where
  pub pending : Dict Token ℕ
  pub pending_mids : Dict ℕ ℕ
  pub mid : ℕ
  pub tok_counter : ℕ

abbrev pub keys : Dict ℕ ℕ → List ℕ
keys [] = []
keys ((mid, request) ∷ d) = mid ∷ keys d

unfoldable pub pop_mid : Dict ℕ ℕ → ℕ → ℕ → Dict ℕ ℕ
pop_mid d mid request = elim (get d mid) [
  | none ↦ d
  | some held ↦ if held == request then remove d mid else d
]

module _ {Token : Type 0} ⦃key : Eq Token⦄ where
  unfoldable pub index_request :
      Registry Token → Token → ℕ → ℕ × Option ℕ → Registry Token × Option ℕ
  index_request r tok request (counter, none) = (record r { mid = counter }, none)
  index_request r tok request (counter, some mid) = (
    record r {
      pending = set r.pending tok request;
      pending_mids = set r.pending_mids mid request;
      mid = counter;
    },
    some mid,
  )

  -- The message id, unless it raises `SessionIdentifierError`.
  unfoldable pub register_pending_request : Registry Token → Token → ℕ → Registry Token × Option ℕ
  register_pending_request r tok request = elim (get r.pending tok) [
    | some held ↦ (r, none)
    | none ↦ index_request r tok request (next_available_mid r.mid (keys r.pending_mids))
  ]

  -- `if d.get(k) is request: d.pop(k, None)`
  unfoldable pub pop_token : Dict Token ℕ → Token → ℕ → Dict Token ℕ
  pop_token d tok request = elim (get d tok) [
    | none ↦ d
    | some held ↦ if held == request then remove d tok else d
  ]

  unfoldable pub unregister_pending_request : Registry Token → Token → ℕ → ℕ → Registry Token
  unregister_pending_request r tok mid request = record r {
    pending = pop_token r.pending tok request;
    pending_mids = pop_mid r.pending_mids mid request;
  }

-- `_next_tok`: the next counter and its four bytes
unfoldable pub next_tok : {Token : Type 0} → Registry Token → Registry Token × Bytes
next_tok r =
    let counter = (r.tok_counter + 1) % 2 ^ 32 in
    (record r { tok_counter = counter }, pack32 counter)
