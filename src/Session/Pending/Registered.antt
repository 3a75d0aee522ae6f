-- ===== src/Session/Pending/Registered.antt =====
-- A request is found by its token and by its message id for as long as it is registered.
use smart_things_local.Prelude.{
  ℕ, ◌<◌, ◌≡◌, refl, ap, ◌∙◌, false, [], ◌∷◌, none, some, arith, length, ◌==◌, Bool-cases, inl, inr,
}
use smart_things_local.Ocf.Dict.{Eq, Dict, get, set, remove}
use smart_things_local.Ocf.Dict.Laws.{get-set, get-remove}
use smart_things_local.Session.Mids.{next_available_mid, is_pending, next_available_mid_total}
use smart_things_local.Session.Pending.{
  nat_eq, Registry, keys, index_request, register_pending_request, pop_token, pop_mid,
  unregister_pending_request,
}

free-get : (d : Dict ℕ ℕ) (mid : ℕ) → is_pending mid (keys d) ≡ false → get d mid ≡ none
unfolding is_pending get
free-get [] mid h = refl
free-get ((m, q) ∷ d) mid h = ground (arith, free-get d mid)

mid_back :
    (d : Dict ℕ ℕ) (mid request : ℕ)
    → get d mid ≡ none
    → (m : ℕ) → get (pop_mid (set d mid request) mid request) m ≡ get d m
unfolding pop_mid
mid_back d mid request h m =
    let there : get (set d mid request) mid ≡ some request =
      ground (arith, get-set d mid request mid) in
    let popped : pop_mid (set d mid request) mid request ≡ remove (set d mid request) mid =
      ground arith in
    ap (λ (x : Dict ℕ ℕ). get x m) popped ∙ elim (Bool-cases (m == mid)) [
      | inl same ↦
          let same_mid : m ≡ mid = ground arith in
          let missing : get d m ≡ none = rw same_mid h in
          ground (arith, get-remove (set d mid request) mid m)
      | inr apart ↦ ground (arith, get-remove (set d mid request) mid m, get-set d mid request m)
    ]

module _ {Token : Type 0} ⦃key : Eq Token⦄ where
  token_back :
      (d : Dict Token ℕ) (tok : Token) (request : ℕ)
      → get d tok ≡ none
      → (t : Token) → get (pop_token (set d tok request) tok request) t ≡ get d t
  unfolding pop_token
  token_back d tok request h t =
      let found = (key.equal_iff tok tok).1 refl in
      let there : get (set d tok request) tok ≡ some request =
        ground (arith, get-set d tok request tok) in
      let popped : pop_token (set d tok request) tok request ≡ remove (set d tok request) tok =
        ground arith in
      ap (λ (x : Dict Token ℕ). get x t) popped ∙ elim (Bool-cases (key.equal t tok)) [
        | inl same ↦
            let same_token = (key.equal_iff t tok).0 same in
            let missing : get d t ≡ none = rw same_token h in
            ground (arith, get-remove (set d tok request) tok t)
        | inr apart ↦ ground (arith, get-remove (set d tok request) tok t, get-set d tok request t)
      ]

  -- What registering a request does.
  pub record Registered (r r' : Registry Token) (tok : Token) (request mid : ℕ) : Type 0 where
    pub mid_range : mid < 0x10000
    pub mid_free : get r.pending_mids mid ≡ none
    pub by_token : get r'.pending tok ≡ some request
    pub by_mid : get r'.pending_mids mid ≡ some request
    pub other_tokens : (t : Token) → key.equal t tok ≡ false → get r'.pending t ≡ get r.pending t
    pub other_mids : (m : ℕ) → (m == mid) ≡ false → get r'.pending_mids m ≡ get r.pending_mids m

  registers :
      (r : Registry Token) (tok : Token) (request mid : ℕ)
      → get r.pending tok ≡ none
      → next_available_mid r.mid (keys r.pending_mids) ≡ (mid, some mid)
      → register_pending_request r tok request ≡ (
        record r {
          pending = set r.pending tok request;
          pending_mids = set r.pending_mids mid request;
          mid = mid;
        },
        some mid,
      )
  unfolding register_pending_request index_request
  registers r tok request mid h e = ground arith

  -- With a token that is not in use, and fewer than 65536 requests in flight: the request is registered under a free
  -- message id of 16 bits, is found under both, and no other request is touched; and unregistering it again gives
  -- every token and every message id back what it had.
  pub register_pending_request-Registered :
      (r : Registry Token) (tok : Token) (request : ℕ)
      → get r.pending tok ≡ none
      → length (keys r.pending_mids) < 0x10000
      → (mid : ℕ) × (r' : Registry Token) × (register_pending_request r tok request
          ≡ (r', some mid))
        × Registered r r' tok request mid
        × ((t : Token)
            → get (unregister_pending_request r' tok mid request).pending t ≡ get r.pending t)
        × ((m : ℕ)
            → get (unregister_pending_request r' tok mid request).pending_mids m
              ≡ get r.pending_mids m)
  unfolding unregister_pending_request pop_token pop_mid
  register_pending_request-Registered r tok request h few =
      let (mid, e, small, free) = next_available_mid_total r.mid (keys r.pending_mids) few in
      let unused = free-get r.pending_mids mid free in
      let r' = record r {
        pending = set r.pending tok request;
        pending_mids = set r.pending_mids mid request;
        mid = mid;
      } in
      let found = (key.equal_iff tok tok).1 refl in
      let there : get (set r.pending tok request) tok ≡ some request =
        ground (arith, get-set r.pending tok request tok) in
      let there' : get (set r.pending_mids mid request) mid ≡ some request =
        ground (arith, get-set r.pending_mids mid request mid) in
      (
        mid,
        r',
        registers r tok request mid h e,
        record {
          mid_range = small;
          mid_free = unused;
          by_token = there;
          by_mid = there';
          other_tokens = λ t apart. ground (arith, get-set r.pending tok request t);
          other_mids = λ m apart. ground (arith, get-set r.pending_mids mid request m);
        },
        λ t. token_back r.pending tok request h t,
        λ m. mid_back r.pending_mids mid request unused m,
      )
