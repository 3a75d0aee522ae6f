-- ===== src/Ocf/PollScheduler/Accounting.antt =====
-- The counters of the scheduler across a tier's turn.
use smart_things_local.Prelude.{
  ℕ, suc, ◌+◌, ◌≤◌, ◌≢◌, true, false, ◌≡◌, refl, ◌∙◌, List, [], ◌∷◌, arith, Bool-cases, inl, inr,
}
use Prim.Native.String.{String}
use smart_things_local.Prelude.Bytes.{Bytes}
use smart_things_local.Ocf.Dict.{Eq, Dict}
use smart_things_local.Errors.{Result, ok, err}
use smart_things_local.Ocf.StateCache.{
  StateCache, apply_rep, Href, Body, href_eq, Hooks, index_device_tree,
}
use smart_things_local.Ocf.PollScheduler.{
  PollTier, Scheduler, Exchange, Answer, timeout, connection_error, other_error, response, Loaded,
  rep, tree, something, raises, count_error, count_poll, time_poll, time_out, defer, record_timeout,
  record_rtt, is_success, is_deferred, take_rep, take_tree, take_links, apply_links,
  is_link_deferred, poll, do_paths, do_sweep, do_tier, enumerate, href_of,
}

-- Between two moments of one turn: every error is one of a poll, every timeout is an error, and the deadlines and the
-- last window's timeouts stand.
pub record Accounts {Value State : Type 0} (s s' : Scheduler Value State) : Type 0 where
  pub errors : s'.poll_error_count + s.poll_count ≤ s.poll_error_count + s'.poll_count
  pub timeouts :
      s'.window.timeout_count + s.poll_error_count ≤ s.window.timeout_count + s'.poll_error_count
  pub polls : s.poll_count ≤ s'.poll_count
  pub deadlines : s'.next_due ≡ s.next_due
  pub last_timeouts : s'.window.last_timeouts ≡ s.window.last_timeouts

abbrev answered : Exchange → Answer → Exchange
answered x a = record x { answer = a }

module _ {Value State : Type 0} where
  same-Accounts : (s : Scheduler Value State) → Accounts s s
  same-Accounts s = record {
    errors = omega arith;
    timeouts = omega arith;
    polls = omega arith;
    deadlines = refl;
    last_timeouts = refl;
  }

  then-Accounts : (a b c : Scheduler Value State) → Accounts a b → Accounts b c → Accounts a c
  then-Accounts a b c h k = record {
    errors = omega (arith, h.errors, k.errors);
    timeouts = omega (arith, h.timeouts, k.timeouts);
    polls = omega (arith, h.polls, k.polls);
    deadlines = k.deadlines ∙ h.deadlines;
    last_timeouts = k.last_timeouts ∙ h.last_timeouts;
  }

  -- One poll, with at most one error, which a timeout is.
  one_poll :
      (s s' : Scheduler Value State) (e t : ℕ)
      → t ≤ e
      → e ≤ 1
      → s'.poll_count ≡ suc s.poll_count
      → s'.poll_error_count ≡ s.poll_error_count + e
      → s'.window.timeout_count ≡ s.window.timeout_count + t
      → s'.next_due ≡ s.next_due
      → s'.window.last_timeouts ≡ s.window.last_timeouts
      → Accounts s s'
  one_poll s s' e t te e1 polls errors timeouts deadlines last = record {
    errors = omega arith;
    timeouts = omega arith;
    polls = omega arith;
    deadlines = deadlines;
    last_timeouts = last;
  }

  cache-Accounts :
      (s : Scheduler Value State) (c : StateCache Value State) → Accounts s (record s { cache = c })
  cache-Accounts s c = record {
    errors = omega arith;
    timeouts = omega arith;
    polls = omega arith;
    deadlines = refl;
    last_timeouts = refl;
  }

module _ {Value State : Type 0} ⦃val : Eq Value⦄ (h : Hooks Value State)
    (loads : Bytes → Loaded Value) where
  apply_links-Accounts :
      (s : Scheduler Value State) (x : Exchange) (links : Dict Href (Body Value))
      → Accounts s (apply_links h loads s x links)
  unfolding apply_links
  apply_links-Accounts s x [] = same-Accounts s
  apply_links-Accounts s x ((href, r) ∷ links) =
      elim (Bool-cases (is_link_deferred s href x.over)) [
        | inl skip ↦ rw skip (apply_links-Accounts s x links)
        | inr fresh ↦
            let c = (apply_rep h x.wall s.cache href r "sweep" false).0 in
            rw fresh (
              then-Accounts s (record s { cache = c }) _ (cache-Accounts s c)
                (apply_links-Accounts (record s { cache = c }) x links))
      ]

  -- A response that was a success, however its body decodes.
  success : Scheduler Value State → Exchange → Scheduler Value State
  success s x = record (time_poll (count_poll s) x) { last_success_ts = x.over }

  success-Accounts : (s : Scheduler Value State) (x : Exchange) → Accounts s (success s x)
  unfolding count_poll time_poll record_rtt success
  success-Accounts s x =
      one_poll s _ 0 0 (omega arith) (omega arith) refl (omega arith) (omega arith) refl refl

  undecodable-Accounts :
      (s : Scheduler Value State) (x : Exchange) → Accounts s (count_error (success s x))
  unfolding count_poll count_error time_poll record_rtt success
  undecodable-Accounts s x =
      one_poll s _ 1 0 (omega arith) (omega arith) refl (omega arith) (omega arith) refl refl

  take_rep-Accounts :
      (s : Scheduler Value State) (href : String) (x : Exchange) (l : Loaded Value)
      → Accounts s (take_rep h loads (success s x) href x l)
  unfolding take_rep
  take_rep-Accounts s href x (rep r) =
      then-Accounts s (success s x) _ (success-Accounts s x) (cache-Accounts (success s x) _)
  take_rep-Accounts s href x (tree entries) = success-Accounts s x
  take_rep-Accounts s href x something = success-Accounts s x
  take_rep-Accounts s href x raises = undecodable-Accounts s x

  take_links-Accounts :
      (s : Scheduler Value State) (x : Exchange) (r : Result (Dict Href (Body Value)))
      → Accounts s (take_links h loads (success s x) x r)
  unfolding take_links
  take_links-Accounts s x (err e) = undecodable-Accounts s x
  take_links-Accounts s x (ok links) =
      then-Accounts s (success s x) _ (success-Accounts s x)
        (apply_links-Accounts (success s x) x links)

  take_tree-Accounts :
      (s : Scheduler Value State) (x : Exchange) (l : Loaded Value)
      → Accounts s (take_tree h loads (success s x) x l)
  unfolding take_tree
  take_tree-Accounts s x (rep r) = success-Accounts s x
  take_tree-Accounts s x (tree entries) = take_links-Accounts s x (index_device_tree entries)
  take_tree-Accounts s x something = success-Accounts s x
  take_tree-Accounts s x raises = undecodable-Accounts s x

  time_out-Accounts :
      (s : Scheduler Value State) (tier : PollTier) (href : String) (x : Exchange)
      → Accounts s (time_out (count_poll s) tier href x)
  unfolding count_poll time_out count_error defer record_timeout
  time_out-Accounts s tier href x =
      one_poll s _ 1 1 (omega arith) (omega arith) refl (omega arith) (omega arith) refl refl

  failed-Accounts :
      (s : Scheduler Value State) (x : Exchange)
      → Accounts s (time_poll (count_error (count_poll s)) x)
  unfolding count_poll count_error time_poll record_rtt
  failed-Accounts s x =
      one_poll s _ 1 0 (omega arith) (omega arith) refl (omega arith) (omega arith) refl refl

  refused-Accounts :
      (s : Scheduler Value State) (x : Exchange)
      → Accounts s (count_error (time_poll (count_poll s) x))
  unfolding count_poll count_error time_poll record_rtt
  refused-Accounts s x =
      one_poll s _ 1 0 (omega arith) (omega arith) refl (omega arith) (omega arith) refl refl

  poll-Accounts :
      (s : Scheduler Value State) (tier : PollTier) (href : String) (x : Exchange)
      → Accounts s (poll h loads s tier href x).1
  unfolding poll success
  poll-Accounts s tier href x =
      elim x.answer as (λ a. Accounts s (poll h loads s tier href (answered x a)).1) [
        | timeout ↦ time_out-Accounts s tier href (answered x timeout)
        | connection_error ↦ failed-Accounts s (answered x connection_error)
        | other_error ↦ failed-Accounts s (answered x other_error)
        | response code body ↦ elim (Bool-cases (is_success (response code body))) [
          | inl yes_success ↦
              rw yes_success
                (take_rep-Accounts s href (answered x (response code body)) (loads body))
          | inr refused ↦ rw refused (refused-Accounts s (answered x (response code body)))
        ]
      ]

  do_sweep-Accounts :
      (s : Scheduler Value State) (tier : PollTier) (path : List String) (x : Exchange)
      → Accounts s (do_sweep h loads s tier path x)
  unfolding do_sweep success
  do_sweep-Accounts s tier path x =
      elim x.answer as (λ a. Accounts s (do_sweep h loads s tier path (answered x a))) [
        | timeout ↦ time_out-Accounts s tier (href_of path) (answered x timeout)
        | connection_error ↦ failed-Accounts s (answered x connection_error)
        | other_error ↦ failed-Accounts s (answered x other_error)
        | response code body ↦ elim (Bool-cases (is_success (response code body))) [
          | inl yes_success ↦
              rw yes_success (take_tree-Accounts s (answered x (response code body)) (loads body))
          | inr refused ↦ rw refused (refused-Accounts s (answered x (response code body)))
        ]
      ]

  do_paths-Accounts :
      (s : Scheduler Value State) (tier : PollTier) (turns : List (List String × Exchange))
      → Accounts s (do_paths h loads s tier turns)
  unfolding do_paths
  do_paths-Accounts s tier [] = same-Accounts s
  do_paths-Accounts s tier ((path, x) ∷ rest) =
      let after = poll h loads s tier (href_of path) x in
      let first = poll-Accounts s tier (href_of path) x in
      elim (Bool-cases (is_deferred s (href_of path) x.checked)) [
        | inl skip ↦ rw skip (do_paths-Accounts s tier rest)
        | inr fresh ↦ elim (Bool-cases after.0) [
          | inl goes_on ↦
              rw (fresh, goes_on)
                (then-Accounts s after.1 _ first (do_paths-Accounts after.1 tier rest))
          | inr stops ↦ rw (fresh, stops) first
        ]
      ]

  sweep-Accounts :
      (s : Scheduler Value State) (tier : PollTier) (paths : List (List String)) (x : Exchange)
      → paths ≢ []
      → Accounts s
          (elim paths [ [] ↦ count_error s | path ∷ rest ↦ do_sweep h loads s tier path x ])
  sweep-Accounts s tier [] x nonempty = absurd (nonempty refl)
  sweep-Accounts s tier (path ∷ rest) x nonempty = do_sweep-Accounts s tier path x

  -- The turn of a tier that is no sweep without a path, whatever is answered: every error counted is one of a poll
  -- counted, every timeout in the window is an error, no deadline moves, and what the throttle reads stands.
  pub do_tier-Accounts :
      (s : Scheduler Value State) (tier : PollTier) (exchanges : ℕ → Exchange)
      → (tier.is_sweep ≡ true → tier.paths ≢ [])
      → Accounts s (do_tier h loads s tier exchanges)
  unfolding do_tier
  do_tier-Accounts s tier exchanges nonempty = elim (Bool-cases tier.is_sweep) [
    | inl sweep ↦ simp sweep (sweep-Accounts s tier tier.paths (exchanges 0) (nonempty sweep))
    | inr no_sweep ↦ simp no_sweep (do_paths-Accounts s tier (enumerate exchanges 0 tier.paths))
  ]
