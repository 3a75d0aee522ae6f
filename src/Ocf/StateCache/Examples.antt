-- ===== src/Ocf/StateCache/Examples.antt =====
-- The theorems on state_cache.py at a concrete cache: values are strings, and the hook counts.
use smart_things_local.Prelude.{ℕ, suc, true, false, ◌≡◌, refl, [], ◌∷◌, none, some, arith}
use Prim.Native.String.{String}
use smart_things_local.Errors.{ok, err, type_error}
use smart_things_local.Ocf.Dict.{get, set, update, same, includes, holds}
use smart_things_local.Ocf.StateCache.{
  string_eq, href_eq, textual, atom, same_href, unhashable, other, Rep, dict, StateCache, Hooks,
  init, resulting, differs, observe, notify, apply_dict, apply_rep, index_device_tree,
  index_entries, link, no_href,
}
use smart_things_local.Ocf.StateCache.Apply.{
  IsConsistent, Applied, apply_rep-Applied, apply_rep-IsConsistent,
}

abbrev hooks : Hooks String ℕ
hooks = record { on_observation = some (λ state href rep. suc state); has_on_change = true }

-- What the dryer's course answers to a GET, and what it notifies.
abbrev whole : Rep String
whole = ("options", "Course_10") ∷ ("supported", "all") ∷ []

abbrev delta : Rep String
delta = ("options", "Course_27") ∷ []

abbrev start : StateCache String ℕ
start = init 0

start-IsConsistent : IsConsistent start
unfolding get
start-IsConsistent = record {
  unique_links = tt;
  unique_times = tt;
  unique_sources = tt;
  unique_reps = λ href rep e. absurd (ground arith);
  timed = λ href. (λ e. refl, λ e. refl);
  sourced = λ href. (λ e. refl, λ e. refl);
}

abbrev polled : StateCache String ℕ
polled = (apply_rep hooks 5 start (textual "/course/vs/0") (dict whole) "poll" false).0

polled-IsConsistent : IsConsistent polled
unfolding get
polled-IsConsistent =
    apply_rep-IsConsistent hooks 5 start (textual "/course/vs/0") whole "poll" false
      start-IsConsistent (refl, (refl, tt))

merge-delta : apply_rep hooks 9 polled (textual "/course/vs/0") (dict delta) "observe" true ≡ (
  record {
    links = ((textual "/course/vs/0"), ("options", "Course_27") ∷ ("supported", "all") ∷ []) ∷ [];
    last_updated = ((textual "/course/vs/0"), 9) ∷ [];
    source = ((textual "/course/vs/0"), "observe") ∷ [];
    descriptor_state = 2;
    changes = (true, "observe") ∷ (true, "poll") ∷ [];
  },
  true,
)
unfolding apply_rep apply_dict resulting differs observe notify get set same_href update same
    includes holds
merge-delta = refl

index_four :
    index_device_tree (
      link (textual "/device/0") (some (dict whole))
      ∷ no_href
      ∷ link (textual "/power/0") none
      ∷ link (atom 7) (some other)
      ∷ link (textual "/course/vs/0") (some (dict delta))
      ∷ [])
    ≡ ok (
        (textual "/power/0", dict []) ∷ (atom 7, other) ∷ (textual "/course/vs/0", dict delta) ∷ [])
unfolding index_entries set same_href
index_four = refl

index_unhashable :
    index_device_tree (link (atom 7) (some (dict whole)) ∷ unhashable ∷ []) ≡ err type_error
unfolding index_entries set same_href
index_unhashable = refl

apply_rep-Applied_example :
    Applied polled
      (apply_rep hooks 9 polled (textual "/course/vs/0") (dict delta) "observe" true).0
      9
      (textual "/course/vs/0")
      delta
      "observe"
      true
      (apply_rep hooks 9 polled (textual "/course/vs/0") (dict delta) "observe" true).1
unfolding get
apply_rep-Applied_example =
    apply_rep-Applied hooks 9 polled (textual "/course/vs/0") delta "observe" true
      polled-IsConsistent (refl, tt)

apply_rep-IsConsistent_example :
    IsConsistent (apply_rep hooks 9 polled (textual "/course/vs/0") (dict delta) "observe" true).0
unfolding get
apply_rep-IsConsistent_example =
    apply_rep-IsConsistent hooks 9 polled (textual "/course/vs/0") delta "observe" true
      polled-IsConsistent (refl, tt)
