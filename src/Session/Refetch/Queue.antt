-- ===== src/Session/Refetch/Queue.antt =====
-- The bounds and the order of the refetch queue.
use smart_things_local.Prelude.{
  ℕ, suc, ◌+◌, ◌≤◌, ◌≡◌, ◌⊎◌, refl, ◌∙◌, Bool, true, not, ◌&&◌, List, [], ◌∷◌, All, none, some,
  arith, leb, if◌then◌else◌, length, Bool-cases, inl, inr,
}
use smart_things_local.Ocf.Dict.{Eq, Dict, get, set, remove}
use smart_things_local.Ocf.Dict.Laws.{get-set}
use smart_things_local.Session.Relations.{has}
use smart_things_local.Session.Refetch.{
  RefetchKey, key_eq, Refetches, queue_refetch, take_entry, take_refetch, is_among, discard_pending,
  discard_refetches_for_hrefs, is_superseded,
}

module _ {K V : Type 0} ⦃key : Eq K⦄ where
  length-set :
      (d : Dict K V) (k : K) (v : V)
      → length (set d k v) ≡ (if has (get d k) then length d else suc (length d))
  unfolding set get
  length-set [] k v = refl
  length-set ((j, w) ∷ d) k v = elim (Bool-cases (key.equal k j)) [
    | inl same ↦ rw same refl
    | inr other ↦ rw other (ground (arith, length-set d k v))
  ]

  length-remove : (d : Dict K V) (k : K) → length (remove d k) ≤ length d
  unfolding remove
  length-remove [] k = omega arith
  length-remove ((j, w) ∷ d) k = elim (Bool-cases (key.equal k j)) [
    | inl same ↦ rw same (omega (arith, length-remove d k))
    | inr other ↦ rw other (omega (arith, length-remove d k))
  ]

  All-set :
      (P : V → Type 0) (d : Dict K V) (k : K) (v : V)
      → P v
      → All (λ (x : K × V). P x.1) d
      → All (λ (x : K × V). P x.1) (set d k v)
  unfolding set
  All-set P [] k v h a = (h, tt)
  All-set P ((j, w) ∷ d) k v h (h', a) = elim (Bool-cases (key.equal k j)) [
    | inl same ↦ rw same (h, a)
    | inr other ↦ rw other (h', All-set P d k v h a)
  ]

  All-remove :
      (P : V → Type 0) (d : Dict K V) (k : K)
      → All (λ (x : K × V). P x.1) d
      → All (λ (x : K × V). P x.1) (remove d k)
  unfolding remove
  All-remove P [] k a = tt
  All-remove P ((j, w) ∷ d) k (h, a) = elim (Bool-cases (key.equal k j)) [
    | inl same ↦ rw same (All-remove P d k a)
    | inr other ↦ rw other (h, All-remove P d k a)
  ]

-- What the reader, the worker and a retirement do to the queue.
pub data QueueStep (Href Query : Type 0) : Type 0 where
  queue : RefetchKey Href Query → Bool → QueueStep Href Query
  take_one : QueueStep Href Query
  discard : List Href → QueueStep Href Query

module _ {Href Query : Type 0} ⦃href_eq : Eq Href⦄ ⦃query_eq : Eq Query⦄ where
  abbrev pub empty_queue : Refetches Href Query
  empty_queue = record { pending = []; seq = 0 }

  unfoldable pub run_queue :
      Refetches Href Query → List (QueueStep Href Query) → Refetches Href Query
  run_queue q [] = q
  run_queue q (queue key registration ∷ steps) = run_queue (queue_refetch q key registration) steps
  run_queue q (take_one ∷ steps) = run_queue (take_refetch q).1 steps
  run_queue q (discard hrefs ∷ steps) = run_queue (discard_refetches_for_hrefs q hrefs) steps

  -- At most sixteen relations wait, and no request has a number that is still to be given.
  pub record IsBounded (q : Refetches Href Query) : Type 0 where
    pub length_bound : length q.pending ≤ 16
    pub seq_bound : All (λ (x : RefetchKey Href Query × (ℕ × Bool)). x.1.0 ≤ q.seq) q.pending

  All-weaken :
      (n m : ℕ) (d : Dict (RefetchKey Href Query) (ℕ × Bool))
      → n ≤ m
      → All (λ (x : RefetchKey Href Query × (ℕ × Bool)). x.1.0 ≤ n) d
      → All (λ (x : RefetchKey Href Query × (ℕ × Bool)). x.1.0 ≤ m) d
  All-weaken n m [] h a = tt
  All-weaken n m (x ∷ d) h (k, a) = (omega arith, All-weaken n m d h a)

  queue_refetch-IsBounded :
      (q : Refetches Href Query) (key : RefetchKey Href Query) (registration : Bool)
      → IsBounded q
      → IsBounded (queue_refetch q key registration)
  unfolding queue_refetch
  queue_refetch-IsBounded q key registration b =
      elim (Bool-cases (not (has (get q.pending key)) && leb 16 (length q.pending))) [
        | inl refused ↦ simp refused b
        | inr taken ↦ simp taken (record {
          length_bound =
              let bound = b.length_bound in
              ground (arith, length-set q.pending key (q.seq + 1, registration));
          seq_bound =
              All-set (λ (v : ℕ × Bool). v.0 ≤ q.seq + 1) q.pending key (q.seq + 1, registration)
                (omega arith) (All-weaken q.seq (q.seq + 1) q.pending (omega arith) b.seq_bound);
        })
      ]

  take_entry-IsBounded :
      (q : Refetches Href Query) (d : Dict (RefetchKey Href Query) (ℕ × Bool))
      → IsBounded q
      → IsBounded (take_entry q d).1
  unfolding take_entry
  take_entry-IsBounded q [] b = b
  take_entry-IsBounded q (entry ∷ _) b = record {
    length_bound = let bound = b.length_bound in omega (arith, length-remove q.pending entry.0);
    seq_bound = All-remove (λ (v : ℕ × Bool). v.0 ≤ q.seq) q.pending entry.0 b.seq_bound;
  }

  take_refetch-IsBounded : (q : Refetches Href Query) → IsBounded q → IsBounded (take_refetch q).1
  unfolding take_refetch
  take_refetch-IsBounded q b = take_entry-IsBounded q q.pending b

  discard_pending-IsBounded :
      (hrefs : List Href) (n : ℕ) (d : Dict (RefetchKey Href Query) (ℕ × Bool))
      → All (λ (x : RefetchKey Href Query × (ℕ × Bool)). x.1.0 ≤ n) d
      → (length (discard_pending hrefs d) ≤ length d)
        × All (λ (x : RefetchKey Href Query × (ℕ × Bool)). x.1.0 ≤ n) (discard_pending hrefs d)
  unfolding discard_pending
  discard_pending-IsBounded hrefs n [] a = (omega arith, tt)
  discard_pending-IsBounded hrefs n (x ∷ d) (h, a) =
      let (shorter, a') = discard_pending-IsBounded hrefs n d a in
      elim (Bool-cases (is_among hrefs x.0.0)) [
        | inl gone ↦ rw gone (omega arith, a')
        | inr stays ↦ rw stays (omega arith, (h, a'))
      ]

  run_queue-IsBounded :
      (q : Refetches Href Query) (steps : List (QueueStep Href Query))
      → IsBounded q
      → IsBounded (run_queue q steps)
  unfolding run_queue discard_refetches_for_hrefs
  run_queue-IsBounded q [] b = b
  run_queue-IsBounded q (queue key registration ∷ steps) b =
      run_queue-IsBounded (queue_refetch q key registration) steps
        (queue_refetch-IsBounded q key registration b)
  run_queue-IsBounded q (take_one ∷ steps) b =
      run_queue-IsBounded (take_refetch q).1 steps (take_refetch-IsBounded q b)
  run_queue-IsBounded q (discard hrefs ∷ steps) b =
      let (shorter, kept) = discard_pending-IsBounded hrefs q.seq q.pending b.seq_bound in
      let bound = b.length_bound in
      run_queue-IsBounded (discard_refetches_for_hrefs q hrefs) steps
        (record { length_bound = omega arith; seq_bound = kept })

  -- Numbers only grow.
  queue_refetch-seq :
      (q : Refetches Href Query) (key : RefetchKey Href Query) (registration : Bool)
      → q.seq ≤ (queue_refetch q key registration).seq
  unfolding queue_refetch
  queue_refetch-seq q key registration = ground arith

  take_entry-seq :
      (q : Refetches Href Query) (d : Dict (RefetchKey Href Query) (ℕ × Bool))
      → (take_entry q d).1.seq ≡ q.seq
  unfolding take_entry
  take_entry-seq q [] = refl
  take_entry-seq q (entry ∷ _) = refl

  run_queue-seq :
      (q : Refetches Href Query) (steps : List (QueueStep Href Query))
      → q.seq ≤ (run_queue q steps).seq
  unfolding run_queue discard_refetches_for_hrefs take_refetch
  run_queue-seq q [] = omega arith
  run_queue-seq q (queue key registration ∷ steps) = omega (
    arith,
    queue_refetch-seq q key registration,
    run_queue-seq (queue_refetch q key registration) steps,
  )
  run_queue-seq q (take_one ∷ steps) =
      omega (arith, take_entry-seq q q.pending, run_queue-seq (take_entry q q.pending).1 steps)
  run_queue-seq q (discard hrefs ∷ steps) =
      run_queue-seq (discard_refetches_for_hrefs q hrefs) steps

  -- What is taken has a number that was given.
  take_entry-given :
      (q : Refetches Href Query) (d : Dict (RefetchKey Href Query) (ℕ × Bool))
      (key : RefetchKey Href Query) (n : ℕ) (registration : Bool)
      → All (λ (x : RefetchKey Href Query × (ℕ × Bool)). x.1.0 ≤ q.seq) d
      → (take_entry q d).0 ≡ some (key, (n, registration))
      → n ≤ (take_entry q d).1.seq
  unfolding take_entry
  take_entry-given q [] key n registration a e = absurd (ground arith)
  take_entry-given q ((k, (m, r)) ∷ d) key n registration (h, a) e =
      let same : m ≡ n = ground arith in omega arith

  queue_refetch-newest :
      (q : Refetches Href Query) (key : RefetchKey Href Query) (registration : Bool) (n : ℕ)
      → length q.pending ≤ 16
      → n ≤ q.seq
      → ((queue_refetch q key registration ≡ q)
          × (length q.pending ≡ 16)
          × (get q.pending key ≡ none))
        ⊎ (is_superseded (queue_refetch q key registration) key n ≡ true)
  unfolding queue_refetch is_superseded
  queue_refetch-newest q key registration n bound given =
      elim (Bool-cases (not (has (get q.pending key)) && leb 16 (length q.pending))) [
        | inl refused ↦ inl (simp refused refl, ground arith, ground arith)
        | inr taken ↦
            let found : get (set q.pending key (q.seq + 1, registration)) key
                ≡ some (q.seq + 1, registration) =
              get-set q.pending key (q.seq + 1, registration) key
              ∙ rw ((key_eq.equal_iff key key).1 refl) refl in
            inr (simp (taken, found) (ground arith))
      ]

  -- Whatever the queue goes through, before and after a request is taken from it to be read: at most sixteen relations wait;
  -- and a newer notification of the same relation is refused only where sixteen relations wait and this one
  -- does not, and otherwise makes what is read superseded.
  pub run_queue-superseded :
      (before after : List (QueueStep Href Query)) (key : RefetchKey Href Query) (n : ℕ)
      (registration newer : Bool)
      → (take_refetch (run_queue empty_queue before)).0 ≡ some (key, (n, registration))
      → let q = run_queue (take_refetch (run_queue empty_queue before)).1 after in
        (length q.pending ≤ 16)
        × (((queue_refetch q key newer ≡ q) × (length q.pending ≡ 16) × (get q.pending key ≡ none))
            ⊎ (is_superseded (queue_refetch q key newer) key n ≡ true))
  unfolding take_refetch
  run_queue-superseded before after key n registration newer taken =
      let first = run_queue empty_queue before in
      let b =
        run_queue-IsBounded empty_queue before
          (record { length_bound = omega arith; seq_bound = tt }) in
      let reading = (take_refetch first).1 in
      let given = take_entry-given first first.pending key n registration b.seq_bound taken in
      let b' = run_queue-IsBounded reading after (take_refetch-IsBounded first b) in
      let later = run_queue-seq reading after in
      (
        b'.length_bound,
        queue_refetch-newest (run_queue reading after) key newer n b'.length_bound (omega arith),
      )
