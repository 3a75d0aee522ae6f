-- ===== src/Session/Read/Coherent.antt =====
-- A blockwise read returns what the accumulator makes of messages that carry one entity tag.
use smart_things_local.Prelude.{
  ◌/◌, ltb, length, ◌≤◌, ◌≡◌, ◌⊎◌, inl, inr, refl, sym, ap, ◌∙◌, true, false, List, [], ◌∷◌, ◌++◌,
  All, Option, none, some, arith, Bool-cases,
}
use smart_things_local.Prelude.Bytes.{Bytes, bytes_eq_iff}
use smart_things_local.Errors.{Error, Result, ok, err, value_error, Result-cases}
use smart_things_local.Coap.Wire.{CoapMessage}
use smart_things_local.Coap.Placement.{
  Accumulator, Outcome, duplicate, continue, complete, fresh, init, max_block2_blocks,
  max_block2_payload_bytes,
}
use smart_things_local.Coap.Accumulator.{add_response, add_all}
use smart_things_local.Coap.Accumulator.Added.{
  repeated, failed, whole, last, more, add_response-Added,
}
use smart_things_local.Coap.Accumulator.Effect.{add_response-Effect}
use smart_things_local.Session.Blocks.{is_success}
use smart_things_local.Session.Read.{
  Attempt, etag_changed, raised, returned, block_etag, etag_differs, kept_etag, is_changed, read_on,
  read_from, read_new, blockwise_get_once, attempt_result, attempt_again, blockwise_get,
}

-- A successful message that carries the tag, where there is one.
abbrev pub HasTag : Option Bytes → CoapMessage → Type 0
HasTag etag m = is_success m ≡ true → (t : Bytes) → etag ≡ some t → block_etag m ≡ some t

-- Every message after the first carries the tag of the first.
abbrev pub HasOneTag : List CoapMessage → Type 0
HasOneTag [] = Unit
HasOneTag (m ∷ ms) = All (HasTag (block_etag m)) ms

etag_differs-HasTag :
    (etag found : Option Bytes) (t : Bytes)
    → etag_differs etag found ≡ false
    → etag ≡ some t
    → found ≡ some t
etag_differs-HasTag none found t e k = absurd (ground arith)
etag_differs-HasTag (some s) none t e k = absurd (ground arith)
etag_differs-HasTag (some s) (some f) t e k =
    let same : f ≡ s = (bytes_eq_iff f s).0 (ground arith) in ap some same ∙ k

unchanged-HasTag :
    (acc : Accumulator) (etag : Option Bytes) (m : CoapMessage)
    → 1 ≤ acc.blocks_received
    → is_changed acc etag m ≡ false
    → HasTag etag m
unfolding is_changed
unchanged-HasTag acc etag m later e success t tagged =
    let stays : etag_differs etag (block_etag m) ≡ false = ground arith in
    etag_differs-HasTag etag (block_etag m) t stays tagged

pub kept_etag_later :
    (acc : Accumulator) (etag : Option Bytes) (m : CoapMessage)
    → 1 ≤ acc.blocks_received
    → kept_etag acc etag m ≡ etag
unfolding kept_etag
kept_etag_later acc etag m later = ground arith

-- The answers that messages are.
abbrev pub answered : List CoapMessage → List (Result CoapMessage)
answered [] = []
answered (m ∷ ms) = ok m ∷ answered ms

-- What is read: the first of the answers, messages that the accumulator accepted, to the end.
record Read (acc : Accumulator) (etag : Option Bytes) (answers : List (Result CoapMessage))
    (acc' : Accumulator) : Type 0 where
  messages : List CoapMessage
  unread : List (Result CoapMessage)
  first : answered messages ++ unread ≡ answers
  added : add_all acc messages ≡ ok acc'
  tagged : All (HasTag etag) messages
  ended : acc'.complete ≡ true

add_all_step :
    (acc acc' : Accumulator) (o : Outcome) (m : CoapMessage) (ms : List CoapMessage)
    → add_response acc m ≡ ok (o, acc')
    → add_all acc (m ∷ ms) ≡ add_all acc' ms
unfolding add_all
add_all_step acc acc' o m ms e = rw e refl

add_all_end : (acc : Accumulator) → add_all acc [] ≡ ok acc
unfolding add_all
add_all_end acc = refl

-- A message that was added, before those that are read after it.
add_before :
    (acc a acc' : Accumulator) (etag : Option Bytes) (m : CoapMessage)
    (answers : List (Result CoapMessage)) (o : Outcome)
    → add_response acc m ≡ ok (o, a)
    → HasTag etag m
    → Read a etag answers acc'
    → Read acc etag (ok m ∷ answers) acc'
add_before acc a acc' etag m answers o e t r = record {
  messages = m ∷ r.messages;
  unread = r.unread;
  first = ap (λ (rest : List (Result CoapMessage)). ok m ∷ rest) r.first;
  added = add_all_step acc a o m r.messages e ∙ r.added;
  tagged = (t, r.tagged);
  ended = r.ended;
}

add_last :
    (acc a : Accumulator) (etag : Option Bytes) (m : CoapMessage)
    (answers : List (Result CoapMessage))
    → add_response acc m ≡ ok (complete, a)
    → HasTag etag m
    → Read acc etag (ok m ∷ answers) a
add_last acc a etag m answers e t = record {
  messages = m ∷ [];
  unread = answers;
  first = refl;
  added = add_all_step acc a complete m [] e ∙ add_all_end a;
  tagged = (t, tt);
  ended = (add_response-Effect acc m complete a e).2;
}

read_on-Read :
    (acc a acc' : Accumulator) (etag : Option Bytes) (m : CoapMessage) (o : Outcome)
    (answers : List (Result CoapMessage)) (later : Accumulator → Attempt)
    → 1 ≤ acc.blocks_received
    → add_response acc m ≡ ok (o, a)
    → HasTag etag m
    → ((b : Accumulator)
        → 1 ≤ b.blocks_received
        → later b ≡ returned acc'
        → Read b etag answers acc')
    → read_on (ok (o, a)) later ≡ returned acc'
    → Read acc etag (ok m ∷ answers) acc'
unfolding read_on
read_on-Read acc a acc' etag m complete answers later some_blocks e t next h =
    let same : a ≡ acc' = ground arith in rw (sym same) (add_last acc a etag m answers e t)
read_on-Read acc a acc' etag m continue answers later some_blocks e t next h =
    let grown = (add_response-Effect acc m continue a e).3 in
    add_before acc a acc' etag m answers continue e t (next a (omega arith) h)
read_on-Read acc a acc' etag m duplicate answers later some_blocks e t next h =
    let same = add_response-Effect acc m duplicate a e in
    add_before acc a acc' etag m answers duplicate e t (next a (rw same some_blocks) h)

read_from-Read :
    (answers : List (Result CoapMessage)) (acc acc' : Accumulator) (etag : Option Bytes)
    → 1 ≤ acc.blocks_received
    → read_from acc etag answers ≡ returned acc'
    → Read acc etag answers acc'
unfolding read_from read_on
read_from-Read [] acc acc' etag some_blocks h = absurd (ground arith)
read_from-Read (err e ∷ answers) acc acc' etag some_blocks h = absurd (ground arith)
read_from-Read (ok m ∷ answers) acc acc' etag some_blocks h =
    elim (Bool-cases (is_changed acc etag m)) [
      | inl changed ↦ absurd (ground (arith, rw changed at h))
      | inr same ↦ elim (Result-cases (add_response acc m)) [
        | inr (e, failed_as) ↦
            let stopped : raised e ≡ returned acc' = rw (same, failed_as) at h in
            absurd (ground arith)
        | inl ((o, a), e) ↦
            read_on-Read acc a acc' etag m o answers
              (λ b. read_from b (kept_etag acc etag m) answers) some_blocks e
              (unchanged-HasTag acc etag m some_blocks same)
              (λ b grown k.
                read_from-Read answers b acc' etag grown
                  (rw (kept_etag_later acc etag m some_blocks) at k))
              (rw (same, e) at h)
      ]
    ]

-- What is read from the beginning.
pub record ReadWhole (token : Bytes) (answers : List (Result CoapMessage)) (acc : Accumulator)
    : Type 0 where
  pub messages : List CoapMessage
  pub unread : List (Result CoapMessage)
  pub first : answered messages ++ unread ≡ answers
  pub added :
      add_all (fresh token max_block2_blocks max_block2_payload_bytes none) messages ≡ ok acc
  pub one_tag : HasOneTag messages
  pub ended : acc.complete ≡ true

module _ (token : Bytes) where
  abbrev pub new : Accumulator
  new = fresh token max_block2_blocks max_block2_payload_bytes none

  pub no_duplicate :
      (m : CoapMessage) (a : Accumulator) → add_response new m ≡ ok (duplicate, a) → ⊥
  no_duplicate m a e = elim ((add_response-Added new m duplicate a e).1) [
    | repeated b h o k ↦ omega arith
    | failed h k o l ↦ ground arith
    | whole md h k n r o l ↦ ground arith
    | last md b offset h k n r o l ↦ ground arith
    | more md b offset h k z p n r o l ↦ ground arith
  ]

  pub kept_etag_first :
      (etag : Option Bytes) (m : CoapMessage)
      → m.code / 32 ≡ 2
      → kept_etag new etag m ≡ block_etag m
  unfolding kept_etag
  kept_etag_first etag m h = ground arith

  read_first :
      (m : CoapMessage) (o : Outcome) (a acc' : Accumulator) (answers : List (Result CoapMessage))
      → add_response new m ≡ ok (o, a)
      → read_on (ok (o, a)) (λ b. read_from b (kept_etag new none m) answers) ≡ returned acc'
      → ReadWhole token (ok m ∷ answers) acc'
  unfolding read_on
  read_first m complete a acc' answers e h =
      let same : a ≡ acc' = ground arith in
      rw (sym same) (record {
        messages = m ∷ [];
        unread = answers;
        first = refl;
        added = add_all_step new a complete m [] e ∙ add_all_end a;
        one_tag = tt;
        ended = (add_response-Effect new m complete a e).2;
      })
  read_first m continue a acc' answers e h =
      let effect = add_response-Effect new m continue a e in
      let grown = effect.3 in
      let r =
        read_from-Read answers a acc' (block_etag m) (omega arith)
          (rw (kept_etag_first none m effect.0) at h) in
      record {
        messages = m ∷ r.messages;
        unread = r.unread;
        first = ap (λ (rest : List (Result CoapMessage)). ok m ∷ rest) r.first;
        added = add_all_step new a continue m r.messages e ∙ r.added;
        one_tag = r.tagged;
        ended = r.ended;
      }
  read_first m duplicate a acc' answers e h = absurd (no_duplicate m a e)

  read_from-ReadWhole :
      (answers : List (Result CoapMessage)) (acc' : Accumulator)
      → read_from new none answers ≡ returned acc'
      → ReadWhole token answers acc'
  unfolding read_from read_on is_changed
  read_from-ReadWhole [] acc' h = absurd (ground arith)
  read_from-ReadWhole (err e ∷ answers) acc' h = absurd (ground arith)
  read_from-ReadWhole (ok m ∷ answers) acc' h =
      let same : is_changed new none m ≡ false = ground arith in
      elim (Result-cases (add_response new m)) [
        | inr (e, failed_as) ↦
            let stopped : raised e ≡ returned acc' = rw (same, failed_as) at h in
            absurd (ground arith)
        | inl ((o, a), e) ↦ read_first m o a acc' answers e (rw (same, e) at h)
      ]

  read_new-ReadWhole :
      (made : Result Accumulator) (answers : List (Result CoapMessage)) (acc' : Accumulator)
      → made ≡ ok new ⊎ ((e : Error) × (made ≡ err e))
      → read_new made answers ≡ returned acc'
      → ReadWhole token answers acc'
  unfolding read_new
  read_new-ReadWhole (err e) answers acc' k h = absurd (ground arith)
  read_new-ReadWhole (ok acc) answers acc' (inl k) h =
      let same : acc ≡ new = ground arith in read_from-ReadWhole answers acc' (rw same at h)
  read_new-ReadWhole (ok acc) answers acc' (inr (e, k)) h = absurd (ground arith)

  blockwise_get_once-ReadWhole :
      (answers : List (Result CoapMessage)) (acc' : Accumulator)
      → blockwise_get_once token answers ≡ returned acc'
      → ReadWhole token answers acc'
  unfolding blockwise_get_once init
  blockwise_get_once-ReadWhole answers acc' h =
      read_new-ReadWhole (init token max_block2_blocks max_block2_payload_bytes none) answers acc'
        (elim (Bool-cases (ltb 8 (length token))) [
          | inl long ↦ inr (value_error, rw long refl)
          | inr fits ↦ inl (rw fits refl)
        ])
        h

returned_by :
    (token token' : Bytes) (answers answers' : List (Result CoapMessage)) (first second : Attempt)
    (acc : Accumulator)
    → ((a : Accumulator) → first ≡ returned a → ReadWhole token answers a)
    → ((a : Accumulator) → second ≡ returned a → ReadWhole token' answers' a)
    → attempt_again first second ≡ ok acc
    → ReadWhole token answers acc ⊎ ((first ≡ etag_changed) × ReadWhole token' answers' acc)
unfolding attempt_again attempt_result
returned_by token token' answers answers' (returned a) second acc f g h =
    let same : a ≡ acc = ground arith in inl (f acc (ap (λ (x : Accumulator). returned x) same))
returned_by token token' answers answers' (raised e) second acc f g h = absurd (ground arith)
returned_by token token' answers answers' etag_changed (returned a) acc f g h =
    let same : a ≡ acc = ground arith in
    inr (refl, g acc (ap (λ (x : Accumulator). returned x) same))
returned_by token token' answers answers' etag_changed (raised e) acc f g h = absurd (ground arith)
returned_by token token' answers answers' etag_changed etag_changed acc f g h =
    absurd (ground arith)

-- What a blockwise read returns, whatever is answered: an accumulator, new for the first token, that has completed with the
-- first of the answers, all of them messages, each of which carries the entity tag of the first where that has
-- one and the message is a success; or, only if the first attempt ended with a changed tag, the same of the second token and the second
-- answers.
pub blockwise_get-ReadWhole :
    (token token' : Bytes) (answers answers' : List (Result CoapMessage)) (acc : Accumulator)
    → blockwise_get token answers token' answers' ≡ ok acc
    → ReadWhole token answers acc
      ⊎ ((blockwise_get_once token answers ≡ etag_changed) × ReadWhole token' answers' acc)
unfolding blockwise_get
blockwise_get-ReadWhole token token' answers answers' acc h =
    returned_by token token' answers answers' (blockwise_get_once token answers)
      (blockwise_get_once token' answers') acc (blockwise_get_once-ReadWhole token answers)
      (blockwise_get_once-ReadWhole token' answers') h
