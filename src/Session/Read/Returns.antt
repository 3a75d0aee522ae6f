-- ===== src/Session/Read/Returns.antt =====
-- A blockwise read returns as soon as its messages complete the accumulator.
use smart_things_local.Prelude.{
  ltb, length, ◌≤◌, ◌≡◌, inl, inr, refl, ap, ◌∙◌, true, false, List, [], ◌∷◌, All, Option, none,
  some, arith, Bool-cases,
}
use smart_things_local.Prelude.Bytes.{Bytes, bytes_eq_iff}
use smart_things_local.Errors.{Result, ok, >>=-eq-ok}
use smart_things_local.Coap.Wire.{CoapMessage}
use smart_things_local.Coap.Placement.{
  Accumulator, Outcome, duplicate, continue, complete, fresh, init, max_block2_blocks,
  max_block2_payload_bytes,
}
use smart_things_local.Coap.Accumulator.{add_response, add_all}
use smart_things_local.Coap.Accumulator.Added.{add_response-Added}
use smart_things_local.Coap.Accumulator.Effect.{add_response-Effect}
use smart_things_local.Session.Blocks.{is_success}
use smart_things_local.Session.Read.{
  Attempt, returned, block_etag, etag_differs, kept_etag, is_changed, read_on, read_from, read_new,
  blockwise_get_once,
}
use smart_things_local.Session.Read.Coherent.{
  new, answered, HasTag, HasOneTag, kept_etag_later, kept_etag_first, no_duplicate,
}

HasTag-etag_differs :
    (etag found : Option Bytes)
    → ((t : Bytes) → etag ≡ some t → found ≡ some t)
    → etag_differs etag found ≡ false
HasTag-etag_differs none found h = refl
HasTag-etag_differs (some t) none h = absurd (ground (arith, h t refl))
HasTag-etag_differs (some t) (some f) h =
    let same : f ≡ t = (let e = h t refl in ground arith) in
    let found = (bytes_eq_iff f t).1 same in ground arith

HasTag-unchanged :
    (acc : Accumulator) (etag : Option Bytes) (m : CoapMessage)
    → HasTag etag m
    → is_changed acc etag m ≡ false
unfolding is_changed
HasTag-unchanged acc etag m h = elim (Bool-cases (is_success m)) [
  | inr failed ↦ rw failed refl
  | inl success ↦ let same = HasTag-etag_differs etag (block_etag m) (h success) in ground arith
]

-- Nothing is added to an accumulator that is complete.
add_all_closed :
    (a acc : Accumulator) (ms : List CoapMessage)
    → a.complete ≡ true
    → add_all a ms ≡ ok acc
    → a ≡ acc
unfolding add_all
add_all_closed a acc [] closed h = ground arith
add_all_closed a acc (m ∷ ms) closed h =
    let ((o, b), e, _) = >>=-eq-ok (add_response a m) _ h in
    let open_before = (add_response-Added a m o b e).0.still_open in absurd (ground arith)

read_from_step :
    (acc a : Accumulator) (etag : Option Bytes) (m : CoapMessage) (o : Outcome)
    (answers : List (Result CoapMessage))
    → is_changed acc etag m ≡ false
    → add_response acc m ≡ ok (o, a)
    → read_from acc etag (ok m ∷ answers)
      ≡ read_on (ok (o, a)) (λ b. read_from b (kept_etag acc etag m) answers)
unfolding read_from
read_from_step acc a etag m o answers same e = rw (same, e) refl

read_on-returned :
    (acc a acc' : Accumulator) (etag : Option Bytes) (m : CoapMessage) (o : Outcome)
    (ms : List CoapMessage) (later : Accumulator → Attempt)
    → add_response acc m ≡ ok (o, a)
    → acc.complete ≡ false
    → 1 ≤ acc.blocks_received
    → add_all a ms ≡ ok acc'
    → ((b : Accumulator)
        → 1 ≤ b.blocks_received
        → b.complete ≡ false
        → add_all b ms ≡ ok acc'
        → later b ≡ returned acc')
    → read_on (ok (o, a)) later ≡ returned acc'
unfolding read_on
read_on-returned acc a acc' etag m complete ms later e unfinished some_blocks h next =
    let closed = (add_response-Effect acc m complete a e).2 in
    ap (λ (x : Accumulator). returned x) (add_all_closed a acc' ms closed h)
read_on-returned acc a acc' etag m continue ms later e unfinished some_blocks h next =
    let effect = add_response-Effect acc m continue a e in
    let grown = effect.3 in next a (omega arith) effect.4 h
read_on-returned acc a acc' etag m duplicate ms later e unfinished some_blocks h next =
    let same = add_response-Effect acc m duplicate a e in
    next a (rw same some_blocks) (rw same unfinished) h

read_from-returned :
    (ms : List CoapMessage) (acc acc' : Accumulator) (etag : Option Bytes)
    → All (HasTag etag) ms
    → 1 ≤ acc.blocks_received
    → acc.complete ≡ false
    → acc'.complete ≡ true
    → add_all acc ms ≡ ok acc'
    → read_from acc etag (answered ms) ≡ returned acc'
unfolding add_all
read_from-returned [] acc acc' etag t some_blocks unfinished closed h =
    let same : acc ≡ acc' = ground arith in
    absurd (ground (arith, ap (λ (x : Accumulator). x.complete) same))
read_from-returned (m ∷ ms) acc acc' etag (t, ts) some_blocks unfinished closed h =
    let ((o, a), e, h') = >>=-eq-ok (add_response acc m) _ h in
    read_from_step acc a etag m o (answered ms) (HasTag-unchanged acc etag m t) e
    ∙ read_on-returned acc a acc' etag m o ms _ e unfinished some_blocks h' (λ b grown still k.
      rw (kept_etag_later acc etag m some_blocks)
        (read_from-returned ms b acc' etag ts grown still closed k))

module _ (token : Bytes) where
  read_first_returned :
      (m : CoapMessage) (o : Outcome) (a acc' : Accumulator) (ms : List CoapMessage)
      → add_response (new token) m ≡ ok (o, a)
      → All (HasTag (block_etag m)) ms
      → acc'.complete ≡ true
      → add_all a ms ≡ ok acc'
      → read_on (ok (o, a)) (λ b. read_from b (kept_etag (new token) none m) (answered ms))
        ≡ returned acc'
  unfolding read_on
  read_first_returned m complete a acc' ms e ts closed h =
      let ended = (add_response-Effect (new token) m complete a e).2 in
      ap (λ (x : Accumulator). returned x) (add_all_closed a acc' ms ended h)
  read_first_returned m continue a acc' ms e ts closed h =
      let effect = add_response-Effect (new token) m continue a e in
      let grown = effect.3 in
      rw (kept_etag_first token none m effect.0)
        (read_from-returned ms a acc' (block_etag m) ts (omega arith) effect.4 closed h)
  read_first_returned m duplicate a acc' ms e ts closed h = absurd (no_duplicate token m a e)

  read_from-new :
      (ms : List CoapMessage) (acc' : Accumulator)
      → HasOneTag ms
      → acc'.complete ≡ true
      → add_all (new token) ms ≡ ok acc'
      → read_from (new token) none (answered ms) ≡ returned acc'
  unfolding add_all is_changed
  read_from-new [] acc' ts closed h =
      absurd (ground (arith, ap (λ (x : Result Accumulator). x ≡ x) h))
  read_from-new (m ∷ ms) acc' ts closed h =
      let ((o, a), e, h') = >>=-eq-ok (add_response (new token) m) _ h in
      read_from_step (new token) a none m o (answered ms) (ground arith) e
      ∙ read_first_returned m o a acc' ms e ts closed h'

  -- Messages that a new accumulator accepts to the end, and that carry the entity tag of the first, where that has one and
  -- they are successful: answered with them, a blockwise read returns what the accumulator holds then.
  pub blockwise_get_once-returned :
      (ms : List CoapMessage) (acc : Accumulator)
      → length token ≤ 8
      → HasOneTag ms
      → acc.complete ≡ true
      → add_all (fresh token max_block2_blocks max_block2_payload_bytes none) ms ≡ ok acc
      → blockwise_get_once token (answered ms) ≡ returned acc
  unfolding blockwise_get_once init read_new
  blockwise_get_once-returned ms acc fits ts closed h =
      let made : ltb 8 (length token) ≡ false = ground arith in
      rw made (read_from-new ms acc ts closed h)
