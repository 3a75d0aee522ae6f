-- ===== src/Session/Dispatch/Routes.antt =====
-- Which requests a datagram reaches.
use smart_things_local.Prelude.{
  ℕ, ◌≡◌, ◌≢◌, ◌⊎◌, inl, inr, refl, ap, sym, Bool, true, false, List, [], Option, none, some, arith,
  ◌==◌, Bool-cases, Option-cases,
}
use smart_things_local.Prelude.Bytes.{Bytes, IsBytes}
use smart_things_local.Errors.{ok, Result-cases}
use smart_things_local.Coap.Options.{option_values}
use smart_things_local.Coap.Wire.{CoapMessage, parse_coap_message}
use smart_things_local.Coap.Response.{
  ResponseKind, ignore, empty_ack, reset, response, CoapResponseClassification,
  classify_coap_response,
}
use smart_things_local.Coap.Response.Route.{Suits}
use smart_things_local.Coap.Response.Correlation.{
  classify_coap_response-Suits, classify_coap_response_failure,
}
use smart_things_local.Ocf.Dict.{Eq, get}
use smart_things_local.Session.Pending.{nat_eq}
use smart_things_local.Session.Blocks.{block1_response_matches}
use smart_things_local.Session.Relations.{Relations}
use smart_things_local.Session.Recording.{
  Recorded, dropped, probation, accepted, blockwise_refetch, still_probationary,
}
use smart_things_local.Session.Dispatch.{
  bytes_key, Container, Session, Callbacks, Event, Step, ObserveDelivery, change,
  dispatch_empty_ack, dispatch_reset, answered_by, answer, observe_failed, hand_over, on_probation,
  follow_up, dispatch_notification, dispatch_response, dispatch_message, dispatch_classified,
  dispatch_observed, dispatch_answered, dispatch_result, dispatch_coap,
}

module _ {Href Query : Type 0} where
  -- The request that a message belongs to: by its message id, or by its token.
  abbrev pub Reaches : Session Href Query → CoapMessage → ℕ → Type 0
  Reaches s m j =
      ((m.code ≡ 0) × (get s.registry.pending_mids m.mid ≡ some j))
      ⊎ ((m.code ≢ 0)
          × (get s.registry.pending m.token ≡ some j)
          × (block1_response_matches m (s.containers j).expected ≡ true))

  -- Registered requests stay registered, and only one that the message belongs to may have changed.
  pub record Routed (s s' : Session Href Query) (m : CoapMessage) : Type 0 where
    pub registry_kept : s'.registry ≡ s.registry
    pub reached : (j : ℕ) → (s'.containers j ≡ s.containers j) ⊎ Reaches s m j

  unchanged : (s : Session Href Query) (m : CoapMessage) → Routed s s m
  unchanged s m = record { registry_kept = refl; reached = λ j. inl refl }

  change-Routed :
      (s : Session Href Query) (m : CoapMessage) (request : ℕ) (c : Container)
      → Reaches s m request
      → Routed s (change s request c) m
  unfolding change
  change-Routed s m request c h = record {
    registry_kept = refl;
    reached = λ j. elim (Bool-cases (j == request)) [
      | inl same ↦ let e : j ≡ request = ground arith in inr (rw e h)
      | inr other ↦ inl (rw other refl)
    ];
  }

  dispatch_empty_ack-Routed :
      (s : Session Href Query) (m : CoapMessage) (o : Option ℕ)
      → m.code ≡ 0
      → get s.registry.pending_mids m.mid ≡ o
      → Routed s (dispatch_empty_ack s o) m
  unfolding dispatch_empty_ack
  dispatch_empty_ack-Routed s m none h e = unchanged s m
  dispatch_empty_ack-Routed s m (some request) h e = change-Routed s m request _ (inl (h, e))

  dispatch_reset-Routed :
      (s : Session Href Query) (m : CoapMessage) (o : Option ℕ)
      → m.code ≡ 0
      → get s.registry.pending_mids m.mid ≡ o
      → Routed s (dispatch_reset s o) m
  unfolding dispatch_reset
  dispatch_reset-Routed s m none h e = unchanged s m
  dispatch_reset-Routed s m (some request) h e = change-Routed s m request _ (inl (h, e))

module _ {Href Query : Type 0} ⦃href_eq : Eq Href⦄ ⦃query_eq : Eq Query⦄ (no_query : Query)
    (cb : Callbacks) (now : ℕ)
    (meanwhile : Relations Bytes Href Query → Relations Bytes Href Query) where
  -- Observation leaves the requests alone.
  abbrev Aside : Session Href Query → Step Href Query → Type 0
  Aside s step = (step.0.registry ≡ s.registry) × (step.0.containers ≡ s.containers)

  hand_over-Aside :
      (s : Session Href Query) (refetch : Bool) (d : ObserveDelivery Href Query)
      → Aside s (hand_over s cb refetch d)
  unfolding hand_over
  hand_over-Aside s true d = (refl, refl)
  hand_over-Aside s false d = (refl, refl)

  on_probation-Aside :
      (s : Session Href Query) (m : CoapMessage) (refetch : Bool) (d : ObserveDelivery Href Query)
      → Aside s (on_probation no_query s cb meanwhile m refetch d)
  unfolding on_probation
  on_probation-Aside s m refetch d =
      let r = meanwhile s.relations in
      elim (Bool-cases (still_probationary no_query r m.token d.href d.query m.mid)) [
        | inl still ↦ simp still (hand_over-Aside (record s { relations = r }) refetch d)
        | inr gone ↦ simp gone (refl, refl)
      ]

  follow_up-Aside :
      (s : Session Href Query) (href : Href) (query : Query) (m : CoapMessage) (refetch : Bool)
      (o : Recorded)
      → Aside s (follow_up no_query s cb meanwhile href query m refetch o)
  unfolding follow_up
  follow_up-Aside s href query m refetch dropped = (refl, refl)
  follow_up-Aside s href query m refetch probation = on_probation-Aside s m refetch _
  follow_up-Aside s href query m refetch (accepted registration legacy sequence) =
      hand_over-Aside s refetch _

  dispatch_notification-Aside :
      (s : Session Href Query) (href : Href) (m : CoapMessage)
      → Aside s (dispatch_notification no_query s cb now meanwhile href m)
  unfolding dispatch_notification observe_failed
  dispatch_notification-Aside s href m = elim (Bool-cases (m.code == 0x45)) [
    | inr failed ↦ simp failed (refl, refl)
    | inl content ↦ elim (Option-cases (blockwise_refetch (option_values m.options 23))) [
      | inl malformed ↦ simp (content, malformed) (refl, refl)
      | inr (refetch, shaped) ↦ simp (content, shaped) (follow_up-Aside _ href _ m refetch _)
    ]
  ]

  Aside-Routed :
      (s : Session Href Query) (m : CoapMessage) (step : Step Href Query)
      → Aside s step
      → Routed s step.0 m
  Aside-Routed s m step (same_registry, same_containers) = record {
    registry_kept = same_registry;
    reached = λ j. inl (ap (λ (c : ℕ → Container). c j) same_containers);
  }

  answered_by-Reaches :
      (s : Session Href Query) (m : CoapMessage) (o : Option ℕ) (request : ℕ)
      → answered_by s m o ≡ some request
      → (o ≡ some request) × (block1_response_matches m (s.containers request).expected ≡ true)
  unfolding answered_by
  answered_by-Reaches s m none request e = absurd (ground arith)
  answered_by-Reaches s m (some r) request e =
      elim (Bool-cases (block1_response_matches m (s.containers r).expected)) [
        | inl matches ↦ let same : r ≡ request = ground arith in rw (sym same) (refl, matches)
        | inr other ↦ absurd (ground arith)
      ]

  dispatch_observed-Routed :
      (s : Session Href Query) (m : CoapMessage) (o : Option Href)
      → Routed s (dispatch_observed no_query s cb now meanwhile m o).0 m
  unfolding dispatch_observed
  dispatch_observed-Routed s m none = unchanged s m
  dispatch_observed-Routed s m (some href) =
      Aside-Routed s m (dispatch_notification no_query s cb now meanwhile href m)
        (dispatch_notification-Aside s href m)

  dispatch_answered-Routed :
      (s : Session Href Query) (m : CoapMessage) (o : Option ℕ)
      → m.code ≢ 0
      → answered_by s m (get s.registry.pending m.token) ≡ o
      → Routed s (dispatch_answered no_query s cb now meanwhile m o).0 m
  unfolding dispatch_answered answer
  dispatch_answered-Routed s m none coded e = dispatch_observed-Routed s m _
  dispatch_answered-Routed s m (some request) coded e =
      let (found, matches) = answered_by-Reaches s m _ request e in
      change-Routed s m request _ (inr (coded, found, matches))

  dispatch_response-Routed :
      (s : Session Href Query) (m : CoapMessage)
      → m.code ≢ 0
      → Routed s (dispatch_response no_query s cb now meanwhile m).0 m
  unfolding dispatch_response
  dispatch_response-Routed s m coded = dispatch_answered-Routed s m _ coded refl

  dispatch_message-Routed :
      (s : Session Href Query) (m : CoapMessage) (kind : ResponseKind)
      → Suits m kind
      → Routed s (dispatch_message no_query s cb now meanwhile m kind).0 m
  unfolding dispatch_message
  dispatch_message-Routed s m ignore h = unchanged s m
  dispatch_message-Routed s m empty_ack h = dispatch_empty_ack-Routed s m _ h refl
  dispatch_message-Routed s m reset h = dispatch_reset-Routed s m _ h refl
  dispatch_message-Routed s m response h = dispatch_response-Routed s m h

  dispatch_classified-Routed :
      (s : Session Href Query) (m : CoapMessage) (c : CoapResponseClassification)
      → Suits m c.kind
      → Routed s (dispatch_classified no_query s cb now meanwhile c (some m)).0 m
  unfolding dispatch_classified
  dispatch_classified-Routed s m c suits = dispatch_message-Routed s m c.kind suits

  -- Whatever bytes arrive, the dispatcher raises nothing and keeps the registry; and a request that it changes is one
  -- that the datagram belongs to: registered under the message id of a message without a code, or under the
  -- token of a message with one that can answer the chunk in flight.
  pub dispatch_coap-Routed :
      (s : Session Href Query) (datagram : Bytes)
      → IsBytes datagram
      → (s' : Session Href Query) × (events : List (Event Href Query)) × (dispatch_coap no_query s
            cb now meanwhile datagram
          ≡ ok (s', events))
        × (s'.registry ≡ s.registry)
        × ((j : ℕ)
            → (s'.containers j ≡ s.containers j)
              ⊎ ((m : CoapMessage) × (parse_coap_message datagram ≡ ok m) × Reaches s m j))
  unfolding dispatch_coap dispatch_result
  dispatch_coap-Routed s datagram bytes =
      elim (Result-cases (classify_coap_response datagram none none)) [
        | inr (e, refused) ↦
            let same = classify_coap_response_failure datagram none none e bytes refused in
            (s, [], rw (refused, same) refl, refl, λ j. inl refl)
        | inl (c, classified) ↦
            let (m, parsed, held, suits) =
              classify_coap_response-Suits datagram none none c classified in
            let routed = dispatch_classified-Routed s m c suits in
            let step = dispatch_classified no_query s cb now meanwhile c (some m) in
            (
              step.0,
              step.1,
              rw classified (
                  ap
                    (λ (o : Option CoapMessage).
                      ok (dispatch_classified no_query s cb now meanwhile c o))
                    held),
              routed.registry_kept,
              λ j. elim (routed.reached j) [
                | inl same ↦ inl same
                | inr reaches ↦ inr (m, parsed, reaches)
              ],
            )
      ]
