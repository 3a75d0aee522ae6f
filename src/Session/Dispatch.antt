-- ===== src/Session/Dispatch.antt =====
-- `_dispatch_coap`: what one datagram does to the session, and the callbacks it has called. A request in flight is an
-- identity with a container; callbacks that raise are caught, so that they have no effect of their own.
pub mod Routes
use smart_things_local.Prelude.{
  ℕ, ◌≡◌, Bool, true, false, not, ◌&&◌, ◌||◌, List, [], ◌∷◌, ◌++◌, Option, none, some, ◌==◌,
  if◌then◌else◌,
}
use smart_things_local.Prelude.Bytes.{Bytes, bytes_eq, bytes_eq_iff}
use smart_things_local.Errors.{Error, Result, ok, err, malformed_message, session_reset}
use smart_things_local.Coap.Options.{option_values}
use smart_things_local.Coap.Wire.{CoapMessage}
use smart_things_local.Coap.Response.{
  ResponseKind, ignore, empty_ack, reset, response, CoapResponseClassification,
  classify_coap_response,
}
use smart_things_local.Ocf.Dict.{Eq, Dict, get}
use smart_things_local.Session.Pending.{nat_eq, Registry}
use smart_things_local.Session.Blocks.{Expected, block1_response_matches}
use smart_things_local.Session.Relations.{Relations, has, query_of, retire_observe_token}
use smart_things_local.Session.Recording.{
  Recorded, dropped, probation, accepted, blockwise_refetch, record_notification,
  still_probationary,
}
use smart_things_local.Session.Refetch.{Refetches, queue_refetch, key_eq}

instance abbrev pub bytes_key : Eq Bytes
bytes_key = record { equal = bytes_eq; equal_iff = bytes_eq_iff }

-- What a request's event, container and exchange hold: `acknowledged`, the keys `err` and `message` (with which `code`
-- and the others are set), the expected bytes of an upload, and whether the event is set.
pub record Container : Type 0 where
  pub acknowledged : Bool
  pub error : Option Error
  pub message : Option CoapMessage
  pub expected : Option Expected
  pub woken : Bool

pub record Session (Href Query : Type 0) : Type 0 where
  pub registry : Registry Bytes
  pub containers : ℕ → Container
  pub relations : Relations Bytes Href Query
  pub refetches : Refetches Href Query

-- Which callbacks are set.
pub record Callbacks : Type 0 where
  pub on_observe_delivery : Bool
  pub on_notification : Bool
  pub on_legacy_notification : Bool
  pub on_observe_pending : Bool
  pub on_observe_error : Bool

pub record ObserveDelivery (Href Query : Type 0) : Type 0 where
  pub href : Href
  pub payload : Bytes
  pub query : Query
  pub registration : Bool
  pub sequence : Option ℕ
  pub legacy : Bool

-- What the dispatcher sends and calls.
pub data Event (Href Query : Type 0) : Type 0 where
  sent : Bytes → Event Href Query
  observe_error : Href → ℕ → Event Href Query
  observe_pending : Href → Event Href Query
  observe_delivery : ObserveDelivery Href Query → Event Href Query
  notification legacy_notification : Href → Bytes → Event Href Query

-- The object of one identity is changed, and no other.
abbrev pub put : (ℕ → Container) → ℕ → Container → ℕ → Container
put containers request c i = if i == request then c else containers i

-- The session and the events.
abbrev pub Step : Type 0 → Type 0 → Type 0
Step Href Query = Session Href Query × List (Event Href Query)

-- A reset fails a request that has no answer yet.
unfoldable pub reset_container : Container → Container
reset_container c =
    if has c.message || has c.error
    then record c { woken = true }
    else record c { error = some session_reset; woken = true }

module _ {Href Query : Type 0} where
  unfoldable pub change : Session Href Query → ℕ → Container → Session Href Query
  change s request c = record s { containers = put s.containers request c }

  -- An empty ACK: the answer comes in a message of its own.
  unfoldable pub dispatch_empty_ack : Session Href Query → Option ℕ → Session Href Query
  dispatch_empty_ack s none = s
  dispatch_empty_ack s (some request) =
      change s request (record (s.containers request) { acknowledged = true; woken = true })

  unfoldable pub dispatch_reset : Session Href Query → Option ℕ → Session Href Query
  dispatch_reset s none = s
  dispatch_reset s (some request) = change s request (reset_container (s.containers request))

  -- The request that a message answers.
  unfoldable pub answered_by : Session Href Query → CoapMessage → Option ℕ → Option ℕ
  answered_by s message none = none
  answered_by s message (some request) =
      if block1_response_matches message (s.containers request).expected then some request else none

  unfoldable pub answer : Session Href Query → ℕ → CoapMessage → Session Href Query
  answer s request message =
      change s request (record (s.containers request) { message = some message; woken = true })

  -- `_deliver_observation`, and the callbacks for those who do not want the whole context.
  unfoldable pub deliver : Callbacks → ObserveDelivery Href Query → List (Event Href Query)
  deliver cb d =
      if cb.on_observe_delivery
      then observe_delivery d ∷ []
      else if d.legacy && cb.on_legacy_notification
      then legacy_notification d.href d.payload ∷ []
      else if cb.on_notification
      then notification d.href d.payload ∷ []
      else []

  unfoldable pub observe_failed :
      Session Href Query → Callbacks → Href → CoapMessage → Step Href Query
  observe_failed s cb href message = (
    record s { relations = retire_observe_token s.relations message.token },
    if cb.on_observe_error then observe_error href message.code ∷ [] else [],
  )

module _ {Href Query : Type 0} ⦃href_eq : Eq Href⦄ ⦃query_eq : Eq Query⦄ where
  -- An accepted notification is queued for reading again, or delivered.
  unfoldable pub hand_over :
      Session Href Query → Callbacks → Bool → ObserveDelivery Href Query → Step Href Query
  hand_over s cb refetch d =
      if refetch
      then (
        record s {
          refetches = queue_refetch s.refetches (d.href, d.query, d.legacy) d.registration;
        },
        [],
      )
      else (s, deliver cb d)

  module _ (no_query : Query) where
    -- The first plain notification: the callback is told, and what runs meanwhile may retire or prove the relation.
    unfoldable pub on_probation :
        Session Href Query
        → Callbacks
        → (Relations Bytes Href Query → Relations Bytes Href Query)
        → CoapMessage
        → Bool
        → ObserveDelivery Href Query
        → Step Href Query
    on_probation s cb meanwhile message refetch d =
        let s' = record s { relations = meanwhile s.relations } in
        let told = if cb.on_observe_pending then observe_pending d.href ∷ [] else [] in
        if still_probationary no_query s'.relations message.token d.href d.query message.mid
        then (let (s'', events) = hand_over s' cb refetch d in (s'', told ++ events))
        else (s', told)

    unfoldable pub follow_up :
        Session Href Query
        → Callbacks
        → (Relations Bytes Href Query → Relations Bytes Href Query)
        → Href
        → Query
        → CoapMessage
        → Bool
        → Recorded
        → Step Href Query
    follow_up s cb meanwhile href query message refetch dropped = (s, [])
    follow_up s cb meanwhile href query message refetch probation =
        on_probation s cb meanwhile message refetch (record {
          href = href;
          payload = message.payload;
          query = query;
          registration = true;
          sequence = none;
          legacy = false;
        })
    follow_up s cb meanwhile href query message refetch (accepted registration legacy sequence) =
        hand_over s cb refetch (record {
          href = href;
          payload = message.payload;
          query = query;
          registration = registration;
          sequence = sequence;
          legacy = legacy;
        })

    unfoldable pub dispatch_notification :
        Session Href Query
        → Callbacks
        → ℕ
        → (Relations Bytes Href Query → Relations Bytes Href Query)
        → Href
        → CoapMessage
        → Step Href Query
    dispatch_notification s cb now meanwhile href message =
        let query = query_of no_query s.relations message.token in
        if not (message.code == 0x45)
        then observe_failed s cb href message
        else elim (blockwise_refetch (option_values message.options 23)) [
          | none ↦ (s, [])
          | some refetch ↦
              let (relations, recorded) =
                record_notification s.relations message.token message.mid
                  (option_values message.options 6) now in
              follow_up (record s { relations = relations }) cb meanwhile href query message refetch
                recorded
        ]

    unfoldable pub dispatch_observed :
        Session Href Query
        → Callbacks
        → ℕ
        → (Relations Bytes Href Query → Relations Bytes Href Query)
        → CoapMessage
        → Option Href
        → Step Href Query
    dispatch_observed s cb now meanwhile message none = (s, [])
    dispatch_observed s cb now meanwhile message (some href) =
        dispatch_notification s cb now meanwhile href message

    unfoldable pub dispatch_answered :
        Session Href Query
        → Callbacks
        → ℕ
        → (Relations Bytes Href Query → Relations Bytes Href Query)
        → CoapMessage
        → Option ℕ
        → Step Href Query
    dispatch_answered s cb now meanwhile message (some request) = (answer s request message, [])
    dispatch_answered s cb now meanwhile message none =
        dispatch_observed s cb now meanwhile message (get s.relations.tokens message.token)

    -- A response: to a request, or on an observe token; any other is dropped.
    unfoldable pub dispatch_response :
        Session Href Query
        → Callbacks
        → ℕ
        → (Relations Bytes Href Query → Relations Bytes Href Query)
        → CoapMessage
        → Step Href Query
    dispatch_response s cb now meanwhile message =
        dispatch_answered s cb now meanwhile message
          (answered_by s message (get s.registry.pending message.token))

    unfoldable pub dispatch_message :
        Session Href Query
        → Callbacks
        → ℕ
        → (Relations Bytes Href Query → Relations Bytes Href Query)
        → CoapMessage
        → ResponseKind
        → Step Href Query
    dispatch_message s cb now meanwhile message empty_ack =
        (dispatch_empty_ack s (get s.registry.pending_mids message.mid), [])
    dispatch_message s cb now meanwhile message reset =
        (dispatch_reset s (get s.registry.pending_mids message.mid), [])
    dispatch_message s cb now meanwhile message response =
        dispatch_response s cb now meanwhile message
    dispatch_message s cb now meanwhile message ignore = (s, [])

    unfoldable pub dispatch_classified :
        Session Href Query
        → Callbacks
        → ℕ
        → (Relations Bytes Href Query → Relations Bytes Href Query)
        → CoapResponseClassification
        → Option CoapMessage
        → Step Href Query
    dispatch_classified s cb now meanwhile c none = (s, [])
    dispatch_classified s cb now meanwhile c (some message) =
        let (s', events) = dispatch_message s cb now meanwhile message c.kind in
        (s', elim c.acknowledgement [ none ↦ events | some ack ↦ sent ack ∷ events ])

    -- Of the errors only `MalformedMessageError` is caught.
    unfoldable pub dispatch_result :
        Session Href Query
        → Callbacks
        → ℕ
        → (Relations Bytes Href Query → Relations Bytes Href Query)
        → Result CoapResponseClassification
        → Result (Step Href Query)
    dispatch_result s cb now meanwhile (err malformed_message) = ok (s, [])
    dispatch_result s cb now meanwhile (err e) = err e
    dispatch_result s cb now meanwhile (ok c) =
        ok (dispatch_classified s cb now meanwhile c c.message)

    unfoldable pub dispatch_coap :
        Session Href Query
        → Callbacks
        → ℕ
        → (Relations Bytes Href Query → Relations Bytes Href Query)
        → Bytes
        → Result (Step Href Query)
    dispatch_coap s cb now meanwhile datagram =
        dispatch_result s cb now meanwhile (classify_coap_response datagram none none)
