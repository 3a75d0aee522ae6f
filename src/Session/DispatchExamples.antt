-- ===== src/Session/DispatchExamples.antt =====
-- The theorems on the dispatcher of dtls_session.py at concrete values.
use smart_things_local.Prelude.{
  ℕ, zero, suc, ◌≢◌, ◌≤◌, ◌≡◌, ◌⊎◌, refl, true, false, List, [], ◌∷◌, none, arith, length,
}
use smart_things_local.Prelude.Bytes.{Bytes}
use smart_things_local.Errors.{Result, ok, err, out_of_fuel}
use smart_things_local.Session.Upload.{post_blockwise}
use smart_things_local.Session.Upload.Covers.{Uploaded, post_blockwise-Uploaded}
use smart_things_local.Coap.Wire.{CoapMessage, parse_coap_message}
use smart_things_local.Ocf.Dict.{get, set}
use smart_things_local.Session.Observe.{observe_sequence_is_fresh, sequence_delta}
use smart_things_local.Session.Pending.{nat_eq}
use smart_things_local.Session.Relations.{Relations}
use smart_things_local.Session.Recording.{Recorded, dropped, record_sequence, record_notification}
use smart_things_local.Session.Recording.Automaton.{ObserveState, numbered, see, Represents, Agrees}
use smart_things_local.Session.Recording.Others.{record_notification-see, record_notification_again}
use smart_things_local.Session.Refetch.{
  key_eq, Refetches, queue_refetch, take_entry, take_refetch, is_superseded,
}
use smart_things_local.Session.Refetch.Queue.{
  QueueStep, queue, empty_queue, run_queue, run_queue-superseded,
}
use smart_things_local.Session.Dispatch.{
  bytes_key, Container, Session, Callbacks, Event, dispatch_coap,
}
use smart_things_local.Session.Dispatch.Routes.{Reaches, dispatch_coap-Routed}

-- A body that takes two blocks, each of which is acknowledged: 2.31 with block 0, and 2.04.
abbrev body : ℕ → Bytes
body zero = []
body (suc n) = 7 ∷ body n

abbrev answers : ℕ → Result CoapMessage
answers zero = ok (record {
  mtype = 2;
  code = 95;
  mid = 1;
  token = [];
  options = (27, 14 ∷ []) ∷ [];
  payload = [];
})
answers (suc n) =
    ok (record { mtype = 2; code = 68; mid = 2; token = []; options = []; payload = [] })

answers_end : (n : ℕ) → answers n ≢ err out_of_fuel
answers_end zero e = ground arith
answers_end (suc n) e = ground arith

post_blockwise-Uploaded_example :
    Uploaded 0 0 (body 1030) (post_blockwise answers [] [] (body 1030))
post_blockwise-Uploaded_example = post_blockwise-Uploaded answers [] [] (body 1030) answers_end

-- Two tokens, the first with an Observe value of 5 at second 100.
abbrev relations : Relations ℕ ℕ ℕ
relations = record {
  tokens = (1, 10) ∷ (2, 11) ∷ [];
  queries = [];
  plain_response_mids = [];
  legacy_tokens = [];
  legacy_mids = [];
  sequences = (1, (5, 100)) ∷ [];
}

first-Represents : Represents relations 1 (numbered 5 100)
unfolding get
first-Represents = record {
  plain_is = refl;
  legacy_is = refl;
  legacy_mid_is = refl;
  sequence_is = refl;
}

record_notification-see_example :
    Agrees
      (record_notification relations 1 7 ((6 ∷ []) ∷ []) 101)
      1
      (see (numbered 5 100) 7 ((6 ∷ []) ∷ []) 101)
    × ((t : ℕ) (other : ObserveState)
        → nat_eq.equal t 1 ≡ false
        → Represents relations t other
        → Represents (record_notification relations 1 7 ((6 ∷ []) ∷ []) 101).0 t other)
record_notification-see_example =
    record_notification-see relations 1 (numbered 5 100) 7 ((6 ∷ []) ∷ []) 101 first-Represents

abbrev seen : Relations ℕ ℕ ℕ × Recorded
seen = record_notification relations 1 7 ((6 ∷ []) ∷ []) 101

record_notification_again_example :
    record_notification seen.0 1 7 ((6 ∷ []) ∷ []) 103 ≡ (seen.0, dropped)
unfolding record_notification record_sequence observe_sequence_is_fresh sequence_delta get
record_notification_again_example =
    record_notification_again relations 1 (numbered 5 100) 7 ((6 ∷ []) ∷ []) 101 103
      first-Represents (omega arith) (omega arith) (λ e. ground arith)

-- The notification of one relation, which is read while another one comes.
abbrev one : List (QueueStep ℕ ℕ)
one = queue (10, 0, false) true ∷ []

abbrev other : List (QueueStep ℕ ℕ)
other = queue (11, 0, false) false ∷ []

abbrev waiting : Refetches ℕ ℕ
waiting = run_queue (take_refetch (run_queue empty_queue one)).1 other

run_queue-superseded_example :
    (length waiting.pending ≤ 16)
    × (((queue_refetch waiting (10, 0, false) false ≡ waiting)
          × (length waiting.pending ≡ 16)
          × (get waiting.pending (10, 0, false) ≡ none))
        ⊎ (is_superseded (queue_refetch waiting (10, 0, false) false) (10, 0, false) 1 ≡ true))
unfolding run_queue queue_refetch take_refetch take_entry get set
run_queue-superseded_example = run_queue-superseded one other (10, 0, false) 1 true false refl

-- A request in flight under the token 9 and the message id 3, which an empty ACK with that id reaches.
abbrev container : Container
container = record {
  acknowledged = false;
  error = none;
  message = none;
  expected = none;
  woken = false;
}

abbrev session : Session ℕ ℕ
session = record {
  registry = record {
    pending = (9 ∷ [], 0) ∷ [];
    pending_mids = (3, 0) ∷ [];
    mid = 3;
    tok_counter = 9;
  };
  containers = λ _. container;
  relations = record {
    tokens = [];
    queries = [];
    plain_response_mids = [];
    legacy_tokens = [];
    legacy_mids = [];
    sequences = [];
  };
  refetches = empty_queue;
}

abbrev callbacks : Callbacks
callbacks = record {
  on_observe_delivery = true;
  on_notification = true;
  on_legacy_notification = false;
  on_observe_pending = true;
  on_observe_error = true;
}

abbrev empty_ack_datagram : Bytes
empty_ack_datagram = 96 ∷ 0 ∷ 0 ∷ 3 ∷ []

dispatch_coap-Routed_example :
    (s' : Session ℕ ℕ) × (events : List (Event ℕ ℕ)) × (dispatch_coap 0 session callbacks 100
        (λ r. r)
        empty_ack_datagram
      ≡ ok (s', events))
    × (s'.registry ≡ session.registry)
    × ((j : ℕ)
        → (s'.containers j ≡ session.containers j)
          ⊎ ((m : CoapMessage) × (parse_coap_message empty_ack_datagram ≡ ok m)
              × Reaches session m j))
dispatch_coap-Routed_example =
    dispatch_coap-Routed 0 callbacks 100 (λ r. r) session empty_ack_datagram
      (omega arith, (omega arith, (omega arith, (omega arith, tt))))
