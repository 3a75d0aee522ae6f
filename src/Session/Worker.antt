-- ===== src/Session/Worker.antt =====
-- The end of the reader, `_close_pending_requests`, and the refetch worker, `_refetch_one`.
use smart_things_local.Prelude.{
  ℕ, Bool, true, not, ◌||◌, List, [], ◌∷◌, ◌++◌, some, ◌==◌, if◌then◌else◌,
}
use smart_things_local.Prelude.Bytes.{Bytes}
use smart_things_local.Errors.{Result, ok, err, session_closed}
use smart_things_local.Ocf.Dict.{Eq, Dict}
use smart_things_local.Session.Relations.{has, observe_relation_active, observe_sequence_for}
use smart_things_local.Session.Refetch.{RefetchKey, is_superseded}
use smart_things_local.Session.Dispatch.{
  Container, Session, Callbacks, Event, put, deliver, bytes_key,
}

abbrev pub values : {K : Type 0} → Dict K ℕ → List ℕ
values [] = []
values ((k, v) ∷ d) = v ∷ values d

-- `container.setdefault('err', SessionClosedError())`, unless there is an answer
unfoldable pub close_container : Container → Container
close_container c =
    if has c.message || has c.error
    then record c { woken = true }
    else record c { error = some session_closed; woken = true }

unfoldable pub close_each : (ℕ → Container) → List ℕ → ℕ → Container
close_each containers [] = containers
close_each containers (request ∷ requests) =
    close_each (put containers request (close_container (containers request))) requests

unfoldable pub close_pending_requests :
    {Href Query : Type 0} → Session Href Query → Session Href Query
close_pending_requests s = record s {
  containers =
      close_each s.containers (values s.registry.pending ++ values s.registry.pending_mids);
  registry = record (s.registry) { pending = []; pending_mids = [] };
}

module _ {Href Query : Type 0} ⦃href_eq : Eq Href⦄ ⦃query_eq : Eq Query⦄ (no_query : Query) where
  unfoldable pub is_active : Session Href Query → RefetchKey Href Query → Bool
  is_active s (href, query, legacy) = observe_relation_active no_query s.relations href query legacy

  -- The representation that was read is delivered, unless the relation is gone or a newer notification waits.
  unfoldable pub deliver_refetch :
      Session Href Query
      → Callbacks
      → RefetchKey Href Query
      → ℕ
      → Bool
      → Bytes
      → List (Event Href Query)
  deliver_refetch s cb (href, query, legacy) seq registration payload =
      if is_superseded s.refetches (href, query, legacy) seq
      then []
      else if not (is_active s (href, query, legacy))
      then []
      else deliver cb (record {
        href = href;
        payload = payload;
        query = query;
        registration = registration;
        sequence = observe_sequence_for no_query s.relations href query;
        legacy = legacy;
      })

  -- `_refetch_one`: what `_blockwise_get` returned, a code and a payload, and the session after that.
  unfoldable pub refetch_one :
      Session Href Query
      → Callbacks
      → RefetchKey Href Query
      → ℕ
      → Bool
      → Result (ℕ × Bytes)
      → Session Href Query
      → List (Event Href Query)
  refetch_one s cb key seq registration (err e) s' = []
  refetch_one s cb key seq registration (ok (code, payload)) s' =
      if not (is_active s key)
      then []
      else if not (code == 0x45)
      then []
      else deliver_refetch s' cb key seq registration payload
