-- ===== src/DtlsPsk/Client/Receive.antt =====
-- What an established session returns of the records that arrive: an abstract receiver.
pub mod Queue
pub mod Payload
pub mod Refined
use smart_things_local.Prelude.{
  ℕ, zero, suc, ◌+◌, ◌-◌, ◌≤◌, ◌≡◌, inl, inr, refl, sym, ap, ◌∙◌, Bool, true, false, not, ◌&&◌,
  ◌||◌, List, [], ◌∷◌, ◌++◌, append-nil, append_assoc, Option, none, some, length, length-append,
  take, drop, arith, ltb, leb, ◌==◌, if◌then◌else◌, Bool-cases,
}
use smart_things_local.Prelude.Bytes.{Bytes, bytes_eq, from_bytes}
use smart_things_local.Errors.{Error, Result, ok, err}
use smart_things_local.Ocf.Dict.{Eq, Dict, get, set, remove}
use smart_things_local.Ocf.Dict.Laws.{get-set}
use smart_things_local.Session.Pending.{nat_eq}
use smart_things_local.DtlsPsk.ReplayWindow.{ReplayWindow, is_replay, accept}
use smart_things_local.DtlsPsk.ReplayWindow.Window.{was_accepted}
use smart_things_local.DtlsPsk.ReplayWindow.Exact.{
  accept_all, highest_of, is_stale, is_replay-accept_all,
}
use smart_things_local.DtlsPsk.Transform.{Transform, Opened, raised, rejected, opened, unprotect}
use smart_things_local.DtlsPsk.Client.{
  Client, Action, Handler, Library, System, Phase, established, is_established, awaits_hello,
  awaits_finished, next_if_ok, fail,
}
use smart_things_local.DtlsPsk.Client.Handshake.{byte_at, slice, handle_handshake_fragment}
use smart_things_local.DtlsPsk.Client.Records.{
  content_type_of, epoch_of, seq_of, fragment_of, has_version, push_appdata, window_of,
  is_old_hello_verify, handle_alert, change_cipher, take_appdata, handle_payload, take_opened,
  open_record, read_record, handle_record, handle_each,
}

-- What a record does to the receiver: it ends it, or it passes, with the numbers accepted so far and a payload or none.
pub data Verdict : Type 0 where
  halted : Verdict
  passed : List ℕ → List Bytes → Verdict

-- A fatal alert that does not close the session regularly
unfoldable pub is_fatal : ℕ → Bytes → Bool
is_fatal content_type payload =
    content_type == 21
    && (leb 2 (length payload) && (not (byte_at 1 payload == 0) && byte_at 0 payload == 2))

unfoldable pub payload_of : ℕ → Bytes → List Bytes
payload_of content_type payload =
    if content_type == 23 && not (length payload == 0) then payload ∷ [] else []

unfoldable pub verdict_of : List ℕ → ℕ → ℕ → Opened → Verdict
verdict_of history seq content_type raised = halted
verdict_of history seq content_type rejected = passed history []
verdict_of history seq content_type (opened payload) =
    if is_fatal content_type payload
    then halted
    else passed (seq ∷ history) (payload_of content_type payload)

unfoldable pub push_all : List Bytes → List Bytes → List Bytes
push_all appdata [] = appdata
push_all appdata (payload ∷ payloads) = push_all (push_appdata appdata payload) payloads

-- The newest 256 of a list.
unfoldable pub newest : List Bytes → List Bytes
newest payloads = drop (length payloads - 256) payloads

module _ {Key : Type 0} (lib : Library Key) (t : Transform) where
  -- A record is read if it has the version and the epoch, and its number was neither accepted before nor is stale.
  unfoldable pub verdict : List ℕ → Bytes → Verdict
  verdict history bytes =
      if has_version bytes
        && epoch_of bytes == 1
        && not (was_accepted (seq_of bytes) history || is_stale (highest_of history) (seq_of bytes))
      then verdict_of history (seq_of bytes) (content_type_of bytes) (
          unprotect lib.hmac lib.decrypt t 1 (seq_of bytes) (content_type_of bytes)
            (fragment_of bytes))
      else passed history []

  -- The payloads that the receiver returns of some records.
  unfoldable pub received : List ℕ → List Bytes → List Bytes
  received history [] = []
  received history (bytes ∷ rest) = elim (verdict history bytes) [
    | halted ↦ []
    | passed history' payloads ↦ payloads ++ received history' rest
  ]
