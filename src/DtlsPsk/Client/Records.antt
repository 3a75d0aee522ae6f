-- ===== src/DtlsPsk/Client/Records.antt =====
-- What the client does with the records it receives.
pub mod Frame
use smart_things_local.Prelude.{
  ℕ, zero, suc, ◌+◌, ◌-◌, Bool, true, false, not, ◌&&◌, ◌||◌, List, [], ◌∷◌, ◌++◌, Option, none,
  some, length, take, drop, leb, ltb, ◌==◌, if◌then◌else◌,
}
use smart_things_local.Prelude.Bytes.{Bytes, bytes_eq, from_bytes}
use smart_things_local.Errors.{Error, Result, ok, err, struct_error}
use smart_things_local.Ocf.Dict.{Dict, get, set, remove}
use smart_things_local.Session.Pending.{nat_eq}
use smart_things_local.Coap.Flight.{split_dtls}
use smart_things_local.DtlsPsk.ReplayWindow.{ReplayWindow, new_window, is_replay, accept}
use smart_things_local.DtlsPsk.Transform.{Transform, Opened, raised, rejected, opened, unprotect}
use smart_things_local.DtlsPsk.Client.{
  Client, Action, Handler, Library, System, is_established, awaits_hello, awaits_finished,
  max_appdata, next_if_ok, pure, fail,
}
use smart_things_local.DtlsPsk.Client.Emit.{
  version, ct_change_cipher_spec, ct_alert, ct_handshake, ct_application_data,
}
use smart_things_local.DtlsPsk.Client.Handshake.{byte_at, slice, handle_handshake_fragment}

-- The fields of a record, of 13 bytes at least.
abbrev pub content_type_of : Bytes → ℕ
content_type_of bytes = byte_at 0 bytes

abbrev pub epoch_of : Bytes → ℕ
epoch_of bytes = from_bytes (slice 3 2 bytes)

abbrev pub seq_of : Bytes → ℕ
seq_of bytes = from_bytes (slice 5 6 bytes)

abbrev pub fragment_of : Bytes → Bytes
fragment_of bytes = drop 13 bytes

abbrev pub has_version : Bytes → Bool
has_version bytes = bytes_eq (slice 1 2 bytes) version

-- The tail of `_handle_record` for application data that authenticated.
unfoldable pub push_appdata : List Bytes → Bytes → List Bytes
push_appdata appdata payload =
    if length payload == 0
    then appdata
    else if leb max_appdata (length appdata)
    then drop 1 appdata ++ (payload ∷ [])
    else appdata ++ (payload ∷ [])

-- `_recv_windows.setdefault(epoch, _ReplayWindow())`
unfoldable pub window_of : Option ReplayWindow → ReplayWindow
window_of none = new_window
window_of (some w) = w

module _ {Key : Type 0} (lib : Library Key) (sys : System Key) where
  -- A HelloVerifyRequest that is framed as DTLS 1.0
  unfoldable pub is_old_hello_verify : Bytes → Client Key → Bool
  is_old_hello_verify bytes c =
      bytes_eq (slice 1 2 bytes) (254 ∷ 255 ∷ [])
      && (epoch_of bytes == 0
          && (content_type_of bytes == ct_handshake
              && (awaits_hello c.phase && bytes_eq (take 1 (fragment_of bytes)) (3 ∷ []))))

  -- `_handle_alert`
  unfoldable pub handle_alert : Bytes → Bool → Client Key → Client Key
  handle_alert payload authenticated c =
      if ltb (length payload) 2
      then c
      else if byte_at 1 payload == 0
      then record c { peer_closed = c.peer_closed || authenticated }
      else if byte_at 0 payload == 2
      then fail c
      else c

  unfoldable pub change_cipher : Bytes → Client Key → Client Key
  change_cipher payload c =
      if bytes_eq payload (1 ∷ []) && awaits_finished c.phase
      then record c { read_active = true; recv_windows = remove c.recv_windows 1 }
      else c

  unfoldable pub take_appdata : Bytes → Bool → Client Key → Client Key
  take_appdata payload authenticated c =
      if authenticated then record c { appdata = push_appdata c.appdata payload } else c

  -- The payload of a record, by its content type
  unfoldable pub handle_payload : ℕ → Bool → Bool → Bytes → Handler Key
  handle_payload content_type authenticated hello_verify_only payload c =
      if content_type == ct_handshake
      then handle_handshake_fragment lib sys payload authenticated hello_verify_only c
      else if content_type == ct_change_cipher_spec
      then (change_cipher payload c, ok tt)
      else if content_type == ct_alert
      then (handle_alert payload authenticated c, ok tt)
      else if content_type == ct_application_data
      then (take_appdata payload authenticated c, ok tt)
      else (c, ok tt)

  unfoldable pub take_opened : Bytes → Bool → ReplayWindow → Opened → Handler Key
  take_opened bytes hello_verify_only w raised c = (c, err struct_error)
  take_opened bytes hello_verify_only w rejected c = (c, ok tt)
  take_opened bytes hello_verify_only w (opened payload) c =
      handle_payload (content_type_of bytes) true hello_verify_only payload
        (record c { recv_windows = set c.recv_windows (epoch_of bytes) (accept w (seq_of bytes)) })

  -- `setdefault` has put the window there before the replay test.
  unfoldable pub open_record : Bytes → Bool → Option Transform → Handler Key
  open_record bytes hello_verify_only none c = (c, ok tt)
  open_record bytes hello_verify_only (some t) c =
      let w = window_of (get c.recv_windows (epoch_of bytes)) in
      let c' = record c { recv_windows = set c.recv_windows (epoch_of bytes) w } in
      if is_replay w (seq_of bytes)
      then (c', ok tt)
      else take_opened bytes hello_verify_only w
          (unprotect lib.hmac lib.decrypt t (epoch_of bytes) (seq_of bytes) (content_type_of bytes)
            (fragment_of bytes))
          c'

  unfoldable pub read_record : Bytes → Bool → Handler Key
  read_record bytes hello_verify_only c =
      let expected_epoch = if c.read_active then 1 else 0 in
      if not (epoch_of bytes == expected_epoch)
      then (c, ok tt)
      else if c.read_active
      then open_record bytes hello_verify_only c.transform c
      else handle_payload (content_type_of bytes) false hello_verify_only (fragment_of bytes) c

  -- `_handle_record`
  unfoldable pub handle_record : Bytes → Handler Key
  handle_record bytes c =
      if has_version bytes
      then read_record bytes false c
      else if is_old_hello_verify bytes c
      then read_record bytes true c
      else (c, ok tt)

  -- The records of one datagram, and whether `_drain_inbox` has to end.
  unfoldable pub handle_each : List Bytes → Action Key Bool
  handle_each [] c = (c, ok false)
  handle_each (bytes ∷ rest) c =
      next_if_ok (handle_record bytes c) (λ (u : Unit {0}) (c' : Client Key).
        if c'.failed then (c', ok true) else handle_each rest c')

  -- The loop of `_drain_inbox`, which nothing in it adds to; its inner loop cuts a datagram as `split_dtls` does.
  unfoldable pub drain : List Bytes → Handler Key
  drain [] c = (c, ok tt)
  drain (datagram ∷ inbox) c =
      next_if_ok (handle_each (split_dtls datagram) (record c { inbox = inbox }))
        (λ (stop : Bool) (c' : Client Key). if stop then (c', ok tt) else drain inbox c')

  -- `_drain_inbox`
  unfoldable pub drain_inbox : Handler Key
  drain_inbox c = drain c.inbox c
