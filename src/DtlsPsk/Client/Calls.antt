-- ===== src/DtlsPsk/Client/Calls.antt =====
-- The calls of the client that the session makes.
pub mod Run
pub mod Bounds
use smart_things_local.Prelude.{
  ℕ, zero, suc, ◌+◌, ◌-◌, ◌*◌, Bool, true, false, not, ◌&&◌, ◌||◌, List, [], ◌∷◌, ◌++◌, Option,
  none, some, length, take, drop, min, leb, ltb, ◌==◌, if◌then◌else◌,
}
use smart_things_local.Prelude.Bytes.{Bytes}
use smart_things_local.Errors.{Result, ok, err, dtls_error, want_read, zero_return}
use smart_things_local.DtlsPsk.Client.{
  Client, Action, Handler, Library, System, Phase, start, sent_hello, is_established, next_if_ok,
  pure,
}
use smart_things_local.DtlsPsk.Client.Emit.{
  ct_alert, ct_application_data, emit_record, send_client_hello,
}
use smart_things_local.DtlsPsk.Client.Records.{drain_inbox}

unfoldable pub is_start : Phase → Bool
is_start start = true
is_start _ = false

abbrev pub concat : List Bytes → Bytes
concat [] = []
concat (bytes ∷ rest) = bytes ++ concat rest

module _ {Key : Type 0} (lib : Library Key) (sys : System Key) where
  -- `do_handshake`, behind the hello
  unfoldable pub advance : Handler Key
  advance c = next_if_ok (drain_inbox lib sys c) (λ (u : Unit {0}) (c' : Client Key).
      if c'.failed
      then (c', err dtls_error)
      else if is_established c'.phase
      then (c', ok tt)
      else (c', err want_read))

  -- `do_handshake`
  unfoldable pub do_handshake : Handler Key
  do_handshake c =
      if c.failed
      then (c, err dtls_error)
      else if is_established c.phase
      then (c, ok tt)
      else if is_start c.phase
      then next_if_ok (send_client_hello lib sys [] c)
          (λ (u : Unit {0}) (c' : Client Key). advance (record c' { phase = sent_hello }))
      else advance c

  -- `send`
  unfoldable pub send : Bytes → Action Key ℕ
  send bytes c =
      if not (is_established c.phase) || c.failed
      then (c, err dtls_error)
      else next_if_ok (emit_record lib sys ct_application_data bytes c)
          (λ (u : Unit {0}). pure (length bytes))

  unfoldable pub take_queued : ℕ → List Bytes → Action Key Bytes
  take_queued capacity [] c =
      if c.failed
      then (c, err dtls_error)
      else if c.peer_closed
      then (c, err zero_return)
      else (c, err want_read)
  take_queued capacity (bytes ∷ queued) c =
      if ltb capacity (length bytes)
      then (record c { appdata = drop capacity bytes ∷ queued }, ok (take capacity bytes))
      else (record c { appdata = queued }, ok bytes)

  -- `recv`
  unfoldable pub recv : ℕ → Action Key Bytes
  recv capacity c =
      if length c.appdata == 0
      then next_if_ok (drain_inbox lib sys c)
          (λ (u : Unit {0}) (c' : Client Key). take_queued capacity c'.appdata c')
      else take_queued capacity c.appdata c

  -- `shutdown`
  unfoldable pub shutdown : Handler Key
  shutdown c =
      if is_established c.phase && not c.failed
      then emit_record lib sys ct_alert (1 ∷ 0 ∷ []) c
      else (c, ok tt)

  unfoldable pub time_left : Option ℕ → Client Key → Option ℕ
  time_left none c = none
  time_left (some deadline) c =
      if length c.flight == 0 then none else some (deadline - sys.now c.draws)

  -- `DTLSv1_get_timeout`; at most 0 is left of a deadline that has passed
  unfoldable pub get_timeout : Client Key → Option ℕ
  get_timeout c = time_left c.flight_deadline c

  unfoldable pub resend : Option ℕ → Client Key → Client Key
  resend none c = c
  resend (some deadline) c =
      if length c.flight == 0
      then c
      else let rto = min (c.rto * 2) 60000 in
        record c {
          outbox = c.outbox ++ concat c.flight;
          rto = rto;
          flight_deadline = some (sys.now c.draws + rto);
          draws = c.draws + 1;
        }

  -- `DTLSv1_handle_timeout`
  unfoldable pub handle_timeout : Client Key → Client Key
  handle_timeout c = resend c.flight_deadline c
