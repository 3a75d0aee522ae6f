-- ===== src/DtlsPsk/Client/Receive/Refined.antt =====
-- The records of an established session, against the abstract receiver.
use mathlib.Core.Path.{subst}
use smart_things_local.Prelude.{
  ℕ, ◌≤◌, ◌≡◌, inl, inr, refl, sym, ap, ◌∙◌, Bool, true, false, not, ◌||◌, List, [], ◌∷◌, ◌++◌,
  Option, some, length, arith, ◌==◌, if◌then◌else◌, Bool-cases,
}
use smart_things_local.Prelude.Bytes.{Bytes}
use smart_things_local.Errors.{Result, ok, err}
use smart_things_local.Ocf.Dict.{Dict, get, set}
use smart_things_local.Session.Pending.{nat_eq}
use smart_things_local.DtlsPsk.ReplayWindow.{ReplayWindow, is_replay, accept}
use smart_things_local.DtlsPsk.ReplayWindow.Window.{was_accepted}
use smart_things_local.DtlsPsk.ReplayWindow.Exact.{
  accept_all, highest_of, is_stale, is_replay-accept_all,
}
use smart_things_local.DtlsPsk.Transform.{Transform, Opened, raised, rejected, opened, unprotect}
use smart_things_local.DtlsPsk.Client.{
  Client, Library, System, established, awaits_hello, next_if_ok,
}
use smart_things_local.DtlsPsk.Client.Records.{
  content_type_of, epoch_of, seq_of, fragment_of, has_version, window_of, is_old_hello_verify,
  handle_payload, take_opened, open_record, read_record, handle_record, handle_each,
}
use smart_things_local.DtlsPsk.Client.Receive.{
  Verdict, halted, passed, verdict_of, push_all, newest, verdict, received,
}
use smart_things_local.DtlsPsk.Client.Receive.Queue.{
  push_all-append, push_all-newest, received-full,
}
use smart_things_local.DtlsPsk.Client.Receive.Payload.{
  get-set_own, Reads, Meets, Reads-intro, handle_payload-Meets,
}

picked : {A : Type 0} (d b : Bool) (p q : A) → b ≡ d → (if b then p else q) ≡ (if d then p else q)
picked d b p q e = ap (λ (x : Bool). if x then p else q) e

module _ {Key : Type 0} (lib : Library Key) (sys : System Key) (t : Transform) where
  -- A window that is put back.
  set-Reads :
      (history history' : List ℕ) (w : ReplayWindow) (c : Client Key)
      → Reads lib sys t history c
      → w ≡ accept_all history'
      → (d : Dict ℕ ReplayWindow) → Reads lib sys t history' (record c { recv_windows = set d 1 w })
  set-Reads history history' w c r e d =
      Reads-intro lib sys t history history' c (record c { recv_windows = set d 1 w }) r refl refl
        refl refl (get-set_own d w ∙ ap some e)

  take_opened-Meets :
      (history : List ℕ) (bytes : Bytes) (w : ReplayWindow) (o : Opened) (c : Client Key)
      → Reads lib sys t history c
      → w ≡ accept_all history
      → epoch_of bytes ≡ 1
      → Meets lib sys t c.appdata
          (verdict_of history (seq_of bytes) (content_type_of bytes) o)
          (take_opened lib sys bytes false w o c)
  unfolding take_opened verdict_of push_all accept_all
  take_opened-Meets history bytes w raised c r e one = refl
  take_opened-Meets history bytes w rejected c r e one = (r, refl)
  take_opened-Meets history bytes w (opened payload) c r e one =
      let c' = record c { recv_windows = set c.recv_windows 1 (accept w (seq_of bytes)) } in
      let next =
        set-Reads history (seq_of bytes ∷ history) (accept w (seq_of bytes)) c r
          (ap (λ (x : ReplayWindow). accept x (seq_of bytes)) e) c.recv_windows in
      subst
        (λ (n : ℕ).
          Meets lib sys t c.appdata
            (verdict_of history (seq_of bytes) (content_type_of bytes) (opened payload))
            (handle_payload lib sys (content_type_of bytes) true false payload
              (record c { recv_windows = set c.recv_windows n (accept w (seq_of bytes)) })))
        (sym one)
        (handle_payload-Meets lib sys t history (content_type_of bytes) (seq_of bytes) payload c'
          next)

  choose_Meets :
      (b : Bool) (appdata : List Bytes) (v v' : Verdict) (p q : Client Key × Result (Unit {0}))
      → Meets lib sys t appdata v' p
      → Meets lib sys t appdata v q
      → Meets lib sys t appdata (if not b then v else v') (if b then p else q)
  choose_Meets true appdata v v' p q h k = h
  choose_Meets false appdata v v' p q h k = k

  open_record-Meets :
      (history : List ℕ) (bytes : Bytes) (c : Client Key)
      → Reads lib sys t history c
      → epoch_of bytes ≡ 1
      → Meets lib sys t c.appdata
          (if not
              (was_accepted (seq_of bytes) history || is_stale (highest_of history) (seq_of bytes))
            then verdict_of history (seq_of bytes) (content_type_of bytes) (
                unprotect lib.hmac lib.decrypt t 1
                  (seq_of bytes)
                  (content_type_of bytes)
                  (fragment_of bytes))
            else passed history [])
          (open_record lib sys bytes false (some t) c)
  unfolding open_record push_all
  open_record-Meets history bytes c r one =
      let w = window_of (get c.recv_windows 1) in
      let c' = record c { recv_windows = set c.recv_windows 1 w } in
      let replay : is_replay w (seq_of bytes)
          ≡ (was_accepted (seq_of bytes) history || is_stale (highest_of history) (seq_of bytes)) =
        ap (λ (x : ReplayWindow). is_replay x (seq_of bytes)) r.window_is
        ∙ is_replay-accept_all history (seq_of bytes) in
      let kept = set-Reads history history w c r r.window_is c.recv_windows in
      let o =
        unprotect lib.hmac lib.decrypt t 1 (seq_of bytes) (content_type_of bytes)
          (fragment_of bytes) in
      let rest = take_opened-Meets history bytes w o c' kept r.window_is one in
      rw one (
        rw replay (
          choose_Meets
            (was_accepted (seq_of bytes) history || is_stale (highest_of history) (seq_of bytes))
            c.appdata (verdict_of history (seq_of bytes) (content_type_of bytes) o)
            (passed history []) (c', ok tt) (take_opened lib sys bytes false w o c') (kept, refl)
            rest))

  read_record-active :
      (bytes : Bytes) (c : Client Key)
      → c.read_active ≡ true
      → c.transform ≡ some t
      → read_record lib sys bytes false c ≡ (
          if not (epoch_of bytes == 1)
          then (c, ok tt)
          else open_record lib sys bytes false (some t) c)
  unfolding read_record
  read_record-active bytes c e f =
      ap
        (λ (b : Bool).
          if not (epoch_of bytes == (if b then 1 else 0))
          then (c, ok tt)
          else if b
          then open_record lib sys bytes false c.transform c
          else handle_payload lib sys (content_type_of bytes) false false (fragment_of bytes) c)
        e
      ∙ ap
          (λ (o : Option Transform).
            if not (epoch_of bytes == 1) then (c, ok tt) else open_record lib sys bytes false o c)
          f

  is_old_hello_verify-idle :
      (bytes : Bytes) (c : Client Key)
      → c.phase ≡ established
      → is_old_hello_verify lib sys bytes c ≡ false
  unfolding is_old_hello_verify awaits_hello
  is_old_hello_verify-idle bytes c e =
      let idle : awaits_hello c.phase ≡ false = ap awaits_hello e in ground arith

  read_record-Meets :
      (history : List ℕ) (bytes : Bytes) (c : Client Key)
      → Reads lib sys t history c
      → has_version bytes ≡ true
      → Meets lib sys t c.appdata (verdict lib t history bytes) (read_record lib sys bytes false c)
  unfolding verdict push_all
  read_record-Meets history bytes c r v = elim (Bool-cases (epoch_of bytes == 1)) [
    | inl e ↦
        let one : epoch_of bytes ≡ 1 = ground arith in
        rw (read_record-active bytes c r.active r.transform_is)
          (rw v (rw e (open_record-Meets history bytes c r one)))
    | inr e ↦ rw (read_record-active bytes c r.active r.transform_is) (rw v (rw e (r, refl)))
  ]

  verdict-unread :
      (history : List ℕ) (bytes : Bytes) (c : Client Key)
      → Reads lib sys t history c
      → has_version bytes ≡ false
      → Meets lib sys t c.appdata (verdict lib t history bytes) (c, ok tt)
  unfolding verdict push_all
  verdict-unread history bytes c r v = rw v (r, refl)

  handle_record-Meets :
      (history : List ℕ) (bytes : Bytes) (c : Client Key)
      → Reads lib sys t history c
      → Meets lib sys t c.appdata (verdict lib t history bytes) (handle_record lib sys bytes c)
  unfolding handle_record
  handle_record-Meets history bytes c r = elim (Bool-cases (has_version bytes)) [
    | inl v ↦ rw v (read_record-Meets history bytes c r v)
    | inr v ↦
        rw v (rw (is_old_hello_verify-idle bytes c r.phase_is) (verdict-unread history bytes c r v))
  ]

  -- The payloads that a call of `handle_each` leaves, by the call before.
  rest-received :
      (v : Verdict) (rest : List Bytes) (appdata : List Bytes) (p : Client Key × Result (Unit {0}))
      → Meets lib sys t appdata v p
      → ((history : List ℕ) (c : Client Key)
          → Reads lib sys t history c
          → (handle_each lib sys rest c).0.appdata
            ≡ push_all c.appdata (received lib t history rest))
      → (next_if_ok p (λ (u : Unit {0}) (c' : Client Key).
          if c'.failed then (c', ok true) else handle_each lib sys rest c')).0.appdata
        ≡ push_all appdata (elim v [
          | halted ↦ []
          | passed history payloads ↦ payloads ++ received lib t history rest
        ])
  unfolding push_all
  rest-received halted rest appdata (c, err e) m h = m
  rest-received halted rest appdata (c, ok u) (f, m) h =
      ap (λ (x : Client Key × Result Bool). x.0.appdata)
        (picked true c.failed (c, ok true) (handle_each lib sys rest c) f)
      ∙ m
  rest-received (passed history payloads) rest appdata (c, err e) m h = absurd m
  rest-received (passed history payloads) rest appdata (c, ok u) (r, m) h =
      ap (λ (x : Client Key × Result Bool). x.0.appdata)
        (picked false c.failed (c, ok true) (handle_each lib sys rest c) r.going)
      ∙ h history c r
      ∙ ap (λ (a : List Bytes). push_all a (received lib t history rest)) m
      ∙ push_all-append appdata payloads (received lib t history rest)

  handle_each-received :
      (records : List Bytes) (history : List ℕ) (c : Client Key)
      → Reads lib sys t history c
      → (handle_each lib sys records c).0.appdata
        ≡ push_all c.appdata (received lib t history records)
  unfolding handle_each received push_all
  handle_each-received [] history c r = refl
  handle_each-received (bytes ∷ rest) history c r =
      rest-received (verdict lib t history bytes) rest c.appdata (handle_record lib sys bytes c)
        (handle_record-Meets history bytes c r) (λ h c' r'. handle_each-received rest h c' r')

  -- An established session that reads what the transform protects, and has accepted these numbers, handles some records:
  -- then the newest 256 payloads of those that waited and those that the receiver returns wait.
  pub handle_each-newest :
      (records : List Bytes) (history : List ℕ) (c : Client Key)
      → Reads lib sys t history c
      → length c.appdata ≤ 256
      → (handle_each lib sys records c).0.appdata
        ≡ newest (c.appdata ++ received lib t history records)
  handle_each-newest records history c r h =
      handle_each-received records history c r
      ∙ push_all-newest c.appdata (received lib t history records) h
          (received-full lib t records history)
