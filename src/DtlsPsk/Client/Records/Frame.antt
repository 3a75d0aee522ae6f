-- ===== src/DtlsPsk/Client/Records/Frame.antt =====
-- The bounds of a client, and what every record that it handles keeps.
use smart_things_local.Prelude.{
  ℕ, ◌≤◌, ◌≡◌, inl, inr, refl, ◌∙◌, Bool, true, false, not, ◌&&◌, ◌||◌, List, [], ◌∷◌, Option, none,
  some, length, length-append, drop, length-drop, arith, ltb, ◌==◌, if◌then◌else◌, Bool-cases,
}
use smart_things_local.Prelude.Bytes.{Bytes, bytes_eq}
use smart_things_local.Errors.{Result, ok, err}
use smart_things_local.Ocf.Dict.{Dict, get, set, remove}
use smart_things_local.Session.Pending.{nat_eq}
use smart_things_local.Coap.Flight.{split_dtls}
use smart_things_local.DtlsPsk.ReplayWindow.{ReplayWindow, is_replay, accept}
use smart_things_local.DtlsPsk.Transform.{Transform, Opened, raised, rejected, opened, unprotect}
use smart_things_local.DtlsPsk.Client.{
  Client, Action, Library, System, is_established, awaits_finished, next_if_ok, fail,
}
use smart_things_local.DtlsPsk.Client.Emit.Frame.{is_out_of_fuel, is_stuck, Emitted}
use smart_things_local.DtlsPsk.Client.Handshake.{byte_at, handle_handshake_fragment}
use smart_things_local.DtlsPsk.Client.Handshake.Frame.{Frame, Framed, Emits-Frame}
use smart_things_local.DtlsPsk.Client.Handshake.Delivery.{handle_handshake_fragment-Framed}
use smart_things_local.DtlsPsk.Client.Records.{
  content_type_of, epoch_of, seq_of, fragment_of, has_version, push_appdata, window_of,
  is_old_hello_verify, handle_alert, change_cipher, take_appdata, handle_payload, take_opened,
  open_record, read_record, handle_record, handle_each, drain, drain_inbox,
}

module _ {Key : Type 0} where
  -- The bounds of the queues and tables, that of the outbox where no flight was sent again, and that an established
  -- session reads protected records only.
  pub record IsSound (timely : Bool) (c : Client Key) : Type 0 where
    pub inbox_fits : length c.inbox ≤ 64
    pub appdata_fits : length c.appdata ≤ 256
    pub outbox_fits : timely ≡ true → length c.outbox ≤ 262144
    pub pending_fits : length c.pending ≤ 16
    pub ready_fits : length c.ready ≤ 16
    pub active : is_established c.phase ≡ true → c.read_active ≡ true

  -- After a call: sound, and no loop ran out of its fuel.
  abbrev pub Sound : {A : Type 0} → Bool → Client Key × Result A → Type 0
  Sound timely (c, r) = IsSound timely c × (is_stuck r ≡ false)

  pub next_if_ok-Sound :
      {timely : Bool} {A B : Type 0} (p : Client Key × Result A) (next : A → Action Key B)
      → Sound timely p
      → ((a : A) (c : Client Key) → IsSound timely c → Sound timely (next a c))
      → Sound timely (next_if_ok p next)
  unfolding is_stuck
  next_if_ok-Sound (c', err e) next (s, q) h = (s, q)
  next_if_ok-Sound (c', ok a) next (s, q) h = h a c' s

  pub if-Sound :
      {timely : Bool} {A : Type 0} (b : Bool) (p q : Client Key × Result A)
      → (b ≡ true → Sound timely p)
      → (b ≡ false → Sound timely q)
      → Sound timely (if b then p else q)
  if-Sound true p q h k = h refl
  if-Sound false p q h k = k refl

  if-IsSound :
      {timely : Bool} (b : Bool) (p q : Client Key)
      → (b ≡ true → IsSound timely p)
      → (b ≡ false → IsSound timely q)
      → IsSound timely (if b then p else q)
  if-IsSound true p q h k = h refl
  if-IsSound false p q h k = k refl

  Frame-IsSound :
      (timely : Bool) (c c' : Client Key) → IsSound timely c → Frame 16 c c' → IsSound timely c'
  Frame-IsSound timely c c' s f = record {
    inbox_fits = rw f.inbox_same s.inbox_fits;
    appdata_fits = rw f.appdata_same s.appdata_fits;
    outbox_fits = λ t. f.outbox_fits (s.outbox_fits t);
    pending_fits = f.pending_fits s.pending_fits;
    ready_fits = f.ready_fits 16 (omega arith) s.ready_fits;
    active = λ e. f.active_same ∙ elim (Bool-cases (is_established c.phase)) [
      | inl t ↦ s.active t
      | inr n ↦ f.active_only e n
    ];
  }

  pub Framed-Sound :
      {timely : Bool} {A : Type 0} (c : Client Key) (p : Client Key × Result A)
      → IsSound timely c
      → Framed 16 c p
      → Sound timely p
  Framed-Sound {timely = timely} c (c', r) s (f, q) = (Frame-IsSound timely c c' s f, q)

  pub Emitted-Sound :
      {timely : Bool} {A : Type 0} (c : Client Key) (p : Client Key × Result A)
      → IsSound timely c
      → Emitted c p
      → Sound timely p
  Emitted-Sound {timely = timely} c (c', r) s (f, q) =
      (Frame-IsSound timely c c' s (Emits-Frame c c' f), q)

  -- A change of fields that are not told of.
  pub IsSound-intro :
      {timely : Bool} (c c' : Client Key)
      → IsSound timely c
      → length c'.inbox ≤ 64
      → length c'.appdata ≤ 256
      → c'.outbox ≡ c.outbox
      → c'.pending ≡ c.pending
      → c'.ready ≡ c.ready
      → (is_established c'.phase ≡ true → c'.read_active ≡ true)
      → IsSound timely c'
  IsSound-intro c c' s h a o p r e = record {
    inbox_fits = h;
    appdata_fits = a;
    outbox_fits = λ t. rw o (s.outbox_fits t);
    pending_fits = rw p s.pending_fits;
    ready_fits = rw r s.ready_fits;
    active = e;
  }

push_appdata-fits :
    (appdata : List Bytes) (payload : Bytes)
    → length appdata ≤ 256
    → length (push_appdata appdata payload) ≤ 256
unfolding push_appdata
push_appdata-fits appdata payload h = ground (
  arith,
  length-append (drop 1 appdata) (payload ∷ []),
  length-append appdata (payload ∷ []),
  length-drop 1 appdata,
)

module _ {Key : Type 0} (lib : Library Key) (sys : System Key) (timely : Bool) where
  failed-IsSound : (c : Client Key) → IsSound timely c → IsSound timely (fail c)
  failed-IsSound c s =
      IsSound-intro c (fail c) s s.inbox_fits s.appdata_fits refl refl refl s.active

  windows-IsSound :
      (d : Dict ℕ ReplayWindow) (c : Client Key)
      → IsSound timely c
      → IsSound timely (record c { recv_windows = d })
  windows-IsSound d c s =
      IsSound-intro c (record c { recv_windows = d }) s s.inbox_fits s.appdata_fits refl refl refl
        s.active

  handle_alert-IsSound :
      (payload : Bytes) (authenticated : Bool) (c : Client Key)
      → IsSound timely c
      → IsSound timely (handle_alert lib sys payload authenticated c)
  unfolding handle_alert
  handle_alert-IsSound payload authenticated c s =
      if-IsSound (ltb (length payload) 2) _ _ (λ t. s)
        (λ f.
          if-IsSound (byte_at 1 payload == 0) _ _
            (λ t.
              IsSound-intro c (record c { peer_closed = c.peer_closed || authenticated }) s
                s.inbox_fits s.appdata_fits refl refl refl s.active)
            (λ g. if-IsSound (byte_at 0 payload == 2) _ _ (λ t. failed-IsSound c s) (λ h. s)))

  change_cipher-IsSound :
      (payload : Bytes) (c : Client Key)
      → IsSound timely c
      → IsSound timely (change_cipher lib sys payload c)
  unfolding change_cipher
  change_cipher-IsSound payload c s =
      if-IsSound (bytes_eq payload (1 ∷ []) && awaits_finished c.phase) _ _
        (λ t.
          IsSound-intro c (record c { read_active = true; recv_windows = remove c.recv_windows 1 })
            s s.inbox_fits s.appdata_fits refl refl refl (λ e. refl))
        (λ f. s)

  take_appdata-IsSound :
      (payload : Bytes) (authenticated : Bool) (c : Client Key)
      → IsSound timely c
      → IsSound timely (take_appdata lib sys payload authenticated c)
  unfolding take_appdata
  take_appdata-IsSound payload authenticated c s =
      if-IsSound authenticated _ _
        (λ t.
          IsSound-intro c (record c { appdata = push_appdata c.appdata payload }) s s.inbox_fits
            (push_appdata-fits c.appdata payload s.appdata_fits) refl refl refl s.active)
        (λ f. s)

  handle_payload-Sound :
      (content_type : ℕ) (authenticated only : Bool) (payload : Bytes) (c : Client Key)
      → IsSound timely c
      → Sound timely (handle_payload lib sys content_type authenticated only payload c)
  unfolding handle_payload is_stuck
  handle_payload-Sound content_type authenticated only payload c s =
      if-Sound (content_type == 22) _ _
        (λ t.
          Framed-Sound c (handle_handshake_fragment lib sys payload authenticated only c) s
            (handle_handshake_fragment-Framed lib sys payload authenticated only c))
        (λ f.
          if-Sound (content_type == 20) _ _ (λ t. (change_cipher-IsSound payload c s, refl))
            (λ f.
              if-Sound (content_type == 21) _ _
                (λ t. (handle_alert-IsSound payload authenticated c s, refl))
                (λ f.
                  if-Sound (content_type == 23) _ _
                    (λ t. (take_appdata-IsSound payload authenticated c s, refl))
                    (λ f. (s, refl)))))

  take_opened-Sound :
      (bytes : Bytes) (only : Bool) (w : ReplayWindow) (o : Opened) (c : Client Key)
      → IsSound timely c
      → Sound timely (take_opened lib sys bytes only w o c)
  unfolding take_opened is_stuck is_out_of_fuel
  take_opened-Sound bytes only w raised c s = (s, refl)
  take_opened-Sound bytes only w rejected c s = (s, refl)
  take_opened-Sound bytes only w (opened payload) c s =
      let d = set c.recv_windows (epoch_of bytes) (accept w (seq_of bytes)) in
      handle_payload-Sound (content_type_of bytes) true only payload (record c { recv_windows = d })
        (windows-IsSound d c s)

  open_record-Sound :
      (bytes : Bytes) (only : Bool) (t : Option Transform) (c : Client Key)
      → IsSound timely c
      → Sound timely (open_record lib sys bytes only t c)
  unfolding open_record is_stuck
  open_record-Sound bytes only none c s = (s, refl)
  open_record-Sound bytes only (some t) c s =
      let w = window_of (get c.recv_windows (epoch_of bytes)) in
      let d = set c.recv_windows (epoch_of bytes) w in
      if-Sound (is_replay w (seq_of bytes)) _ _ (λ e. (windows-IsSound d c s, refl))
        (λ f.
          take_opened-Sound bytes only w
            (unprotect lib.hmac lib.decrypt t (epoch_of bytes) (seq_of bytes)
              (content_type_of bytes) (fragment_of bytes))
            (record c { recv_windows = d }) (windows-IsSound d c s))

  read_record-Sound :
      (bytes : Bytes) (only : Bool) (c : Client Key)
      → IsSound timely c
      → Sound timely (read_record lib sys bytes only c)
  unfolding read_record is_stuck
  read_record-Sound bytes only c s =
      if-Sound (not (epoch_of bytes == (if c.read_active then 1 else 0))) _ _ (λ t. (s, refl))
        (λ f.
          if-Sound c.read_active _ _ (λ t. open_record-Sound bytes only c.transform c s)
            (λ g. handle_payload-Sound (content_type_of bytes) false only (fragment_of bytes) c s))

  handle_record-Sound :
      (bytes : Bytes) (c : Client Key)
      → IsSound timely c
      → Sound timely (handle_record lib sys bytes c)
  unfolding handle_record is_stuck
  handle_record-Sound bytes c s =
      if-Sound (has_version bytes) _ _ (λ t. read_record-Sound bytes false c s)
        (λ f.
          if-Sound (is_old_hello_verify lib sys bytes c) _ _ (λ t. read_record-Sound bytes true c s)
            (λ g. (s, refl)))

  handle_each-Sound :
      (records : List Bytes) (c : Client Key)
      → IsSound timely c
      → Sound timely (handle_each lib sys records c)
  unfolding handle_each is_stuck
  handle_each-Sound [] c s = (s, refl)
  handle_each-Sound (bytes ∷ rest) c s =
      next_if_ok-Sound (handle_record lib sys bytes c) _ (handle_record-Sound bytes c s)
        (λ u c' s'. if-Sound c'.failed _ _ (λ t. (s', refl)) (λ f. handle_each-Sound rest c' s'))

  drain-Sound :
      (inbox : List Bytes) (c : Client Key)
      → length inbox ≤ 64
      → IsSound timely c
      → Sound timely (drain lib sys inbox c)
  unfolding drain is_stuck
  drain-Sound [] c h s = (s, refl)
  drain-Sound (datagram ∷ inbox) c h s =
      let c' = record c { inbox = inbox } in
      next_if_ok-Sound (handle_each lib sys (split_dtls datagram) c') _
        (handle_each-Sound (split_dtls datagram) c'
          (IsSound-intro c c' s (omega arith) s.appdata_fits refl refl refl s.active))
        (λ stop d s'.
          if-Sound stop _ _ (λ t. (s', refl)) (λ f. drain-Sound inbox d (omega arith) s'))

  pub drain_inbox-Sound : (c : Client Key) → IsSound timely c → Sound timely (drain_inbox lib sys c)
  unfolding drain_inbox
  drain_inbox-Sound c s = drain-Sound c.inbox c s.inbox_fits s
