-- ===== src/DtlsPsk/Client/Emit/Frame.antt =====
-- What sending leaves as it is.
use smart_things_local.Prelude.{
  ℕ, ◌+◌, ◌≤◌, ◌≡◌, refl, ◌∙◌, Bool, true, false, [], ◌∷◌, ◌++◌, Option, none, some, length,
  length-append, arith, ltb, leb, ◌==◌, if◌then◌else◌, ◌||◌, ◌^◌,
}
use smart_things_local.Prelude.Bytes.{Bytes}
use smart_things_local.Errors.{Error, Result, ok, err, out_of_fuel}
use smart_things_local.DtlsPsk.Transform.{Transform, protect}
use smart_things_local.DtlsPsk.Client.{Client, Action, Library, System, max_outbox, next_if_ok}
use smart_things_local.DtlsPsk.Client.Emit.{
  keep_record, queue_record, frame_record, emit_protected, emit_record, emit_handshake, draw_random,
  send_client_hello, derive, install, send_keys, send_client_flight, record_bytes, message_bytes,
  hello_body, key_exchange_body, client_finished,
}

unfoldable pub is_out_of_fuel : Error → Bool
is_out_of_fuel out_of_fuel = true
is_out_of_fuel _ = false

-- A loop that ran out of its fuel.
unfoldable pub is_stuck : {A : Type 0} → Result A → Bool
is_stuck (err e) = is_out_of_fuel e
is_stuck (ok a) = false

module _ {Key : Type 0} where
  pub record Emits (c c' : Client Key) : Type 0 where
    pub inbox_same : c'.inbox ≡ c.inbox
    pub appdata_same : c'.appdata ≡ c.appdata
    pub phase_same : c'.phase ≡ c.phase
    pub windows_same : c'.recv_windows ≡ c.recv_windows
    pub active_same : c'.read_active ≡ c.read_active
    pub pending_same : c'.pending ≡ c.pending
    pub ready_same : c'.ready ≡ c.ready
    pub outbox_fits : length c.outbox ≤ max_outbox → length c'.outbox ≤ max_outbox

  pub Emits-trans : {a b c : Client Key} → Emits a b → Emits b c → Emits a c
  Emits-trans f g = record {
    inbox_same = g.inbox_same ∙ f.inbox_same;
    appdata_same = g.appdata_same ∙ f.appdata_same;
    phase_same = g.phase_same ∙ f.phase_same;
    windows_same = g.windows_same ∙ f.windows_same;
    active_same = g.active_same ∙ f.active_same;
    pending_same = g.pending_same ∙ f.pending_same;
    ready_same = g.ready_same ∙ f.ready_same;
    outbox_fits = λ h. g.outbox_fits (f.outbox_fits h);
  }

  abbrev pub Emitted : {A : Type 0} → Client Key → Client Key × Result A → Type 0
  Emitted c (c', r) = Emits c c' × (is_stuck r ≡ false)

  -- A change of other fields.
  pub Emits-intro :
      (c c' : Client Key)
      → c'.inbox ≡ c.inbox
      → c'.appdata ≡ c.appdata
      → c'.phase ≡ c.phase
      → c'.recv_windows ≡ c.recv_windows
      → c'.read_active ≡ c.read_active
      → c'.pending ≡ c.pending
      → c'.ready ≡ c.ready
      → (length c.outbox ≤ max_outbox → length c'.outbox ≤ max_outbox)
      → Emits c c'
  Emits-intro c c' a b d e f g h i = record {
    inbox_same = a;
    appdata_same = b;
    phase_same = d;
    windows_same = e;
    active_same = f;
    pending_same = g;
    ready_same = h;
    outbox_fits = i;
  }

  pub Emits-refl : (c : Client Key) → Emits c c
  Emits-refl c = Emits-intro c c refl refl refl refl refl refl refl (λ h. h)

  pub if-Emitted :
      {A : Type 0} {c : Client Key} (b : Bool) (p q : Client Key × Result A)
      → (b ≡ true → Emitted c p)
      → (b ≡ false → Emitted c q)
      → Emitted c (if b then p else q)
  if-Emitted true p q h k = h refl
  if-Emitted false p q h k = k refl

  pub next_if_ok-Emitted :
      {A B : Type 0} {c : Client Key} (p : Client Key × Result A) (next : A → Action Key B)
      → Emitted c p
      → ((a : A) (c' : Client Key) → Emitted c' (next a c'))
      → Emitted c (next_if_ok p next)
  unfolding is_stuck
  next_if_ok-Emitted (c', err e) next (f, q) h = (f, q)
  next_if_ok-Emitted (c', ok a) next (f, q) h = let (g, r) = h a c' in (Emits-trans f g, r)

  after-Emitted :
      {A : Type 0} {c c' : Client Key} (p : Client Key × Result A)
      → Emits c c'
      → Emitted c' p
      → Emitted c p
  after-Emitted (d, r) f (g, q) = (Emits-trans f g, q)

module _ {Key : Type 0} (lib : Library Key) (sys : System Key) where
  keep_record-Emits :
      (content_type : ℕ) (bytes : Bytes) (c : Client Key)
      → Emits c (keep_record lib sys content_type bytes c)
  unfolding keep_record
  keep_record-Emits content_type bytes c =
      elim (content_type == 22 || content_type == 20)
        as (λ (b : Bool). Emits c (
          if b
          then record c {
            flight = c.flight ++ (bytes ∷ []);
            flight_deadline = some (sys.now c.draws + c.rto);
            draws = c.draws + 1;
          }
          else c)) [
            | true ↦ Emits-intro c _ refl refl refl refl refl refl refl (λ h. h)
            | false ↦ Emits-refl c
          ]

  queue_record-Emitted :
      (content_type : ℕ) (bytes : Bytes) (c : Client Key)
      → Emitted c (queue_record lib sys content_type bytes c)
  unfolding queue_record is_stuck is_out_of_fuel
  queue_record-Emitted content_type bytes c =
      if-Emitted (ltb max_outbox (length c.outbox + length bytes)) _ _
        (λ t. (Emits-intro c _ refl refl refl refl refl refl refl (λ h. h), refl))
        (λ f. (
          Emits-trans
              (Emits-intro c (record c { send_seq = c.send_seq + 1; outbox = c.outbox ++ bytes })
                refl refl refl refl refl refl refl
                (λ h. ground (arith, length-append c.outbox bytes)))
              (keep_record-Emits content_type bytes
                (record c { send_seq = c.send_seq + 1; outbox = c.outbox ++ bytes })),
          refl,
        ))

  frame_record-Emitted :
      (content_type : ℕ) (fragment : Option Bytes) (c : Client Key)
      → Emitted c (frame_record lib sys content_type fragment c)
  unfolding frame_record is_stuck is_out_of_fuel
  frame_record-Emitted content_type none c = (Emits-refl c, refl)
  frame_record-Emitted content_type (some fragment) c =
      if-Emitted (leb (2 ^ 16) (length fragment)) _ _ (λ t. (Emits-refl c, refl))
        (λ f.
          queue_record-Emitted content_type
            (record_bytes content_type c.send_epoch c.send_seq fragment) c)

  emit_protected-Emitted :
      (content_type : ℕ) (payload : Bytes) (t : Option Transform) (c : Client Key)
      → Emitted c (emit_protected lib sys content_type payload t c)
  unfolding emit_protected
  emit_protected-Emitted content_type payload none c =
      frame_record-Emitted content_type (some payload) c
  emit_protected-Emitted content_type payload (some t) c =
      let c' = record c { draws = c.draws + 1 } in
      let fragment =
        protect lib.hmac lib.encrypt t (sys.urandom c.draws 16) c.send_epoch c.send_seq content_type
          payload in
      if-Emitted (c.send_epoch == 0) _ _ (λ e. frame_record-Emitted content_type (some payload) c)
        (λ e.
          after-Emitted (frame_record lib sys content_type fragment c')
            (Emits-intro c c' refl refl refl refl refl refl refl (λ h. h))
            (frame_record-Emitted content_type fragment c'))

  pub emit_record-Emitted :
      (content_type : ℕ) (payload : Bytes) (c : Client Key)
      → Emitted c (emit_record lib sys content_type payload c)
  unfolding emit_record is_stuck is_out_of_fuel
  emit_record-Emitted content_type payload c =
      if-Emitted (leb (2 ^ 48) c.send_seq) _ _
        (λ t. (Emits-intro c _ refl refl refl refl refl refl refl (λ h. h), refl))
        (λ f. emit_protected-Emitted content_type payload c.transform c)

  emit_handshake-Emitted :
      (msg_type : ℕ) (body : Bytes) (c : Client Key)
      → Emitted c (emit_handshake lib sys msg_type body c)
  unfolding emit_handshake is_stuck is_out_of_fuel
  emit_handshake-Emitted msg_type body c =
      let message = message_bytes msg_type c.next_msg_seq body in
      let c' = record c {
        next_msg_seq = c.next_msg_seq + 1;
        transcript = c.transcript ++ message;
      } in
      if-Emitted (leb (2 ^ 24) (length body) || leb (2 ^ 16) c.next_msg_seq) _ _
        (λ t. (Emits-refl c, refl))
        (λ f.
          after-Emitted (emit_record lib sys 22 message c')
            (Emits-intro c c' refl refl refl refl refl refl refl (λ h. h))
            (emit_record-Emitted 22 message c'))

  draw_random-Emits : (cookie : Bytes) (c : Client Key) → Emits c (draw_random lib sys cookie c)
  unfolding draw_random
  draw_random-Emits cookie c =
      elim (length cookie == 0)
        as (λ (b : Bool). Emits c (
          if b
          then record c { client_random = sys.urandom c.draws 32; draws = c.draws + 1 }
          else c)) [
            | true ↦ Emits-intro c _ refl refl refl refl refl refl refl (λ h. h)
            | false ↦ Emits-refl c
          ]

  pub send_client_hello-Emitted :
      (cookie : Bytes) (c : Client Key) → Emitted c (send_client_hello lib sys cookie c)
  unfolding send_client_hello is_stuck is_out_of_fuel
  send_client_hello-Emitted cookie c =
      let c' = draw_random lib sys cookie c in
      let f = draw_random-Emits cookie c in
      let c'' = record c' { flight = []; rto = 1000 } in
      let body = hello_body c'.client_random cookie in
      if-Emitted (leb 256 (length cookie)) _ _ (λ t. (f, refl))
        (λ e.
          after-Emitted (emit_handshake lib sys 1 body c'')
            (Emits-trans f (Emits-intro c' c'' refl refl refl refl refl refl refl (λ h. h)))
            (emit_handshake-Emitted 1 body c''))

  send_keys-Emitted : (key : Option Key) (c : Client Key) → Emitted c (send_keys lib sys key c)
  unfolding send_keys derive install is_stuck is_out_of_fuel
  send_keys-Emitted none c = (Emits-refl c, refl)
  send_keys-Emitted (some key) c =
      next_if_ok-Emitted
        (emit_handshake lib sys 16 (key_exchange_body c.identity (lib.public_bytes key)) c) _
        (emit_handshake-Emitted 16 (key_exchange_body c.identity (lib.public_bytes key)) c)
        (λ u c₁.
          let c₂ = derive lib sys key c₁ in
          after-Emitted (next_if_ok (emit_record lib sys 20 (1 ∷ []) c₂) _)
            (Emits-intro c₁ c₂ refl refl refl refl refl refl refl (λ h. h))
            (next_if_ok-Emitted (emit_record lib sys 20 (1 ∷ []) c₂) _
              (emit_record-Emitted 20 (1 ∷ []) c₂)
              (λ v c₃.
                let c₄ = install lib sys c₃ in
                after-Emitted (emit_handshake lib sys 20 (client_finished lib sys c₄) c₄)
                  (Emits-intro c₃ c₄ refl refl refl refl refl refl refl (λ h. h))
                  (emit_handshake-Emitted 20 (client_finished lib sys c₄) c₄))))

  pub send_client_flight-Emitted : (c : Client Key) → Emitted c (send_client_flight lib sys c)
  unfolding send_client_flight
  send_client_flight-Emitted c =
      let c' = record c { flight = []; rto = 1000 } in
      after-Emitted (send_keys lib sys c.private_key c')
        (Emits-intro c c' refl refl refl refl refl refl refl (λ h. h))
        (send_keys-Emitted c.private_key c')
