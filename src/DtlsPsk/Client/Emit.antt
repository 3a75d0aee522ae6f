-- ===== src/DtlsPsk/Client/Emit.antt =====
-- What the client sends: records, handshake messages, the hello and the flight with the keys.
pub mod Frame
pub mod Secrets
use smart_things_local.Prelude.{
  ℕ, zero, suc, ◌+◌, ◌*◌, ◌/◌, ◌%◌, ◌^◌, Bool, true, false, not, ◌&&◌, ◌||◌, List, [], ◌∷◌, ◌++◌,
  Option, none, some, length, take, drop, leb, ltb, ◌==◌, if◌then◌else◌,
}
use smart_things_local.Prelude.Bytes.{Bytes, pack16}
use smart_things_local.Errors.{
  Error, Result, ok, err, dtls_error, struct_error, value_error, attribute_error,
}
use smart_things_local.DtlsPsk.Transform.{Transform, pack48, protect, init}
use smart_things_local.DtlsPsk.Client.{
  Client, Action, Library, System, max_outbox, raise, modify, ◌>>=◌, ◌>>◌, fail,
}

-- `_CT_*` and `_HT_*`
abbrev pub ct_change_cipher_spec : ℕ
ct_change_cipher_spec = 20

abbrev pub ct_alert : ℕ
ct_alert = 21

abbrev pub ct_handshake : ℕ
ct_handshake = 22

abbrev pub ct_application_data : ℕ
ct_application_data = 23

-- `v.to_bytes(3, "big")`
abbrev pub pack24 : ℕ → Bytes
pack24 v = (v / 65536) ∷ pack16 (v % 65536)

-- `_VERSION`
abbrev pub version : Bytes
version = 254 ∷ 253 ∷ []

-- The texts of `_prf`: "master secret", "key expansion", "client finished", "server finished".
abbrev pub master_label : Bytes
master_label = 109 ∷ 97 ∷ 115 ∷ 116 ∷ 101 ∷ 114 ∷ 32 ∷ 115 ∷ 101 ∷ 99 ∷ 114 ∷ 101 ∷ 116 ∷ []

abbrev pub expansion_label : Bytes
expansion_label = 107 ∷ 101 ∷ 121 ∷ 32 ∷ 101 ∷ 120 ∷ 112 ∷ 97 ∷ 110 ∷ 115 ∷ 105 ∷ 111 ∷ 110 ∷ []

abbrev pub client_label : Bytes
client_label =
    99 ∷ 108 ∷ 105 ∷ 101 ∷ 110 ∷ 116 ∷ 32 ∷ 102 ∷ 105 ∷ 110 ∷ 105 ∷ 115 ∷ 104 ∷ 101 ∷ 100 ∷ []

abbrev pub server_label : Bytes
server_label =
    115 ∷ 101 ∷ 114 ∷ 118 ∷ 101 ∷ 114 ∷ 32 ∷ 102 ∷ 105 ∷ 110 ∷ 105 ∷ 115 ∷ 104 ∷ 101 ∷ 100 ∷ []

-- `_handshake_header`, whose integers do not fit from 2 ^ 24 and 2 ^ 16 on.
unfoldable pub message_bytes : ℕ → ℕ → Bytes → Bytes
message_bytes msg_type msg_seq body =
    msg_type
    ∷ (pack24 (length body) ++ (pack16 msg_seq ++ (pack24 0 ++ (pack24 (length body) ++ body))))

-- The supported curve, and the point format.
abbrev pub extensions : Bytes
extensions = 0 ∷ 10 ∷ 0 ∷ 4 ∷ 0 ∷ 2 ∷ 0 ∷ 23 ∷ 0 ∷ 11 ∷ 0 ∷ 2 ∷ 1 ∷ 0 ∷ []

-- The body of a ClientHello: no session, one cipher suite and no compression.
unfoldable pub hello_body : Bytes → Bytes → Bytes
hello_body random cookie =
    version
    ++ (random
        ++ (0
            ∷ length cookie
            ∷ (cookie ++ (0 ∷ 2 ∷ 192 ∷ 55 ∷ 1 ∷ 0 ∷ (pack16 (length extensions) ++ extensions)))))

unfoldable pub record_bytes : ℕ → ℕ → ℕ → Bytes → Bytes
record_bytes content_type epoch seq fragment =
    content_type
    ∷ (version ++ (pack16 epoch ++ (pack48 seq ++ (pack16 (length fragment) ++ fragment))))

abbrev pub premaster : Bytes → Bytes → Bytes
premaster shared psk = pack16 (length shared) ++ (shared ++ (pack16 (length psk) ++ psk))

unfoldable pub key_exchange_body : Bytes → Bytes → Bytes
key_exchange_body identity public =
    pack16 (length identity) ++ (identity ++ (length public ∷ public))

-- `_prf`: a round for each digest. Fuel for each byte is enough, as a digest is not empty.
module _ (hmac : Bytes → Bytes → Bytes) where
  unfoldable pub prf_rounds : ℕ → Bytes → Bytes → Bytes → Bytes → ℕ → Bytes
  prf_rounds zero secret seed a out size = out
  prf_rounds (suc fuel) secret seed a out size =
      let rest =
        prf_rounds fuel secret seed (hmac secret a) (out ++ hmac secret (a ++ seed)) size in
      if ltb (length out) size then rest else out

  unfoldable pub prf : Bytes → Bytes → Bytes → ℕ → Bytes
  prf secret label seed size =
      take size (prf_rounds size secret (label ++ seed) (hmac secret (label ++ seed)) [] size)

module _ {Key : Type 0} (lib : Library Key) (sys : System Key) where
  -- `_start_flight`
  abbrev pub start_flight : Action Key (Unit {0})
  start_flight = modify (λ (c : Client Key). record c { flight = []; rto = 1000 })

  -- The tail of `_emit_record`: handshake and cipher records are kept for another try.
  unfoldable pub keep_record : ℕ → Bytes → Client Key → Client Key
  keep_record content_type bytes c =
      if content_type == ct_handshake || content_type == ct_change_cipher_spec
      then record c {
        flight = c.flight ++ (bytes ∷ []);
        flight_deadline = some (sys.now c.draws + c.rto);
        draws = c.draws + 1;
      }
      else c

  unfoldable pub queue_record : ℕ → Bytes → Action Key (Unit {0})
  queue_record content_type bytes c =
      if ltb max_outbox (length c.outbox + length bytes)
      then (record c { send_seq = c.send_seq + 1; failed = true }, err dtls_error)
      else (
        keep_record content_type bytes
            (record c { send_seq = c.send_seq + 1; outbox = c.outbox ++ bytes }),
        ok tt,
      )

  unfoldable pub frame_record : ℕ → Option Bytes → Action Key (Unit {0})
  frame_record content_type none c = (c, err struct_error)
  frame_record content_type (some fragment) c =
      if leb (2 ^ 16) (length fragment)
      then (c, err struct_error)
      else queue_record content_type (record_bytes content_type c.send_epoch c.send_seq fragment) c

  unfoldable pub emit_protected : ℕ → Bytes → Option Transform → Action Key (Unit {0})
  emit_protected content_type payload none c = frame_record content_type (some payload) c
  emit_protected content_type payload (some t) c =
      if c.send_epoch == 0
      then frame_record content_type (some payload) c
      else frame_record content_type
          (protect lib.hmac lib.encrypt t (sys.urandom c.draws 16) c.send_epoch c.send_seq
            content_type payload)
          (record c { draws = c.draws + 1 })

  -- `_emit_record`
  unfoldable pub emit_record : ℕ → Bytes → Action Key (Unit {0})
  emit_record content_type payload c =
      if leb (2 ^ 48) c.send_seq
      then (fail c, err dtls_error)
      else emit_protected content_type payload c.transform c

  -- `_emit_handshake`, whose every caller asks for the transcript
  unfoldable pub emit_handshake : ℕ → Bytes → Action Key (Unit {0})
  emit_handshake msg_type body c =
      if leb (2 ^ 24) (length body) || leb (2 ^ 16) c.next_msg_seq
      then (c, err struct_error)
      else let message = message_bytes msg_type c.next_msg_seq body in
        emit_record ct_handshake message
          (record c { next_msg_seq = c.next_msg_seq + 1; transcript = c.transcript ++ message })

  unfoldable pub draw_random : Bytes → Client Key → Client Key
  draw_random cookie c =
      if length cookie == 0
      then record c { client_random = sys.urandom c.draws 32; draws = c.draws + 1 }
      else c

  -- `_send_client_hello`
  unfoldable pub send_client_hello : Bytes → Action Key (Unit {0})
  send_client_hello cookie c =
      let c' = draw_random cookie c in
      if leb 256 (length cookie)
      then (c', err value_error)
      else emit_handshake 1 (hello_body c'.client_random cookie)
          (record c' { flight = []; rto = 1000 })

  -- The secrets, from the premaster secret.
  unfoldable pub derive : Key → Client Key → Client Key
  derive key c = record c {
    master_secret =
        prf lib.hmac (premaster (lib.exchange key c.peer_point) c.psk) master_label
          (c.client_random ++ c.server_random) 48;
  }

  unfoldable pub install : Client Key → Client Key
  install c = record c {
    transform = some (
        init
          (prf lib.hmac c.master_secret expansion_label (c.server_random ++ c.client_random) 96));
    send_epoch = 1;
    send_seq = 0;
  }

  unfoldable pub client_finished : Client Key → Bytes
  client_finished c = prf lib.hmac c.master_secret client_label (lib.sha256 c.transcript) 12

  -- `_send_client_flight` behind the start of the flight
  unfoldable pub send_keys : Option Key → Action Key (Unit {0})
  send_keys none = raise attribute_error
  send_keys (some key) = do
    c ← λ c. (c, ok c)
    emit_handshake 16 (key_exchange_body c.identity (lib.public_bytes key))
    modify (derive key)
    emit_record ct_change_cipher_spec (1 ∷ [])
    modify install
    λ c. emit_handshake 20 (client_finished c) c

  unfoldable pub send_client_flight : Action Key (Unit {0})
  send_client_flight c = send_keys c.private_key (record c { flight = []; rto = 1000 })
