-- ===== src/DtlsPsk/Client.antt =====
-- `DtlsPskClient`: its state, the queues of its memory BIO, and what a call does to it.
pub mod Emit
pub mod Handshake
pub mod Records
pub mod Receive
pub mod Calls
use smart_things_local.Prelude.{
  ℕ, ◌+◌, ◌-◌, Bool, true, false, List, [], ◌∷◌, ◌++◌, Option, none, some, length, take, drop, leb,
  ◌==◌, ◌&&◌, ◌||◌, if◌then◌else◌,
}
use smart_things_local.Prelude.Bytes.{Bytes}
use smart_things_local.Errors.{Error, Result, ok, err, want_read, value_error}
use smart_things_local.Ocf.Dict.{Dict}
use smart_things_local.DtlsPsk.ReplayWindow.{ReplayWindow}
use smart_things_local.DtlsPsk.Transform.{Transform}
use smart_things_local.DtlsPsk.Reassembly.{Entry}

-- `_MAX_OUTBOX`, `_MAX_INBOX`, `_MAX_APPDATA`, `_MAX_SEQ` + 1
abbrev pub max_outbox : ℕ
max_outbox = 262144

abbrev pub max_inbox : ℕ
max_inbox = 64

abbrev pub max_appdata : ℕ
max_appdata = 256

-- `_state`
pub data Phase : Type 0 where
  start sent_hello sent_cookie_hello got_server_hello got_server_params sent_client_flight
        established :
      Phase

unfoldable pub is_established : Phase → Bool
is_established established = true
is_established _ = false

-- `_state in ("sent_hello", "sent_cookie_hello")`
unfoldable pub awaits_hello : Phase → Bool
awaits_hello sent_hello = true
awaits_hello sent_cookie_hello = true
awaits_hello _ = false

unfoldable pub sent_cookie : Phase → Bool
sent_cookie sent_cookie_hello = true
sent_cookie _ = false

unfoldable pub awaits_finished : Phase → Bool
awaits_finished sent_client_flight = true
awaits_finished _ = false

unfoldable pub has_hello : Phase → Bool
has_hello got_server_hello = true
has_hello _ = false

unfoldable pub has_params : Phase → Bool
has_params got_server_params = true
has_params _ = false

-- What the libraries compute: HMAC and SHA-256, AES-CBC, and the elliptic curve.
pub record Library (Key : Type 0) : Type 0 where
  pub hmac : Bytes → Bytes → Bytes
  pub sha256 : Bytes → Bytes
  pub encrypt : Bytes → Bytes → Bytes → Bytes
  pub decrypt : Bytes → Bytes → Bytes → Bytes
  pub is_point : Bytes → Bool
  pub public_bytes : Key → Bytes
  pub exchange : Key → Bytes → Bytes

-- What the system gives, by the number of calls before: `os.urandom`, a new private key, and the clock in milliseconds.
pub record System (Key : Type 0) : Type 0 where
  pub urandom : ℕ → ℕ → Bytes
  pub new_key : ℕ → Key
  pub now : ℕ → ℕ

-- Of `_failed` only whether there is a reason is kept; `draws` counts the calls of the system.
pub record Client (Key : Type 0) : Type 0 where
  pub identity : Bytes
  pub psk : Bytes
  pub inbox : List Bytes
  pub outbox : Bytes
  pub appdata : List Bytes
  pub phase : Phase
  pub transcript : Bytes
  pub send_epoch : ℕ
  pub send_seq : ℕ
  pub next_msg_seq : ℕ
  pub recv_windows : Dict ℕ ReplayWindow
  pub transform : Option Transform
  pub read_active : Bool
  pub client_random : Bytes
  pub server_random : Bytes
  pub cookie : Bytes
  pub master_secret : Bytes
  pub private_key : Option Key
  pub peer_point : Bytes
  pub pending : Dict ℕ Entry
  pub ready : Dict ℕ (ℕ × Bytes)
  pub next_recv_msg_seq : ℕ
  pub flight : List Bytes
  pub rto : ℕ
  pub flight_deadline : Option ℕ
  pub peer_closed : Bool
  pub hello_verify_count : ℕ
  pub failed : Bool
  pub draws : ℕ

-- A call: the state comes back after an exception too.
abbrev pub Action : Type 0 → Type 0 → Type 0
Action Key A = Client Key → Client Key × Result A

abbrev pub Handler : Type 0 → Type 0
Handler Key = Action Key (Unit {0})

module _ {Key : Type 0} where
  abbrev pub next_if_ok :
      {A B : Type 0} → Client Key × Result A → (A → Action Key B) → Client Key × Result B
  next_if_ok (c, err e) next = (c, err e)
  next_if_ok (c, ok a) next = next a c

  abbrev pub pure : {A : Type 0} → A → Action Key A
  pure a c = (c, ok a)

  abbrev pub raise : {A : Type 0} → Error → Action Key A
  raise e c = (c, err e)

  abbrev pub modify : (Client Key → Client Key) → Action Key (Unit {0})
  modify f c = (f c, ok tt)

  infixl 5 ◌>>=◌ ◌>>◌
  abbrev pub ◌>>=◌ : {A B : Type 0} → Action Key A → (A → Action Key B) → Action Key B
  ◌>>=◌ m next c = next_if_ok (m c) next

  abbrev pub ◌>>◌ : {B : Type 0} → Action Key (Unit {0}) → Action Key B → Action Key B
  m >> rest = m >>= λ (_ : Unit {0}). rest

  -- A client behind the checks of the arguments; `mtu` is not used.
  unfoldable pub new_client : Bytes → Bytes → Client Key
  new_client identity key = record {
    identity = identity;
    psk = key;
    inbox = [];
    outbox = [];
    appdata = [];
    phase = start;
    transcript = [];
    send_epoch = 0;
    send_seq = 0;
    next_msg_seq = 0;
    recv_windows = [];
    transform = none;
    read_active = false;
    client_random = [];
    server_random = [];
    cookie = [];
    master_secret = [];
    private_key = none;
    peer_point = [];
    pending = [];
    ready = [];
    next_recv_msg_seq = 0;
    flight = [];
    rto = 1000;
    flight_deadline = none;
    peer_closed = false;
    hello_verify_count = 0;
    failed = false;
    draws = 0;
  }

  -- `__init__`
  unfoldable pub init : Bytes → Bytes → ℕ → Result (Client Key)
  init identity key mtu =
      let identity_fits = leb 1 (length identity) && leb (length identity) 65535 in
      let key_fits = length key == 16 || length key == 32 in
      if identity_fits && (key_fits && (leb 256 mtu && leb mtu 65535))
      then ok (new_client identity key)
      else err value_error

  -- `bio_write`
  unfoldable pub bio_write : Bytes → Action Key ℕ
  bio_write datagram c =
      if leb max_inbox (length c.inbox)
      then (c, ok 0)
      else (record c { inbox = c.inbox ++ (datagram ∷ []) }, ok (length datagram))

  -- `bio_read`
  unfoldable pub bio_read : ℕ → Action Key Bytes
  bio_read capacity c =
      if length c.outbox == 0
      then (c, err want_read)
      else (record c { outbox = drop capacity c.outbox }, ok (take capacity c.outbox))

  -- `_fail`
  abbrev pub fail : Client Key → Client Key
  fail c = record c { failed = true }

  abbrev pub fail_with : Action Key (Unit {0})
  fail_with = modify fail
