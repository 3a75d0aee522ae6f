-- ===== src/Coap/Response/Route.antt =====
-- The ways in which `classify_coap_response` treats a parsed message.
use smart_things_local.Prelude.{
  ℕ, ◌≤◌, ◌<◌, ◌≡◌, ◌≢◌, refl, ◌↔◌, ◌⊎◌, false, [], Option, none, some, arith, Bool-cases, inl, inr,
  ◌==◌, ◌||◌, ◌&&◌, not,
}
use smart_things_local.Prelude.Bytes.{Bytes, bytes_eq_iff}
use smart_things_local.Errors.{ok, Result-cases}
use smart_things_local.Coap.Options.{sort_options}
use smart_things_local.Coap.Wire.{CoapMessage, parse_coap_message, build_empty_ack}
use smart_things_local.Coap.Wire.RoundTrip.{build-IsSendable, parse_coap_message-build}
use smart_things_local.Coap.Response.{
  ResponseKind, ignore, empty_ack, reset, response, CoapResponseClassification, classify_empty,
  classify_message, classify_parsed, mid_differs, token_differs,
}

-- A filter that was left out, or that names the value.
abbrev pub Admits {ℓ} : {A : Type ℓ} → Option A → A → Type ℓ
Admits none a = Unit
Admits (some b) a = a ≡ b

-- The message answers the request with this token and this message id.
pub record Answers (m : CoapMessage) (token : Option Bytes) (request_mid : Option ℕ) : Type 0 where
  pub mtype_range : m.mtype ≤ 2
  pub has_code : m.code ≢ 0
  pub same_token : Admits token m.token
  pub same_mid : m.mtype ≡ 2 → Admits request_mid m.mid

abbrev pub empty_ack_message : ℕ → CoapMessage
empty_ack_message mid = record {
  mtype = 2;
  code = 0;
  mid = mid;
  token = [];
  options = [];
  payload = [];
}

-- The acknowledgement of a message id that fits in 16 bits can be built and is read as one.
pub build_empty_ack_total :
    (mid : ℕ)
    → mid < 65536
    → (ack : Bytes) × (build_empty_ack mid ≡ ok ack)
      × (parse_coap_message ack ≡ ok (empty_ack_message mid))
unfolding build_empty_ack
build_empty_ack_total mid h =
    let m = empty_ack_message mid in
    let (ack, built, _) = build-IsSendable m (omega arith) in
    (
      ack,
      built,
      unfold sort_options in parse_coap_message-build m ack (omega arith) h (omega arith) built,
    )

token_differs_iff :
    (token : Option Bytes) (t : Bytes) → (token_differs token t ≡ false) ↔ Admits token t
unfolding token_differs
token_differs_iff none t = ((λ _. tt), (λ _. refl))
token_differs_iff (some b) t = ground (arith, bytes_eq_iff t b)

mid_differs_iff :
    (request_mid : Option ℕ) (mid : ℕ)
    → (mid_differs request_mid mid ≡ false) ↔ Admits request_mid mid
unfolding mid_differs
mid_differs_iff none mid = ((λ _. tt), (λ _. refl))
mid_differs_iff (some i) mid = ground arith

pub classify_message_iff :
    (m : CoapMessage) (token : Option Bytes) (request_mid : Option ℕ) (a : Option Bytes)
    → ((classify_message m token request_mid a).kind ≡ response) ↔ Answers m token request_mid
unfolding classify_message
classify_message_iff m token request_mid a =
    ground (arith, token_differs_iff token m.token, mid_differs_iff request_mid m.mid)

pub classify_message-message :
    (m : CoapMessage) (token : Option Bytes) (request_mid : Option ℕ) (a : Option Bytes)
    → (classify_message m token request_mid a).message ≡ some m
unfolding classify_message
classify_message-message m token request_mid a = ground arith

-- An empty ACK or a RST has no code, and a response has one.
abbrev pub Suits : CoapMessage → ResponseKind → Type 0
Suits m ignore = Unit
Suits m empty_ack = m.code ≡ 0
Suits m reset = m.code ≡ 0
Suits m response = m.code ≢ 0

classify_message-Suits :
    (m : CoapMessage) (token : Option Bytes) (request_mid : Option ℕ) (a : Option Bytes)
    → Suits m (classify_message m token request_mid a).kind
unfolding classify_message
classify_message-Suits m token request_mid a =
    elim (Bool-cases (not (m.mtype == 0 || m.mtype == 1 || m.mtype == 2))) [
      | inl odd ↦ rw odd tt
      | inr usual ↦ elim (Bool-cases (m.code == 0)) [
        | inl empty ↦ rw (usual, empty) tt
        | inr coded ↦ elim (Bool-cases (token_differs token m.token)) [
          | inl other ↦ rw (usual, coded, other) tt
          | inr own ↦ elim (Bool-cases (m.mtype == 2 && mid_differs request_mid m.mid)) [
            | inl stale ↦ rw (usual, coded, own, stale) tt
            | inr current ↦ rw (usual, coded, own, current) (λ e. ground arith)
          ]
        ]
      ]
    ]

-- A message that is not acknowledged keeps that, and a CON message its acknowledgement.
pub classify_message-acknowledgement :
    (m : CoapMessage) (token : Option Bytes) (request_mid : Option ℕ) (a : Option Bytes)
    → (m.mtype ≡ 0) ⊎ (a ≡ none)
    → (classify_message m token request_mid a).acknowledgement ≡ a
unfolding classify_message
classify_message-acknowledgement m token request_mid a h = ground arith

-- The three ways in which a parsed message is classified.
pub data Route (m : CoapMessage) (token : Option Bytes) (request_mid : Option ℕ)
    (c : CoapResponseClassification) : Type 0 where
  bare :
      m.code ≡ 0
      → m.mtype ≢ 0
      → c.message ≡ some m
      → c.kind ≢ response
      → c.acknowledgement ≡ none
      → Route m token request_mid c
  confirmed :
      (ack : Bytes)
      → m.mtype ≡ 0
      → build_empty_ack m.mid ≡ ok ack
      → c ≡ classify_message m token request_mid (some ack)
      → Route m token request_mid c
  plain : m.mtype ≢ 0 → c ≡ classify_message m token request_mid none → Route m token request_mid c

bare_route :
    (m : CoapMessage) (request_mid : Option ℕ) (c : CoapResponseClassification)
    → classify_empty m request_mid ≡ ok c
    → (c.message ≡ some m) × (c.kind ≢ response) × (c.acknowledgement ≡ none)
unfolding classify_empty
bare_route m request_mid c h = ground arith

bare-Suits : (m : CoapMessage) (kind : ResponseKind) → m.code ≡ 0 → kind ≢ response → Suits m kind
bare-Suits m ignore e k = tt
bare-Suits m empty_ack e k = e
bare-Suits m reset e k = e
bare-Suits m response e k = absurd (k refl)

pub Route-Suits :
    (m : CoapMessage) (token : Option Bytes) (request_mid : Option ℕ)
    (c : CoapResponseClassification)
    → Route m token request_mid c
    → Suits m c.kind
Route-Suits m token request_mid c (bare e n s k a) = bare-Suits m c.kind e k
Route-Suits m token request_mid c (confirmed ack e b w) =
    rw w (classify_message-Suits m token request_mid (some ack))
Route-Suits m token request_mid c (plain e w) =
    rw w (classify_message-Suits m token request_mid none)

pub classify_parsed-Route :
    (m : CoapMessage) (token : Option Bytes) (request_mid : Option ℕ)
    (c : CoapResponseClassification)
    → classify_parsed m token request_mid ≡ ok c
    → Route m token request_mid c
unfolding classify_parsed
classify_parsed-Route m token request_mid c h =
    elim (Bool-cases ((m.mtype == 2 || m.mtype == 3) && m.code == 0)) [
      | inl e ↦
          let b = bare_route m request_mid c (rw e at h) in
          bare (ground arith) (ground arith) b.0 b.1 b.2
      | inr e ↦ elim (Bool-cases (m.mtype == 0)) [
        | inl con ↦ elim (Result-cases (build_empty_ack m.mid)) [
          | inl (ack, built) ↦ confirmed ack (ground arith) built (ground arith)
          | inr (f, failed) ↦ absurd (ground arith)
        ]
        | inr other ↦ plain (ground arith) (ground arith)
      ]
    ]
