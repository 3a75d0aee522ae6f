-- ===== src/Coap/Response/Correlation.antt =====
-- Which datagrams `classify_coap_response` takes for a response, and which it acknowledges.
use smart_things_local.Prelude.{
  ℕ, ◌<◌, ◌≡◌, ◌≢◌, refl, sym, ap, ◌∙◌, ◌↔◌, ◌⊎◌, Option, none, some, arith, inl, inr,
}
use smart_things_local.Prelude.Bytes.{Bytes, IsBytes}
use smart_things_local.Errors.{Error, ok, err, malformed_message, >>=-eq-ok, Result-cases}
use smart_things_local.Coap.Wire.{CoapMessage, parse_coap_message}
use smart_things_local.Coap.Wire.Canonical.{build-parse_coap_message, parse_coap_message_failure}
use smart_things_local.Coap.Response.{
  response, CoapResponseClassification, classify_parsed, classify_coap_response,
}
use smart_things_local.Coap.Response.Route.{
  Suits, Route-Suits, Answers, empty_ack_message, build_empty_ack_total, Route, bare, confirmed,
  plain, classify_parsed-Route, classify_message_iff, classify_message-message,
  classify_message-acknowledgement,
}

Route-response :
    (m : CoapMessage) (token : Option Bytes) (request_mid : Option ℕ)
    (c : CoapResponseClassification)
    → Route m token request_mid c
    → (c.message ≡ some m) × ((c.kind ≡ response) ↔ Answers m token request_mid)
Route-response m token request_mid c (bare e n s k a) =
    (s, ((λ r. absurd (k r)), (λ (r : Answers m token request_mid). absurd (r.has_code e))))
Route-response m token request_mid c (confirmed ack e b w) = rw w (
  classify_message-message m token request_mid (some ack),
  classify_message_iff m token request_mid (some ack),
)
Route-response m token request_mid c (plain e w) = rw w (
  classify_message-message m token request_mid none,
  classify_message_iff m token request_mid none,
)

-- A datagram that is classified holds one message, and it is classified as the response exactly
-- if it carries a code, is of type CON, NON or ACK, has the token of the request, and, where it is
-- piggybacked on an ACK, has the message id of the request. A filter left out admits every value.
pub classify_coap_response_iff :
    (datagram : Bytes) (token : Option Bytes) (request_mid : Option ℕ)
    (c : CoapResponseClassification)
    → classify_coap_response datagram token request_mid ≡ ok c
    → (m : CoapMessage) × (parse_coap_message datagram ≡ ok m)
      × (c.message ≡ some m)
      × ((c.kind ≡ response) ↔ Answers m token request_mid)
unfolding classify_coap_response
classify_coap_response_iff datagram token request_mid c h =
    let (m, parsed, h₁) = >>=-eq-ok (parse_coap_message datagram) _ h in
    let (s, k) =
      Route-response m token request_mid c (classify_parsed-Route m token request_mid c h₁) in
    (m, parsed, s, k)

-- A datagram that is classified holds one message, whose code suits its kind.
pub classify_coap_response-Suits :
    (datagram : Bytes) (token : Option Bytes) (request_mid : Option ℕ)
    (c : CoapResponseClassification)
    → classify_coap_response datagram token request_mid ≡ ok c
    → (m : CoapMessage) × (parse_coap_message datagram ≡ ok m)
      × (c.message ≡ some m)
      × Suits m c.kind
unfolding classify_coap_response
classify_coap_response-Suits datagram token request_mid c h =
    let (m, parsed, h₁) = >>=-eq-ok (parse_coap_message datagram) _ h in
    let route = classify_parsed-Route m token request_mid c h₁ in
    (
      m,
      parsed,
      (Route-response m token request_mid c route).0,
      Route-Suits m token request_mid c route,
    )

-- What a transport sends back for a message.
abbrev pub Acknowledges : CoapMessage → Option Bytes → Type 0
Acknowledges m a =
    ((m.mtype ≡ 0)
      × (ack : Bytes) × (a ≡ some ack)
      × (parse_coap_message ack ≡ ok (empty_ack_message m.mid)))
    ⊎ ((m.mtype ≢ 0) × (a ≡ none))

Route-Acknowledges :
    (m : CoapMessage) (token : Option Bytes) (request_mid : Option ℕ)
    (c : CoapResponseClassification)
    → m.mid < 65536
    → Route m token request_mid c
    → Acknowledges m c.acknowledgement
Route-Acknowledges m token request_mid c h (bare e n s k a) = inr (n, a)
Route-Acknowledges m token request_mid c h (confirmed ack e b w) =
    let (ack', built, reads) = build_empty_ack_total m.mid h in
    let same : ack ≡ ack' = cc (b, built) in
    inl (
      e,
      ack',
      rw w (classify_message-acknowledgement m token request_mid (some ack) (inl e) ∙ ap some same),
      reads,
    )
Route-Acknowledges m token request_mid c h (plain e w) =
    inr (e, rw w (classify_message-acknowledgement m token request_mid none (inr refl)))

-- The acknowledgement of a classified datagram: for a CON message it is there, and parses as the
-- empty ACK of the message's id; for any other message there is none.
classify_coap_response-Acknowledges :
    (datagram : Bytes) (token : Option Bytes) (request_mid : Option ℕ)
    (c : CoapResponseClassification)
    → IsBytes datagram
    → classify_coap_response datagram token request_mid ≡ ok c
    → (m : CoapMessage) × (parse_coap_message datagram ≡ ok m) × Acknowledges m c.acknowledgement
unfolding classify_coap_response
classify_coap_response-Acknowledges datagram token request_mid c bytes h =
    let (m, parsed, h₁) = >>=-eq-ok (parse_coap_message datagram) _ h in
    let ranges = (build-parse_coap_message datagram m bytes parsed).1 in
    (
      m,
      parsed,
      Route-Acknowledges m token request_mid c ranges.mid_range
          (classify_parsed-Route m token request_mid c h₁),
    )

classify_parsed_failure :
    (m : CoapMessage) (token : Option Bytes) (request_mid : Option ℕ) (e : Error)
    → m.mid < 65536
    → classify_parsed m token request_mid ≡ err e
    → e ≡ malformed_message
unfolding classify_parsed
classify_parsed_failure m token request_mid e h f =
    let (ack, built, _) = build_empty_ack_total m.mid h in ground arith

-- Whatever bytes arrive, the only failure is `MalformedMessageError`.
pub classify_coap_response_failure :
    (datagram : Bytes) (token : Option Bytes) (request_mid : Option ℕ) (e : Error)
    → IsBytes datagram
    → classify_coap_response datagram token request_mid ≡ err e
    → e ≡ malformed_message
unfolding classify_coap_response
classify_coap_response_failure datagram token request_mid e bytes h =
    elim (Result-cases (parse_coap_message datagram)) [
      | inl (m, parsed) ↦
          let ranges = (build-parse_coap_message datagram m bytes parsed).1 in
          classify_parsed_failure m token request_mid e ranges.mid_range (rw parsed at h)
      | inr (f, failed) ↦
          let same : f ≡ e = ground arith in sym same ∙ parse_coap_message_failure datagram f failed
    ]
