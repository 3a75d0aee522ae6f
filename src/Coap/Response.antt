-- ===== src/Coap/Response.antt =====
-- `classify_coap_response`. What a caller leaves out (`token=None`, `request_mid=None`) is `none`.
pub mod Route
pub mod Correlation
use smart_things_local.Prelude.{
  ℕ, Bool, true, false, not, ◌&&◌, ◌||◌, List, [], ◌∷◌, Option, none, some, leb, ◌==◌,
  if◌then◌else◌,
}
use smart_things_local.Prelude.Bytes.{Bytes, bytes_eq}
use smart_things_local.Errors.{Result, ok, err, malformed_message, ◌>>=◌}
use smart_things_local.Coap.Wire.{CoapMessage, parse_coap_message, build_empty_ack}

-- RESPONSE_IGNORE, RESPONSE_EMPTY_ACK, RESPONSE_RESET, RESPONSE_MESSAGE
pub data ResponseKind : Type 0 where
  ignore empty_ack reset response : ResponseKind

pub record CoapResponseClassification : Type 0 where
  pub kind : ResponseKind
  pub message : Option CoapMessage
  pub acknowledgement : Option Bytes

abbrev pub classified : ResponseKind → CoapMessage → Option Bytes → CoapResponseClassification
classified kind message acknowledgement = record {
  kind = kind;
  message = some message;
  acknowledgement = acknowledgement;
}

abbrev pub is_empty {ℓ} : {A : Type ℓ} → List A → Bool
is_empty [] = true
is_empty (_ ∷ _) = false

-- `x is not None and value != x`
unfoldable pub mid_differs : Option ℕ → ℕ → Bool
mid_differs none mid = false
mid_differs (some m) mid = not (mid == m)

unfoldable pub token_differs : Option Bytes → Bytes → Bool
token_differs none token = false
token_differs (some t) token = not (bytes_eq token t)

-- An ACK or RST with code 0.
pub classify_empty : CoapMessage → Option ℕ → Result CoapResponseClassification
classify_empty message request_mid =
    if not (is_empty message.token && is_empty message.options && is_empty message.payload)
    then err malformed_message
    else if mid_differs request_mid message.mid
    then ok (classified ignore message none)
    else ok (classified (if message.mtype == 2 then empty_ack else reset) message none)

-- `build_empty_ack(message.mid) if message.mtype == TYPE_CON else None`
acknowledge : CoapMessage → Result (Option Bytes)
acknowledge message =
    if message.mtype == 0 then (do ack ← build_empty_ack message.mid; ok (some ack)) else ok none

-- Everything but an empty ACK or a RST.
pub classify_message :
    CoapMessage → Option Bytes → Option ℕ → Option Bytes → CoapResponseClassification
classify_message message token request_mid acknowledgement =
    if not (message.mtype == 0 || message.mtype == 1 || message.mtype == 2)
    then classified ignore message acknowledgement
    else if message.code == 0
    then classified ignore message acknowledgement
    else if token_differs token message.token
    then classified ignore message acknowledgement
    else if message.mtype == 2 && mid_differs request_mid message.mid
    then classified ignore message none
    else classified response message acknowledgement

unfoldable pub classify_parsed :
    CoapMessage → Option Bytes → Option ℕ → Result CoapResponseClassification
unfolding classify_empty acknowledge classify_message
classify_parsed message token request_mid =
    if (message.mtype == 2 || message.mtype == 3) && message.code == 0
    then classify_empty message request_mid
    else if message.mtype == 3
    then err malformed_message
    else do
      acknowledgement ← acknowledge message
      ok (classify_message message token request_mid acknowledgement)

unfoldable pub classify_coap_response :
    Bytes → Option Bytes → Option ℕ → Result CoapResponseClassification
classify_coap_response datagram token request_mid = do
  message ← parse_coap_message datagram
  classify_parsed message token request_mid
