-- ===== src/Coap/Examples.antt =====
-- The theorems on coap.py at concrete datagrams and transfers.
use smart_things_local.Prelude.{
  ℕ, ◌≡◌, ◌≤◌, ◌↔◌, refl, [], ◌∷◌, ◌%◌, ◌^◌, none, some, length, arith,
}
use smart_things_local.Prelude.Bytes.{Bytes, IsBytes, bytes_eq}
use smart_things_local.Errors.{ok, err, malformed_message}
use smart_things_local.Coap.Options.{
  sort_options, option_values, vlen, encode_options, encode_from, read_extended, read_option,
  read_options,
}
use smart_things_local.Coap.Wire.{
  CoapMessage, build_coap, parse_coap_message, bytes_of, build_empty_ack,
}
use smart_things_local.Coap.Wire.RoundTrip.{build, build_parses}
use smart_things_local.Coap.Wire.Canonical.{IsParsed, build-parse_coap_message}
use smart_things_local.Coap.Block.{block_value, block_fields}
use smart_things_local.Coap.Block.Fields.{block_fields-block_value}
use smart_things_local.Coap.Response.{
  CoapResponseClassification, classified, response, classify_coap_response, classify_parsed,
  token_differs, mid_differs,
}
use smart_things_local.Coap.Response.Route.{Answers}
use smart_things_local.Coap.Response.Correlation.{classify_coap_response_iff}

-- A GET of /device/0 with token 7 and message id 4660, its options out of order.
abbrev request : CoapMessage
request = record {
  mtype = 0;
  code = 1;
  mid = 4660;
  token = 7 ∷ [];
  options = (17, 60 ∷ []) ∷ (11, 100 ∷ 101 ∷ 118 ∷ []) ∷ (11, 48 ∷ []) ∷ [];
  payload = [];
}

abbrev datagram : Bytes
datagram = 65 ∷ 1 ∷ 18 ∷ 52 ∷ 7 ∷ 179 ∷ 100 ∷ 101 ∷ 118 ∷ 1 ∷ 48 ∷ 97 ∷ 60 ∷ []

build-request : build request ≡ ok datagram
unfolding build_coap bytes_of encode_options sort_options encode_from vlen
build-request = refl

parse-datagram :
    parse_coap_message datagram ≡ ok (record request { options = sort_options request.options })
unfolding parse_coap_message read_options read_option read_extended sort_options
parse-datagram = refl

build_parses_example :
    (wire : Bytes) × (build request ≡ ok wire)
    × IsBytes wire
    × (parse_coap_message wire ≡ ok (record request { options = sort_options request.options }))
    × ((number : ℕ)
        → option_values (sort_options request.options) number
          ≡ option_values request.options number)
build_parses_example = build_parses request (omega arith)

build-parse_coap_message_example :
    (build (record request { options = sort_options request.options }) ≡ ok datagram)
    × IsParsed (record request { options = sort_options request.options })
build-parse_coap_message_example =
    build-parse_coap_message datagram (record request { options = sort_options request.options })
      (omega arith) parse-datagram

block_fields-block_value_example :
    (out : Bytes) × (block_value 34 1 6 ≡ ok out)
    × (1 ≤ length out)
    × (length out ≤ 3)
    × (block_fields out ≡ record { num = 34 % 2 ^ 20; more = 1; szx = 6 })
block_fields-block_value_example =
    block_fields-block_value 34 1 6 (omega arith) (omega arith) (omega arith)

-- A confirmable 2.05 with the payload 0xa0 in answer to the request.
abbrev answer : CoapMessage
answer = record { mtype = 0; code = 69; mid = 9; token = 7 ∷ []; options = []; payload = 160 ∷ [] }

abbrev answer_bytes : Bytes
answer_bytes = 65 ∷ 69 ∷ 0 ∷ 9 ∷ 7 ∷ 255 ∷ 160 ∷ []

abbrev answer_class : CoapResponseClassification
answer_class = classified response answer (some (96 ∷ 0 ∷ 0 ∷ 9 ∷ []))

classify-answer : classify_coap_response answer_bytes (some (7 ∷ [])) (some 4660) ≡ ok answer_class
unfolding classify_coap_response classify_parsed parse_coap_message read_options read_option
    read_extended build_empty_ack build_coap bytes_of encode_options encode_from sort_options vlen
    token_differs mid_differs bytes_eq
classify-answer = refl

classify_coap_response_iff_example :
    (m : CoapMessage) × (parse_coap_message answer_bytes ≡ ok m)
    × (answer_class.message ≡ some m)
    × ((answer_class.kind ≡ response) ↔ Answers m (some (7 ∷ [])) (some 4660))
classify_coap_response_iff_example =
    classify_coap_response_iff answer_bytes (some (7 ∷ [])) (some 4660) answer_class classify-answer

-- A RST that carries a code.
bad_reset : classify_coap_response (112 ∷ 69 ∷ 0 ∷ 9 ∷ []) none none ≡ err malformed_message
unfolding classify_coap_response classify_parsed parse_coap_message read_options
bad_reset = refl
