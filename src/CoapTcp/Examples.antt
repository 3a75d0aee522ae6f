-- ===== src/CoapTcp/Examples.antt =====
-- The theorems on coap_tcp.py at concrete messages and streams.
use smart_things_local.Prelude.{◌≡◌, refl, inr, List, [], ◌∷◌, map, arith}
use smart_things_local.Prelude.Bytes.{Bytes}
use smart_things_local.Errors.{Error, ok, err, codec_error}
use smart_things_local.Coap.Options.{sort_options, read_options}
use smart_things_local.CoapTcp.Options.{
  check_options, normalize_options, encode_options_from, encode_extended, decode_options,
}
use smart_things_local.CoapTcp.Options.SameCodec.{recode, bounded, decode_options-read_options}
use smart_things_local.CoapTcp.Frame.{
  CoapTcpMessage, build_coap_tcp_message, read_message, validate_max_message_size, validate_int,
  coerce_bytes, encode_length, decode_length, frame_size_from_prefix, parse_coap_tcp_message,
}
use smart_things_local.CoapTcp.Frame.RoundTrip.{build_tcp}
use smart_things_local.CoapTcp.Frame.Capacity.{Fits}
use smart_things_local.CoapTcp.Frame.Failures.{parse_coap_tcp_message_failure}
use smart_things_local.CoapTcp.Stream.{feed, finish, buffered_bytes}
use smart_things_local.CoapTcp.Stream.Whole.{feed_all, feed_all-Frames}
use smart_things_local.CoapTcp.Stream.Chunks.{Pending-empty}
use smart_things_local.CoapTcp.Stream.RoundTrip.{feed_all-Wires, empty, sorted}
use smart_things_local.CoapTcp.Stream.Failures.{IsOpen, feed-IsOpen}

-- A POST of one byte to /d, with its options out of order.
abbrev post : CoapTcpMessage
post = record {
  code = 2;
  token = 7 ∷ [];
  options = (12, 60 ∷ []) ∷ (11, 100 ∷ []) ∷ [];
  payload = 9 ∷ [];
}

abbrev post_wire : Bytes
post_wire = 97 ∷ 2 ∷ 7 ∷ 177 ∷ 100 ∷ 17 ∷ 60 ∷ 255 ∷ 9 ∷ []

-- An empty GET.
abbrev get : CoapTcpMessage
get = record { code = 1; token = []; options = []; payload = [] }

abbrev get_wire : Bytes
get_wire = 0 ∷ 1 ∷ []

build-post : build_tcp post 100 ≡ ok post_wire
unfolding build_coap_tcp_message validate_max_message_size validate_int coerce_bytes
    normalize_options check_options sort_options encode_options_from encode_extended encode_length
build-post = refl

build-get : build_tcp get 100 ≡ ok get_wire
unfolding build_coap_tcp_message validate_max_message_size validate_int coerce_bytes
    normalize_options check_options sort_options encode_options_from encode_length
build-get = refl

post-Fits : Fits post 9
unfolding sort_options
post-Fits = record {
  limit = omega arith;
  code_range = omega arith;
  token_length = omega arith;
  options_range = omega arith;
  declarable = omega arith;
  room = omega arith;
}

-- Two messages, with the first cut after its first byte and inside its payload.
abbrev chunks : List Bytes
chunks = (97 ∷ []) ∷ (2 ∷ 7 ∷ 177 ∷ 100 ∷ 17 ∷ 60 ∷ 255 ∷ []) ∷ (9 ∷ 0 ∷ []) ∷ (1 ∷ []) ∷ []

feed_all-Wires_example :
    (feed_all (empty 100) chunks ≡ (empty 100, ok (map sorted (post ∷ get ∷ []))))
    × (finish (empty 100) ≡ (empty 100, ok tt))
feed_all-Wires_example =
    feed_all-Wires 100 (post ∷ get ∷ []) (post_wire ∷ get_wire ∷ []) chunks
      (((omega arith, omega arith), build-post, ((tt, tt), build-get, tt))) refl

-- One message and the first byte of another.
feed_all-Frames_example :
    feed_all (empty 100) ((0 ∷ []) ∷ (1 ∷ 97 ∷ []) ∷ [])
    ≡ (record { max_message_size = 100; buffer = 97 ∷ [] }, ok (get ∷ []))
unfolding frame_size_from_prefix decode_length parse_coap_tcp_message validate_max_message_size
    validate_int coerce_bytes read_message decode_options
feed_all-Frames_example =
    feed_all-Frames 100 [] ((0 ∷ []) ∷ (1 ∷ 97 ∷ []) ∷ []) (get ∷ []) (97 ∷ []) (Pending-empty 100)
      (2, refl, omega arith, refl, (refl, inr (9, refl, omega arith)))

feed-IsOpen_example :
    IsOpen (feed (empty 100) (15 ∷ [])).0
    × ((feed (empty 100) (15 ∷ [])).0.max_message_size ≡ 100)
    × ((e : Error)
        → (feed (empty 100) (15 ∷ [])).1 ≡ err e
        → (e ≡ codec_error) × (buffered_bytes (feed (empty 100) (15 ∷ [])).0 ≡ 0))
feed-IsOpen_example =
    feed-IsOpen (empty 100) (15 ∷ []) (record { pending = Pending-empty 100; bytes = tt })
      (omega arith)

-- A payload marker with no payload.
parse_coap_tcp_message_failure_example : codec_error ≡ codec_error
unfolding parse_coap_tcp_message validate_max_message_size validate_int coerce_bytes decode_length
    read_message decode_options
parse_coap_tcp_message_failure_example =
    parse_coap_tcp_message_failure (16 ∷ 1 ∷ 255 ∷ []) 100 codec_error (omega arith) refl

-- An option number beyond 65535, which coap.py accepts.
decode_options-read_options_example :
    decode_options 4 0 (224 ∷ 255 ∷ 255 ∷ [])
    ≡ bounded (recode (read_options 4 0 (224 ∷ 255 ∷ 255 ∷ [])))
decode_options-read_options_example =
    decode_options-read_options 4 0 (224 ∷ 255 ∷ 255 ∷ []) (omega arith) (omega arith)
