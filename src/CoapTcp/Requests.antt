-- ===== src/CoapTcp/Requests.antt =====
-- The builders of requests: `_path_options`, `build_coap_tcp_get`, `build_coap_tcp_post` and
-- `build_coap_tcp_delete`. A text is its code points, and `str.encode` an argument.
pub mod Parsed
use smart_things_local.Prelude.{
  ℕ, Bool, true, false, not, ◌&&◌, ◌||◌, List, [], ◌∷◌, ◌++◌, Option, none, some, ◌==◌,
  if◌then◌else◌,
}
use smart_things_local.Prelude.Bytes.{Bytes}
use smart_things_local.Errors.{Result, ok, err, codec_error, ◌>>=◌}
use smart_things_local.Coap.Options.{CoapOption}
use smart_things_local.Coap.Request.{uri_path, uri_query, accept_option, options_of}
use smart_things_local.CoapTcp.Frame.{build_coap_tcp_message}
use smart_things_local.CoapTcp.Csm.{encode_uint_option}

abbrev pub Text : Type 0
Text = List ℕ

abbrev pub content_format : ℕ
content_format = 12

-- `c in text`
unfoldable pub contains : ℕ → Text → Bool
contains c [] = false
contains c (x ∷ xs) = c == x || contains c xs

-- What is before the first slash, and the segments after it: `text.split("/")`.
unfoldable pub split_slash : Text → Text × List Text
split_slash [] = ([], [])
split_slash (c ∷ cs) =
    let (first, others) = split_slash cs in
    if c == 47 then ([], first ∷ others) else (c ∷ first, others)

abbrev is_empty : Text → Bool
is_empty [] = true
is_empty (c ∷ cs) = false

unfoldable pub nonempty : List Text → List Text
nonempty [] = []
nonempty (t ∷ ts) = if is_empty t then nonempty ts else t ∷ nonempty ts

-- The segments of a path that are not empty.
unfoldable pub segments : Text → List Text
segments path = let (first, others) = split_slash path in nonempty (first ∷ others)

unfoldable pub starts_with_slash : Text → Bool
starts_with_slash [] = false
starts_with_slash (c ∷ cs) = c == 47

unfoldable pub encode_all : (Text → Bytes) → List Text → List Bytes
encode_all encode [] = []
encode_all encode (t ∷ ts) = encode t ∷ encode_all encode ts

unfoldable pub query_values : (Text → Bytes) → List Text → Result (List Bytes)
query_values encode [] = ok []
query_values encode (q ∷ qs) =
    if is_empty q then err codec_error else do rest ← query_values encode qs; ok (encode q ∷ rest)

-- `_path_options`, where 63 is `?` and 35 is `#`
unfoldable pub path_options : (Text → Bytes) → Text → List Text → Result (List CoapOption)
path_options encode path query =
    if not (starts_with_slash path) || contains 63 path || contains 35 path
    then err codec_error
    else do
      queries ← query_values encode query
      ok (options_of uri_path (encode_all encode (segments path)) ++ options_of uri_query queries)

unfoldable pub uint_options : ℕ → Option ℕ → Result (List CoapOption)
uint_options number none = ok []
uint_options number (some value) = do out ← encode_uint_option value; ok ((number, out) ∷ [])

-- What the three builders share: the method, the options in their order, and the payload.
unfoldable pub build_request :
    (Text → Bytes)
    → ℕ
    → Text
    → List Text
    → Option ℕ
    → Option ℕ
    → List CoapOption
    → Bytes
    → Bytes
    → ℕ
    → Result Bytes
build_request encode method path query format accept extra_options token payload max_message_size =
    do
      options ← path_options encode path query
      formats ← uint_options content_format format
      accepts ← uint_options accept_option accept
      build_coap_tcp_message method token (options ++ (formats ++ (accepts ++ extra_options)))
          payload max_message_size

abbrev pub build_coap_tcp_get :
    (Text → Bytes) → Text → Bytes → List Text → Option ℕ → List CoapOption → ℕ → Result Bytes
build_coap_tcp_get encode path token query accept extra_options max_message_size =
    build_request encode 1 path query none accept extra_options token [] max_message_size

abbrev pub build_coap_tcp_post :
    (Text → Bytes)
    → Text
    → Bytes
    → Bytes
    → List Text
    → ℕ
    → Option ℕ
    → List CoapOption
    → ℕ
    → Result Bytes
build_coap_tcp_post encode path payload token query format accept extra_options max_message_size =
    build_request encode 2 path query (some format) accept extra_options token payload
      max_message_size

abbrev pub build_coap_tcp_delete :
    (Text → Bytes) → Text → Bytes → List Text → Option ℕ → List CoapOption → ℕ → Result Bytes
build_coap_tcp_delete encode path token query accept extra_options max_message_size =
    build_request encode 4 path query none accept extra_options token [] max_message_size
