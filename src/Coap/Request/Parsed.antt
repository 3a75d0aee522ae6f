-- ===== src/Coap/Request/Parsed.antt =====
-- A GET request, as `parse_coap_message` reads it.
use smart_things_local.Prelude.{
  ℕ, ◌≤◌, ◌<◌, ◌%◌, ◌^◌, ◌≡◌, refl, ◌∙◌, false, List, [], ◌∷◌, ◌++◌, Option, none, some, arith, ltb,
  length, All, All-append, append-nil, ◌==◌, if◌then◌else◌,
}
use smart_things_local.Prelude.Bytes.{Bytes, IsBytes}
use smart_things_local.Errors.{ok}
use smart_things_local.Coap.Options.{CoapOption, option_values, sort_options}
use smart_things_local.Coap.Options.Order.{option_values-sort_options}
use smart_things_local.Coap.Options.Extended.{max_extended}
use smart_things_local.Coap.Options.Encode.{Encodable}
use smart_things_local.Coap.Wire.{CoapMessage, parse_coap_message}
use smart_things_local.Coap.Wire.RoundTrip.{IsSendable, build_parses}
use smart_things_local.Coap.Block.{block_value, block_fields}
use smart_things_local.Coap.Block.Fields.{block_fields-block_value}
use smart_things_local.Coap.Request.{
  GetRequest, options_of, one_of, block_option, request_options, build_get_request, uri_path,
  uri_query, accept_option, block2, method_get,
}

-- A value that fits an option.
abbrev pub Fits : Bytes → Type 0
Fits v = (length v ≤ max_extended) × IsBytes v

abbrev pub BlockInRange : Option ℕ → ℕ → Type 0
BlockInRange none szx = Unit
BlockInRange (some num) szx = (num < 2 ^ 20) × (szx ≤ 6)

pub record IsRequest (r : GetRequest) : Type 0 where
  pub mtype_range : r.mtype < 4
  pub mid_range : r.mid < 65536
  pub token_length : length r.token ≤ 8
  pub token_bytes : IsBytes r.token
  pub path : All Fits r.path_segs
  pub query : All Fits r.query
  pub accept : All Fits (one_of r.accept)
  pub block : BlockInRange r.block_number r.block_szx
  pub extra : All Encodable r.extra_options
  pub no_path : option_values r.extra_options uri_path ≡ []
  pub no_query : option_values r.extra_options uri_query ≡ []
  pub no_accept : option_values r.extra_options accept_option ≡ []
  pub no_block : option_values r.extra_options block2 ≡ []

-- Options in sections of one number each, before the extra ones.
abbrev flat : List (ℕ × List Bytes) → List CoapOption → List CoapOption
flat [] extra = extra
flat ((k, vs) ∷ sections) extra = options_of k vs ++ flat sections extra

abbrev values_of : ℕ → List (ℕ × List Bytes) → List Bytes
values_of number [] = []
values_of number ((k, vs) ∷ sections) =
    if k == number then vs ++ values_of number sections else values_of number sections

option_values-options_of :
    (number k : ℕ) (vs : List Bytes) (rest : List CoapOption)
    → option_values (options_of k vs ++ rest) number
      ≡ (if k == number then vs ++ option_values rest number else option_values rest number)
unfolding option_values
option_values-options_of number k [] rest = ground arith
option_values-options_of number k (v ∷ vs) rest =
    ground (arith, option_values-options_of number k vs rest)

option_values-flat :
    (number : ℕ) (sections : List (ℕ × List Bytes)) (extra : List CoapOption)
    → option_values extra number ≡ []
    → option_values (flat sections extra) number ≡ values_of number sections
option_values-flat number [] extra e = e
option_values-flat number ((k, vs) ∷ sections) extra e =
    option_values-options_of number k vs (flat sections extra)
    ∙ rw (option_values-flat number sections extra e) refl

options_of-Encodable :
    (number : ℕ) (vs : List Bytes)
    → number ≤ max_extended
    → All Fits vs
    → All Encodable (options_of number vs)
options_of-Encodable number [] le f = tt
options_of-Encodable number (v ∷ vs) le f =
    ((le, f.0.0, f.0.1), options_of-Encodable number vs le f.1)

block_value-IsBytes :
    (num more szx : ℕ) (out : Bytes) → block_value num more szx ≡ ok out → IsBytes out
unfolding block_value
block_value-IsBytes num more szx out h = ground arith

-- The block option, if there is one.
abbrev pub ReadsBlock : Option ℕ → ℕ → List Bytes → Type 0
ReadsBlock none szx vs = vs ≡ []
ReadsBlock (some num) szx vs =
    (v : Bytes) × (vs ≡ v ∷ []) × (block_fields v ≡ record { num = num; more = 0; szx = szx })

block_total :
    (number : Option ℕ) (szx : ℕ)
    → BlockInRange number szx
    → (block : List Bytes) × (block_option number szx ≡ ok block)
      × All Fits block
      × ReadsBlock number szx block
unfolding block_option
block_total none szx h = ([], refl, tt, refl)
block_total (some num) szx h =
    let (out, e, longer, shorter, fields) =
      block_fields-block_value num 0 szx (omega arith) (omega arith) (omega arith) in
    let le : ltb 6 szx ≡ false = ground arith in
    let whole : num % 2 ^ 20 ≡ num = omega arith in
    (
      out ∷ [],
      rw (le, e) refl,
      ((omega arith, block_value-IsBytes num 0 szx out e), tt),
      (out, refl, rw whole at fields),
    )

-- What the message asks for.
pub record Asks (r : GetRequest) (m : CoapMessage) : Type 0 where
  pub code : m.code ≡ method_get
  pub mid : m.mid ≡ r.mid
  pub token : m.token ≡ r.token
  pub payload : m.payload ≡ []
  pub path : option_values m.options uri_path ≡ r.path_segs
  pub query : option_values m.options uri_query ≡ r.query
  pub accept : option_values m.options accept_option ≡ one_of r.accept
  pub block : ReadsBlock r.block_number r.block_szx (option_values m.options block2)

message_of : GetRequest → List Bytes → CoapMessage
message_of r block = record {
  mtype = r.mtype;
  code = method_get;
  mid = r.mid;
  token = r.token;
  options = request_options r block;
  payload = [];
}

request_options-Encodable :
    (r : GetRequest) (block : List Bytes)
    → IsRequest r
    → All Fits block
    → All Encodable (request_options r block)
request_options-Encodable r block q f =
    All-append Encodable (options_of uri_path r.path_segs) _
      (options_of-Encodable uri_path r.path_segs (omega arith) q.path)
      (All-append Encodable (options_of uri_query r.query) _
        (options_of-Encodable uri_query r.query (omega arith) q.query)
        (All-append Encodable (options_of accept_option (one_of r.accept)) _
          (options_of-Encodable accept_option (one_of r.accept) (omega arith) q.accept)
          (All-append Encodable (options_of block2 block) _
            (options_of-Encodable block2 block (omega arith) f) q.extra)))

abbrev sections : GetRequest → List Bytes → List (ℕ × List Bytes)
sections r block =
    (uri_path, r.path_segs)
    ∷ (uri_query, r.query)
    ∷ (accept_option, one_of r.accept)
    ∷ (block2, block)
    ∷ []

-- The values of one of the builder's numbers, after sorting.
sorted_values :
    (number : ℕ) (r : GetRequest) (block vs : List Bytes)
    → values_of number (sections r block) ≡ vs ++ []
    → option_values r.extra_options number ≡ []
    → option_values (sort_options (request_options r block)) number ≡ vs
sorted_values number r block vs e none_there =
    option_values-sort_options (request_options r block) number
    ∙ option_values-flat number (sections r block) r.extra_options none_there
    ∙ e
    ∙ append-nil vs

sorted-Asks :
    (r : GetRequest) (block : List Bytes)
    → IsRequest r
    → ReadsBlock r.block_number r.block_szx block
    → Asks r (record (message_of r block) { options = sort_options (request_options r block) })
unfolding message_of
sorted-Asks r block q b = record {
  code = refl;
  mid = refl;
  token = refl;
  payload = refl;
  path = sorted_values uri_path r block r.path_segs refl q.no_path;
  query = sorted_values uri_query r block r.query refl q.no_query;
  accept = sorted_values accept_option r block (one_of r.accept) refl q.no_accept;
  block = rw (sorted_values block2 r block block refl q.no_block) b;
}

message_of-IsSendable :
    (r : GetRequest) (block : List Bytes)
    → IsRequest r
    → All Fits block
    → IsSendable (message_of r block)
unfolding message_of
message_of-IsSendable r block q f = record {
  mtype_range = q.mtype_range;
  code_range = omega arith;
  mid_range = q.mid_range;
  token_length = q.token_length;
  token_bytes = q.token_bytes;
  options_range = request_options-Encodable r block q f;
  payload_bytes = tt;
}

-- A request in range is built, and `parse_coap_message` reads a GET from it with the same message id, token, path, query,
-- accept format and block number.
build_get_request_parses :
    (r : GetRequest)
    → IsRequest r
    → (wire : Bytes) × (build_get_request r ≡ ok wire)
      × (m : CoapMessage) × (parse_coap_message wire ≡ ok m)
      × Asks r m
unfolding build_get_request message_of
build_get_request_parses r q =
    let (block, e, fits, reads) = block_total r.block_number r.block_szx q.block in
    let (wire, built, _, parsed, _) =
      build_parses (message_of r block) (message_of-IsSendable r block q fits) in
    (wire, rw e built, _, parsed, sorted-Asks r block q reads)
