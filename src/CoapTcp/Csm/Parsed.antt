-- ===== src/CoapTcp/Csm/Parsed.antt =====
-- A capabilities message, as `parse_coap_tcp_message` reads it.
use smart_things_local.Prelude.{
  ℕ, ◌≤◌, ◌≡◌, refl, ◌∙◌, Bool, true, false, List, [], ◌∷◌, ◌++◌, Option, none, some, arith, length,
  if◌then◌else◌,
}
use smart_things_local.Prelude.Bytes.{Bytes, IsBytes, from_bytes}
use smart_things_local.Errors.{ok}
use smart_things_local.Coap.Options.{CoapOption, option_values, sort_options}
use smart_things_local.Coap.Options.Order.{option_values-sort_options}
use smart_things_local.Coap.Block.{decode_uint_option, single_uint}
use smart_things_local.CoapTcp.Frame.{
  CoapTcpMessage, validate_int, parse_coap_tcp_message, coap_tcp_max_message_size,
}
use smart_things_local.CoapTcp.Frame.RoundTrip.{HasBytes}
use smart_things_local.CoapTcp.Frame.Capacity.{Fits, Fits-Carried}
use smart_things_local.CoapTcp.Csm.{
  shortest_bytes, encode_uint_option, csm_code, csm_max_message_size_option,
  csm_block_wise_transfer_option, max_size_option, block_wise_option, build_coap_tcp_csm,
}

-- An integer below 2 ^ 32 is written in at most four bytes, which stand for it.
record Shortest (value : ℕ) (out : Bytes) : Type 0 where
  short : length out ≤ 4
  bytes : IsBytes out
  stands_for : from_bytes out ≡ value

shortest_bytes-Shortest : (value : ℕ) → value ≤ 0xffffffff → Shortest value (shortest_bytes value)
shortest_bytes-Shortest value le = record {
  short = ground arith;
  bytes = ground arith;
  stands_for = ground arith;
}

encode_uint_option_total :
    (value : ℕ) → value ≤ 0xffffffff → encode_uint_option value ≡ ok (shortest_bytes value)
unfolding encode_uint_option validate_int
encode_uint_option_total value le = ground arith

abbrev pub SizeInRange : Option ℕ → Type 0
SizeInRange none = Unit
SizeInRange (some size) = (2 ≤ size) × (size ≤ 0xffffffff)

abbrev size_options : Option ℕ → List CoapOption
size_options none = []
size_options (some size) = (csm_max_message_size_option, shortest_bytes size) ∷ []

max_size_option_total :
    (receive : Option ℕ) → SizeInRange receive → max_size_option receive ≡ ok (size_options receive)
unfolding max_size_option validate_int
max_size_option_total none h = refl
max_size_option_total (some size) h = ground (arith, encode_uint_option_total size h.1)

abbrev csm_message : Option ℕ → Bool → CoapTcpMessage
csm_message receive block_wise = record {
  code = csm_code;
  token = [];
  options = size_options receive ++ block_wise_option block_wise;
  payload = [];
}

csm_message-HasBytes :
    (receive : Option ℕ) (block_wise : Bool)
    → SizeInRange receive
    → HasBytes (csm_message receive block_wise)
csm_message-HasBytes none true h = ((tt, tt), tt)
csm_message-HasBytes none false h = (tt, tt)
csm_message-HasBytes (some size) true h = (((shortest_bytes-Shortest size h.1).bytes, (tt, tt)), tt)
csm_message-HasBytes (some size) false h = (((shortest_bytes-Shortest size h.1).bytes, tt), tt)

csm_message-Fits :
    (receive : Option ℕ) (block_wise : Bool) (maximum : ℕ)
    → SizeInRange receive
    → 29 ≤ maximum
    → maximum ≤ coap_tcp_max_message_size
    → Fits (csm_message receive block_wise) maximum
unfolding sort_options
csm_message-Fits none true maximum h lo hi = record {
  limit = hi;
  code_range = omega arith;
  token_length = omega arith;
  options_range = ((omega arith, omega arith), tt);
  declarable = ground arith;
  room = ground arith;
}
csm_message-Fits none false maximum h lo hi = record {
  limit = hi;
  code_range = omega arith;
  token_length = omega arith;
  options_range = tt;
  declarable = ground arith;
  room = ground arith;
}
csm_message-Fits (some size) true maximum h lo hi =
    let s = shortest_bytes-Shortest size h.1 in
    record {
      limit = hi;
      code_range = omega arith;
      token_length = omega arith;
      options_range = ((omega arith, omega (arith, s.short)), ((omega arith, omega arith), tt));
      declarable = ground (arith, s.short);
      room = ground (arith, s.short);
    }
csm_message-Fits (some size) false maximum h lo hi =
    let s = shortest_bytes-Shortest size h.1 in
    record {
      limit = hi;
      code_range = omega arith;
      token_length = omega arith;
      options_range = ((omega arith, omega (arith, s.short)), tt);
      declarable = ground (arith, s.short);
      room = ground (arith, s.short);
    }

csm_size :
    (receive : Option ℕ) (block_wise : Bool)
    → SizeInRange receive
    → single_uint
        (option_values
          (size_options receive ++ block_wise_option block_wise)
          csm_max_message_size_option)
        4
      ≡ ok receive
unfolding single_uint option_values
csm_size none true h = refl
csm_size none false h = refl
csm_size (some size) true h =
    let s = shortest_bytes-Shortest size h.1 in ground (arith, s.short, s.stands_for)
csm_size (some size) false h =
    let s = shortest_bytes-Shortest size h.1 in ground (arith, s.short, s.stands_for)

csm_block_wise :
    (receive : Option ℕ) (block_wise : Bool)
    → option_values
        (size_options receive ++ block_wise_option block_wise)
        csm_block_wise_transfer_option
      ≡ (if block_wise then [] ∷ [] else [])
unfolding option_values
csm_block_wise none true = refl
csm_block_wise none false = refl
csm_block_wise (some size) true = refl
csm_block_wise (some size) false = refl

-- A capabilities message under a limit of at least 29 bytes is built, and read back it announces exactly the size and the block-wise transfer
-- that were asked for.
build_coap_tcp_csm_parses :
    (receive : Option ℕ) (block_wise : Bool) (maximum : ℕ)
    → SizeInRange receive
    → 29 ≤ maximum
    → maximum ≤ coap_tcp_max_message_size
    → (wire : Bytes) × (build_coap_tcp_csm receive block_wise maximum ≡ ok wire)
      × (m : CoapTcpMessage) × (parse_coap_tcp_message wire maximum ≡ ok m)
      × (m.code ≡ csm_code)
      × (decode_uint_option m.options csm_max_message_size_option 4 ≡ ok receive)
      × (option_values m.options csm_block_wise_transfer_option
          ≡ (if block_wise then [] ∷ [] else []))
unfolding build_coap_tcp_csm decode_uint_option
build_coap_tcp_csm_parses receive block_wise maximum h lo hi =
    let msg = csm_message receive block_wise in
    let carried =
      Fits-Carried msg maximum (csm_message-HasBytes receive block_wise h)
        (csm_message-Fits receive block_wise maximum h lo hi) in
    (
      carried.wire,
      rw (max_size_option_total receive h) carried.built,
      record msg { options = sort_options msg.options },
      carried.parsed,
      refl,
      rw (option_values-sort_options msg.options csm_max_message_size_option)
          (csm_size receive block_wise h),
      option_values-sort_options msg.options csm_block_wise_transfer_option
          ∙ csm_block_wise receive block_wise,
    )
