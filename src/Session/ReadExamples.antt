-- ===== src/Session/ReadExamples.antt =====
-- The theorems on the blockwise read of dtls_session.py at a transfer of two blocks.
use smart_things_local.Prelude.{ℕ, ◌≡◌, ◌⊎◌, ◌++◌, refl, List, [], ◌∷◌, none, some, arith, true}
use smart_things_local.Prelude.Bytes.{Bytes, bytes_eq}
use smart_things_local.Errors.{ok}
use smart_things_local.Coap.Options.{option_values}
use smart_things_local.Coap.Wire.{CoapMessage}
use smart_things_local.Coap.Block.{block_fields, decode_uint_option}
use smart_things_local.Coap.Placement.{
  Accumulator, continue, complete, fresh, place_block, read_block, block_size, single_etag,
  uint_option, max_block2_blocks, max_block2_payload_bytes,
}
use smart_things_local.Coap.Accumulator.{
  add_response, add_all, next_metadata, merge_metadata, check_bounds, add_placed, unaccepted,
  take_more, take_last, code_differs,
}
use smart_things_local.Session.Read.{
  Attempt, returned, blockwise_get_once, blockwise_get, attempt_again,
}
use smart_things_local.Session.Read.Coherent.{
  ReadWhole, HasOneTag, answered, blockwise_get-ReadWhole,
}
use smart_things_local.Session.Read.Returns.{blockwise_get_once-returned}

-- Two blocks with the tag 5, the first of sixteen bytes.
abbrev full_block : Bytes
full_block = 1 ∷ 2 ∷ 3 ∷ 4 ∷ 5 ∷ 6 ∷ 7 ∷ 8 ∷ 9 ∷ 10 ∷ 11 ∷ 12 ∷ 13 ∷ 14 ∷ 15 ∷ 16 ∷ []

abbrev tagged_block : ℕ → Bytes → CoapMessage
tagged_block value payload = record {
  mtype = 2;
  code = 69;
  mid = 1;
  token = 7 ∷ [];
  options = (4, 5 ∷ []) ∷ (23, value ∷ []) ∷ [];
  payload = payload;
}

abbrev blocks : List CoapMessage
blocks = tagged_block 8 full_block ∷ tagged_block 16 (17 ∷ []) ∷ []

abbrev start : Accumulator
start = fresh (7 ∷ []) max_block2_blocks max_block2_payload_bytes none

abbrev after_first : Accumulator
after_first = record start {
  etag = some (5 ∷ []);
  payload = full_block;
  negotiated_szx = some 0;
  code = some 69;
  blocks_received = 1;
  expected_number = 1;
}

abbrev after_second : Accumulator
after_second = record after_first {
  payload = full_block ++ (17 ∷ []);
  blocks_received = 2;
  complete = true;
}

add-first_block : add_response start (tagged_block 8 full_block) ≡ ok (continue, after_first)
unfolding add_response read_block option_values block_fields place_block block_size bytes_eq
    add_placed next_metadata merge_metadata single_etag uint_option decode_uint_option unaccepted
    check_bounds take_more
add-first_block = refl

add-second_block :
    add_response after_first (tagged_block 16 (17 ∷ [])) ≡ ok (complete, after_second)
unfolding add_response read_block option_values block_fields place_block block_size bytes_eq
    add_placed next_metadata merge_metadata single_etag uint_option decode_uint_option unaccepted
    check_bounds take_last code_differs
add-second_block = refl

add_all-blocks : add_all start blocks ≡ ok after_second
unfolding add_all
add_all-blocks = rw (add-first_block, add-second_block) refl

one_tag : HasOneTag blocks
unfolding option_values
one_tag = ((λ s t e. e), tt)

blockwise_get_once-returned_example :
    blockwise_get_once (7 ∷ []) (answered blocks) ≡ returned after_second
blockwise_get_once-returned_example =
    blockwise_get_once-returned (7 ∷ []) blocks after_second (omega arith) one_tag refl
      add_all-blocks

get-blocks : blockwise_get (7 ∷ []) (answered blocks) (8 ∷ []) [] ≡ ok after_second
unfolding blockwise_get attempt_again
get-blocks =
    let read =
      blockwise_get_once-returned (7 ∷ []) blocks after_second (omega arith) one_tag refl
        add_all-blocks in
    rw read refl

blockwise_get-ReadWhole_example :
    ReadWhole (7 ∷ []) (answered blocks) after_second
    ⊎ ((blockwise_get_once (7 ∷ []) (answered blocks) ≡ Attempt.etag_changed)
        × ReadWhole (8 ∷ []) [] after_second)
blockwise_get-ReadWhole_example =
    blockwise_get-ReadWhole (7 ∷ []) (8 ∷ []) (answered blocks) [] after_second get-blocks
