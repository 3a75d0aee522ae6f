-- ===== src/Coap/TransferExamples.antt =====
-- The theorems on `Block2Accumulator` at a transfer of two blocks of sixteen bytes at most.
use smart_things_local.Prelude.{ℕ, ◌≡◌, refl, inl, inr, some, [], ◌∷◌, ◌++◌, none, arith, true}
use smart_things_local.Prelude.Bytes.{Bytes, bytes_eq}
use smart_things_local.Errors.{ok}
use smart_things_local.Coap.Options.{option_values}
use smart_things_local.Coap.Wire.{CoapMessage}
use smart_things_local.Coap.Block.{block_fields, decode_uint_option}
use smart_things_local.Coap.Placement.{
  Accumulator, continue, fresh, init, place_block, read_block, block_size, single_etag, uint_option,
}
use smart_things_local.Coap.Accumulator.{
  add_response, add_all, next_metadata, merge_metadata, check_bounds, add_placed, unaccepted,
  take_more,
}
use smart_things_local.Coap.Accumulator.Bounds.{IsValid, add_all-IsValid}
use smart_things_local.Coap.Accumulator.Effect.{Effect, add_response-Effect}
use smart_things_local.Coap.Accumulator.Holding.{Representation}
use smart_things_local.Coap.Accumulator.Transfer.{Blocks, final, further, add_all_transfer}

abbrev full_block : Bytes
full_block = 1 ∷ 2 ∷ 3 ∷ 4 ∷ 5 ∷ 6 ∷ 7 ∷ 8 ∷ 9 ∷ 10 ∷ 11 ∷ 12 ∷ 13 ∷ 14 ∷ 15 ∷ 16 ∷ []

-- A 2.05 on ACK with one Block2 option.
abbrev block_response : ℕ → Bytes → CoapMessage
block_response value payload = record {
  mtype = 2;
  code = 69;
  mid = 1;
  token = 7 ∷ [];
  options = (23, value ∷ []) ∷ [];
  payload = payload;
}

abbrev first_block : CoapMessage
first_block = block_response 8 full_block

abbrev second_block : CoapMessage
second_block = block_response 16 (17 ∷ 18 ∷ [])

abbrev start : Accumulator
start = fresh (7 ∷ []) 2 20 none

start_lem : init (7 ∷ []) 2 20 none ≡ ok start
unfolding init
start_lem = refl

abbrev after_first : Accumulator
after_first = record start {
  payload = full_block;
  negotiated_szx = some 0;
  code = some 69;
  blocks_received = 1;
  expected_number = 1;
}

add-first_block : add_response start first_block ≡ ok (continue, after_first)
unfolding add_response read_block option_values block_fields place_block block_size bytes_eq
    add_placed next_metadata merge_metadata single_etag uint_option decode_uint_option unaccepted
    check_bounds take_more
add-first_block = refl

add_all-first_block : add_all start (first_block ∷ []) ≡ ok after_first
unfolding add_all
add_all-first_block = rw add-first_block refl

add_response-Effect_example : Effect start first_block continue after_first
add_response-Effect_example =
    add_response-Effect start first_block continue after_first add-first_block

add_all-IsValid_example : IsValid after_first
add_all-IsValid_example =
    add_all-IsValid (7 ∷ []) 2 20 none start after_first (first_block ∷ []) start_lem
      add_all-first_block

-- The same with an ETag in the first block, and a Content-Format in the second.
abbrev first_tagged : CoapMessage
first_tagged = record first_block { options = (4, 5 ∷ []) ∷ (23, 8 ∷ []) ∷ [] }

abbrev second_typed : CoapMessage
second_typed = record second_block { options = (12, 60 ∷ []) ∷ (23, 16 ∷ []) ∷ (28, 18 ∷ []) ∷ [] }

abbrev two_blocks : Representation
two_blocks = record {
  token = 7 ∷ [];
  code = 69;
  szx = 0;
  etag = some (5 ∷ []);
  content_format = some 60;
}

transfer_of_two :
    Blocks two_blocks 0 (full_block ++ (17 ∷ 18 ∷ [])) (first_tagged ∷ second_typed ∷ [])
unfolding block_size option_values block_fields
transfer_of_two =
    further {payload = full_block} {body = 17 ∷ 18 ∷ []} {m = first_tagged} refl
      (record {
        same_token = refl;
        same_code = refl;
        has_type = omega arith;
        value = 8 ∷ [];
        block2 = refl;
        short = omega arith;
        fields = refl;
        etag = inr (5 ∷ [], refl, refl, omega arith, omega arith);
        format = inl refl;
        size2 = inl refl;
        carried = refl;
      })
      (final {payload = 17 ∷ 18 ∷ []} {m = second_typed} (omega arith) (record {
        same_token = refl;
        same_code = refl;
        has_type = omega arith;
        value = 16 ∷ [];
        block2 = refl;
        short = omega arith;
        fields = refl;
        etag = inl refl;
        format = inr (60 ∷ [], refl, refl, omega arith);
        size2 = inr (18 ∷ [], refl, omega arith);
        carried = refl;
      }))

add_all_transfer_example :
    (acc : Accumulator) × (add_all
        (fresh (7 ∷ []) 2 20 (some (60 ∷ [])))
        (first_tagged ∷ second_typed ∷ [])
      ≡ ok acc)
    × (acc.complete ≡ true)
    × (acc.payload ≡ full_block ++ (17 ∷ 18 ∷ []))
    × (acc.code ≡ some 69)
add_all_transfer_example =
    add_all_transfer two_blocks 2 20 (some (60 ∷ [])) (omega arith) refl (inl refl) transfer_of_two
      (omega arith) (omega arith)
