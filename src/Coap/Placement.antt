-- ===== src/Coap/Placement.antt =====
-- `Block2Accumulator`: its state, and where a response block falls in it. Everything that can
-- raise stands before the first write, so an error leaves the object as it was.
use smart_things_local.Prelude.{
  ℕ, ◌+◌, ◌*◌, ◌/◌, ◌%◌, ◌^◌, Bool, true, false, not, ◌&&◌, ◌||◌, List, [], ◌∷◌, Option, none, some,
  ltb, leb, ◌==◌, if◌then◌else◌, length,
}
use smart_things_local.Prelude.Bytes.{Bytes}
use smart_things_local.Errors.{Result, ok, err, blockwise, value_error}
use smart_things_local.Coap.Options.{CoapOption}
use smart_things_local.Coap.Block.{block_fields, decode_uint_option}

-- BLOCK_SZX, and the two default bounds.
abbrev pub block_szx : ℕ
block_szx = 6

abbrev pub max_block2_payload_bytes : ℕ
max_block2_payload_bytes = 64 * 1024

abbrev pub max_block2_blocks : ℕ
max_block2_blocks = max_block2_payload_bytes / 2 ^ (block_szx + 4)

-- `1 << (szx + 4)`
unfoldable pub block_size : ℕ → ℕ
block_size szx = 2 ^ (szx + 4)

pub record Accumulator : Type 0 where
  pub token : Bytes
  pub max_blocks : ℕ
  pub max_payload_bytes : ℕ
  pub accepted_content_formats : Option (List ℕ)
  pub expected_number : ℕ
  pub negotiated_szx : Option ℕ
  pub etag : Option Bytes
  pub content_format : Option ℕ
  pub size2 : Option ℕ
  pub payload : Bytes
  pub blocks_received : ℕ
  pub code : Option ℕ
  pub complete : Bool

abbrev pub fresh : Bytes → ℕ → ℕ → Option (List ℕ) → Accumulator
fresh token max_blocks max_payload_bytes formats = record {
  token = token;
  max_blocks = max_blocks;
  max_payload_bytes = max_payload_bytes;
  accepted_content_formats = formats;
  expected_number = 0;
  negotiated_szx = none;
  etag = none;
  content_format = none;
  size2 = none;
  payload = [];
  blocks_received = 0;
  code = none;
  complete = false;
}

-- `__init__`, on arguments of the right types.
unfoldable pub init : Bytes → ℕ → ℕ → Option (List ℕ) → Result Accumulator
init token max_blocks max_payload_bytes formats =
    if ltb 8 (length token)
    then err value_error
    else if max_blocks == 0
    then err value_error
    else if max_payload_bytes == 0
    then err value_error
    else ok (fresh token max_blocks max_payload_bytes formats)

-- The property `szx`: the size exponent of the next request.
unfoldable pub next_request_szx : Option ℕ → ℕ
next_request_szx none = block_szx
next_request_szx (some szx) = szx

-- `if condition: raise BlockwiseError()`
abbrev pub refuse_if : Bool → Result (Unit {0})
refuse_if true = err blockwise
refuse_if false = ok tt

-- BLOCK2_DUPLICATE, BLOCK2_CONTINUE, BLOCK2_COMPLETE
pub data Outcome : Type 0 where
  duplicate continue complete : Outcome

-- `_single_etag`, on the values of ETAG
unfoldable pub single_etag : List Bytes → Result (Option Bytes)
single_etag [] = ok none
single_etag (value ∷ []) =
    if not (leb 1 (length value) && leb (length value) 8) then err blockwise else ok (some value)
single_etag (_ ∷ _ ∷ _) = err blockwise

-- `_uint_option`
reclassify {ℓ} : {A : Type ℓ} → Result A → Result A
reclassify (ok a) = ok a
reclassify (err e) = err blockwise

unfoldable pub uint_option : List CoapOption → ℕ → ℕ → Result (Option ℕ)
unfolding reclassify
uint_option options number max_length = reclassify (decode_uint_option options number max_length)

-- The Block2 option of a response: its number, its flag and its size exponent.
pub record Block : Type 0 where
  pub number : ℕ
  pub more : Bool
  pub szx : ℕ

unfoldable pub read_block : ℕ → List Bytes → Result (Option Block)
read_block expected_number [] = if ltb 0 expected_number then err blockwise else ok none
read_block expected_number (encoded ∷ []) =
    if ltb 3 (length encoded)
    then err blockwise
    else let f = block_fields encoded in
      if ltb block_szx f.szx
      then err blockwise
      else ok (some (record { number = f.num; more = not (f.more == 0); szx = f.szx }))
read_block expected_number (_ ∷ _ ∷ _) = err blockwise

-- Where a block falls: before the end of what is held, or in place with the offset after it.
pub data Placement : Type 0 where
  earlier : Placement
  placed : ℕ → Placement

-- `self._negotiated_szx is not None and response_szx != ... and response_szx > ...`
unfoldable pub upshifts : Option ℕ → ℕ → Bool
upshifts none szx = false
upshifts (some negotiated) szx = not (szx == negotiated) && ltb negotiated szx

unfoldable pub place_block : Accumulator → Block → Bytes → Result Placement
unfolding upshifts next_request_szx
place_block acc b payload =
    let size = block_size b.szx in
    let response_offset = b.number * size in
    let expected_offset = length acc.payload in
    let downshifted = ltb b.szx (next_request_szx acc.negotiated_szx) in
    let payload_limit =
      block_size (if downshifted then next_request_szx acc.negotiated_szx else b.szx) in
    let next_offset = expected_offset + length payload in
    if ltb response_offset expected_offset
    then ok earlier
    else if not (response_offset == expected_offset)
    then err blockwise
    else if upshifts acc.negotiated_szx b.szx
    then err blockwise
    else if ltb payload_limit (length payload)
    then err blockwise
    else if b.more
        && (length payload == 0
            || not (next_offset % size == 0)
            || (not downshifted && not (length payload == size)))
    then err blockwise
    else ok (placed next_offset)
