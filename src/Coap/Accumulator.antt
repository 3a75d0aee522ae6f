-- ===== src/Coap/Accumulator.antt =====
-- `Block2Accumulator.add_response`: the metadata, the bounds and the writes.
pub mod Shape
pub mod Added
pub mod Bounds
pub mod Effect
pub mod Agreement
pub mod Holding
pub mod Transfer
use smart_things_local.Prelude.{
  ℕ, zero, suc, ◌+◌, ◌*◌, ◌/◌, ◌%◌, ◌^◌, Bool, true, false, not, ◌&&◌, ◌||◌, List, [], ◌∷◌, ◌++◌,
  Option, none, some, ltb, leb, ◌==◌, if◌then◌else◌, length,
}
use smart_things_local.Prelude.Bytes.{Bytes, bytes_eq}
use smart_things_local.Errors.{Error, Result, ok, err, blockwise, value_error, ◌>>=◌, ◌>>◌}
use smart_things_local.Coap.Options.{CoapOption, option_values}
use smart_things_local.Coap.Wire.{CoapMessage}
use smart_things_local.Coap.Block.{block_fields, decode_uint_option}
use smart_things_local.Coap.Placement.{
  Accumulator, Outcome, duplicate, continue, complete, refuse_if, single_etag, uint_option, Block,
  read_block, Placement, earlier, placed, place_block, block_size,
}

-- `a is not None and b is not None and a != b`
abbrev conflicts {ℓ} : {A : Type ℓ} → (A → A → Bool) → Option A → Option A → Bool
conflicts same (some a) (some b) = not (same a b)
conflicts same _ _ = false

-- `message.code != self._code`
unfoldable pub code_differs : ℕ → Option ℕ → Bool
code_differs code none = true
code_differs code (some c) = not (code == c)

-- `old if new is None else new`
abbrev newer {ℓ} : {A : Type ℓ} → Option A → Option A → Option A
newer old none = old
newer old (some a) = some a

unfoldable pub contains : List ℕ → ℕ → Bool
contains [] a = false
contains (x ∷ xs) a = x == a || contains xs a

unfoldable pub unaccepted : Option (List ℕ) → Option ℕ → Bool
unaccepted (some formats) (some f) = not (contains formats f)
unaccepted _ _ = false

pub record Metadata : Type 0 where
  pub etag : Option Bytes
  pub content_format : Option ℕ
  pub size2 : Option ℕ
  pub code : Option ℕ

-- The metadata of the first block, or those of a later block with what earlier blocks said.
unfoldable pub merge_metadata :
    Accumulator → ℕ → Option Bytes → Option ℕ → Option ℕ → Result Metadata
merge_metadata acc code etag content_format size2 =
    if acc.blocks_received == 0
    then ok
        (record { etag = etag; content_format = content_format; size2 = size2; code = some code })
    else if code_differs code acc.code
    then err blockwise
    else if conflicts bytes_eq etag acc.etag
    then err blockwise
    else if conflicts ◌==◌ content_format acc.content_format
    then err blockwise
    else ok (record {
      etag = newer acc.etag etag;
      content_format = newer acc.content_format content_format;
      size2 = newer acc.size2 size2;
      code = acc.code;
    })

unfoldable pub next_metadata : Accumulator → CoapMessage → Result Metadata
next_metadata acc message = do
  etag ← single_etag (option_values message.options 4)
  content_format ← uint_option message.options 12 2
  size2 ← uint_option message.options 28 4
  refuse_if (unaccepted acc.accepted_content_formats content_format)
  merge_metadata acc message.code etag content_format size2

-- The state after the block is taken in.
abbrev pub extended : Accumulator → Bytes → Metadata → Option ℕ → Accumulator
extended acc payload md szx = record acc {
  etag = md.etag;
  content_format = md.content_format;
  size2 = md.size2;
  negotiated_szx = szx;
  code = md.code;
  payload = acc.payload ++ payload;
  blocks_received = acc.blocks_received + 1;
}

-- The end of `add_response`: the bounds, and the writes.
unfoldable pub take_last : Accumulator → Bytes → Metadata → Option ℕ → Accumulator
take_last acc payload md szx = record (extended acc payload md szx) { complete = true }

unfoldable pub take_more : Accumulator → Bytes → Metadata → ℕ → ℕ → Accumulator
take_more acc payload md szx next_offset = record (extended acc payload md (some szx)) {
  expected_number = next_offset / block_size szx;
}

unfoldable pub check_bounds : Accumulator → Bytes → Bool → Result (Unit {0})
check_bounds acc payload more = do
  refuse_if (ltb acc.max_payload_bytes (length acc.payload + length payload))
  refuse_if (leb acc.max_blocks acc.blocks_received)
  refuse_if (more && leb acc.max_blocks (acc.blocks_received + 1))

-- A success response with no Block2 option is the whole representation.
unfoldable pub add_whole : Accumulator → CoapMessage → Result (Outcome × Accumulator)
add_whole acc message = do
  md ← next_metadata acc message
  check_bounds acc message.payload false
  ok (complete, take_last acc message.payload md none)

unfoldable pub add_placed : Accumulator → CoapMessage → Block → ℕ → Result (Outcome × Accumulator)
add_placed acc message b next_offset = do
  md ← next_metadata acc message
  check_bounds acc message.payload b.more
  ok (
      if b.more
      then (continue, take_more acc message.payload md b.szx next_offset)
      else (complete, take_last acc message.payload md (some b.szx)))

pub add_placement : Accumulator → CoapMessage → Block → Placement → Result (Outcome × Accumulator)
add_placement acc message b earlier = ok (duplicate, acc)
add_placement acc message b (placed next_offset) = add_placed acc message b next_offset

pub add_success : Accumulator → CoapMessage → Option Block → Result (Outcome × Accumulator)
add_success acc message none = add_whole acc message
add_success acc message (some b) = do
  p ← place_block acc b message.payload
  add_placement acc message b p

-- A response that is no success replaces what has arrived.
unfoldable pub add_failure : Accumulator → CoapMessage → Result (Outcome × Accumulator)
add_failure acc message =
    if ltb acc.max_payload_bytes (length message.payload)
    then err blockwise
    else ok (
      complete,
      record acc {
        code = some message.code;
        payload = message.payload;
        blocks_received = acc.blocks_received + 1;
        complete = true;
      },
    )

unfoldable pub add_response : Accumulator → CoapMessage → Result (Outcome × Accumulator)
unfolding add_placement add_success
add_response acc message = do
  refuse_if acc.complete
  refuse_if (not (bytes_eq message.token acc.token))
  refuse_if (not (message.mtype == 0 || message.mtype == 1 || message.mtype == 2))
  refuse_if (message.code == 0)
  if not (message.code / 32 == 2) then add_failure acc message else do
    b ← read_block acc.expected_number (option_values message.options 23)
    add_success acc message b

-- Responses added in turn, as a caller of the accumulator does.
unfoldable pub add_all : Accumulator → List CoapMessage → Result Accumulator
add_all acc [] = ok acc
add_all acc (m ∷ ms) = do (o, acc') ← add_response acc m; add_all acc' ms
