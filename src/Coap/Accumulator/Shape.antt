-- ===== src/Coap/Accumulator/Shape.antt =====
-- What a response that `add_response` accepts did, case by case.
use smart_things_local.Prelude.{
  ℕ, ◌+◌, ◌*◌, ◌%◌, ◌≤◌, ◌<◌, ◌≡◌, refl, Bool, true, false, List, [], ◌∷◌, none, some, length,
  arith,
}
use smart_things_local.Prelude.Bytes.{Bytes}
use smart_things_local.Errors.{Result, ok, ◌>>◌}
use smart_things_local.Coap.Placement.{
  Accumulator, refuse_if, Block, read_block, earlier, placed, place_block, block_size, block_szx,
  upshifts,
}
use smart_things_local.Coap.Accumulator.{check_bounds}

pub refuse_if-eq-ok {ℓ} :
    {B : Type ℓ} (test : Bool) (k : Result B) {b : B}
    → (refuse_if test >> k) ≡ ok b
    → (test ≡ false) × (k ≡ ok b)
refuse_if-eq-ok true k h = absurd (ground arith)
refuse_if-eq-ok false k h = (refl, h)

-- The block is in place.
pub record IsPlaced (acc : Accumulator) (b : Block) (payload : Bytes) (next_offset : ℕ)
    : Type 0 where
  pub at_end : b.number * block_size b.szx ≡ length acc.payload
  pub next : next_offset ≡ length acc.payload + length payload
  pub not_up : upshifts acc.negotiated_szx b.szx ≡ false
  pub nonempty : b.more ≡ true → 0 < length payload
  pub aligned : b.more ≡ true → next_offset % block_size b.szx ≡ 0

pub place_block-placed :
    (acc : Accumulator) (b : Block) (payload : Bytes) (next_offset : ℕ)
    → place_block acc b payload ≡ ok (placed next_offset)
    → IsPlaced acc b payload next_offset
unfolding place_block
place_block-placed acc b payload next_offset h = record {
  at_end = ground arith;
  next = ground arith;
  not_up = ground arith;
  nonempty = λ more. ground arith;
  aligned = λ more. ground arith;
}

pub place_block-earlier :
    (acc : Accumulator) (b : Block) (payload : Bytes)
    → place_block acc b payload ≡ ok earlier
    → b.number * block_size b.szx < length acc.payload
unfolding place_block
place_block-earlier acc b payload h = ground arith

pub read_block-none :
    (expected_number : ℕ) (values : List Bytes)
    → read_block expected_number values ≡ ok none
    → expected_number ≡ 0
unfolding read_block
read_block-none expected_number [] h = ground arith
read_block-none expected_number (v ∷ []) h = absurd (ground arith)
read_block-none expected_number (v ∷ w ∷ vs) h = absurd (ground arith)

pub read_block-some :
    (expected_number : ℕ) (values : List Bytes) (b : Block)
    → read_block expected_number values ≡ ok (some b)
    → b.szx ≤ block_szx
unfolding read_block
read_block-some expected_number [] b h = absurd (ground arith)
read_block-some expected_number (v ∷ []) b h = ground arith
read_block-some expected_number (v ∷ w ∷ vs) b h = absurd (ground arith)

-- Both bounds leave room for the response.
pub record HasRoom (acc : Accumulator) (payload : Bytes) (more : Bool) : Type 0 where
  pub bytes : length acc.payload + length payload ≤ acc.max_payload_bytes
  pub blocks : acc.blocks_received < acc.max_blocks
  pub blocks_more : more ≡ true → acc.blocks_received + 1 < acc.max_blocks

pub check_bounds-HasRoom :
    (acc : Accumulator) (payload : Bytes) (more : Bool)
    → check_bounds acc payload more ≡ ok tt
    → HasRoom acc payload more
unfolding check_bounds
check_bounds-HasRoom acc payload more h = record {
  bytes = ground arith;
  blocks = ground arith;
  blocks_more = λ m. ground arith;
}
