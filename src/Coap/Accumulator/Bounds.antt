-- ===== src/Coap/Accumulator/Bounds.antt =====
-- The invariant of `Block2Accumulator`: its bounds hold, and while it is open the blocks it holds
-- end where the next request begins.
use native.Mathlib.Nat.{div-add-mod}
use smart_things_local.Prelude.{
  ℕ, ◌*◌, ◌/◌, ◌%◌, ◌≤◌, ◌<◌, ◌≡◌, ◌⊎◌, inr, refl, ◌∙◌, true, false, List, [], ◌∷◌, Option, none,
  some, length, length-append, arith,
}
use smart_things_local.Prelude.Bytes.{Bytes}
use smart_things_local.Errors.{ok, >>=-eq-ok}
use smart_things_local.Coap.Wire.{CoapMessage}
use smart_things_local.Coap.Placement.{Accumulator, Outcome, Block, block_size, block_szx, init}
use smart_things_local.Coap.Accumulator.{Metadata, take_last, take_more, add_response, add_all}
use smart_things_local.Coap.Accumulator.Shape.{IsPlaced, HasRoom}
use smart_things_local.Coap.Accumulator.Added.{
  Added, repeated, failed, whole, last, more, add_response-Added, failed_with,
}

-- Nothing has arrived, or the blocks that have arrived end where the next block begins.
abbrev pub Stage : Accumulator → Type 0
Stage acc =
    ((acc.blocks_received ≡ 0) × (acc.payload ≡ []) × (acc.expected_number ≡ 0))
    ⊎ ((szx : ℕ) × (acc.negotiated_szx ≡ some szx)
        × (szx ≤ block_szx)
        × (acc.expected_number * block_size szx ≡ length acc.payload)
        × (0 < length acc.payload)
        × (0 < acc.blocks_received))

pub record IsValid (acc : Accumulator) : Type 0 where
  pub payload_bound : length acc.payload ≤ acc.max_payload_bytes
  pub blocks_bound : acc.blocks_received ≤ acc.max_blocks
  pub open_room : acc.complete ≡ false → acc.blocks_received < acc.max_blocks
  pub open_stage : acc.complete ≡ false → Stage acc

pub init-IsValid :
    (token : Bytes) (max_blocks max_payload_bytes : ℕ) (formats : Option (List ℕ))
    (acc : Accumulator)
    → init token max_blocks max_payload_bytes formats ≡ ok acc
    → IsValid acc
unfolding init
init-IsValid token max_blocks max_payload_bytes formats acc h = record {
  payload_bound = ground arith;
  blocks_bound = ground arith;
  open_room = λ o. ground arith;
  open_stage = λ o. ground arith;
}

div_exact : (n p : ℕ) → n % p ≡ 0 → n / p * p ≡ n
div_exact n p h = omega (arith, div-add-mod n p)

take_last-IsValid :
    (acc : Accumulator) (payload : Bytes) (md : Metadata) (szx : Option ℕ)
    → HasRoom acc payload false
    → IsValid (take_last acc payload md szx)
unfolding take_last
take_last-IsValid acc payload md szx r = record {
  payload_bound = omega (arith, length-append acc.payload payload, r.bytes);
  blocks_bound = omega (arith, r.blocks);
  open_room = λ o. absurd (ground arith);
  open_stage = λ o. absurd (ground arith);
}

take_more-IsValid :
    (acc : Accumulator) (payload : Bytes) (md : Metadata) (b : Block) (next_offset : ℕ)
    → b.more ≡ true
    → b.szx ≤ block_szx
    → IsPlaced acc b payload next_offset
    → HasRoom acc payload true
    → IsValid (take_more acc payload md b.szx next_offset)
unfolding take_more
take_more-IsValid acc payload md b next_offset m small p r = record {
  payload_bound = omega (arith, length-append acc.payload payload, r.bytes);
  blocks_bound = omega (arith, r.blocks);
  open_room = λ o. omega (arith, r.blocks_more refl);
  open_stage = λ o. inr (
    b.szx,
    refl,
    small,
    div_exact next_offset (block_size b.szx) (p.aligned m)
        ∙ omega (arith, p.next, length-append acc.payload payload),
    omega (arith, length-append acc.payload payload, p.nonempty m),
    omega arith,
  );
}

failed-IsValid :
    (acc : Accumulator) (m : CoapMessage)
    → acc.blocks_received < acc.max_blocks
    → length m.payload ≤ acc.max_payload_bytes
    → IsValid (failed_with acc m)
failed-IsValid acc m room len = record {
  payload_bound = len;
  blocks_bound = omega arith;
  open_room = λ o. absurd (ground arith);
  open_stage = λ o. absurd (ground arith);
}

Added-IsValid :
    (acc : Accumulator) (m : CoapMessage) (o : Outcome) (acc' : Accumulator)
    → IsValid acc
    → acc.complete ≡ false
    → Added acc m o acc'
    → IsValid acc'
Added-IsValid acc m o acc' v c (repeated b lt e w) = rw w v
Added-IsValid acc m o acc' v c (failed f len e w) = rw w (failed-IsValid acc m (v.open_room c) len)
Added-IsValid acc m o acc' v c (whole md s x e r e' w) =
    rw w (take_last-IsValid acc m.payload md none r)
Added-IsValid acc m o acc' v c (last md b n s x e r e' w) =
    rw w (take_last-IsValid acc m.payload md (some b.szx) r)
Added-IsValid acc m o acc' v c (more md b n s x small p e r e' w) =
    rw w (take_more-IsValid acc m.payload md b n x small p r)

-- Every accepted response keeps the bounds on the payload and on the count of blocks, and an open
-- transfer at a block boundary that the next request names.
pub add_response-IsValid :
    (acc : Accumulator) (m : CoapMessage) (o : Outcome) (acc' : Accumulator)
    → IsValid acc
    → add_response acc m ≡ ok (o, acc')
    → IsValid acc'
add_response-IsValid acc m o acc' v h =
    let (g, a) = add_response-Added acc m o acc' h in Added-IsValid acc m o acc' v g.still_open a

add_all_keeps :
    (acc acc' : Accumulator) (ms : List CoapMessage)
    → IsValid acc
    → add_all acc ms ≡ ok acc'
    → IsValid acc'
unfolding add_all
add_all_keeps acc acc' [] v h = let e : acc' ≡ acc = ground arith in rw e v
add_all_keeps acc acc' (m ∷ ms) v h =
    let ((o, acc₁), added, later) = >>=-eq-ok (add_response acc m) _ h in
    add_all_keeps acc₁ acc' ms (add_response-IsValid acc m o acc₁ v added) later

-- However many responses a new accumulator has accepted, and whatever they were, the payload is
-- within `max_payload_bytes` and the blocks within `max_blocks`; and while the transfer is open
-- there is room for a block, and the blocks held end exactly where the next request begins.
pub add_all-IsValid :
    (token : Bytes) (max_blocks max_payload_bytes : ℕ) (formats : Option (List ℕ))
    (acc acc' : Accumulator) (ms : List CoapMessage)
    → init token max_blocks max_payload_bytes formats ≡ ok acc
    → add_all acc ms ≡ ok acc'
    → IsValid acc'
add_all-IsValid token max_blocks max_payload_bytes formats acc acc' ms created h =
    add_all_keeps acc acc' ms (init-IsValid token max_blocks max_payload_bytes formats acc created)
      h
