-- ===== src/Coap/Accumulator/Added.antt =====
-- The five ways in which `add_response` accepts a response.
use smart_things_local.Prelude.{
  ℕ, ◌+◌, ◌*◌, ◌/◌, ◌≤◌, ◌<◌, ◌≡◌, ◌≢◌, inl, inr, true, false, not, ◌||◌, Option, none, some, ◌==◌,
  ==_iff, length, arith, Bool-cases,
}
use smart_things_local.Prelude.Bytes.{bytes_eq, bytes_eq_iff}
use smart_things_local.Errors.{ok, >>=-eq-ok}
use smart_things_local.Coap.Options.{option_values}
use smart_things_local.Coap.Wire.{CoapMessage}
use smart_things_local.Coap.Placement.{
  Accumulator, Outcome, duplicate, continue, complete, Block, read_block, Placement, earlier,
  placed, place_block, block_size, block_szx,
}
use smart_things_local.Coap.Accumulator.{
  Metadata, next_metadata, take_last, take_more, check_bounds, add_whole, add_placed, add_failure,
  add_success, add_placement, add_response,
}
use smart_things_local.Coap.Accumulator.Shape.{
  refuse_if-eq-ok, IsPlaced, place_block-placed, place_block-earlier, read_block-none,
  read_block-some, HasRoom, check_bounds-HasRoom,
}

abbrev pub failed_with : Accumulator → CoapMessage → Accumulator
failed_with acc m = record acc {
  code = some m.code;
  payload = m.payload;
  blocks_received = acc.blocks_received + 1;
  complete = true;
}

module _ (acc : Accumulator) (m : CoapMessage) where
  pub data Added (o : Outcome) (acc' : Accumulator) : Type 0 where
    repeated :
        (b : Block)
        → b.number * block_size b.szx < length acc.payload
        → o ≡ duplicate
        → acc' ≡ acc
        → Added o acc'
    failed :
        m.code / 32 ≢ 2
        → length m.payload ≤ acc.max_payload_bytes
        → o ≡ complete
        → acc' ≡ failed_with acc m
        → Added o acc'
    whole :
        (md : Metadata)
        → m.code / 32 ≡ 2
        → acc.expected_number ≡ 0
        → next_metadata acc m ≡ ok md
        → HasRoom acc m.payload false
        → o ≡ complete
        → acc' ≡ take_last acc m.payload md none
        → Added o acc'
    last :
        (md : Metadata) (b : Block) (next_offset : ℕ)
        → m.code / 32 ≡ 2
        → b.more ≡ false
        → next_metadata acc m ≡ ok md
        → HasRoom acc m.payload false
        → o ≡ complete
        → acc' ≡ take_last acc m.payload md (some b.szx)
        → Added o acc'
    more :
        (md : Metadata) (b : Block) (next_offset : ℕ)
        → m.code / 32 ≡ 2
        → b.more ≡ true
        → b.szx ≤ block_szx
        → IsPlaced acc b m.payload next_offset
        → next_metadata acc m ≡ ok md
        → HasRoom acc m.payload true
        → o ≡ continue
        → acc' ≡ take_more acc m.payload md b.szx next_offset
        → Added o acc'

  add_placed-Added :
      (b : Block) (n : ℕ) (o : Outcome) (acc' : Accumulator)
      → m.code / 32 ≡ 2
      → b.szx ≤ block_szx
      → IsPlaced acc b m.payload n
      → add_placed acc m b n ≡ ok (o, acc')
      → Added o acc'
  unfolding add_placed
  add_placed-Added b n o acc' c s p h =
      let (md, e, h₁) = >>=-eq-ok (next_metadata acc m) _ h in
      let (u, room, h₂) = >>=-eq-ok (check_bounds acc m.payload b.more) _ h₁ in
      elim (Bool-cases b.more) [
        | inl yes_more ↦
            more md b n c yes_more s p e
              (rw yes_more at (check_bounds-HasRoom acc m.payload b.more room)) (ground arith)
              (ground arith)
        | inr no_more ↦
            last md b n c no_more e (rw no_more at (check_bounds-HasRoom acc m.payload b.more room))
              (ground arith) (ground arith)
      ]

  add_success-Added :
      (b : Option Block) (o : Outcome) (acc' : Accumulator)
      → m.code / 32 ≡ 2
      → read_block acc.expected_number (option_values m.options 23) ≡ ok b
      → add_success acc m b ≡ ok (o, acc')
      → Added o acc'
  unfolding add_success add_placement add_whole
  add_success-Added none o acc' c r h =
      let (md, e, h₁) = >>=-eq-ok (next_metadata acc m) _ h in
      let (u, room, h₂) = >>=-eq-ok (check_bounds acc m.payload false) _ h₁ in
      whole md c (read_block-none acc.expected_number _ r) e
        (check_bounds-HasRoom acc m.payload false room) (ground arith) (ground arith)
  add_success-Added (some b) o acc' c r h =
      let (p, e, h₁) = >>=-eq-ok (place_block acc b m.payload) _ h in go p e h₁
    where
      go :
          (p : Placement)
          → place_block acc b m.payload ≡ ok p
          → add_placement acc m b p ≡ ok (o, acc')
          → Added o acc'
      go earlier e h₁ =
          repeated b (place_block-earlier acc b m.payload e) (ground arith) (ground arith)
      go (placed n) e h₁ =
          add_placed-Added b n o acc' c (read_block-some acc.expected_number _ b r)
            (place_block-placed acc b m.payload n e) h₁

  -- What the guards of `add_response` let through.
  pub record Admitted : Type 0 where
    pub still_open : acc.complete ≡ false
    pub same_token : m.token ≡ acc.token
    pub has_type : m.mtype ≤ 2
    pub has_code : m.code ≢ 0

  pub add_response-Added :
      (o : Outcome) (acc' : Accumulator)
      → add_response acc m ≡ ok (o, acc')
      → Admitted × Added o acc'
  unfolding add_response add_failure
  add_response-Added o acc' h =
      let (g₁, h₁) = refuse_if-eq-ok acc.complete _ h in
      let (g₂, h₂) = refuse_if-eq-ok (not (bytes_eq m.token acc.token)) _ h₁ in
      let (g₃, h₃) = refuse_if-eq-ok (not (m.mtype == 0 || m.mtype == 1 || m.mtype == 2)) _ h₂ in
      let (g₄, h₄) = refuse_if-eq-ok (m.code == 0) _ h₃ in
      (
        record {
          still_open = g₁;
          same_token = ground (arith, bytes_eq_iff m.token acc.token);
          has_type = ground arith;
          has_code = ground arith;
        },
        elim (Bool-cases (m.code / 32 == 2)) [
          | inl success ↦
              let (b, r, h₅) =
                >>=-eq-ok (read_block acc.expected_number (option_values m.options 23)) _
                  (rw success at h₄) in
              add_success-Added b o acc' ((==_iff (m.code / 32) 2).0 success) r h₅
          | inr failure ↦ failed (ground arith) (ground arith) (ground arith) (ground arith)
        ],
      )
