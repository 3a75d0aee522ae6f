-- ===== src/Session/Blocks.antt =====
-- `_block_num_matches` and `_block1_response_matches`: whether a response can answer the block in flight.
pub mod Matches
use smart_things_local.Prelude.{
  ℕ, ◌+◌, ◌*◌, ◌/◌, ◌^◌, ◌≤◌, Bool, true, false, ◌&&◌, List, [], ◌∷◌, Option, none, some, ltb, leb,
  ◌==◌, if◌then◌else◌, length,
}
use smart_things_local.Prelude.Bytes.{Bytes}
use smart_things_local.Coap.Options.{option_values}
use smart_things_local.Coap.Wire.{CoapMessage}
use smart_things_local.Coap.Block.{block_fields}

abbrev pub block1 : ℕ
block1 = 27

abbrev pub is_success : CoapMessage → Bool
is_success message = message.code / 32 == 2

-- Where a block begins: `num << (szx + 4)`.
abbrev pub offset_of : ℕ → ℕ → ℕ
offset_of num szx = num * 2 ^ (szx + 4)

unfoldable pub block2_matches : List Bytes → ℕ → ℕ → Bool
block2_matches [] num szx = num == 0
block2_matches (value ∷ _) num szx =
    let f = block_fields value in offset_of f.num f.szx == offset_of num szx

unfoldable pub block_num_matches : CoapMessage → ℕ → ℕ → Bool
block_num_matches message num szx =
    if is_success message then block2_matches (option_values message.options 23) num szx else true

-- The bytes in flight, and whether more follow: `expected_block1_start`, `_end` and `_more`.
pub record Expected : Type 0 where
  pub start : ℕ
  pub end : ℕ
  pub more : Bool

unfoldable pub covers : Expected → ℕ → ℕ → Bool
covers e response_start response_end =
    if e.more
    then response_end == e.end
    else leb response_start e.start && ltb e.start response_end && leb e.end response_end

unfoldable pub block1_matches : List Bytes → Expected → Bool
block1_matches [] e = true
block1_matches (value ∷ []) e =
    let f = block_fields value in
    let response_size = 2 ^ (f.szx + 4) in
    let response_start = f.num * response_size in
    if ltb 3 (length value)
    then false
    else if ltb 6 f.szx
    then false
    else covers e response_start (response_start + response_size)
block1_matches (value ∷ _ ∷ _) e = false

unfoldable pub block1_response_matches : CoapMessage → Option Expected → Bool
block1_response_matches message none = true
block1_response_matches message (some e) =
    if is_success message then block1_matches (option_values message.options block1) e else true
