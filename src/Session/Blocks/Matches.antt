-- ===== src/Session/Blocks/Matches.antt =====
-- An acknowledgement of one chunk of an upload never answers another.
use smart_things_local.Prelude.{
  ℕ, ◌+◌, ◌*◌, ◌^◌, ◌≤◌, ◌<◌, ◌≡◌, ◌≢◌, refl, true, false, List, [], ◌∷◌, some, arith,
}
use smart_things_local.Prelude.Bytes.{Bytes}
use smart_things_local.Coap.Options.{option_values}
use smart_things_local.Coap.Wire.{CoapMessage}
use smart_things_local.Coap.Block.{block_fields}
use smart_things_local.Session.Blocks.{
  block1, is_success, Expected, covers, block1_matches, block1_response_matches,
}

-- Two chunks of one upload, the later one after the earlier one.
pub record Follows (e e' : Expected) : Type 0 where
  pub earlier : e.start < e.end
  pub later : e'.start < e'.end
  pub apart : e.end ≤ e'.start
  pub goes_on : e.more ≡ true

covers_one :
    (e e' : Expected) (s t : ℕ) → Follows e e' → covers e s t ≡ true → covers e' s t ≡ false
unfolding covers
covers_one e e' s t f h = ground (arith, f.earlier, f.later, f.apart, f.goes_on)

one :
    (values : List Bytes) (e e' : Expected)
    → values ≢ []
    → Follows e e'
    → block1_matches values e ≡ true
    → block1_matches values e' ≡ false
unfolding block1_matches
one [] e e' some_block f h = absurd (some_block refl)
one (value ∷ []) e e' some_block f h =
    let b = block_fields value in
    let start = b.num * 2 ^ (b.szx + 4) in
    ground (arith, covers_one e e' start (start + 2 ^ (b.szx + 4)) f)
one (value ∷ other ∷ rest) e e' some_block f h = absurd (ground arith)

-- A successful response with a Block1 option that answers one chunk of an upload does not answer a later chunk.
block1_response_matches_one :
    (message : CoapMessage) (e e' : Expected)
    → is_success message ≡ true
    → option_values message.options block1 ≢ []
    → Follows e e'
    → block1_response_matches message (some e) ≡ true
    → block1_response_matches message (some e') ≡ false
unfolding block1_response_matches
block1_response_matches_one message e e' success some_block f h =
    rw success (one (option_values message.options block1) e e' some_block f (rw success at h))
