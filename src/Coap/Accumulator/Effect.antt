-- ===== src/Coap/Accumulator/Effect.antt =====
-- What each outcome of `add_response` does to the assembled payload.
use smart_things_local.Prelude.{
  ℕ, ◌+◌, ◌/◌, ◌<◌, ◌≡◌, true, false, ◌++◌, Option, some, ◌==◌, if◌then◌else◌, length, arith,
}
use smart_things_local.Prelude.Bytes.{Bytes}
use smart_things_local.Errors.{ok, >>=-eq-ok}
use smart_things_local.Coap.Options.{option_values}
use smart_things_local.Coap.Wire.{CoapMessage}
use smart_things_local.Coap.Placement.{
  Accumulator, Outcome, duplicate, continue, complete, single_etag, uint_option,
}
use smart_things_local.Coap.Accumulator.{
  Metadata, next_metadata, merge_metadata, take_last, take_more, add_response, unaccepted,
  code_differs,
}
use smart_things_local.Coap.Accumulator.Shape.{refuse_if-eq-ok}
use smart_things_local.Coap.Accumulator.Added.{
  Added, repeated, failed, whole, last, more, add_response-Added,
}

merge_metadata_code :
    (acc : Accumulator) (code : ℕ) (etag : Option Bytes) (f s : Option ℕ) (md : Metadata)
    → merge_metadata acc code etag f s ≡ ok md
    → md.code ≡ some code
unfolding merge_metadata code_differs
merge_metadata_code acc code etag f s md h = ground arith

-- Success blocks all carry the code that is kept.
next_metadata_code :
    (acc : Accumulator) (m : CoapMessage) (md : Metadata)
    → next_metadata acc m ≡ ok md
    → md.code ≡ some m.code
unfolding next_metadata
next_metadata_code acc m md h =
    let (e, _, h₁) = >>=-eq-ok (single_etag (option_values m.options 4)) _ h in
    let (f, _, h₂) = >>=-eq-ok (uint_option m.options 12 2) _ h₁ in
    let (s, _, h₃) = >>=-eq-ok (uint_option m.options 28 4) _ h₂ in
    let (_, h₄) = refuse_if-eq-ok (unaccepted acc.accepted_content_formats f) _ h₃ in
    merge_metadata_code acc m.code e f s md h₄

-- The effect of each outcome: a duplicate changes nothing; a block that is followed by more, and
-- the last one, extend the payload; a response that is no success replaces it.
abbrev pub Effect : Accumulator → CoapMessage → Outcome → Accumulator → Type 0
Effect acc m duplicate acc' = acc' ≡ acc
Effect acc m continue acc' =
    (m.code / 32 ≡ 2)
    × (0 < length m.payload)
    × (acc'.payload ≡ acc.payload ++ m.payload)
    × (acc'.blocks_received ≡ acc.blocks_received + 1)
    × (acc'.complete ≡ false)
    × (acc'.code ≡ some m.code)
Effect acc m complete acc' =
    (acc'.payload ≡ (if m.code / 32 == 2 then acc.payload ++ m.payload else m.payload))
    × (acc'.blocks_received ≡ acc.blocks_received + 1)
    × (acc'.complete ≡ true)
    × (acc'.code ≡ some m.code)

Added-Effect :
    (acc : Accumulator) (m : CoapMessage) (o : Outcome) (acc' : Accumulator)
    → acc.complete ≡ false
    → Added acc m o acc'
    → Effect acc m o acc'
unfolding take_last take_more
Added-Effect acc m o acc' c (repeated b lt e w) = rw e w
Added-Effect acc m o acc' c (failed f len e w) = rw (e, w) (ground arith)
Added-Effect acc m o acc' c (whole md s x e r e' w) =
    rw (e', w) (ground (arith, next_metadata_code acc m md e))
Added-Effect acc m o acc' c (last md b n s x e r e' w) =
    rw (e', w) (ground (arith, next_metadata_code acc m md e))
Added-Effect acc m o acc' c (more md b n s x small p e r e' w) =
    rw (e', w) (ground (arith, next_metadata_code acc m md e, p.nonempty x))

-- Every accepted response has the effect of its outcome.
pub add_response-Effect :
    (acc : Accumulator) (m : CoapMessage) (o : Outcome) (acc' : Accumulator)
    → add_response acc m ≡ ok (o, acc')
    → Effect acc m o acc'
add_response-Effect acc m o acc' h =
    let (g, a) = add_response-Added acc m o acc' h in Added-Effect acc m o acc' g.still_open a
