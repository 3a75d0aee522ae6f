-- ===== src/Coap/Accumulator/Holding.antt =====
-- One block of a Block2 transfer, against an accumulator that holds the blocks before it.
use native.Mathlib.Nat.{le_trans, pow-le-pow_right, mul-mod_left}
use smart_things_local.Prelude.{
  ℕ, suc, ◌+◌, ◌*◌, ◌/◌, ◌%◌, ◌≤◌, ◌<◌, ◌≡◌, ◌≢◌, ◌⊎◌, inl, inr, refl, sym, ap, ◌∙◌, Bool, true,
  false, not, ◌||◌, List, [], ◌∷◌, Option, none, some, ltb, ◌==◌, if◌then◌else◌, length, arith,
  Bool-cases,
}
use smart_things_local.Prelude.Bytes.{Bytes, bytes_eq, bytes_eq_iff}
use smart_things_local.Errors.{ok}
use smart_things_local.Coap.Options.{option_values}
use smart_things_local.Coap.Wire.{CoapMessage}
use smart_things_local.Coap.Block.{block_fields}
use smart_things_local.Coap.Placement.{
  Accumulator, Block, block_size, block_szx, read_block, place_block, placed, next_request_szx,
  upshifts,
}
use smart_things_local.Coap.Accumulator.Agreement.{
  HasTag, HasFormat, HasSize, Accepts, Same, HasTag-single_etag, HasFormat-uint_option,
  HasSize-uint_option, accepted, conflicts-Same, newer-Same,
}
use smart_things_local.Coap.Accumulator.{
  Metadata, newer, next_metadata, merge_metadata, add_response, unaccepted, code_differs,
  add_placed,
}

-- What the blocks of a transfer have in common. The tag and the format are those of the blocks that give one.
pub record Representation : Type 0 where
  pub token : Bytes
  pub code : ℕ
  pub szx : ℕ
  pub etag : Option Bytes
  pub content_format : Option ℕ

-- A success response that carries block `n` of a representation.
pub record Carries (r : Representation) (n more : ℕ) (payload : Bytes) (m : CoapMessage)
    : Type 0 where
  pub same_token : m.token ≡ r.token
  pub same_code : m.code ≡ r.code
  pub has_type : m.mtype ≤ 2
  pub value : Bytes
  pub block2 : option_values m.options 23 ≡ value ∷ []
  pub short : length value ≤ 3
  pub fields : block_fields value ≡ record { num = n; more = more; szx = r.szx }
  pub etag : HasTag r.etag (option_values m.options 4)
  pub format : HasFormat r.content_format (option_values m.options 12)
  pub size2 : HasSize (option_values m.options 28)
  pub carried : m.payload ≡ payload

-- The accumulator holds the first `n` blocks of a transfer.
pub record Holds (r : Representation) (formats : Option (List ℕ)) (n : ℕ) (acc : Accumulator)
    : Type 0 where
  pub own_token : acc.token ≡ r.token
  pub own_formats : acc.accepted_content_formats ≡ formats
  pub still_open : acc.complete ≡ false
  pub count : acc.blocks_received ≡ n
  pub at_end : n * block_size r.szx ≡ length acc.payload
  pub expects : acc.expected_number ≡ n
  pub size : (n ≡ 0 × acc.negotiated_szx ≡ none) ⊎ (acc.negotiated_szx ≡ some r.szx)
  pub kept_code : n ≢ 0 → acc.code ≡ some r.code
  pub kept_etag : Same r.etag acc.etag
  pub kept_format : Same r.content_format acc.content_format

pub block_size_pos : (szx : ℕ) → szx ≤ block_szx → 0 < block_size szx
unfolding block_size
block_size_pos szx h =
    le_trans (omega arith) (pow-le-pow_right (omega arith) {i = 0} {j = szx + 4} (omega arith))

block_size_max : (szx : ℕ) → szx ≤ block_szx → block_size szx ≤ block_size block_szx
unfolding block_size
block_size_max szx h =
    pow-le-pow_right (omega arith) {i = szx + 4} {j = block_szx + 4} (omega arith)

pub whole_blocks : (n size : ℕ) → (n * size + size) % size ≡ 0
whole_blocks n size =
    let e : n * size + size ≡ suc n * size = omega arith in rw e (mul-mod_left (suc n) size)

abbrev pub block : ℕ → Bool → ℕ → Block
block n more szx = record { number = n; more = more; szx = szx }

module _ (r : Representation) (formats : Option (List ℕ)) (n : ℕ) (acc : Accumulator)
    (small : r.szx ≤ block_szx) (allowed : Accepts formats r.content_format)
    (holds : Holds r formats n acc) where
  no_upshift : upshifts acc.negotiated_szx r.szx ≡ false
  unfolding upshifts
  no_upshift = elim holds.size [
    | inl first ↦ rw (first.1) refl
    | inr later ↦ rw later (ground arith)
  ]

  abbrev limit : ℕ
  limit =
      let asked = next_request_szx acc.negotiated_szx in
      block_size (if ltb r.szx asked then asked else r.szx)

  limit-ge : block_size r.szx ≤ limit
  unfolding next_request_szx
  limit-ge = elim holds.size [
    | inl first ↦ rw (first.1) (ground (arith, block_size_max r.szx small))
    | inr later ↦ rw later (ground arith)
  ]

  place_block-Holds :
      (flag : Bool) (payload : Bytes)
      → (flag ≡ true → length payload ≡ block_size r.szx)
      → length payload ≤ block_size r.szx
      → place_block acc (block n flag r.szx) payload
        ≡ ok (placed (length acc.payload + length payload))
  unfolding place_block
  place_block-Holds false payload full fits = ground (arith, holds.at_end, no_upshift, limit-ge)
  place_block-Holds true payload full fits = ground (
    arith,
    holds.at_end,
    no_upshift,
    limit-ge,
    full refl,
    block_size_pos r.szx small,
    whole_blocks n (block_size r.szx),
  )

  merge_metadata-Holds :
      (etag : Option Bytes) (format size2 : Option ℕ)
      → Same r.etag etag
      → Same r.content_format format
      → (md : Metadata) × (merge_metadata acc r.code etag format size2 ≡ ok md)
        × (md.code ≡ some r.code)
        × Same r.etag md.etag
        × Same r.content_format md.content_format
  unfolding merge_metadata code_differs
  merge_metadata-Holds etag format size2 t f = elim (Bool-cases (acc.blocks_received == 0)) [
    | inl first ↦ (
      record { etag = etag; content_format = format; size2 = size2; code = some r.code },
      rw first refl,
      refl,
      t,
      f,
    )
    | inr later ↦
        let kept = holds.kept_code (λ z. ground (arith, holds.count)) in
        let tags =
          conflicts-Same bytes_eq r.etag etag acc.etag (λ x. (bytes_eq_iff x x).1 refl) t
            holds.kept_etag in
        let forms =
          conflicts-Same ◌==◌ r.content_format format acc.content_format (λ x. ground arith) f
            holds.kept_format in
        (
          record {
            etag = newer acc.etag etag;
            content_format = newer acc.content_format format;
            size2 = newer acc.size2 size2;
            code = acc.code;
          },
          rw (later, tags, forms) (ground (arith, kept)),
          kept,
          newer-Same r.etag acc.etag etag holds.kept_etag t,
          newer-Same r.content_format acc.content_format format holds.kept_format f,
        )
  ]

  pub next_metadata-Holds :
      (more : ℕ) (payload : Bytes) (m : CoapMessage)
      → Carries r n more payload m
      → (md : Metadata) × (next_metadata acc m ≡ ok md)
        × (md.code ≡ some r.code)
        × Same r.etag md.etag
        × Same r.content_format md.content_format
  unfolding next_metadata
  next_metadata-Holds more payload m c =
      let (etag, tag_read, t) = HasTag-single_etag r.etag (option_values m.options 4) c.etag in
      let (format, format_read, f) = HasFormat-uint_option r.content_format m.options c.format in
      let (size2, size_read) = HasSize-uint_option m.options c.size2 in
      let (md, merged, kept, tags, formats_kept) = merge_metadata-Holds etag format size2 t f in
      let acceptable : unaccepted acc.accepted_content_formats format ≡ false =
        ap (λ (fs : Option (List ℕ)). unaccepted fs format) holds.own_formats
        ∙ accepted formats r.content_format format allowed f in
      (
        md,
        rw (tag_read, format_read, size_read, acceptable, c.same_code) merged,
        kept,
        tags,
        formats_kept,
      )

  read_block-Carries :
      (more : ℕ) (payload : Bytes) (m : CoapMessage)
      → Carries r n more payload m
      → read_block acc.expected_number (option_values m.options 23)
        ≡ ok (some (block n (not (more == 0)) r.szx))
  unfolding read_block
  read_block-Carries more payload m c = rw (c.block2) (ground (arith, c.short, c.fields))

  -- A block of the transfer, seen by `add_response`.
  pub add_response-Carries :
      (more : ℕ) (payload : Bytes) (m : CoapMessage)
      → r.code / 32 ≡ 2
      → (not (more == 0) ≡ true → length payload ≡ block_size r.szx)
      → length payload ≤ block_size r.szx
      → Carries r n more payload m
      → add_response acc m
        ≡ add_placed acc m (block n (not (more == 0)) r.szx) (length acc.payload + length payload)
  unfolding add_response
  add_response-Carries more payload m success full fits c =
      let flag = not (more == 0) in
      let own = (bytes_eq_iff m.token acc.token).1 (c.same_token ∙ sym holds.own_token) in
      let has_type : (m.mtype == 0 || m.mtype == 1 || m.mtype == 2) ≡ true =
        ground (arith, c.has_type) in
      let has_code : (m.code == 0) ≡ false = ground (arith, c.same_code) in
      let is_success : (m.code / 32 == 2) ≡ true = ground (arith, c.same_code) in
      let in_place : place_block acc (block n flag r.szx) m.payload
          ≡ ok (placed (length acc.payload + length payload)) =
        rw (c.carried) (place_block-Holds flag payload full fits) in
      simp (
        holds.still_open,
        own,
        has_type,
        has_code,
        is_success,
        read_block-Carries more payload m c,
        in_place,
      )
