-- ===== src/Coap/Accumulator/Transfer.antt =====
-- A whole Block2 transfer: the blocks of one representation, in order, give back its bytes.
use native.Mathlib.Nat.{mul-div_cancel}
use smart_things_local.Prelude.{
  ℕ, suc, ◌+◌, ◌*◌, ◌/◌, ◌≤◌, ◌<◌, ◌≡◌, inl, inr, refl, sym, ap, ◌∙◌, Bool, true, false, List, [],
  ◌∷◌, ◌++◌, Option, some, length, length-append, append_assoc, arith,
}
use smart_things_local.Prelude.Bytes.{Bytes}
use smart_things_local.Errors.{ok}
use smart_things_local.Coap.Wire.{CoapMessage}
use smart_things_local.Coap.Placement.{
  Accumulator, continue, complete, block_size, block_szx, fresh,
}
use smart_things_local.Coap.Accumulator.{
  Metadata, check_bounds, take_last, take_more, add_response, add_placed, add_all,
}
use smart_things_local.Coap.Accumulator.Agreement.{Accepts, Same}
use smart_things_local.Coap.Accumulator.Holding.{
  Representation, Carries, Holds, block_size_pos, add_response-Carries, next_metadata-Holds,
}

-- The responses that carry a body from block `n` on, cut into blocks of one size.
pub data Blocks (r : Representation) : ℕ → Bytes → List CoapMessage → Type 0 where
  final :
      {n : ℕ} {payload : Bytes} {m : CoapMessage}
      → length payload ≤ block_size r.szx
      → Carries r n 0 payload m
      → Blocks r n payload (m ∷ [])
  further :
      {n : ℕ} {payload body : Bytes} {m : CoapMessage} {ms : List CoapMessage}
      → length payload ≡ block_size r.szx
      → Carries r n 1 payload m
      → Blocks r (suc n) body ms
      → Blocks r n (payload ++ body) (m ∷ ms)

check_bounds-room :
    (acc : Accumulator) (payload : Bytes) (flag : Bool)
    → length acc.payload + length payload ≤ acc.max_payload_bytes
    → acc.blocks_received < acc.max_blocks
    → (flag ≡ true → acc.blocks_received + 1 < acc.max_blocks)
    → check_bounds acc payload flag ≡ ok tt
unfolding check_bounds
check_bounds-room acc payload false b c d = ground arith
check_bounds-room acc payload true b c d = ground (arith, d refl)

module _ (r : Representation) (formats : Option (List ℕ)) (small : r.szx ≤ block_szx)
    (allowed : Accepts formats r.content_format) (success : r.code / 32 ≡ 2) where
  -- The last block completes the transfer.
  add_final :
      (n : ℕ) (acc : Accumulator) (payload : Bytes) (m : CoapMessage)
      → Holds r formats n acc
      → Carries r n 0 payload m
      → length payload ≤ block_size r.szx
      → length acc.payload + length payload ≤ acc.max_payload_bytes
      → n < acc.max_blocks
      → (acc' : Accumulator) × (add_response acc m ≡ ok (complete, acc'))
        × (acc'.complete ≡ true)
        × (acc'.payload ≡ acc.payload ++ payload)
        × (acc'.code ≡ some r.code)
  unfolding add_placed take_last
  add_final n acc payload m h c fits room count =
      let (md, e, kept, tags, forms) =
        next_metadata-Holds r formats n acc small allowed h 0 payload m c in
      let bounds : check_bounds acc m.payload false ≡ ok tt =
        check_bounds-room acc m.payload false (rw (c.carried) room) (omega (arith, h.count))
          (λ x. absurd (ground arith)) in
      (
        take_last acc m.payload md (some r.szx),
        add_response-Carries r formats n acc small allowed h 0 payload m success
              (λ x. absurd (ground arith)) fits c
            ∙ rw (e, bounds) refl,
        refl,
        ap (λ (x : Bytes). acc.payload ++ x) c.carried,
        kept,
      )

  take_more-Holds :
      (n : ℕ) (acc : Accumulator) (payload : Bytes) (md : Metadata)
      → Holds r formats n acc
      → length payload ≡ block_size r.szx
      → md.code ≡ some r.code
      → Same r.etag md.etag
      → Same r.content_format md.content_format
      → Holds r formats
          (suc n)
          (take_more acc payload md r.szx (length acc.payload + length payload))
  unfolding take_more
  take_more-Holds n acc payload md h full kept tags forms =
      let whole : length acc.payload + length payload ≡ suc n * block_size r.szx =
        omega (arith, h.at_end, full) in
      record {
        own_token = h.own_token;
        own_formats = h.own_formats;
        still_open = h.still_open;
        count = omega (arith, h.count);
        at_end = sym whole ∙ sym (length-append acc.payload payload);
        expects =
            ap (λ t. t / block_size r.szx) whole
            ∙ mul-div_cancel (suc n) (block_size_pos r.szx small);
        size = inr refl;
        kept_code = λ z. kept;
        kept_etag = tags;
        kept_format = forms;
      }

  -- An earlier block leaves the accumulator with one block more.
  add_further :
      (n : ℕ) (acc : Accumulator) (payload : Bytes) (m : CoapMessage)
      → Holds r formats n acc
      → Carries r n 1 payload m
      → length payload ≡ block_size r.szx
      → length acc.payload + length payload ≤ acc.max_payload_bytes
      → suc n < acc.max_blocks
      → (acc' : Accumulator) × (add_response acc m ≡ ok (continue, acc'))
        × Holds r formats (suc n) acc'
        × (acc'.payload ≡ acc.payload ++ payload)
        × (acc'.max_payload_bytes ≡ acc.max_payload_bytes)
        × (acc'.max_blocks ≡ acc.max_blocks)
  unfolding add_placed take_more
  add_further n acc payload m h c full room count =
      let (md, e, kept, tags, forms) =
        next_metadata-Holds r formats n acc small allowed h 1 payload m c in
      let bounds : check_bounds acc m.payload true ≡ ok tt =
        check_bounds-room acc m.payload true (rw (c.carried) room) (omega (arith, h.count))
          (λ x. omega (arith, h.count)) in
      (
        take_more acc m.payload md r.szx (length acc.payload + length payload),
        add_response-Carries r formats n acc small allowed h 1 payload m success (λ x. full)
              (omega (arith, full)) c
            ∙ rw (e, bounds) refl,
        rw (c.carried) (take_more-Holds n acc payload md h full kept tags forms),
        ap (λ (x : Bytes). acc.payload ++ x) c.carried,
        refl,
        refl,
      )

  Blocks-nonempty :
      {n : ℕ} {body : Bytes} {ms : List CoapMessage} → Blocks r n body ms → 0 < length ms
  Blocks-nonempty (final fits c) = omega arith
  Blocks-nonempty (further full c bs) = omega arith

  add_all-Blocks :
      {n : ℕ} {body : Bytes} {ms : List CoapMessage} (acc : Accumulator)
      → Blocks r n body ms
      → Holds r formats n acc
      → length acc.payload + length body ≤ acc.max_payload_bytes
      → n + length ms ≤ acc.max_blocks
      → (acc' : Accumulator) × (add_all acc ms ≡ ok acc')
        × (acc'.complete ≡ true)
        × (acc'.payload ≡ acc.payload ++ body)
        × (acc'.code ≡ some r.code)
  unfolding add_all
  add_all-Blocks acc (final {n} {payload} {m} fits c) h room count =
      let (acc', e, done, p, k) = add_final n acc payload m h c fits room (omega arith) in
      (acc', rw e refl, done, p, k)
  add_all-Blocks acc (further {n} {payload} {body} {m} {ms} full c bs) h room count =
      let len = length-append payload body in
      let (acc₁, e, h₁, p, mp, mb) =
        add_further n acc payload m h c full (omega (arith, len))
          (omega (arith, Blocks-nonempty bs)) in
      let (acc', e', done, p', k) =
        add_all-Blocks acc₁ bs h₁
          (omega (arith, len, ap length p, length-append acc.payload payload, mp))
          (omega (arith, mb)) in
      (acc', rw e e', done, p' ∙ rw p (append_assoc acc.payload payload body), k)

-- A transfer is accepted block by block from a fresh accumulator and completes with exactly the body and the code, where the code
-- is a success, the blocks are of one size but the last and of size exponent 6 at most, the body fits the payload bound and the
-- blocks the block bound, each block has the token and the code, and the metadata agree: the blocks that have an ETag have one
-- and the same, of one to eight bytes; those that have a Content-Format have one and the same, which the caller accepts; and
-- a Size2, where there is one, has four bytes at most.
pub add_all_transfer :
    (r : Representation) (max_blocks max_payload_bytes : ℕ) (formats : Option (List ℕ))
    {body : Bytes} {ms : List CoapMessage}
    → r.szx ≤ block_szx
    → r.code / 32 ≡ 2
    → Accepts formats r.content_format
    → Blocks r 0 body ms
    → length body ≤ max_payload_bytes
    → length ms ≤ max_blocks
    → (acc : Accumulator) × (add_all (fresh r.token max_blocks max_payload_bytes formats) ms
        ≡ ok acc)
      × (acc.complete ≡ true)
      × (acc.payload ≡ body)
      × (acc.code ≡ some r.code)
add_all_transfer r max_blocks max_payload_bytes formats small success allowed bs room count =
    add_all-Blocks r formats small allowed success
      (fresh r.token max_blocks max_payload_bytes formats) bs
      (record {
        own_token = refl;
        own_formats = refl;
        still_open = refl;
        count = refl;
        at_end = omega arith;
        expects = refl;
        size = inl (refl, refl);
        kept_code = λ z. absurd (z refl);
        kept_etag = inl refl;
        kept_format = inl refl;
      })
      (omega arith) (omega arith)
