-- ===== src/Session/Upload.antt =====
-- `_post_blockwise`: a body sent in blocks. What `_exchange_block1` returns for the n-th request, or raises, is an
-- argument, and what is left of the body is a list of its own in place of an offset into it.
pub mod Covers
use smart_things_local.Prelude.{
  ℕ, zero, suc, ◌+◌, ◌/◌, ◌%◌, ◌^◌, Bool, true, false, not, ◌||◌, List, [], ◌∷◌, ◌++◌, ltb, leb,
  ◌==◌, if◌then◌else◌, length, take, drop,
}
use smart_things_local.Prelude.Bytes.{Bytes}
use smart_things_local.Errors.{Result, ok, err, blockwise, out_of_fuel, ◌>>=◌}
use smart_things_local.Coap.Options.{CoapOption, option_values}
use smart_things_local.Coap.Wire.{CoapMessage}
use smart_things_local.Coap.Block.{block_value, block_fields}
use smart_things_local.Coap.Response.{is_empty}
use smart_things_local.CoapTcp.Csm.{shortest_bytes}
use smart_things_local.Session.Blocks.{block1, is_success}

abbrev pub max_block1_requests : ℕ
max_block1_requests = 1024

abbrev pub size1 : ℕ
size1 = 60

-- 2.31, Continue
abbrev pub continue_code : ℕ
continue_code = 0x5f

-- A request, as `_exchange_block1` gets it.
pub record Chunk : Type 0 where
  pub options : List CoapOption
  pub payload : Bytes
  pub block_num : ℕ
  pub szx : ℕ
  pub start : ℕ
  pub more : Bool

-- What an answer leads to: the next block, of this size, or the end of the call.
pub data Reply : Type 0 where
  proceed : ℕ → Reply
  finish : ℕ → Bytes → Reply

-- The Block1 option of an intermediate answer.
unfoldable pub judge_continue : ℕ → ℕ → List Bytes → Result Reply
judge_continue szx offset [] = err blockwise
judge_continue szx offset (value ∷ []) =
    let f = block_fields value in
    if ltb 3 (length value)
    then err blockwise
    else if f.more == 0 || ltb szx f.szx
    then err blockwise
    else if not (offset % 2 ^ (f.szx + 4) == 0)
    then err blockwise
    else ok (proceed f.szx)
judge_continue szx offset (value ∷ _ ∷ _) = err blockwise

unfoldable pub judge_more : ℕ → ℕ → CoapMessage → Result Reply
judge_more szx offset message =
    if message.code == continue_code
    then judge_continue szx offset (option_values message.options block1)
    else if is_success message
    then err blockwise
    else ok (finish message.code message.payload)

-- The Block1 option of the last answer.
unfoldable pub judge_final : ℕ → CoapMessage → List Bytes → Result Reply
judge_final szx message [] = ok (finish message.code message.payload)
judge_final szx message (value ∷ []) =
    let f = block_fields value in
    if ltb 3 (length value)
    then err blockwise
    else if not (f.more == 0) || ltb szx f.szx
    then err blockwise
    else ok (finish message.code message.payload)
judge_final szx message (value ∷ _ ∷ _) = err blockwise

unfoldable pub judge_last : ℕ → CoapMessage → Result Reply
judge_last szx message =
    if not (is_success message)
    then ok (finish message.code message.payload)
    else if message.code == continue_code
    then err blockwise
    else judge_final szx message (option_values message.options block1)

unfoldable pub judge : Bool → ℕ → ℕ → CoapMessage → Result Reply
judge more szx offset message =
    if more then judge_more szx offset message else judge_last szx message

abbrev pub bit : Bool → ℕ
bit b = if b then 1 else 0

-- The options of a request: those of the path, Block1, Size1 on the first, and the caller's.
unfoldable pub chunk_options : List CoapOption → List CoapOption → ℕ → ℕ → Bytes → List CoapOption
chunk_options base extra total offset value =
    base
    ++ ((block1, value) ∷ (if offset == 0 then (size1, shortest_bytes total) ∷ [] else []))
    ++ extra

abbrev pub Sent : Type 0
Sent = List Chunk × Result (ℕ × Bytes)

-- What follows a request that was sent.
unfoldable pub conclude : Chunk → Result Reply → (ℕ → Sent) → Sent
conclude chunk (err e) later = (chunk ∷ [], err e)
conclude chunk (ok (finish code payload)) later = (chunk ∷ [], ok (code, payload))
conclude chunk (ok (proceed szx)) later = (chunk ∷ (later szx).0, (later szx).1)

-- A block whose option can be built is sent.
unfoldable pub send_chunk :
    List CoapOption
    → List CoapOption
    → ℕ
    → ℕ
    → ℕ
    → Bytes
    → Bool
    → Result CoapMessage
    → Result Bytes
    → (ℕ → Sent)
    → Sent
send_chunk base extra total offset szx payload more answered (err e) later = ([], err e)
send_chunk base extra total offset szx payload more answered (ok value) later =
    conclude
      (record {
        options = chunk_options base extra total offset value;
        payload = payload;
        block_num = offset / 2 ^ (szx + 4);
        szx = szx;
        start = offset;
        more = more;
      })
      (answered >>= judge more szx offset) later

module _ (answer : ℕ → Result CoapMessage) (base extra : List CoapOption) (total : ℕ) where
  -- The loop: the requests sent, and what the call returns or raises.
  unfoldable pub upload_from : ℕ → ℕ → ℕ → ℕ → Bytes → Sent
  upload_from fuel count offset szx [] = ([], err blockwise)
  upload_from zero count offset szx (b ∷ bs) = ([], err out_of_fuel)
  upload_from (suc fuel) count offset szx (b ∷ bs) =
      let size = 2 ^ (szx + 4) in
      let chunk = take size (b ∷ bs) in
      let later = drop size (b ∷ bs) in
      let more = not (is_empty later) in
      if not (offset % size == 0) || leb max_block1_requests count
      then ([], err blockwise)
      else send_chunk base extra total offset szx chunk more (answer count)
          (block_value (offset / size) (bit more) szx)
          (λ szx'. upload_from fuel (count + 1) (offset + length chunk) szx' later)

unfoldable pub post_blockwise :
    (ℕ → Result CoapMessage) → List CoapOption → List CoapOption → Bytes → Sent
post_blockwise answer base extra body =
    upload_from answer base extra (length body) (length body) 0 0 6 body
