-- ===== src/Session/Read.antt =====
-- `_blockwise_get_once` and `_blockwise_get`. What `_exchange_block` returns or raises is an argument: the answers that
-- come before the deadline.
pub mod Coherent
pub mod Returns
use smart_things_local.Prelude.{
  ℕ, ◌+◌, ◌≡◌, Bool, true, false, not, ◌&&◌, List, [], ◌∷◌, Option, none, some, ◌==◌, if◌then◌else◌,
}
use smart_things_local.Prelude.Bytes.{Bytes, bytes_eq}
use smart_things_local.Errors.{Error, Result, ok, err, blockwise, session_timeout, ◌>>=◌}
use smart_things_local.Coap.Options.{option_values}
use smart_things_local.Coap.Wire.{CoapMessage}
use smart_things_local.Coap.Placement.{
  Accumulator, Outcome, duplicate, continue, complete, max_block2_blocks, max_block2_payload_bytes,
  init,
}
use smart_things_local.Coap.Accumulator.{add_response}
use smart_things_local.Session.Blocks.{is_success}

-- How an attempt ends: `_EtagChanged`, another exception, or what the accumulator holds.
pub data Attempt : Type 0 where
  etag_changed : Attempt
  raised : Error → Attempt
  returned : Accumulator → Attempt

abbrev pub first_value : List Bytes → Option Bytes
first_value [] = none
first_value (value ∷ _) = some value

abbrev pub block_etag : CoapMessage → Option Bytes
block_etag message = first_value (option_values message.options 4)

-- `etag is not None and block_etag != etag`
abbrev pub etag_differs : Option Bytes → Option Bytes → Bool
etag_differs none found = false
etag_differs (some etag) none = true
etag_differs (some etag) (some found) = not (bytes_eq found etag)

-- The tag of the first block, kept for the later ones.
unfoldable pub kept_etag : Accumulator → Option Bytes → CoapMessage → Option Bytes
kept_etag acc etag message =
    if is_success message && (acc.blocks_received == 0) then block_etag message else etag

unfoldable pub is_changed : Accumulator → Option Bytes → CoapMessage → Bool
is_changed acc etag message =
    is_success message && not (acc.blocks_received == 0) && etag_differs etag (block_etag message)

-- What follows a block that the accumulator was given.
unfoldable pub read_on : Result (Outcome × Accumulator) → (Accumulator → Attempt) → Attempt
read_on (err e) later = raised e
read_on (ok (complete, acc)) later = returned acc
read_on (ok (continue, acc)) later = later acc
read_on (ok (duplicate, acc)) later = later acc

-- The loop of `_blockwise_get_once`.
unfoldable pub read_from : Accumulator → Option Bytes → List (Result CoapMessage) → Attempt
read_from acc etag [] = raised session_timeout
read_from acc etag (err e ∷ answers) = raised e
read_from acc etag (ok message ∷ answers) =
    if is_changed acc etag message
    then etag_changed
    else read_on (add_response acc message)
        (λ acc'. read_from acc' (kept_etag acc etag message) answers)

unfoldable pub read_new : Result Accumulator → List (Result CoapMessage) → Attempt
read_new (err e) answers = raised e
read_new (ok acc) answers = read_from acc none answers

unfoldable pub blockwise_get_once : Bytes → List (Result CoapMessage) → Attempt
blockwise_get_once token answers =
    read_new (init token max_block2_blocks max_block2_payload_bytes none) answers

unfoldable pub attempt_result : Attempt → Result Accumulator
attempt_result etag_changed = err blockwise
attempt_result (raised e) = err e
attempt_result (returned acc) = ok acc

-- A second attempt, with a token and answers of its own, after a changed tag.
unfoldable pub attempt_again : Attempt → Attempt → Result Accumulator
attempt_again etag_changed second = attempt_result second
attempt_again (raised e) second = err e
attempt_again (returned acc) second = ok acc

-- The code, the payload and the number of blocks are fields of the accumulator.
unfoldable pub blockwise_get :
    Bytes → List (Result CoapMessage) → Bytes → List (Result CoapMessage) → Result Accumulator
blockwise_get token answers token' answers' =
    attempt_again (blockwise_get_once token answers) (blockwise_get_once token' answers')
