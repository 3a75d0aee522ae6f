-- ===== src/CoapTcp/Stream.antt =====
-- `CoapTcpStreamDecoder`: messages out of a byte stream that arrives in chunks. What is left of a
-- chunk is a list of its own in place of an offset into it.
pub mod Prefix
pub mod Chunks
pub mod Whole
pub mod RoundTrip
pub mod Failures
use smart_things_local.Prelude.{
  ℕ, zero, suc, ◌-◌, List, [], ◌∷◌, ◌++◌, Option, none, some, ltb, if◌then◌else◌, length, take,
  drop, min,
}
use smart_things_local.Prelude.Bytes.{Bytes}
use smart_things_local.Errors.{Result, ok, err, codec_error, out_of_fuel, ◌>>=◌}
use smart_things_local.CoapTcp.Frame.{
  CoapTcpMessage, frame_size_from_prefix, parse_coap_tcp_message, validate_max_message_size,
}

pub record Decoder : Type 0 where
  pub max_message_size : ℕ
  pub buffer : Bytes

-- `__init__`
unfoldable pub init : ℕ → Result Decoder
init max_message_size = do
  maximum ← validate_max_message_size max_message_size
  ok (record { max_message_size = maximum; buffer = [] })

unfoldable pub buffered_bytes : Decoder → ℕ
buffered_bytes d = length d.buffer

unfoldable pub reset : Decoder → Decoder
reset d = record d { buffer = [] }

-- One message, and those of the rest of the chunk.
abbrev pub emit :
    CoapTcpMessage → Result (List CoapTcpMessage × Bytes) → Result (List CoapTcpMessage × Bytes)
emit m later = do (ms, buffer) ← later; ok (m ∷ ms, buffer)

-- The loop of `feed` over the rest of the chunk, with the buffer: the messages of it and the buffer at its end.
unfoldable pub feed_loop : ℕ → ℕ → Bytes → Bytes → Result (List CoapTcpMessage × Bytes)
feed_loop fuel maximum buffer [] = ok ([], buffer)
feed_loop zero maximum buffer (c ∷ cs) = err out_of_fuel
feed_loop (suc fuel) maximum [] (c ∷ cs) = do
  frame_size ← frame_size_from_prefix (c ∷ cs) maximum
  elim frame_size [
    | none ↦ ok ([], c ∷ cs)
    | some n ↦ if ltb (length (c ∷ cs)) n then ok ([], c ∷ cs) else do
      m ← parse_coap_tcp_message (take n (c ∷ cs)) maximum
      emit m (feed_loop fuel maximum [] (drop n (c ∷ cs)))
  ]
feed_loop (suc fuel) maximum (b ∷ bs) (c ∷ cs) = do
  frame_size ← frame_size_from_prefix (b ∷ bs) maximum
  elim frame_size [
    | none ↦ feed_loop fuel maximum ((b ∷ bs) ++ (c ∷ [])) cs
    | some n ↦
        let taken = min (n - length (b ∷ bs)) (length (c ∷ cs)) in
        let buffer = (b ∷ bs) ++ take taken (c ∷ cs) in
        if ltb (length buffer) n then ok ([], buffer) else do
          m ← parse_coap_tcp_message buffer maximum
          emit m (feed_loop fuel maximum [] (drop taken (c ∷ cs)))
  ]

-- What `feed` leaves behind and returns: an error discards the buffer and the messages.
unfoldable pub feed : Decoder → Bytes → Decoder × Result (List CoapTcpMessage)
feed d chunk = elim (feed_loop (length chunk) d.max_message_size d.buffer chunk) [
  | ok r ↦ (record d { buffer = r.1 }, ok r.0)
  | err e ↦ (reset d, err e)
]

-- `finish`, at the end of the stream.
unfoldable pub finish : Decoder → Decoder × Result (Unit {0})
finish d = elim d.buffer [ [] ↦ (d, ok tt) | b ∷ bs ↦ (reset d, err codec_error) ]
