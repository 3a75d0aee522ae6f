-- ===== src/Coap/Flight.antt =====
-- `split_dtls`: a buffer that holds DTLS records one after the other.
pub mod Records
use smart_things_local.Prelude.{
  ℕ, zero, suc, ◌+◌, List, [], ◌∷◌, leb, ltb, length, take, drop, if◌then◌else◌,
}
use smart_things_local.Prelude.Bytes.{Bytes, from_bytes}

-- The bytes of a record: its header, and as many as the length in the header says.
unfoldable pub record_size : Bytes → ℕ
record_size buf = 13 + from_bytes (take 2 (drop 11 buf))

-- The loop, with a round for each byte at most; `o` is where `buf` begins.
unfoldable pub split_records : ℕ → Bytes → List Bytes
split_records zero buf = []
split_records (suc fuel) buf =
    let end = record_size buf in
    let rest = split_records fuel (drop end buf) in
    if ltb (length buf) 13 then [] else if ltb (length buf) end then [] else take end buf ∷ rest

unfoldable pub split_dtls : Bytes → List Bytes
split_dtls buf = split_records (length buf) buf
