-- ===== src/CoapTcp/Frame/Length.antt =====
-- The length field: reading undoes writing, and the stream decoder finds the size of a frame from
-- its first bytes.
use smart_things_local.Prelude.{
  ℕ, ◌+◌, ◌-◌, ◌*◌, ◌^◌, ◌≤◌, ◌<◌, bit_or, bit_or_shift, ◌≡◌, [], ◌∷◌, ◌++◌, some, arith, ltb, leb,
  if◌then◌else◌, length,
}
use smart_things_local.Prelude.Bytes.{Bytes, IsBytes, pack16, pack32}
use smart_things_local.Errors.{ok, err, codec_error}
use smart_things_local.CoapTcp.Frame.{
  encode_length, decode_length, frame_size_from_prefix, coap_tcp_max_declared_length,
}

-- What is written for a length and a token's length, before any bytes.
pub record Announces (n t : ℕ) (prefix : Bytes) : Type 0 where
  pub small : length prefix ≤ 5
  pub nonempty : 0 < length prefix
  pub bytes : IsBytes prefix
  pub reads :
      (rest : Bytes)
      → decode_length (prefix ++ rest)
        ≡ ok (record { declared = n; token_length = t; prefix_size = length prefix })
  pub frames :
      (rest : Bytes) (maximum : ℕ)
      → length prefix + 1 + t + n ≤ maximum
      → frame_size_from_prefix (prefix ++ rest) maximum ≡ ok (some (length prefix + 1 + t + n))

first_byte : (a t : ℕ) → a ≤ 15 → t ≤ 8 → bit_or (a * 2 ^ 4) t ≡ a * 16 + t
first_byte a t ha ht = bit_or_shift 4 a t (omega arith)

abbrev prefix_of : ℕ → ℕ → Bytes
prefix_of n t =
    if ltb n 13
    then (n * 16 + t) ∷ []
    else if ltb n 269
    then (13 * 16 + t) ∷ (n - 13) ∷ []
    else if ltb n 65805
    then (14 * 16 + t) ∷ pack16 (n - 269)
    else (15 * 16 + t) ∷ pack32 (n - 65805)

encode_length-prefix_of :
    (n t : ℕ)
    → t ≤ 8
    → encode_length n t
      ≡ (if leb n coap_tcp_max_declared_length then ok (prefix_of n t) else err codec_error)
unfolding encode_length
encode_length-prefix_of n t ht = ground (
  arith,
  bit_or_shift 4 n t (omega arith),
  bit_or_shift 4 13 t (omega arith),
  bit_or_shift 4 14 t (omega arith),
  bit_or_shift 4 15 t (omega arith),
)

prefix_of_frames :
    (n t : ℕ)
    → t ≤ 8
    → n ≤ coap_tcp_max_declared_length
    → (rest : Bytes) (maximum : ℕ) → length (prefix_of n t) + 1 + t + n ≤ maximum
    → frame_size_from_prefix (prefix_of n t ++ rest) maximum
      ≡ ok (some (length (prefix_of n t) + 1 + t + n))
unfolding frame_size_from_prefix decode_length
prefix_of_frames n t ht hn rest maximum fits = ground arith

prefix_of-Announces :
    (n t : ℕ) → t ≤ 8 → n ≤ coap_tcp_max_declared_length → Announces n t (prefix_of n t)
prefix_of-Announces n t ht hn = record {
  small = ground arith;
  nonempty = ground arith;
  bytes = ground arith;
  reads = λ rest. unfold decode_length in ground arith;
  frames = prefix_of_frames n t ht hn;
}

pub encode_length-Announces :
    (n t : ℕ) (prefix : Bytes) → t ≤ 8 → encode_length n t ≡ ok prefix → Announces n t prefix
encode_length-Announces n t prefix ht h =
    let (le, e) : (n ≤ coap_tcp_max_declared_length) × (prefix ≡ prefix_of n t) = (
      ground (arith, encode_length-prefix_of n t ht),
      ground (arith, encode_length-prefix_of n t ht),
    ) in
    rw e (prefix_of-Announces n t ht le)

pub encode_length_total :
    (n t : ℕ)
    → t ≤ 8
    → n ≤ coap_tcp_max_declared_length
    → (prefix : Bytes) × (encode_length n t ≡ ok prefix)
encode_length_total n t ht hn = (prefix_of n t, ground (arith, encode_length-prefix_of n t ht))
