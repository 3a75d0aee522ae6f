-- ===== src/Coap/Wire/RoundTrip.antt =====
-- A message in range is sent, and what is sent parses back.
use smart_things_local.Prelude.{
  ℕ, ◌+◌, ◌*◌, ◌/◌, ◌%◌, ◌≤◌, ◌<◌, bit_or, bit_or_shift, ◌≡◌, refl, sym, ap, ◌∙◌, List, [], ◌∷◌,
  ◌++◌, arith, length, All, All-append, length-append, take-append_exact, drop-append_exact,
  append_assoc,
}
use smart_things_local.Prelude.Bytes.{Bytes, IsByte, IsBytes}
use smart_things_local.Errors.{Result, ok, >>=-eq-ok}
use smart_things_local.Coap.Options.{
  CoapOption, encode_options, read_options, sort_options, option_values, mark_payload,
}
use smart_things_local.Coap.Options.Order.{
  sort_options-Ascending, option_values-sort_options, sort_options-All,
}
use smart_things_local.Coap.Options.Encode.{Encodable, read_options-encode_from, encode_from_total}
use smart_things_local.Coap.Wire.{CoapMessage, bytes_of, build_coap, parse_coap_message}

-- The first byte of the header: version 1, the type and the token's length.
pub record Header (mtype tkl b : ℕ) : Type 0 where
  pub version : b / 64 ≡ 1
  pub kind : b / 16 % 4 ≡ mtype
  pub size : b % 16 ≡ tkl
  pub byte : b < 128

pub bit_or-Header :
    (mtype tkl : ℕ)
    → mtype < 4
    → tkl < 16
    → Header mtype tkl (bit_or (bit_or (1 * 64) (mtype * 16)) tkl)
bit_or-Header mtype tkl hm ht =
    let e : bit_or (1 * 64) (mtype * 16) ≡ (4 + mtype) * 16 =
      bit_or_shift 6 1 (mtype * 16) (omega arith) ∙ omega arith in
    let e' = bit_or_shift 4 (4 + mtype) tkl ht in
    rw e (record {
      version = omega (arith, e');
      kind = omega (arith, e');
      size = omega (arith, e');
      byte = omega (arith, e');
    })

-- The ranges of the wire format.
pub record IsSendable (m : CoapMessage) : Type 0 where
  pub mtype_range : m.mtype < 4
  pub code_range : m.code < 256
  pub mid_range : m.mid < 65536
  pub token_length : length m.token ≤ 8
  pub token_bytes : IsBytes m.token
  pub options_range : All Encodable m.options
  pub payload_bytes : IsBytes m.payload

abbrev pub build : CoapMessage → Result Bytes
build m = build_coap m.mtype m.code m.mid m.token m.options m.payload

bytes_of-eq-ok : (bs out : Bytes) → bytes_of bs ≡ ok out → out ≡ bs
unfolding bytes_of
bytes_of-eq-ok [] out h = cc
bytes_of-eq-ok (b ∷ bs) out h =
    let (rest, e, h₁) = >>=-eq-ok (bytes_of bs) _ h in ground (arith, bytes_of-eq-ok bs rest e)

pub bytes_of-IsBytes : (bs : Bytes) → IsBytes bs → bytes_of bs ≡ ok bs
unfolding bytes_of
bytes_of-IsBytes [] h = refl
bytes_of-IsBytes (b ∷ bs) h = ground (arith, bytes_of-IsBytes bs h.1)

parse_coap_message-Header :
    (mtype code mid b : ℕ) (token body payload : Bytes) (os : List CoapOption)
    → Header mtype (length token) b
    → mid < 65536
    → length token ≤ 8
    → read_options (length (token ++ body)) 0 body ≡ ok (os, payload)
    → parse_coap_message (b ∷ code ∷ (mid / 256 % 256) ∷ (mid % 256) ∷ (token ++ body))
      ≡ ok (record {
        mtype = mtype;
        code = code;
        mid = mid;
        token = token;
        options = os;
        payload = payload;
      })
unfolding parse_coap_message
parse_coap_message-Header mtype code mid b token body payload os h hm ht r =
    rw
      (
        h.version,
        h.size,
        drop-append_exact (length token) token body refl,
        take-append_exact (length token) token body refl,
        h.kind,
      )
      (ground (arith, length-append token body, r))

header_byte : CoapMessage → ℕ
header_byte m = bit_or (bit_or (1 * 64) (m.mtype * 16)) (length m.token)

abbrev header_bytes : CoapMessage → Bytes
header_bytes m = header_byte m ∷ m.code ∷ (m.mid / 256 % 256) ∷ (m.mid % 256) ∷ []

assemble :
    (hdr token body payload : Bytes)
    → (hdr ++ (token ++ body)) ++ payload ≡ hdr ++ (token ++ (body ++ payload))
assemble hdr token body payload = simp append_assoc

-- The parts of what `build_coap` returns.
build-eq-ok :
    (m : CoapMessage) (wire : Bytes)
    → build m ≡ ok wire
    → (body : Bytes) × (encode_options m.options ≡ ok body)
      × (wire ≡ header_bytes m ++ (m.token ++ (body ++ mark_payload m.payload)))
unfolding build_coap header_byte
build-eq-ok m wire h =
    let (hdr, e, h₁) = >>=-eq-ok (bytes_of _) _ h in
    let (body, encoded, h₂) = >>=-eq-ok (encode_options m.options) _ h₁ in
    let whole : (hdr ++ (m.token ++ body)) ++ mark_payload m.payload ≡ wire = cc h₂ in
    (
      body,
      encoded,
      sym whole
          ∙ assemble hdr m.token body (mark_payload m.payload)
          ∙ ap (λ (x : Bytes). x ++ (m.token ++ (body ++ mark_payload m.payload)))
              (bytes_of-eq-ok _ hdr e),
    )

-- What `build_coap` returns for any message with a type, a token length and a message id in
-- range, `parse_coap_message` reads back with the options in ascending order.
pub parse_coap_message-build :
    (m : CoapMessage) (wire : Bytes)
    → m.mtype < 4
    → m.mid < 65536
    → length m.token ≤ 8
    → build m ≡ ok wire
    → parse_coap_message wire ≡ ok (record m { options = sort_options m.options })
unfolding header_byte encode_options
parse_coap_message-build m wire ht hm hk h =
    let (body, encoded, whole) = build-eq-ok m wire h in
    let rest = body ++ mark_payload m.payload in
    rw whole (
      parse_coap_message-Header m.mtype m.code m.mid _ m.token rest m.payload
        (sort_options m.options) (bit_or-Header m.mtype (length m.token) ht (omega arith)) hm hk
        (read_options-encode_from (sort_options m.options) _ 0 body m.payload
          (sort_options-Ascending m.options) encoded (omega (arith, length-append m.token rest))))

mark_payload-IsBytes : (payload : Bytes) → IsBytes payload → IsBytes (mark_payload payload)
mark_payload-IsBytes [] h = tt
mark_payload-IsBytes (b ∷ bs) h = (omega arith, h)

-- Every message in range has a datagram of bytes.
pub build-IsSendable :
    (m : CoapMessage) → IsSendable m → (wire : Bytes) × (build m ≡ ok wire) × IsBytes wire
unfolding build_coap encode_options header_byte
build-IsSendable m s =
    let (body, encoded, bytes) =
      encode_from_total 0 (sort_options m.options) (sort_options-Ascending m.options)
        (sort_options-All Encodable m.options s.options_range) in
    let first =
      bit_or-Header m.mtype (length m.token) s.mtype_range (omega (arith, s.token_length)) in
    let hdr : IsBytes (header_bytes m) =
      (omega (arith, first.byte), (s.code_range, (omega arith, (omega arith, tt)))) in
    (
      (header_bytes m ++ (m.token ++ body)) ++ mark_payload m.payload,
      rw (bytes_of-IsBytes (header_bytes m) hdr, encoded),
      All-append IsByte (header_bytes m ++ (m.token ++ body)) (mark_payload m.payload)
          (All-append IsByte (header_bytes m) (m.token ++ body) hdr
            (All-append IsByte m.token body s.token_bytes bytes))
          (mark_payload-IsBytes m.payload s.payload_bytes),
    )

-- A message in range can be sent: `build_coap` returns a datagram of bytes, and
-- `parse_coap_message` reads back the message with its options in ascending order, the values of each number in the order given.
pub build_parses :
    (m : CoapMessage)
    → IsSendable m
    → (wire : Bytes) × (build m ≡ ok wire)
      × IsBytes wire
      × (parse_coap_message wire ≡ ok (record m { options = sort_options m.options }))
      × ((number : ℕ)
          → option_values (sort_options m.options) number ≡ option_values m.options number)
build_parses m s =
    let (wire, built, bytes) = build-IsSendable m s in
    (
      wire,
      built,
      bytes,
      parse_coap_message-build m wire s.mtype_range s.mid_range s.token_length built,
      option_values-sort_options m.options,
    )
