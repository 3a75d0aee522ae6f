-- ===== src/DtlsPsk/Transform.antt =====
-- `_Transform`, over the hash and the cipher of the libraries. The initialization vector of a record, which the source
-- takes from the system, is an argument.
pub mod Padding
pub mod RoundTrip
pub mod Authentic
use smart_things_local.Prelude.{
  ℕ, zero, suc, ◌+◌, ◌-◌, ◌*◌, ◌/◌, ◌%◌, ◌^◌, Bool, true, false, not, ◌&&◌, ◌||◌, List, [], ◌∷◌,
  ◌++◌, Option, none, some, length, take, drop, min, ltb, leb, ◌==◌, if◌then◌else◌,
}
use mathlib.Core.Option
use smart_things_local.Prelude.Bytes.{Bytes, bytes_eq, pack16, pack32}

abbrev pub mac_len : ℕ
mac_len = 32

abbrev pub key_len : ℕ
key_len = 16

abbrev pub block : ℕ
block = 16

abbrev pub max_pad_scan : ℕ
max_pad_scan = 256

pub record Transform : Type 0 where
  pub mac_enc : Bytes
  pub mac_dec : Bytes
  pub enc_key : Bytes
  pub dec_key : Bytes

-- `__init__`
unfoldable pub init : Bytes → Transform
init key_block = record {
  mac_enc = take mac_len key_block;
  mac_dec = take mac_len (drop mac_len key_block);
  enc_key = take key_len (drop (mac_len * 2) key_block);
  dec_key = take key_len (drop (mac_len * 2 + key_len) key_block);
}

-- `seq.to_bytes(6, "big")`
abbrev pub pack48 : ℕ → Bytes
pack48 v = pack16 (v / 2 ^ 32) ++ pack32 (v % 2 ^ 32)

-- `none` where a number does not fit its field, which raises.
unfoldable pub mac_input : ℕ → ℕ → ℕ → Bytes → Option Bytes
mac_input epoch seq content_type payload =
    if ltb epoch (2 ^ 16)
      && ltb seq (2 ^ 48)
      && ltb content_type 256
      && ltb (length payload) (2 ^ 16)
    then some (
        pack16 epoch ++ pack48 seq ++ content_type ∷ 254 ∷ 253 ∷ pack16 (length payload) ++ payload)
    else none

-- `bytes([b]) * n`
unfoldable pub repeat : ℕ → ℕ → Bytes
repeat zero b = []
repeat (suc n) b = b ∷ repeat n b

unfoldable pub padding_length : ℕ → ℕ
padding_length size = let pad = block - (size + 1) % block in if pad == block then 0 else pad

unfoldable pub pad_content : Bytes → Bytes
pad_content content = let pad = padding_length (length content) in content ++ repeat (pad + 1) pad

-- A byte string from its end.
unfoldable pub backwards : Bytes → Bytes
backwards [] = []
backwards (b ∷ bs) = backwards bs ++ b ∷ []

-- The scan, from the given distance to the end on: whether `bad` is set.
unfoldable pub bad_padding : ℕ → ℕ → Bytes → Bool
bad_padding pad index [] = false
bad_padding pad index (byte ∷ before) =
    (leb index pad && not (byte == pad)) || bad_padding pad (suc index) before

-- How a call of `unprotect` ends: by an exception, with None, or with a payload.
pub data Opened : Type 0 where
  raised : Opened
  rejected : Opened
  opened : Bytes → Opened

module _ (hmac : Bytes → Bytes → Bytes) where
  unfoldable pub protect_block : Transform → ℕ → ℕ → ℕ → Bytes → Option Bytes
  protect_block t epoch seq content_type payload =
      Option.map (λ (m : Bytes). pad_content (payload ++ hmac t.mac_enc m))
        (mac_input epoch seq content_type payload)

  unfoldable pub check_mac : Transform → Bool → Bytes → Bytes → Option Bytes → Opened
  check_mac t bad payload mac none = raised
  check_mac t bad payload mac (some m) =
      if not (bytes_eq mac (hmac t.mac_dec m)) || bad then rejected else opened payload

  unfoldable pub open_content : Transform → ℕ → ℕ → ℕ → Bool → Bytes → Opened
  open_content t epoch seq content_type bad content =
      let payload = take (length content - mac_len) content in
      let mac = drop (length content - mac_len) content in
      check_mac t bad payload mac (mac_input epoch seq content_type payload)

  -- A padding that cannot fit counts as 0.
  unfoldable pub open_padded : Transform → ℕ → ℕ → ℕ → Bytes → Bytes → ℕ → Opened
  open_padded t epoch seq content_type plain reversed last =
      let misfit = ltb (length plain) (last + 1 + mac_len) in
      let pad = if misfit then 0 else last in
      let scan = min (length plain) max_pad_scan in
      open_content t epoch seq content_type (misfit || bad_padding pad 0 (take scan reversed))
        (take (length plain - pad - 1) plain)

  unfoldable pub open_plain : Transform → ℕ → ℕ → ℕ → Bytes → Bytes → Opened
  open_plain t epoch seq content_type plain [] = raised
  open_plain t epoch seq content_type plain (last ∷ before) =
      open_padded t epoch seq content_type plain (last ∷ before) last

module _ (hmac : Bytes → Bytes → Bytes) (encrypt : Bytes → Bytes → Bytes → Bytes) where
  unfoldable pub protect : Transform → Bytes → ℕ → ℕ → ℕ → Bytes → Option Bytes
  protect t iv epoch seq content_type payload =
      Option.map (λ (plain : Bytes). iv ++ encrypt t.enc_key iv plain)
        (protect_block hmac t epoch seq content_type payload)

module _ (hmac : Bytes → Bytes → Bytes) (decrypt : Bytes → Bytes → Bytes → Bytes) where
  unfoldable pub unprotect : Transform → ℕ → ℕ → ℕ → Bytes → Opened
  unprotect t epoch seq content_type fragment =
      if ltb (length fragment) (block * 2) || not ((length fragment - block) % block == 0)
      then rejected
      else let plain = decrypt t.dec_key (take block fragment) (drop block fragment) in
        open_plain hmac t epoch seq content_type plain (backwards plain)
