-- ===== src/DtlsPsk/Transform/RoundTrip.antt =====
-- A record that one side protects, opened by the other.
use smart_things_local.Prelude.{
  ℕ, suc, ◌+◌, ◌-◌, ◌*◌, ◌%◌, ◌^◌, ◌≤◌, ◌<◌, ◌≡◌, refl, sym, ap, ◌∙◌, true, false, ◌∷◌, ◌++◌, some,
  arith, length, length-append, take, drop, take-append_exact, drop-append_exact, All-append, min,
  ltb, ◌==◌,
}
use smart_things_local.Prelude.Bytes.{Bytes, IsByte, IsBytes, bytes_eq_iff, pack16}
use smart_things_local.DtlsPsk.Transform.{
  Transform, opened, block, mac_len, max_pad_scan, pack48, repeat, padding_length, pad_content,
  backwards, bad_padding, mac_input, protect_block, check_mac, open_content, open_padded,
  open_plain, protect, unprotect,
}
use smart_things_local.DtlsPsk.Transform.Padding.{
  bad_padding-repeat, length-pad_content, pad_content-block, pad_content-IsBytes,
  backwards-pad_content,
}

-- The numbers of a record that fit their fields.
pub record Fits (epoch seq content_type : ℕ) (payload : Bytes) : Type 0 where
  pub epoch_fits : epoch < 2 ^ 16
  pub seq_fits : seq < 2 ^ 48
  pub type_fits : content_type < 256
  pub payload_fits : length payload < 2 ^ 16
  pub payload_bytes : IsBytes payload

mac_input-Fits :
    (epoch seq content_type : ℕ)
    → (payload : Bytes) → Fits epoch seq content_type payload
    → (m : Bytes) × (mac_input epoch seq content_type payload ≡ some m)
unfolding mac_input
mac_input-Fits epoch seq content_type payload f =
    let a = f.epoch_fits in
    let b = f.seq_fits in
    let c = f.type_fits in
    let d = f.payload_fits in
    (
      pack16 epoch ++ pack48 seq ++ content_type ∷ 254 ∷ 253 ∷ pack16 (length payload) ++ payload,
      ground arith,
    )

take-pad_content :
    (content : Bytes)
    → take
        (length (pad_content content) - padding_length (length content) - 1)
        (pad_content content)
      ≡ content
unfolding pad_content
take-pad_content content =
    let pad = padding_length (length content) in
    take-append_exact (length (pad_content content) - pad - 1) content (repeat (pad + 1) pad)
      (omega (arith, length-pad_content content))

module _ (hmac : Bytes → Bytes → Bytes) (hmac_length : (k m : Bytes) → length (hmac k m) ≡ mac_len)
    (hmac_bytes : (k m : Bytes) → IsBytes (hmac k m)) where
  check_mac-same :
      (t : Transform)
      → (payload m : Bytes)
      → check_mac hmac t false payload (hmac t.mac_dec m) (some m) ≡ opened payload
  unfolding check_mac
  check_mac-same t payload m =
      let mac = hmac t.mac_dec m in let same = (bytes_eq_iff mac mac).1 refl in rw same refl

  open_content-mac :
      (t : Transform)
      → (epoch seq content_type : ℕ) → (payload m : Bytes)
      → mac_input epoch seq content_type payload ≡ some m
      → open_content hmac t epoch seq content_type false (payload ++ hmac t.mac_dec m)
        ≡ opened payload
  unfolding open_content
  open_content-mac t epoch seq content_type payload m e =
      let mac = hmac t.mac_dec m in
      let size : length (payload ++ mac) - mac_len ≡ length payload =
        omega (arith, length-append payload mac, hmac_length t.mac_dec m) in
      let before : take (length (payload ++ mac) - mac_len) (payload ++ mac) ≡ payload =
        take-append_exact (length (payload ++ mac) - mac_len) payload mac size in
      let after : drop (length (payload ++ mac) - mac_len) (payload ++ mac) ≡ mac =
        drop-append_exact (length (payload ++ mac) - mac_len) payload mac size in
      rw before (rw after (rw e (check_mac-same t payload m)))

  open_padded-pad_content :
      (t : Transform)
      → (epoch seq content_type : ℕ) → (content reversed : Bytes) → mac_len ≤ length content
      → reversed
        ≡ repeat (padding_length (length content) + 1) (padding_length (length content))
          ++ backwards content
      → open_padded hmac t epoch seq content_type
          (pad_content content)
          reversed
          (padding_length (length content))
        ≡ open_content hmac t epoch seq content_type false content
  unfolding open_padded
  open_padded-pad_content t epoch seq content_type content reversed h e =
      let pad = padding_length (length content) in
      let plain = pad_content content in
      let fits : ltb (length plain) (pad + 1 + mac_len) ≡ false =
        ground (arith, length-pad_content content) in
      let sound : bad_padding pad 0 (take (min (length plain) max_pad_scan) reversed) ≡ false =
        rw e (
          bad_padding-repeat (min (length plain) max_pad_scan) (pad + 1) pad 0 (backwards content)
            (omega arith)) in
      let cut : take (length plain - pad - 1) plain ≡ content = take-pad_content content in
      rw fits (rw sound (rw cut refl))

  open_plain-last :
      (t : Transform)
      → (epoch seq content_type last : ℕ) → (plain reversed rest : Bytes)
      → reversed ≡ repeat (last + 1) last ++ rest
      → open_plain hmac t epoch seq content_type plain reversed
        ≡ open_padded hmac t epoch seq content_type plain reversed last
  unfolding open_plain repeat
  open_plain-last t epoch seq content_type last plain reversed rest e =
      let counted : last + 1 ≡ suc last = omega arith in
      rw (e ∙ ap (λ (n : ℕ). repeat n last ++ rest) counted) refl

  -- What a side opens of the block that the other made.
  open_plain-protect_block :
      (sender receiver : Transform)
      → (epoch seq content_type : ℕ) → (payload m : Bytes) → sender.mac_enc ≡ receiver.mac_dec
      → IsBytes payload
      → mac_input epoch seq content_type payload ≡ some m
      → (plain : Bytes) × (protect_block hmac sender epoch seq content_type payload ≡ some plain)
        × (length plain % block ≡ 0)
        × (block ≤ length plain)
        × IsBytes plain
        × (open_plain hmac receiver epoch seq content_type plain (backwards plain) ≡ opened payload)
  unfolding protect_block
  open_plain-protect_block sender receiver epoch seq content_type payload m same b e =
      let content = payload ++ hmac receiver.mac_dec m in
      let pad = padding_length (length content) in
      let plain = pad_content content in
      let back = backwards-pad_content content in
      let long : length content ≡ length payload + mac_len =
        omega (
          arith,
          length-append payload (hmac receiver.mac_dec m),
          hmac_length receiver.mac_dec m,
        ) in
      (
        plain,
        rw e (rw same refl),
        pad_content-block content,
        omega (arith, length-pad_content content, long),
        pad_content-IsBytes content
            (All-append IsByte payload (hmac receiver.mac_dec m) b (hmac_bytes receiver.mac_dec m)),
        open_plain-last receiver epoch seq content_type pad plain (backwards plain)
              (backwards content) back
            ∙ open_padded-pad_content receiver epoch seq content_type content (backwards plain)
                (omega (arith, long)) back
            ∙ open_content-mac receiver epoch seq content_type payload m e,
      )

-- The hash and the cipher of the libraries, as the code relies on them: a digest of 32 bytes, an encryption that keeps
-- the length of whole blocks, and a decryption that undoes it.
module _ (hmac : Bytes → Bytes → Bytes) (hmac_length : (k m : Bytes) → length (hmac k m) ≡ mac_len)
    (hmac_bytes : (k m : Bytes) → IsBytes (hmac k m))
    (encrypt decrypt : Bytes → Bytes → Bytes → Bytes)
    (encrypt_length : (k iv x : Bytes)
      → length iv ≡ block
      → length x % block ≡ 0
      → length (encrypt k iv x) ≡ length x)
    (decrypt-encrypt : (k iv x : Bytes)
      → length iv ≡ block
      → length x % block ≡ 0
      → IsBytes x
      → decrypt k iv (encrypt k iv x) ≡ x) where
  unprotect-whole :
      (t : Transform)
      → (epoch seq content_type : ℕ) → (iv body plain : Bytes) → length iv ≡ block
      → length body % block ≡ 0
      → block ≤ length body
      → decrypt t.dec_key iv body ≡ plain
      → unprotect hmac decrypt t epoch seq content_type (iv ++ body)
        ≡ open_plain hmac t epoch seq content_type plain (backwards plain)
  unfolding unprotect
  unprotect-whole t epoch seq content_type iv body plain i w h e =
      let size = length-append iv body in
      let long : ltb (length (iv ++ body)) (block * 2) ≡ false = ground arith in
      let cut : length (iv ++ body) - block ≡ length body = omega (arith, size) in
      let even : ((length (iv ++ body) - block) % block == 0) ≡ true = rw cut (rw w refl) in
      let first : take block (iv ++ body) ≡ iv = take-append_exact block iv body (sym i) in
      let rest : drop block (iv ++ body) ≡ body = drop-append_exact block iv body (sym i) in
      rw long (rw even (rw first (rw rest (rw e refl))))

  -- What fits its fields is protected, whatever the initialization vector, and the other side, whose keys for reading
  -- are the sender's for writing, opens the fragment to the same payload.
  pub unprotect-protect :
      (sender receiver : Transform)
      → (iv : Bytes) → (epoch seq content_type : ℕ) → (payload : Bytes)
      → sender.mac_enc ≡ receiver.mac_dec
      → sender.enc_key ≡ receiver.dec_key
      → length iv ≡ block
      → Fits epoch seq content_type payload
      → (fragment : Bytes) × (protect hmac encrypt sender iv epoch seq content_type payload
          ≡ some fragment)
        × (unprotect hmac decrypt receiver epoch seq content_type fragment ≡ opened payload)
  unfolding protect
  unprotect-protect sender receiver iv epoch seq content_type payload macs keys i f =
      let (m, e) = mac_input-Fits epoch seq content_type payload f in
      let (plain, made, whole, long, bytes, back) =
        open_plain-protect_block hmac hmac_length hmac_bytes sender receiver epoch seq content_type
          payload m macs f.payload_bytes e in
      let body = encrypt sender.enc_key iv plain in
      let size = encrypt_length sender.enc_key iv plain i whole in
      let undone : decrypt receiver.dec_key iv body ≡ plain =
        ap (λ (k : Bytes). decrypt k iv body) (sym keys)
        ∙ decrypt-encrypt sender.enc_key iv plain i whole bytes in
      (
        iv ++ body,
        rw made refl,
        unprotect-whole receiver epoch seq content_type iv body plain i (rw size whole)
              (rw size long) undone
            ∙ back,
      )
