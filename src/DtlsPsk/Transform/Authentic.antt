-- ===== src/DtlsPsk/Transform/Authentic.antt =====
-- What a fragment held that `unprotect` opens.
use smart_things_local.Prelude.{
  ℕ, ◌+◌, ◌-◌, ◌≤◌, ◌<◌, ◌≡◌, refl, sym, ap, ◌∙◌, Bool, true, false, ◌||◌, [], ◌∷◌, ◌++◌, Option,
  none, some, arith, length, take, drop, take-append-drop, min, ltb, if◌then◌else◌, All-append,
}
use smart_things_local.Prelude.Bytes.{Bytes, IsByte, IsBytes, bytes_eq_iff}
use smart_things_local.DtlsPsk.Transform.{
  Transform, opened, block, mac_len, max_pad_scan, repeat, backwards, bad_padding, mac_input,
  check_mac, open_content, open_padded, open_plain, unprotect,
}
use smart_things_local.DtlsPsk.Transform.Padding.{
  bad_padding_sound, drop-backwards, length-backwards,
}

backwards-IsBytes : (xs : Bytes) → IsBytes xs → IsBytes (backwards xs)
unfolding backwards
backwards-IsBytes [] h = tt
backwards-IsBytes (x ∷ xs) (b, h) =
    All-append IsByte (backwards xs) (x ∷ []) (backwards-IsBytes xs h) (b, tt)

module _ (hmac : Bytes → Bytes → Bytes) where
  check_mac-opened :
      (t : Transform)
      → (bad : Bool) → (payload mac : Bytes) → (input : Option Bytes) → (p : Bytes)
      → check_mac hmac t bad payload mac input ≡ opened p
      → (bad ≡ false) × (payload ≡ p) × (m : Bytes) × (input ≡ some m) × (mac ≡ hmac t.mac_dec m)
  unfolding check_mac
  check_mac-opened t bad payload mac none p h = absurd (ground arith)
  check_mac-opened t bad payload mac (some m) p h =
      let same = bytes_eq_iff mac (hmac t.mac_dec m) in
      (ground arith, ground arith, m, refl, same.0 (ground arith))

  open_content-opened :
      (t : Transform)
      → (epoch seq content_type : ℕ) → (bad : Bool) → (content p : Bytes)
      → open_content hmac t epoch seq content_type bad content ≡ opened p
      → (bad ≡ false)
        × (m : Bytes) × (mac_input epoch seq content_type p ≡ some m)
        × (content ≡ p ++ hmac t.mac_dec m)
  unfolding open_content
  open_content-opened t epoch seq content_type bad content p h =
      let payload = take (length content - mac_len) content in
      let mac = drop (length content - mac_len) content in
      let (sound, same, m, made, authentic) =
        check_mac-opened t bad payload mac (mac_input epoch seq content_type payload) p h in
      (
        sound,
        m,
        ap (λ (x : Bytes). mac_input epoch seq content_type x) (sym same) ∙ made,
        sym (take-append-drop (length content - mac_len) content)
            ∙ ap (λ (x : Bytes). x ++ mac) same
            ∙ ap (λ (x : Bytes). p ++ x) authentic,
      )

  -- The parts of a decrypted block.
  abbrev pub Parts : Transform → ℕ → ℕ → ℕ → Bytes → Bytes → Type 0
  Parts t epoch seq content_type plain p =
      (m : Bytes) × (pad : ℕ) × (mac_input epoch seq content_type p ≡ some m)
      × (pad < 256)
      × (plain ≡ p ++ hmac t.mac_dec m ++ repeat (pad + 1) pad)

  open_fitting-opened :
      (t : Transform)
      → (epoch seq content_type : ℕ) → (plain p : Bytes) → (last : ℕ) → last < 256
      → last + 1 + mac_len ≤ length plain
      → open_content hmac t epoch seq content_type
          (bad_padding last 0 (take (min (length plain) max_pad_scan) (backwards plain)))
          (take (length plain - last - 1) plain)
        ≡ opened p
      → Parts t epoch seq content_type plain p
  open_fitting-opened t epoch seq content_type plain p last small fits h =
      let scan = min (length plain) max_pad_scan in
      let (sound, m, made, content) =
        open_content-opened t epoch seq content_type
          (bad_padding last 0 (take scan (backwards plain))) (take (length plain - last - 1) plain)
          p h in
      let size = length-backwards plain in
      let padding : take (last + 1) (backwards plain) ≡ repeat (last + 1) last =
        bad_padding_sound (last + 1) last 0 scan (backwards plain) sound (omega arith) (omega arith)
          (omega arith) in
      let end = drop-backwards plain (last + 1) last (omega arith) padding in
      let cut : length plain - last - 1 ≡ length plain - (last + 1) = omega arith in
      (
        m,
        last,
        made,
        small,
        sym (take-append-drop (length plain - (last + 1)) plain)
            ∙ ap (λ (n : ℕ). take n plain ++ drop (length plain - (last + 1)) plain) (sym cut)
            ∙ ap (λ (x : Bytes). x ++ drop (length plain - (last + 1)) plain) content
            ∙ ap (λ (x : Bytes). (p ++ hmac t.mac_dec m) ++ x) end,
      )

  open_padded-opened :
      (t : Transform)
      → (epoch seq content_type : ℕ) → (plain p : Bytes) → (last : ℕ) → last < 256
      → open_padded hmac t epoch seq content_type plain (backwards plain) last ≡ opened p
      → Parts t epoch seq content_type plain p
  unfolding open_padded
  open_padded-opened t epoch seq content_type plain p last small h =
      go (ltb (length plain) (last + 1 + mac_len)) refl h
    where
      go :
          (misfit : Bool)
          → ltb (length plain) (last + 1 + mac_len) ≡ misfit
          → open_content hmac t epoch seq content_type
              (misfit
                || bad_padding
                    (if misfit then 0 else last)
                    0
                    (take (min (length plain) max_pad_scan) (backwards plain)))
              (take (length plain - (if misfit then 0 else last) - 1) plain)
            ≡ opened p
          → Parts t epoch seq content_type plain p
      go true e k =
          let (sound, _, _, _) =
            open_content-opened t epoch seq content_type true (take (length plain - 0 - 1) plain) p
              k in
          absurd (ground arith)
      go false e k =
          open_fitting-opened t epoch seq content_type plain p last small (ground arith) k

  open_plain-opened :
      (t : Transform)
      → (epoch seq content_type : ℕ) → (plain p reversed : Bytes) → reversed ≡ backwards plain
      → IsBytes reversed
      → open_plain hmac t epoch seq content_type plain reversed ≡ opened p
      → Parts t epoch seq content_type plain p
  unfolding open_plain
  open_plain-opened t epoch seq content_type plain p [] e b h = absurd (ground arith)
  open_plain-opened t epoch seq content_type plain p (last ∷ before) e (small, b) h =
      open_padded-opened t epoch seq content_type plain p last small
        (ap (λ (x : Bytes). open_padded hmac t epoch seq content_type plain x last) (sym e) ∙ h)

-- The cipher of the library decrypts to bytes.
module _ (hmac : Bytes → Bytes → Bytes) (decrypt : Bytes → Bytes → Bytes → Bytes)
    (decrypt_bytes : (k iv x : Bytes) → IsBytes (decrypt k iv x)) where
  -- A payload is returned only if what the fragment decrypts to is that payload, followed by the digest for the
  -- numbers of the record under the key for reading, and by a padding of equal bytes that tell its length.
  pub unprotect-Parts :
      (t : Transform)
      → (epoch seq content_type : ℕ) → (fragment p : Bytes)
      → unprotect hmac decrypt t epoch seq content_type fragment ≡ opened p
      → Parts hmac t epoch seq content_type
          (decrypt t.dec_key (take block fragment) (drop block fragment))
          p
  unfolding unprotect
  unprotect-Parts t epoch seq content_type fragment p h =
      let plain = decrypt t.dec_key (take block fragment) (drop block fragment) in
      let open_ok : open_plain hmac t epoch seq content_type plain (backwards plain) ≡ opened p =
        ground arith in
      open_plain-opened hmac t epoch seq content_type plain p (backwards plain) refl
        (backwards-IsBytes plain
          (decrypt_bytes t.dec_key (take block fragment) (drop block fragment)))
        open_ok
