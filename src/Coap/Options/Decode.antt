-- ===== src/Coap/Options/Decode.antt =====
-- What the option loop of `parse_coap` accepts is exactly what `encode_options` writes, and the
-- loop fails with `MalformedMessageError` only.
use smart_things_local.Prelude.{
  ℕ, zero, suc, ◌+◌, ◌-◌, ◌*◌, ◌/◌, ◌%◌, ◌≤◌, ◌<◌, bit_or, bit_or_shift, ◌≡◌, refl, sym, ◌∙◌, ap,
  false, inl, inr, List, [], ◌∷◌, ◌++◌, append_assoc, arith, length, take, drop, length-take,
  take-append-drop, take-append_exact, All-take, ◌==◌, ==_iff, All, Bool-cases,
}
use smart_things_local.Prelude.Bytes.{Bytes, IsByte, IsBytes}
use smart_things_local.Errors.{ok, >>=-eq-ok}
use smart_things_local.Coap.Options.{
  CoapOption, vlen, encode_from, read_extended, read_option, read_options, mark_payload,
}
use smart_things_local.Coap.Options.Order.{Ascending}
use smart_things_local.Coap.Options.Extended.{vlen-Extends, vlen-read_extended, max_extended}

-- The steps of one accepted option.
pub record Steps (prev b : ℕ) (rest : Bytes) (o : CoapOption) (after : Bytes) : Type 0 where
  delta : ℕ
  len : ℕ
  mid : Bytes
  body : Bytes
  reads_delta : read_extended (b / 16) rest ≡ ok (delta, mid)
  reads_len : read_extended (b % 16) mid ≡ ok (len, body)
  fits : len ≤ length body
  number : o.0 ≡ prev + delta
  value : o.1 ≡ take len body
  left : after ≡ drop len body

read_option-Steps :
    (prev b : ℕ) (rest : Bytes) (o : CoapOption) (after : Bytes)
    → read_option prev b rest ≡ ok (o, after)
    → Steps prev b rest o after
unfolding read_option
read_option-Steps prev b rest o after h =
    let ((delta, mid), e₁, h₁) = >>=-eq-ok (read_extended (b / 16) rest) _ h in
    let ((len, body), e₂, h₂) = >>=-eq-ok (read_extended (b % 16) mid) _ h₁ in
    record {
      delta = delta;
      len = len;
      mid = mid;
      body = body;
      reads_delta = e₁;
      reads_len = e₂;
      fits = ground arith;
      number = ground arith;
      value = ground arith;
      left = ground arith;
    }

-- The bytes that an accepted option came from are those of its encoding.
pub record Reads (prev b : ℕ) (rest : Bytes) (o : CoapOption) (after : Bytes) : Type 0 where
  pub dx : Bytes
  pub lx : Bytes
  pub grows : prev ≤ o.0
  pub delta : vlen (o.0 - prev) ≡ ok (b / 16, dx)
  pub size : vlen (length o.1) ≡ ok (b % 16, lx)
  pub whole : rest ≡ dx ++ (lx ++ (o.1 ++ after))

pub IsBytes-suffix : (xs ys : Bytes) → IsBytes (xs ++ ys) → IsBytes ys
IsBytes-suffix [] ys h = h
IsBytes-suffix (x ∷ xs) ys h = IsBytes-suffix xs ys h.1

pub read_option-Reads :
    (prev b : ℕ) (rest : Bytes) (o : CoapOption) (after : Bytes)
    → b < 256
    → IsBytes rest
    → read_option prev b rest ≡ ok (o, after)
    → Reads prev b rest o after
read_option-Reads prev b rest o after hb hr h =
    let s = read_option-Steps prev b rest o after h in
    let (dx, vd, w₁) =
      vlen-read_extended (b / 16) s.delta rest s.mid (omega arith) hr s.reads_delta in
    let mid_bytes = IsBytes-suffix dx s.mid (rw w₁ at hr) in
    let (lx, vl, w₂) =
      vlen-read_extended (b % 16) s.len s.mid s.body (omega arith) mid_bytes s.reads_len in
    let n : o.0 - prev ≡ s.delta = omega (arith, s.number) in
    let l : length o.1 ≡ s.len =
      omega (arith, ap length s.value, length-take s.len s.body, s.fits) in
    record {
      dx = dx;
      lx = lx;
      grows = omega (arith, s.number);
      delta = rw n vd;
      size = rw l vl;
      whole =
          w₁
          ∙ ap (λ (x : Bytes). dx ++ x)
              (w₂
                ∙ ap (λ (x : Bytes). lx ++ x)
                    (sym (cc (s.value, s.left, take-append-drop s.len s.body))));
    }

abbrev pub HasBytes : CoapOption → Type 0
HasBytes o = (length o.1 ≤ max_extended) × IsBytes o.1

-- An accepted list of options, with its payload: the encoding, and the ranges.
pub record Decoded (prev : ℕ) (bs : Bytes) (os : List CoapOption) (payload : Bytes) : Type 0 where
  pub wire : Bytes
  pub encodes : encode_from prev os ≡ ok wire
  pub whole : bs ≡ wire ++ mark_payload payload
  pub ascending : Ascending prev os
  pub values : All HasBytes os
  pub payload_bytes : IsBytes payload

-- A byte is its two nibbles.
repack : (b : ℕ) → b < 256 → bit_or (b / 16 * 16) (b % 16) ≡ b
repack b h = bit_or_shift 4 (b / 16) (b % 16) (omega arith) ∙ omega arith

pub IsBytes-middle : (a b c d : Bytes) → IsBytes (a ++ (b ++ (c ++ d))) → IsBytes c × IsBytes d
IsBytes-middle a b c d h =
    let cd = IsBytes-suffix b (c ++ d) (IsBytes-suffix a (b ++ (c ++ d)) h) in
    (
      rw (take-append_exact (length c) c d refl) at (All-take IsByte (length c) (c ++ d) cd),
      IsBytes-suffix c d cd,
    )

Decoded-cons :
    (prev b : ℕ) (rest after : Bytes) (o : CoapOption) (os : List CoapOption) (payload : Bytes)
    → b < 256
    → IsBytes rest
    → Reads prev b rest o after
    → Decoded o.0 after os payload
    → Decoded prev (b ∷ rest) (o ∷ os) payload
unfolding encode_from
Decoded-cons prev b rest after o os payload hb hr r d =
    let ed = vlen-Extends _ _ _ r.delta in
    let el = vlen-Extends _ _ _ r.size in
    record {
      wire = b ∷ (r.dx ++ (r.lx ++ (o.1 ++ d.wire)));
      encodes = rw (r.delta, r.size, d.encodes, repack b hb);
      whole = ap (◌∷◌ b) (r.whole ∙ rw d.whole (simp append_assoc));
      ascending = (r.grows, d.ascending);
      values = ((el.in_range, (IsBytes-middle r.dx r.lx o.1 after (rw r.whole at hr)).0), d.values);
      payload_bytes = d.payload_bytes;
    }

read_options-eq-ok :
    (fuel prev b : ℕ) (rest payload : Bytes) (os : List CoapOption)
    → (b == 0xff) ≡ false
    → read_options (suc fuel) prev (b ∷ rest) ≡ ok (os, payload)
    → (o : CoapOption) × (after : Bytes) × (more : List CoapOption) × (read_option prev b rest
        ≡ ok (o, after))
      × (read_options fuel o.0 after ≡ ok (more, payload))
      × (os ≡ o ∷ more)
unfolding read_options
read_options-eq-ok fuel prev b rest payload os m h =
    let h' = rw m at h in
    let ((o, after), e₁, h₁) = >>=-eq-ok (read_option prev b rest) _ h' in
    let ((more, p), e₂, h₂) = >>=-eq-ok (read_options fuel o.0 after) _ h₁ in
    (o, after, more, e₁, ground arith, ground arith)

Decoded-end :
    (prev : ℕ) (os : List CoapOption) (payload : Bytes)
    → os ≡ []
    → IsBytes payload
    → Decoded prev (mark_payload payload) os payload
unfolding encode_from
Decoded-end prev os payload e hp = rw e (record {
  wire = [];
  encodes = refl;
  whole = refl;
  ascending = tt;
  values = tt;
  payload_bytes = hp;
})

Decoded-marker :
    (fuel prev b : ℕ) (rest payload : Bytes) (os : List CoapOption)
    → b ≡ 0xff
    → IsBytes rest
    → read_options (suc fuel) prev (b ∷ rest) ≡ ok (os, payload)
    → Decoded prev (b ∷ rest) os payload
unfolding read_options
Decoded-marker fuel prev b [] payload os m hr h = absurd (ground arith)
Decoded-marker fuel prev b (c ∷ cs) payload os m hr h =
    let p : payload ≡ c ∷ cs = ground arith in
    rw (m, ← p) (rw (p) (Decoded-end prev os (c ∷ cs) (ground arith) hr))

-- What is accepted decodes one encoding.
pub read_options-Decoded :
    (fuel prev : ℕ) (bs : Bytes) (os : List CoapOption) (payload : Bytes)
    → IsBytes bs
    → read_options fuel prev bs ≡ ok (os, payload)
    → Decoded prev bs os payload
unfolding read_options encode_from
read_options-Decoded fuel prev [] os payload hb h =
    let p : payload ≡ [] = ground arith in rw p (Decoded-end prev os [] (ground arith) tt)
read_options-Decoded zero prev (b ∷ rest) os payload hb h = cc
read_options-Decoded (suc fuel) prev (b ∷ rest) os payload hb h = elim (Bool-cases (b == 0xff)) [
  | inl m ↦ Decoded-marker fuel prev b rest payload os ((==_iff b 0xff).0 m) hb.1 h
  | inr m ↦
      let (o, after, more, e, later, whole) = read_options-eq-ok fuel prev b rest payload os m h in
      let r = read_option-Reads prev b rest o after hb.0 hb.1 e in
      let hr = rw r.whole at hb.1 in
      rw whole (
        Decoded-cons prev b rest after o more payload hb.0 hb.1 r (
          read_options-Decoded fuel o.0 after more payload (IsBytes-middle r.dx r.lx o.1 after hr).1
            later))
]
