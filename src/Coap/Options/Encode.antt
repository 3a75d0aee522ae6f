-- ===== src/Coap/Options/Encode.antt =====
-- What `encode_options` writes, the option loop of `parse_coap` reads back.
use smart_things_local.Prelude.{
  ℕ, zero, suc, ◌-◌, ◌*◌, ◌/◌, ◌%◌, ◌≤◌, ◌<◌, bit_or, bit_or_shift, ◌≡◌, refl, ◌∙◌, ap, false, List,
  [], ◌∷◌, ◌++◌, append_assoc, arith, length, length-append, All-append, take-append_exact,
  drop-append_exact, ◌==◌, All,
}
use smart_things_local.Prelude.Bytes.{Bytes, IsByte, IsBytes}
use smart_things_local.Errors.{ok, >>=-eq-ok}
use smart_things_local.Coap.Options.{
  CoapOption, vlen, encode_from, read_option, read_options, mark_payload,
}
use smart_things_local.Coap.Options.Order.{Ascending}
use smart_things_local.Coap.Options.Extended.{vlen-Extends, vlen_total, max_extended}

-- The first byte of an option is no payload marker, and its nibbles come apart again.
pub record Packs (d l b : ℕ) : Type 0 where
  pub not_marker : (b == 0xff) ≡ false
  pub high : b / 16 ≡ d
  pub low : b % 16 ≡ l
  pub byte : b < 256

pub pack-Packs : (d l : ℕ) → d ≤ 14 → l ≤ 14 → Packs d l (bit_or (d * 16) l)
pack-Packs d l hd hl =
    let e = bit_or_shift 4 d l (omega arith) in
    record {
      not_marker = ground (arith, e);
      high = omega (arith, e);
      low = omega (arith, e);
      byte = omega (arith, e);
    }

module _ (prev n d l : ℕ) (dx lx val : Bytes) (le : prev ≤ n) (delta : vlen (n - prev) ≡ ok (d, dx))
    (size : vlen (length val) ≡ ok (l, lx)) where
  read_option-write :
      (tail : Bytes)
      → read_option prev (bit_or (d * 16) l) (dx ++ (lx ++ (val ++ tail))) ≡ ok ((n, val), tail)
  unfolding read_option
  read_option-write tail =
      let ed = vlen-Extends _ _ _ delta in
      let el = vlen-Extends _ _ _ size in
      let p = pack-Packs d l ed.nibble el.nibble in
      rw (p.high, ed.reads (lx ++ (val ++ tail)), p.low, el.reads (val ++ tail))
        (ground (
          arith,
          length-append val tail,
          take-append_exact (length val) val tail refl,
          drop-append_exact (length val) val tail refl,
        ))

-- What the encoding of a first option and of the others consist of.
pub record Written (prev n : ℕ) (val : Bytes) (os : List CoapOption) (wire : Bytes) : Type 0 where
  pub d : ℕ
  pub dx : Bytes
  pub l : ℕ
  pub lx : Bytes
  pub rest : Bytes
  pub delta : vlen (n - prev) ≡ ok (d, dx)
  pub size : vlen (length val) ≡ ok (l, lx)
  pub others : encode_from n os ≡ ok rest
  pub whole : wire ≡ bit_or (d * 16) l ∷ (dx ++ (lx ++ (val ++ rest)))

pub encode_from-Written :
    (prev n : ℕ) (val : Bytes) (os : List CoapOption) (wire : Bytes)
    → encode_from prev ((n, val) ∷ os) ≡ ok wire
    → Written prev n val os wire
unfolding encode_from
encode_from-Written prev n val os wire h =
    let ((d, dx), delta, h₁) = >>=-eq-ok (vlen (n - prev)) _ h in
    let ((l, lx), size, h₂) = >>=-eq-ok (vlen (length val)) _ h₁ in
    let (rest, others, h₃) = >>=-eq-ok (encode_from n os) _ h₂ in
    record {
      d = d;
      dx = dx;
      l = l;
      lx = lx;
      rest = rest;
      delta = delta;
      size = size;
      others = others;
      whole = cc h₃;
    }

read_options-mark_payload :
    (fuel prev : ℕ) (payload : Bytes)
    → length (mark_payload payload) ≤ fuel
    → read_options fuel prev (mark_payload payload) ≡ ok ([], payload)
unfolding read_options
read_options-mark_payload fuel prev [] len = refl
read_options-mark_payload zero prev (b ∷ bs) len = absurd (omega arith)
read_options-mark_payload (suc fuel) prev (b ∷ bs) len = refl

read_options_step :
    (fuel prev b : ℕ) (rest after payload : Bytes) (o : CoapOption) (os : List CoapOption)
    → (b == 0xff) ≡ false
    → read_option prev b rest ≡ ok (o, after)
    → read_options fuel o.0 after ≡ ok (os, payload)
    → read_options (suc fuel) prev (b ∷ rest) ≡ ok (o ∷ os, payload)
unfolding read_options
read_options_step fuel prev b rest after payload o os m r l = rw (m, r, l)

regroup :
    (b : ℕ) (dx lx val rest tail : Bytes)
    → (b ∷ (dx ++ (lx ++ (val ++ rest)))) ++ tail ≡ b ∷ (dx ++ (lx ++ (val ++ (rest ++ tail))))
regroup b dx lx val rest tail = simp append_assoc

le_after :
    (dx lx val tail : Bytes) (fuel : ℕ)
    → suc (length (dx ++ (lx ++ (val ++ tail)))) ≤ suc fuel
    → length tail ≤ fuel
le_after dx lx val tail fuel h = omega (
  arith,
  length-append dx (lx ++ (val ++ tail)),
  length-append lx (val ++ tail),
  length-append val tail,
)

-- Reading back, with the payload that follows.
pub read_options-encode_from :
    (os : List CoapOption) (fuel prev : ℕ) (wire payload : Bytes)
    → Ascending prev os
    → encode_from prev os ≡ ok wire
    → length (wire ++ mark_payload payload) ≤ fuel
    → read_options fuel prev (wire ++ mark_payload payload) ≡ ok (os, payload)
unfolding encode_from
read_options-encode_from [] fuel prev wire payload a h len =
    let e : wire ≡ [] = cc in rw e (read_options-mark_payload fuel prev payload (rw e at len))
read_options-encode_from ((n, val) ∷ os) zero prev wire payload a h len =
    let w = encode_from-Written prev n val os wire h in
    let nonempty : 0 < length (wire ++ mark_payload payload) = rw w.whole (omega arith) in
    absurd (omega arith)
read_options-encode_from ((n, val) ∷ os) (suc fuel) prev wire payload a h len =
    let w = encode_from-Written prev n val os wire h in
    let e =
      ap (λ (x : Bytes). x ++ mark_payload payload) w.whole
      ∙ regroup _ w.dx w.lx val w.rest (mark_payload payload) in
    let tail = w.rest ++ mark_payload payload in
    let ed = vlen-Extends _ _ _ w.delta in
    let el = vlen-Extends _ _ _ w.size in
    rw e (
      read_options_step fuel prev _ _ tail payload (n, val) os
        (pack-Packs w.d w.l ed.nibble el.nibble).not_marker
        (read_option-write prev n w.d w.l w.dx w.lx val a.0 w.delta w.size tail)
        (read_options-encode_from os fuel n w.rest payload a.1 w.others
          (le_after w.dx w.lx val tail fuel (rw e at len))))

-- Options in range have an encoding.
abbrev pub Encodable : CoapOption → Type 0
Encodable o = (o.0 ≤ max_extended) × (length o.1 ≤ max_extended) × IsBytes o.1

pub encode_from_total :
    (prev : ℕ) (os : List CoapOption)
    → Ascending prev os
    → All Encodable os
    → (wire : Bytes) × (encode_from prev os ≡ ok wire) × IsBytes wire
unfolding encode_from
encode_from_total prev [] a h = ([], refl, tt)
encode_from_total prev ((n, val) ∷ os) a h =
    let (d, dx, delta) = vlen_total (n - prev) (omega arith) in
    let (l, lx, size) = vlen_total (length val) h.0.1 in
    let (rest, others, bytes) = encode_from_total n os a.1 h.1 in
    let ed = vlen-Extends _ _ _ delta in
    let el = vlen-Extends _ _ _ size in
    (
      bit_or (d * 16) l ∷ (dx ++ (lx ++ (val ++ rest))),
      rw (delta, size, others),
      (
        (pack-Packs d l ed.nibble el.nibble).byte,
        All-append IsByte dx _ ed.bytes
            (All-append IsByte lx _ el.bytes (All-append IsByte val _ h.0.2 bytes)),
      ),
    )
