-- ===== src/DtlsPsk/Transform/Padding.antt =====
-- The padding of a block, and its bytes from the end.
use smart_things_local.Prelude.{
  ℕ, zero, suc, ◌+◌, ◌-◌, ◌%◌, ◌≤◌, ◌<◌, ◌≡◌, refl, sym, ap, ◌∙◌, false, [], ◌∷◌, ◌++◌, append-nil,
  append_assoc, arith, length, length-append, length-drop, take, drop, take-append-drop,
  take-append_exact, All-append,
}
use smart_things_local.Prelude.Bytes.{Bytes, IsByte, IsBytes}
use smart_things_local.DtlsPsk.Transform.{
  block, repeat, padding_length, pad_content, backwards, bad_padding,
}

pub length-repeat : (n b : ℕ) → length (repeat n b) ≡ n
unfolding repeat
length-repeat zero b = refl
length-repeat (suc n) b = ap suc (length-repeat n b)

append-repeat : (n b : ℕ) → repeat n b ++ b ∷ [] ≡ repeat (suc n) b
unfolding repeat
append-repeat zero b = refl
append-repeat (suc n) b = ap (◌∷◌ b) (append-repeat n b)

pub backwards-repeat : (n b : ℕ) → backwards (repeat n b) ≡ repeat n b
unfolding backwards repeat
backwards-repeat zero b = refl
backwards-repeat (suc n) b =
    ap (λ (xs : Bytes). xs ++ b ∷ []) (backwards-repeat n b) ∙ append-repeat n b

pub backwards-append : (xs ys : Bytes) → backwards (xs ++ ys) ≡ backwards ys ++ backwards xs
unfolding backwards
backwards-append [] ys = sym (append-nil (backwards ys))
backwards-append (x ∷ xs) ys =
    ap (λ (zs : Bytes). zs ++ x ∷ []) (backwards-append xs ys)
    ∙ append_assoc (backwards ys) (backwards xs) (x ∷ [])

bad_padding-past : (pad i : ℕ) (xs : Bytes) → pad < i → bad_padding pad i xs ≡ false
unfolding bad_padding
bad_padding-past pad i [] h = refl
bad_padding-past pad i (x ∷ xs) h =
    let rest = bad_padding-past pad (suc i) xs (omega arith) in ground arith

-- The scan of the padding itself, however far it goes.
pub bad_padding-repeat :
    (k n pad i : ℕ)
    → (rest : Bytes) → pad < i + n
    → bad_padding pad i (take k (repeat n pad ++ rest)) ≡ false
unfolding bad_padding repeat
bad_padding-repeat zero n pad i rest h = refl
bad_padding-repeat (suc k) zero pad i rest h =
    bad_padding-past pad i (take (suc k) rest) (omega arith)
bad_padding-repeat (suc k) (suc n) pad i rest h =
    let after = bad_padding-repeat k n pad (suc i) rest (omega arith) in ground arith

pub repeat-IsBytes : (n b : ℕ) → b < 256 → IsBytes (repeat n b)
unfolding repeat
repeat-IsBytes zero b h = tt
repeat-IsBytes (suc n) b h = (h, repeat-IsBytes n b h)

padding_length_small : (size : ℕ) → padding_length size < 256
unfolding padding_length
padding_length_small size = ground arith

pub pad_content-IsBytes : (content : Bytes) → IsBytes content → IsBytes (pad_content content)
unfolding pad_content
pad_content-IsBytes content h =
    let pad = padding_length (length content) in
    All-append IsByte content (repeat (pad + 1) pad) h
      (repeat-IsBytes (pad + 1) pad (padding_length_small (length content)))

padding_length-block : (size : ℕ) → (size + (padding_length size + 1)) % block ≡ 0
unfolding padding_length
padding_length-block size = ground arith

pub length-pad_content :
    (content : Bytes)
    → length (pad_content content) ≡ length content + (padding_length (length content) + 1)
unfolding pad_content
length-pad_content content =
    let pad = padding_length (length content) in
    length-append content (repeat (pad + 1) pad)
    ∙ ap (λ (n : ℕ). length content + n) (length-repeat (pad + 1) pad)

pub pad_content-block : (content : Bytes) → length (pad_content content) % block ≡ 0
pad_content-block content =
    ap (λ (n : ℕ). n % block) (length-pad_content content) ∙ padding_length-block (length content)

pub backwards-pad_content :
    (content : Bytes)
    → backwards (pad_content content)
      ≡ repeat (padding_length (length content) + 1) (padding_length (length content))
        ++ backwards content
unfolding pad_content
backwards-pad_content content =
    let pad = padding_length (length content) in
    backwards-append content (repeat (pad + 1) pad)
    ∙ ap (λ (xs : Bytes). xs ++ backwards content) (backwards-repeat (pad + 1) pad)

pub length-backwards : (xs : Bytes) → length (backwards xs) ≡ length xs
unfolding backwards
length-backwards [] = refl
length-backwards (x ∷ xs) =
    omega (arith, length-append (backwards xs) (x ∷ []), length-backwards xs)

backwards-backwards : (xs : Bytes) → backwards (backwards xs) ≡ xs
unfolding backwards
backwards-backwards [] = refl
backwards-backwards (x ∷ xs) =
    backwards-append (backwards xs) (x ∷ []) ∙ ap (◌∷◌ x) (backwards-backwards xs)

-- What a scan without a fault has seen.
pub bad_padding_sound :
    (n pad i k : ℕ)
    → (xs : Bytes) → bad_padding pad i (take k xs) ≡ false
    → i + n ≡ suc pad
    → n ≤ k
    → n ≤ length xs
    → take n xs ≡ repeat n pad
unfolding bad_padding repeat
bad_padding_sound zero pad i k xs h e p q = refl
bad_padding_sound (suc n) pad i zero xs h e p q = absurd (omega arith)
bad_padding_sound (suc n) pad i (suc k) [] h e p q = absurd (omega arith)
bad_padding_sound (suc n) pad i (suc k) (x ∷ xs) h e p q =
    let same : x ≡ pad = ground arith in
    let rest : bad_padding pad (suc i) (take k xs) ≡ false = ground arith in
    ap (λ (y : ℕ). y ∷ take n xs) same
    ∙ ap (◌∷◌ pad)
        (bad_padding_sound n pad (suc i) k xs rest (omega arith) (omega arith) (omega arith))

-- The end of a byte string, from the bytes that stand first when it is read backwards.
pub drop-backwards :
    (xs : Bytes)
    → (n pad : ℕ) → n ≤ length xs
    → take n (backwards xs) ≡ repeat n pad
    → drop (length xs - n) xs ≡ repeat n pad
drop-backwards xs n pad h e =
    let kept = take (length xs - n) xs in
    let end = drop (length xs - n) xs in
    let size : n ≡ length (backwards end) =
      omega (arith, length-backwards end, length-drop (length xs - n) xs) in
    let split : backwards xs ≡ backwards end ++ backwards kept =
      ap backwards (sym (take-append-drop (length xs - n) xs)) ∙ backwards-append kept end in
    let first : backwards end ≡ repeat n pad =
      sym (take-append_exact n (backwards end) (backwards kept) size)
      ∙ ap (λ (ys : Bytes). take n ys) (sym split)
      ∙ e in
    sym (backwards-backwards end) ∙ ap backwards first ∙ backwards-repeat n pad
