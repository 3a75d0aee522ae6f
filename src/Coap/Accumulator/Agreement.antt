-- ===== src/Coap/Accumulator/Agreement.antt =====
-- The metadata of the blocks of one transfer: what is read from their options is accepted, and agrees with what was kept.
use smart_things_local.Prelude.{
  ℕ, ◌≤◌, ◌≡◌, ◌⊎◌, inl, inr, refl, Bool, true, false, List, [], ◌∷◌, Option, none, some, length,
  arith,
}
use smart_things_local.Prelude.Bytes.{Bytes, from_bytes}
use smart_things_local.Errors.{ok}
use smart_things_local.Coap.Options.{CoapOption, option_values}
use smart_things_local.Coap.Block.{decode_uint_option}
use smart_things_local.Coap.Placement.{single_etag, uint_option}
use smart_things_local.Coap.Accumulator.{conflicts, newer, contains, unaccepted}

-- The values of ETag, Content-Format and Size2 in a block: none, or one.
abbrev pub HasTag : Option Bytes → List Bytes → Type 0
HasTag etag values =
    (values ≡ [])
    ⊎ ((t : Bytes) × (values ≡ t ∷ []) × (some t ≡ etag) × (1 ≤ length t) × (length t ≤ 8))

abbrev pub HasFormat : Option ℕ → List Bytes → Type 0
HasFormat format values =
    (values ≡ [])
    ⊎ ((v : Bytes) × (values ≡ v ∷ []) × (some (from_bytes v) ≡ format) × (length v ≤ 2))

abbrev pub HasSize : List Bytes → Type 0
HasSize values = (values ≡ []) ⊎ ((v : Bytes) × (values ≡ v ∷ []) × (length v ≤ 4))

-- Whether a caller's list of formats has a format.
abbrev pub Among : ℕ → List ℕ → Type 0
Among f [] = ⊥
Among f (g ∷ gs) = (g ≡ f) ⊎ Among f gs

abbrev pub Accepts : Option (List ℕ) → Option ℕ → Type 0
Accepts (some formats) (some f) = Among f formats
Accepts (some formats) none = Unit
Accepts none format = Unit

-- Nothing, or what is given.
abbrev pub Same {ℓ} : {A : Type ℓ} → Option A → Option A → Type ℓ
Same given found = (found ≡ none) ⊎ (found ≡ given)

uint_option-none :
    (os : List CoapOption) (k max_length : ℕ)
    → option_values os k ≡ []
    → uint_option os k max_length ≡ ok none
unfolding uint_option decode_uint_option
uint_option-none os k max_length h = rw h refl

uint_option-some :
    (os : List CoapOption) (k max_length : ℕ) (v : Bytes)
    → option_values os k ≡ v ∷ []
    → length v ≤ max_length
    → uint_option os k max_length ≡ ok (some (from_bytes v))
unfolding uint_option decode_uint_option
uint_option-some os k max_length v h short = rw h (ground arith)

pub HasTag-single_etag :
    (etag : Option Bytes) (values : List Bytes)
    → HasTag etag values
    → (e : Option Bytes) × (single_etag values ≡ ok e) × Same etag e
unfolding single_etag
HasTag-single_etag etag values (inl missing) = (none, rw missing refl, inl refl)
HasTag-single_etag etag values (inr (t, e, same, lo, hi)) = (some t, rw e (ground arith), inr same)

pub HasFormat-uint_option :
    (format : Option ℕ) (os : List CoapOption)
    → HasFormat format (option_values os 12)
    → (f : Option ℕ) × (uint_option os 12 2 ≡ ok f) × Same format f
HasFormat-uint_option format os (inl missing) = (none, uint_option-none os 12 2 missing, inl refl)
HasFormat-uint_option format os (inr (v, e, same, short)) =
    (some (from_bytes v), uint_option-some os 12 2 v e short, inr same)

pub HasSize-uint_option :
    (os : List CoapOption)
    → HasSize (option_values os 28)
    → (s : Option ℕ) × (uint_option os 28 4 ≡ ok s)
HasSize-uint_option os (inl missing) = (none, uint_option-none os 28 4 missing)
HasSize-uint_option os (inr (v, e, short)) =
    (some (from_bytes v), uint_option-some os 28 4 v e short)

contains-Among : (f : ℕ) (formats : List ℕ) → Among f formats → contains formats f ≡ true
unfolding contains
contains-Among f [] h = absurd h
contains-Among f (g ∷ gs) (inl e) = ground arith
contains-Among f (g ∷ gs) (inr h) = ground (arith, contains-Among f gs h)

pub accepted :
    (formats : Option (List ℕ)) (format f : Option ℕ)
    → Accepts formats format
    → Same format f
    → unaccepted formats f ≡ false
unfolding unaccepted
accepted none format none a same = refl
accepted none format (some f) a same = refl
accepted (some formats) format none a same = refl
accepted (some formats) none (some f) a same = absurd (ground arith)
accepted (some formats) (some g) (some f) a same =
    let e : g ≡ f = ground arith in ground (arith, contains-Among f formats (rw e at a))

pub conflicts-Same {ℓ} :
    {A : Type ℓ} (test : A → A → Bool) (given a b : Option A)
    → ((x : A) → test x x ≡ true)
    → Same given a
    → Same given b
    → conflicts test a b ≡ false
conflicts-Same test given none b h p q = refl
conflicts-Same test given (some a) none h p q = refl
conflicts-Same test given (some a) (some b) h p q =
    let e : a ≡ b = ground arith in rw e (rw (h b) refl)

pub newer-Same {ℓ} :
    {A : Type ℓ} (given old new : Option A)
    → Same given old
    → Same given new
    → Same given (newer old new)
newer-Same given old none p q = p
newer-Same given old (some a) p q = q
