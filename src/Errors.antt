-- ===== src/Errors.antt =====
-- smartthings_local/errors.py and Python's own exceptions, as far as the modelled code raises them.
use mathlib.Core.Path.{◌≡◌, refl}
use mathlib.Core.Logic.{◌⊎◌, inl, inr}
use native.Mathlib.Omega.{arith}

pub data Error : Type 0 where
  -- `MalformedMessageError`, `BlockwiseError`, `CoapTcpCodecError`
  malformed_message blockwise codec_error : Error
  -- `ValueError`, and `struct.error`
  value_error struct_error : Error
  -- `BleOcfCodecError`, and its subclass `BleOcfInterleavedFrameError`
  ble_codec interleaved_frame : Error
  -- `SessionResetError`, `SessionClosedError`, `SessionTimeoutError`
  session_reset session_closed session_timeout : Error
  -- pyOpenSSL's `Error`, `WantReadError` and `ZeroReturnError`, and `AttributeError`
  dtls_error want_read zero_return attribute_error : Error
  -- `IndexError` and `TypeError`
  index_error type_error : Error
  -- the fuel of a modelled loop ran out; the theorems show that it never does
  out_of_fuel : Error

-- What a call returns, or the exception that leaves it.
pub data Result {ℓ} (A : Type ℓ) : Type ℓ where
  err : Error → Result A
  ok : A → Result A

module _ {ℓ} {A : Type ℓ} where
  -- A split on a call that keeps the equation.
  pub Result-cases : (r : Result A) → ((a : A) × (r ≡ ok a)) ⊎ ((e : Error) × (r ≡ err e))
  Result-cases (err e) = inr (e, refl)
  Result-cases (ok a) = inl (a, refl)

  module _ {κ} {B : Type κ} where
    infixl 5 ◌>>=◌
    -- An exception passes every later statement by.
    abbrev pub ◌>>=◌ : Result A → (A → Result B) → Result B
    r >>= next = elim r [ err e ↦ err e | ok a ↦ next a ]

    -- A sequence that returns has returned from its first call.
    pub >>=-eq-ok :
        (r : Result A) (next : A → Result B) {b : B}
        → r >>= next ≡ ok b
        → (a : A) × (r ≡ ok a) × (next a ≡ ok b)
    >>=-eq-ok (err e) next h = absurd (ground arith)
    >>=-eq-ok (ok a) next h = (a, refl, h)

-- For statements that return nothing.
infixl 5 ◌>>◌
abbrev pub ◌>>◌ {ℓ} : {B : Type ℓ} → Result (Unit {0}) → Result B → Result B
check >> rest = check >>= λ (_ : Unit {0}). rest
