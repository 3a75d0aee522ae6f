-- ===== src/Prelude/Bytes.antt =====
-- Byte strings: their bound, equality, and the big-endian integers of `int.from_bytes`,
-- `int.to_bytes` and `struct.pack`.
use Prim.Native.Nat.{ℕ, ◌+◌, ◌*◌, ◌/◌, ◌%◌, ◌<◌}
use mathlib.Core.Path.{◌≡◌}
use mathlib.Core.Logic.{◌↔◌}
use mathlib.Core.Bool.{Bool, true, false, ◌&&◌}
use mathlib.Core.List.{List, [], ◌∷◌}
use native.Mathlib.Omega.{arith}
use smart_things_local.Prelude.Tests.{◌==◌}
use smart_things_local.Prelude.Lists.{All}

abbrev pub Bytes : Type 0
Bytes = List ℕ

abbrev pub IsByte : ℕ → Type 0
IsByte b = b < 256

abbrev pub IsBytes : Bytes → Type 0
IsBytes = All IsByte

-- `a == b` on byte strings.
unfoldable pub bytes_eq : Bytes → Bytes → Bool
bytes_eq [] [] = true
bytes_eq (x ∷ xs) (y ∷ ys) = x == y && bytes_eq xs ys
bytes_eq _ _ = false

pub bytes_eq_iff : (a b : Bytes) → (bytes_eq a b ≡ true) ↔ (a ≡ b)
unfolding bytes_eq
bytes_eq_iff (x ∷ a) (y ∷ b) = ground (arith, bytes_eq_iff a b)
bytes_eq_iff _ _ = ground arith

-- `int.from_bytes(b, 'big')`
abbrev from_bytes_onto : ℕ → Bytes → ℕ
from_bytes_onto acc [] = acc
from_bytes_onto acc (b ∷ bs) = from_bytes_onto (acc * 256 + b) bs

abbrev pub from_bytes : Bytes → ℕ
from_bytes = from_bytes_onto 0

-- `(v).to_bytes(2, 'big')` and `struct.pack('>H', v)` for v below 2 ^ 16.
abbrev pub pack16 : ℕ → Bytes
pack16 v = (v / 256) ∷ (v % 256) ∷ []

-- `(v).to_bytes(4, 'big')` and `struct.pack('>I', v)` for v below 2 ^ 32.
abbrev pub pack32 : ℕ → Bytes
pack32 v = (v / 16777216) ∷ (v / 65536 % 256) ∷ (v / 256 % 256) ∷ (v % 256) ∷ []
