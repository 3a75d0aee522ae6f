-- ===== src/DtlsPsk/ReplayWindow.antt =====
-- `_ReplayWindow`. `_highest` is -1 before any record, here `none`.
pub mod Bits
pub mod Window
pub mod Exact
use smart_things_local.Prelude.{
  ℕ, zero, suc, ◌+◌, ◌-◌, ◌*◌, ◌/◌, ◌%◌, ◌^◌, Bool, true, false, ◌||◌, Option, none, some, bit_or,
  min, ltb, leb, ◌==◌, if◌then◌else◌,
}

abbrev pub replay_window : ℕ
replay_window = 64

-- `bool(bitmap & (1 << offset))`
unfoldable pub test_bit : ℕ → ℕ → Bool
test_bit zero bitmap = bitmap % 2 == 1
test_bit (suc offset) bitmap = test_bit offset (bitmap / 2)

pub record ReplayWindow : Type 0 where
  pub bitmap : ℕ
  pub highest : Option ℕ

-- `__init__`
abbrev pub new_window : ReplayWindow
new_window = record { bitmap = 0; highest = none }

unfoldable pub is_replay_below : ℕ → ℕ → ℕ → Bool
is_replay_below bitmap highest seq =
    if ltb highest seq
    then false
    else let offset = highest - seq in leb replay_window offset || test_bit offset bitmap

unfoldable pub is_replay : ReplayWindow → ℕ → Bool
is_replay w seq = elim w.highest [
  | none ↦ false
  | some highest ↦ is_replay_below w.bitmap highest seq
]

-- `((bitmap << shift) | 1) & ((1 << _REPLAY_WINDOW) - 1)`
unfoldable pub slide : ℕ → ℕ → ℕ
slide bitmap shift = bit_or (bitmap * 2 ^ shift) 1 % 2 ^ replay_window

unfoldable pub accept_above : ℕ → ℕ → ℕ → ReplayWindow
accept_above bitmap highest seq =
    if ltb highest seq
    then record { bitmap = slide bitmap (min (seq - highest) replay_window); highest = some seq }
    else let offset = highest - seq in
      record {
        bitmap = if ltb offset replay_window then bit_or bitmap (2 ^ offset) else bitmap;
        highest = some highest;
      }

-- Before any record the distance to `_highest` is `seq + 1`.
unfoldable pub accept : ReplayWindow → ℕ → ReplayWindow
accept w seq = elim w.highest [
  | none ↦ record { bitmap = slide w.bitmap (min (seq + 1) replay_window); highest = some seq }
  | some highest ↦ accept_above w.bitmap highest seq
]
