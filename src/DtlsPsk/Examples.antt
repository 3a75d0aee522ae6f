-- ===== src/DtlsPsk/Examples.antt =====
-- The theorems on _dtls_psk.py at concrete inputs.
use smart_things_local.Prelude.{
  ℕ, ◌%◌, ◌≡◌, refl, ◌||◌, List, [], ◌∷◌, ◌++◌, some, map, arith, length, take, drop, if◌then◌else◌,
}
use smart_things_local.Prelude.Bytes.{Bytes, IsBytes, bytes_eq}
use smart_things_local.DtlsPsk.Transform.{
  Transform, opened, block, repeat, backwards, bad_padding, mac_input, check_mac, open_content,
  open_padded, open_plain, protect, unprotect,
}
use smart_things_local.Ocf.Dict.{get, set, remove}
use smart_things_local.Session.Pending.{nat_eq}
use smart_things_local.DtlsPsk.Reassembly.{
  complete, waiting, splice, all_seen, put_fragment, find_entry, reassemble,
}
use smart_things_local.DtlsPsk.Reassembly.Spans.{all_covered}
use smart_things_local.DtlsPsk.Reassembly.Covered.{settle, reassemble_each, reassemble_each-covered}
use smart_things_local.DtlsPsk.Transform.Padding.{length-repeat, repeat-IsBytes}
use smart_things_local.DtlsPsk.Transform.RoundTrip.{unprotect-protect}
use smart_things_local.DtlsPsk.Transform.Authentic.{Parts, unprotect-Parts}
use smart_things_local.DtlsPsk.ReplayWindow.{is_replay}
use smart_things_local.DtlsPsk.ReplayWindow.Window.{was_accepted}
use smart_things_local.DtlsPsk.ReplayWindow.Exact.{
  accept_all, highest_of, is_stale, is_replay-accept_all,
}

-- 100 came after 3, and 98 late.
abbrev numbers : List ℕ
numbers = 98 ∷ 100 ∷ 3 ∷ []

is_replay-accept_all_example :
    is_replay (accept_all numbers) 99
    ≡ (was_accepted 99 numbers || is_stale (highest_of numbers) 99)
is_replay-accept_all_example = is_replay-accept_all numbers 99

-- A digest that depends on the lengths only, and a cipher that changes nothing.
abbrev digest : Bytes → Bytes → Bytes
digest k m = repeat 32 (length (k ++ m) % 256)

abbrev cipher : Bytes → Bytes → Bytes → Bytes
cipher k iv x = x

-- A cipher whose decryption gives bytes whatever it is given.
abbrev byte_cipher : Bytes → Bytes → Bytes → Bytes
byte_cipher k iv x = map (λ b. b % 256) x

byte_cipher-IsBytes : (k iv x : Bytes) → IsBytes (byte_cipher k iv x)
byte_cipher-IsBytes k iv [] = tt
byte_cipher-IsBytes k iv (b ∷ x) = (omega arith, byte_cipher-IsBytes k iv x)

-- Keys of the client and the server.
abbrev client : Transform
client = record { mac_enc = 1 ∷ []; mac_dec = 2 ∷ []; enc_key = 3 ∷ []; dec_key = 4 ∷ [] }

abbrev server : Transform
server = record { mac_enc = 2 ∷ []; mac_dec = 1 ∷ []; enc_key = 4 ∷ []; dec_key = 3 ∷ [] }

abbrev greeting : Bytes
greeting = 104 ∷ 105 ∷ []

unprotect-protect_example :
    (fragment : Bytes) × (protect digest cipher client (repeat 16 7) 1 5 23 greeting
      ≡ some fragment)
    × (unprotect digest cipher server 1 5 23 fragment ≡ opened greeting)
unprotect-protect_example =
    unprotect-protect digest (λ k m. length-repeat 32 (length (k ++ m) % 256))
      (λ k m. repeat-IsBytes 32 (length (k ++ m) % 256) (omega arith)) cipher cipher
      (λ k iv x i h. refl) (λ k iv x i h b. refl) client server (repeat 16 7) 1 5 23 greeting refl
      refl (length-repeat 16 7)
      (record {
        epoch_fits = omega arith;
        seq_fits = omega arith;
        type_fits = omega arith;
        payload_fits = omega arith;
        payload_bytes = (omega arith, (omega arith, tt));
      })

abbrev sealed : Bytes
sealed = repeat 16 7 ++ greeting ++ repeat 32 16 ++ repeat 14 13

sealed_opens : unprotect digest byte_cipher server 1 5 23 sealed ≡ opened greeting
unfolding unprotect open_plain open_padded open_content check_mac mac_input backwards bad_padding
    repeat bytes_eq
sealed_opens = refl

unprotect-Parts_example :
    Parts digest server 1 5 23
      (byte_cipher server.dec_key (take block sealed) (drop block sealed))
      greeting
unprotect-Parts_example =
    unprotect-Parts digest byte_cipher byte_cipher-IsBytes server 1 5 23 sealed greeting
      sealed_opens

-- The end of a message before its beginning, which reaches into it.
abbrev hello : Bytes
hello = 1 ∷ 2 ∷ 3 ∷ 4 ∷ 5 ∷ []

reassemble_each-covered_example :
    reassemble_each [] 2 hello ((3, 2) ∷ (0, 4) ∷ [])
    ≡ (if all_covered ((3, 2) ∷ (0, 4) ∷ []) 0 5 then complete hello else waiting)
unfolding get
reassemble_each-covered_example =
    reassemble_each-covered [] 2 hello ((3, 2) ∷ (0, 4) ∷ []) (omega arith) refl (omega arith)
      (omega arith, (omega arith, tt))

-- The same, computed.
hello_assembled : reassemble_each [] 2 hello ((3, 2) ∷ (0, 4) ∷ []) ≡ complete hello
unfolding reassemble_each settle reassemble find_entry put_fragment splice all_seen repeat get set
    remove
hello_assembled = refl
