-- ===== src/DtlsPsk/Client/Handshake/Tables.antt =====
-- The sizes of the two tables of handshake messages.
use smart_things_local.Prelude.{
  ℕ, suc, ◌≤◌, ◌<◌, ◌≡◌, inl, inr, refl, Bool, true, false, ◌&&◌, [], ◌∷◌, Option, none, some,
  length, arith, leb, ◌==◌, if◌then◌else◌, Bool-cases,
}
use smart_things_local.Prelude.Bytes.{Bytes}
use smart_things_local.Ocf.Dict.{Eq, Dict, get, set, remove}
use smart_things_local.Session.Pending.{nat_eq}
use smart_things_local.DtlsPsk.Reassembly.{
  Entry, Assembled, reassemble, put_fragment, find_entry, all_seen, splice, new_entry,
}
use smart_things_local.DtlsPsk.Transform.{repeat}

module _ {K V : Type 0} ⦃key : Eq K⦄ where
  pub length-remove : (d : Dict K V) (k : K) → length (remove d k) ≤ length d
  unfolding remove
  length-remove [] k = omega arith
  length-remove ((j, v) ∷ d) k = ground (arith, length-remove d k)

  pub length-remove_there :
      (d : Dict K V) (k : K) (v : V) → get d k ≡ some v → length (remove d k) < length d
  unfolding get remove
  length-remove_there [] k v e = absurd (ground arith)
  length-remove_there ((j, w) ∷ d) k v e = elim (Bool-cases (key.equal k j)) [
    | inl t ↦ ground (arith, length-remove d k)
    | inr f ↦ let less = length-remove_there d k v (ground arith) in ground arith
  ]

  pub length-set : (d : Dict K V) (k : K) (v : V) → length (set d k v) ≤ suc (length d)
  unfolding set
  length-set [] k v = omega arith
  length-set ((j, w) ∷ d) k v = ground (arith, length-set d k v)

  pub length-set_there :
      (d : Dict K V) (k : K) (v w : V) → get d k ≡ some w → length (set d k v) ≡ length d
  unfolding get set
  length-set_there [] k v w e = absurd (ground arith)
  length-set_there ((j, x) ∷ d) k v w e = elim (Bool-cases (key.equal k j)) [
    | inl t ↦ ground arith
    | inr f ↦ let same = length-set_there d k v w (ground arith) in ground arith
  ]

-- A test between two pairs.
if-fits :
    (b : Bool) (p q : Dict ℕ Entry × Assembled)
    → (b ≡ true → length p.0 ≤ 16)
    → (b ≡ false → length q.0 ≤ 16)
    → length (if b then p else q).0 ≤ 16
if-fits true p q h k = h refl
if-fits false p q h k = k refl

put_fragment-fits :
    (pending : Dict ℕ Entry) (msg_seq : ℕ) (entry : Entry) (off : ℕ) (body : Bytes)
    → length pending ≤ 16
    → ((e : Entry) → length (set pending msg_seq e) ≤ 16)
    → length (put_fragment pending msg_seq entry off body).0 ≤ 16
unfolding put_fragment
put_fragment-fits pending msg_seq entry off body h k =
    if-fits (all_seen (splice entry.seen off (repeat (length body) 1))) _ _
      (λ t. omega (arith, length-remove pending msg_seq)) (λ f. k _)

find_entry-fits :
    (pending : Dict ℕ Entry) (msg_seq size off : ℕ) (body : Bytes) (found : Option Entry)
    → get pending msg_seq ≡ found
    → length pending ≤ 16
    → length (find_entry pending msg_seq size off body found).0 ≤ 16
unfolding find_entry
find_entry-fits pending msg_seq size off body none e h =
    if-fits (leb 16 (length pending)) _ _ (λ t. h)
      (λ f.
        put_fragment-fits pending msg_seq (new_entry size) off body h
          (λ x. let grown = length-set pending msg_seq x in ground arith))
find_entry-fits pending msg_seq size off body (some entry) e h =
    put_fragment-fits pending msg_seq (if entry.length_of == size then entry else new_entry size)
      off body h (λ x. let same = length-set_there pending msg_seq x entry e in omega arith)

pub reassemble-fits :
    (pending : Dict ℕ Entry) (msg_seq size off : ℕ) (body : Bytes)
    → length pending ≤ 16
    → length (reassemble pending msg_seq size off body).0 ≤ 16
unfolding reassemble
reassemble-fits pending msg_seq size off body h =
    if-fits (off == 0 && length body == size) _ _ (λ t. h)
      (λ f. find_entry-fits pending msg_seq size off body (get pending msg_seq) refl h)
