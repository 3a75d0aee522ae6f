-- ===== src/DtlsPsk/Reassembly.antt =====
-- `DtlsPskClient._reassemble`: fragments of a handshake message.
pub mod Spans
pub mod Splice
pub mod Covered
use smart_things_local.Prelude.{
  ℕ, zero, suc, ◌+◌, Bool, true, false, not, ◌&&◌, List, [], ◌∷◌, ◌++◌, Option, none, some, length,
  take, drop, ltb, leb, ◌==◌, if◌then◌else◌,
}
use smart_things_local.Prelude.Bytes.{Bytes}
use smart_things_local.Ocf.Dict.{Eq, Dict, get, set, remove}
use smart_things_local.DtlsPsk.Transform.{repeat}

abbrev pub max_pending_messages : ℕ
max_pending_messages = 16

-- `(length, buffer, seen)`
pub record Entry : Type 0 where
  pub length_of : ℕ
  pub buffer : Bytes
  pub seen : Bytes

-- How a call ends: the session has failed, more is to come, or the message is whole.
pub data Assembled : Type 0 where
  failed : Assembled
  waiting : Assembled
  complete : Bytes → Assembled

-- `target[off:off + len(body)] = body`
unfoldable pub splice : Bytes → ℕ → Bytes → Bytes
splice target off body = take off target ++ (body ++ drop (off + length body) target)

-- `all(seen)`
unfoldable pub all_seen : Bytes → Bool
all_seen [] = true
all_seen (b ∷ bs) = not (b == 0) && all_seen bs

abbrev pub new_entry : ℕ → Entry
new_entry size = record { length_of = size; buffer = repeat size 0; seen = repeat size 0 }

module _ ⦃key : Eq ℕ⦄ where
  unfoldable pub put_fragment : Dict ℕ Entry → ℕ → Entry → ℕ → Bytes → Dict ℕ Entry × Assembled
  put_fragment pending msg_seq entry off body =
      let buffer = splice entry.buffer off body in
      let seen = splice entry.seen off (repeat (length body) 1) in
      if all_seen seen then (remove pending msg_seq, complete buffer) else (
        set pending msg_seq (record { length_of = entry.length_of; buffer = buffer; seen = seen }),
        waiting,
      )

  unfoldable pub find_entry :
      Dict ℕ Entry → ℕ → ℕ → ℕ → Bytes → Option Entry → Dict ℕ Entry × Assembled
  find_entry pending msg_seq size off body none =
      if leb max_pending_messages (length pending)
      then (pending, failed)
      else put_fragment pending msg_seq (new_entry size) off body
  find_entry pending msg_seq size off body (some entry) =
      put_fragment pending msg_seq (if entry.length_of == size then entry else new_entry size) off
        body

  unfoldable pub reassemble : Dict ℕ Entry → ℕ → ℕ → ℕ → Bytes → Dict ℕ Entry × Assembled
  reassemble pending msg_seq size off body =
      if off == 0 && length body == size
      then (pending, complete body)
      else find_entry pending msg_seq size off body (get pending msg_seq)
