-- ===== src/DtlsPsk/Client/Handshake.antt =====
-- What the client does with the handshake messages of the server.
pub mod Tables
pub mod Frame
pub mod Messages
pub mod Delivery
use smart_things_local.Prelude.{
  ℕ, zero, suc, ◌+◌, ◌*◌, ◌^◌, Bool, true, false, not, ◌&&◌, ◌||◌, List, [], ◌∷◌, ◌++◌, Option,
  none, some, length, take, drop, leb, ltb, ◌==◌, if◌then◌else◌,
}
use smart_things_local.Prelude.Bytes.{Bytes, bytes_eq, from_bytes}
use smart_things_local.Errors.{Error, Result, ok, err, out_of_fuel}
use smart_things_local.Ocf.Dict.{Eq, Dict, get, set, remove}
use smart_things_local.Session.Pending.{nat_eq}
use smart_things_local.DtlsPsk.Reassembly.{
  Entry, Assembled, failed, waiting, complete, reassemble, max_pending_messages,
}
use smart_things_local.DtlsPsk.Client.{
  Client, Handler, Library, System, sent_cookie_hello, got_server_hello, got_server_params,
  sent_client_flight, established, is_established, awaits_hello, sent_cookie, awaits_finished,
  has_hello, has_params, next_if_ok, pure, modify, ◌>>=◌, ◌>>◌, fail,
}
use smart_things_local.DtlsPsk.Client.Emit.{
  version, server_label, message_bytes, prf, send_client_hello, send_client_flight,
}

abbrev pub max_handshake_message : ℕ
max_handshake_message = 16384

abbrev pub max_hello_verify : ℕ
max_hello_verify = 5

-- `b[i]`, behind a check of the length
unfoldable pub byte_at : ℕ → Bytes → ℕ
byte_at i [] = 0
byte_at zero (b ∷ bs) = b
byte_at (suc i) (b ∷ bs) = byte_at i bs

-- `b[i:i + n]`
abbrev pub slice : ℕ → ℕ → Bytes → Bytes
slice i n bytes = take n (drop i bytes)

module _ {Key : Type 0} (lib : Library Key) (sys : System Key) where
  abbrev pub skip : Handler Key
  skip = pure tt

  abbrev pub fail_now : Handler Key
  fail_now = modify fail

  -- The tail of `_handle_hello_verify_request`
  unfoldable pub accept_cookie : Bytes → ℕ → Handler Key
  accept_cookie cookie msg_seq c =
      next_if_ok
        (send_client_hello lib sys cookie (record c {
          cookie = cookie;
          transcript = [];
          next_recv_msg_seq = msg_seq + 1;
          ready = [];
        }))
        (λ (u : Unit {0}). modify (λ (c' : Client Key). record c' { phase = sent_cookie_hello }))

  unfoldable pub count_hello_verify : Bytes → ℕ → Handler Key
  count_hello_verify cookie msg_seq c =
      let c' = record c { hello_verify_count = c.hello_verify_count + 1 } in
      if ltb max_hello_verify c'.hello_verify_count
      then (fail c', ok tt)
      else if bytes_eq cookie c.cookie
      then (c', ok tt)
      else accept_cookie cookie msg_seq c'

  -- `_handle_hello_verify_request`
  unfoldable pub handle_hello_verify_request : Bytes → ℕ → Handler Key
  handle_hello_verify_request body msg_seq c =
      let size = byte_at 2 body in
      if not (awaits_hello c.phase) || (ltb (length body) 3 || ltb (length body) (3 + size))
      then (c, ok tt)
      else if sent_cookie c.phase
      then count_hello_verify (slice 3 size body) msg_seq c
      else accept_cookie (slice 3 size body) msg_seq c

  -- Where the cipher suite of a ServerHello stands, behind the session id.
  unfoldable pub read_suite : ℕ → Bytes → Client Key → Client Key
  read_suite offset body c =
      if ltb (length body) (offset + 3)
      then fail c
      else if not (from_bytes (slice offset 2 body) == 49207)
      then fail c
      else if not (byte_at (offset + 2) body == 0)
      then fail c
      else record c { phase = got_server_hello }

  -- `_handle_server_hello`
  unfoldable pub handle_server_hello : Bytes → Client Key → Client Key
  handle_server_hello body c =
      if not (awaits_hello c.phase)
      then c
      else if ltb (length body) 35
      then fail c
      else if not (bytes_eq (take 2 body) version)
      then fail c
      else read_suite (35 + byte_at 34 body) body (record c { server_random = slice 2 32 body })

  unfoldable pub take_point : ℕ → Bytes → Client Key → Client Key
  take_point size point c =
      if not (length point == size) || size == 0
      then fail c
      else if not (lib.is_point point)
      then fail c
      else record c {
        peer_point = point;
        private_key = some (sys.new_key c.draws);
        draws = c.draws + 1;
        phase = got_server_params;
      }

  unfoldable pub read_params : ℕ → Bytes → Client Key → Client Key
  read_params offset body c =
      if ltb (length body) (offset + 4)
      then fail c
      else if not (byte_at offset body == 3)
      then fail c
      else if not (from_bytes (slice (offset + 1) 2 body) == 23)
      then fail c
      else take_point (byte_at (offset + 3) body)
          (slice (offset + 4) (byte_at (offset + 3) body) body) c

  -- `_handle_server_key_exchange`
  unfoldable pub handle_server_key_exchange : Bytes → Client Key → Client Key
  handle_server_key_exchange body c =
      if not (has_hello c.phase)
      then c
      else if ltb (length body) 2
      then fail c
      else read_params (2 + from_bytes (take 2 body)) body c

  unfoldable pub expected_finished : Client Key → Bytes
  expected_finished c = prf lib.hmac c.master_secret server_label (lib.sha256 c.transcript) 12

  -- `_handle_server_finished`
  unfoldable pub handle_server_finished : Bytes → Client Key → Client Key
  handle_server_finished body c =
      if not c.read_active || not (awaits_finished c.phase)
      then c
      else if not (length body == 12) || not (bytes_eq body (expected_finished c))
      then fail c
      else record c { phase = established; flight = []; flight_deadline = none }

  abbrev pub note_message : Bytes → Client Key → Client Key
  note_message message c = record c { transcript = c.transcript ++ message }

  unfoldable pub handle_hello_done : Handler Key
  handle_hello_done c =
      if has_params c.phase
      then send_client_flight lib sys (record c { phase = sent_client_flight })
      else (c, ok tt)

  -- `_deliver_handshake`
  unfoldable pub deliver_handshake : ℕ → ℕ → Bytes → Handler Key
  deliver_handshake msg_type msg_seq body c₀ =
      let c = record c₀ { next_recv_msg_seq = msg_seq + 1 } in
      let noted = note_message (message_bytes msg_type msg_seq body) c in
      if msg_type == 2
      then (handle_server_hello body noted, ok tt)
      else if msg_type == 12
      then (handle_server_key_exchange body noted, ok tt)
      else if msg_type == 14
      then handle_hello_done noted
      else if msg_type == 20
      then (handle_server_finished body c, ok tt)
      else (c, ok tt)

  unfoldable pub deliver_next : Handler Key → Option (ℕ × Bytes) → Handler Key
  deliver_next rest none c = (c, ok tt)
  deliver_next rest (some (msg_type, body)) c =
      next_if_ok
        (deliver_handshake msg_type c.next_recv_msg_seq body
          (record c { ready = remove c.ready c.next_recv_msg_seq }))
        (λ (u : Unit {0}) (c' : Client Key). if c'.failed then (c', ok tt) else rest c')

  -- `_deliver_ready`: each round takes one of the messages that are ready.
  unfoldable pub deliver_ready : ℕ → Handler Key
  deliver_ready zero c = (c, err out_of_fuel)
  deliver_ready (suc fuel) c = deliver_next (deliver_ready fuel) (get c.ready c.next_recv_msg_seq) c

  unfoldable pub put_message : ℕ → ℕ → Bytes → Handler Key
  put_message msg_type msg_seq body c =
      if leb max_pending_messages (length c.ready)
      then (fail c, ok tt)
      else let ready = set c.ready msg_seq (msg_type, body) in
        deliver_ready (suc (length ready)) (record c { ready = ready })

  unfoldable pub settle_message : ℕ → ℕ → Dict ℕ Entry × Assembled → Handler Key
  settle_message msg_type msg_seq (pending, failed) c =
      (fail (record c { pending = pending }), ok tt)
  settle_message msg_type msg_seq (pending, waiting) c = (record c { pending = pending }, ok tt)
  settle_message msg_type msg_seq (pending, complete body) c =
      put_message msg_type msg_seq body (record c { pending = pending })

  unfoldable pub take_fragment : Handler Key → ℕ → ℕ → ℕ → ℕ → Bytes → Handler Key
  take_fragment rest msg_type msg_seq size frag_off body c =
      if msg_type == 3 && frag_off == 0
      then next_if_ok (handle_hello_verify_request body msg_seq c) (λ (u : Unit {0}). rest)
      else if ltb msg_seq c.next_recv_msg_seq
      then rest c
      else next_if_ok
          (settle_message msg_type msg_seq (reassemble c.pending msg_seq size frag_off body) c)
          (λ (u : Unit {0}) (c' : Client Key). if c'.failed then (c', ok tt) else rest c')

  -- The loop of `_handle_handshake_fragment`, over what is left of the payload.
  unfoldable pub take_fragments : ℕ → Bool → Bytes → Handler Key
  take_fragments zero hello_verify_only payload c = (c, err out_of_fuel)
  take_fragments (suc fuel) hello_verify_only payload c =
      let msg_type = byte_at 0 payload in
      let size = from_bytes (slice 1 3 payload) in
      let frag_off = from_bytes (slice 6 3 payload) in
      let frag_len = from_bytes (slice 9 3 payload) in
      if ltb (length payload) 12 || (hello_verify_only && not (msg_type == 3))
      then (c, ok tt)
      else if ltb (length payload) (12 + frag_len) || ltb size (frag_off + frag_len)
      then (c, ok tt)
      else if ltb max_handshake_message size
      then (fail c, ok tt)
      else take_fragment (take_fragments fuel hello_verify_only (drop (12 + frag_len) payload))
          msg_type (from_bytes (slice 4 2 payload)) size frag_off (slice 12 frag_len payload) c

  -- `_handle_handshake_fragment`
  unfoldable pub handle_handshake_fragment : Bytes → Bool → Bool → Handler Key
  handle_handshake_fragment payload authenticated hello_verify_only c =
      if is_established c.phase && authenticated
      then (c, ok tt)
      else take_fragments (suc (length payload)) hello_verify_only payload c
