-- ===== src/DtlsPsk/Client/Handshake/Delivery.antt =====
-- The delivery of handshake messages in order, and the loop over a record: what they keep, and that they end.
use smart_things_local.Prelude.{
  ℕ, zero, suc, ◌+◌, ◌≤◌, ◌<◌, ◌≡◌, refl, Bool, false, not, ◌&&◌, ◌||◌, Option, none, some, length,
  drop, length-drop, arith, ltb, leb, ◌==◌,
}
use smart_things_local.Prelude.Bytes.{Bytes, from_bytes}
use smart_things_local.Errors.{Result, ok, err}
use smart_things_local.Ocf.Dict.{Dict, get, set, remove}
use smart_things_local.Session.Pending.{nat_eq}
use smart_things_local.DtlsPsk.Reassembly.{Entry, Assembled, failed, waiting, complete, reassemble}
use smart_things_local.DtlsPsk.Client.{
  Client, Action, Handler, Library, System, sent_client_flight, is_established, has_params,
  next_if_ok,
}
use smart_things_local.DtlsPsk.Client.Emit.{message_bytes, send_client_flight}
use smart_things_local.DtlsPsk.Client.Emit.Frame.{is_stuck, send_client_flight-Emitted}
use smart_things_local.DtlsPsk.Client.Handshake.Messages.{
  handle_hello_verify_request-Framed, failed-Frame, handle_server_hello-Frame,
  handle_server_key_exchange-Frame, handle_server_finished-Frame,
}
use smart_things_local.DtlsPsk.Client.Handshake.Tables.{
  length-remove_there, length-set, reassemble-fits,
}
use smart_things_local.DtlsPsk.Client.Handshake.Frame.{
  clash, Frame, Frame-trans, Framed, Frame-intro, Frame-refl, if-Framed, next_if_ok-Framed,
  after-Framed, Emitted-Framed,
}
use smart_things_local.DtlsPsk.Client.Handshake.{
  byte_at, slice, handle_hello_verify_request, note_message, handle_hello_done, deliver_handshake,
  deliver_next, deliver_ready, put_message, settle_message, take_fragment, take_fragments,
  handle_handshake_fragment,
}

module _ {Key : Type 0} (lib : Library Key) (sys : System Key) where
  handle_hello_done-Framed : (k : ℕ) (c : Client Key) → Framed k c (handle_hello_done lib sys c)
  unfolding handle_hello_done is_stuck is_established
  handle_hello_done-Framed k c =
      let c' = record c { phase = sent_client_flight } in
      if-Framed (has_params c.phase) _ _
        (λ t.
          after-Framed (send_client_flight lib sys c')
            (Frame-intro c c' refl refl refl refl refl (λ h. h) (λ n l h. h)
              (λ e n. clash false e refl))
            (Emitted-Framed (send_client_flight lib sys c')
              (send_client_flight-Emitted lib sys c')))
        (λ f. (Frame-refl c, refl))

  deliver_handshake-Framed :
      (k msg_type msg_seq : ℕ) (body : Bytes) (c : Client Key)
      → Framed k c (deliver_handshake lib sys msg_type msg_seq body c)
  unfolding deliver_handshake is_stuck
  deliver_handshake-Framed k msg_type msg_seq body c =
      let c' = record c { next_recv_msg_seq = msg_seq + 1 } in
      let noted = note_message lib sys (message_bytes msg_type msg_seq body) c' in
      let moved : Frame k c c' =
        Frame-intro c c' refl refl refl refl refl (λ h. h) (λ n l h. h)
          (λ e n. clash (is_established c.phase) e n) in
      let told : Frame k c noted =
        Frame-intro c noted refl refl refl refl refl (λ h. h) (λ n l h. h)
          (λ e n. clash (is_established c.phase) e n) in
      if-Framed (msg_type == 2) _ _
        (λ t. (Frame-trans told (handle_server_hello-Frame lib sys k body noted), refl))
        (λ f.
          if-Framed (msg_type == 12) _ _
            (λ t. (Frame-trans told (handle_server_key_exchange-Frame lib sys k body noted), refl))
            (λ f.
              if-Framed (msg_type == 14) _ _
                (λ t.
                  after-Framed (handle_hello_done lib sys noted) told
                    (handle_hello_done-Framed k noted))
                (λ f.
                  if-Framed (msg_type == 20) _ _
                    (λ t.
                      (Frame-trans moved (handle_server_finished-Frame lib sys k body c'), refl))
                    (λ f. (moved, refl)))))

  -- A bind whose rest is told the ready messages that are left.
  then-Framed :
      {k : ℕ} {A B : Type 0} {c : Client Key} (p : Client Key × Result A) (next : A → Action Key B)
      → Framed k c p
      → ((a : A) → Frame k c p.0 → Framed k p.0 (next a p.0))
      → Framed k c (next_if_ok p next)
  unfolding is_stuck
  then-Framed (c', err e) next (f, q) h = (f, q)
  then-Framed (c', ok a) next (f, q) h = let (g, r) = h a f in (Frame-trans f g, r)

  deliver_next-Framed :
      (fuel k : ℕ) (found : Option (ℕ × Bytes)) (c : Client Key)
      → get c.ready c.next_recv_msg_seq ≡ found
      → length c.ready < suc fuel
      → ((c' : Client Key) → length c'.ready < fuel → Framed 0 c' (deliver_ready lib sys fuel c'))
      → Framed 0 c (deliver_next lib sys (deliver_ready lib sys fuel) found c)
  unfolding deliver_next is_stuck
  deliver_next-Framed fuel k none c e h rest = (Frame-refl c, refl)
  deliver_next-Framed fuel k (some (msg_type, body)) c e h rest =
      let c' = record c { ready = remove c.ready c.next_recv_msg_seq } in
      let less = length-remove_there c.ready c.next_recv_msg_seq (msg_type, body) e in
      let taken : Frame 0 c c' =
        Frame-intro c c' refl refl refl refl refl (λ h. h) (λ n l h. omega (arith, less))
          (λ e n. clash (is_established c.phase) e n) in
      let p = deliver_handshake lib sys msg_type c.next_recv_msg_seq body c' in
      after-Framed (next_if_ok p _) taken (
        then-Framed p _ (deliver_handshake-Framed 0 msg_type c.next_recv_msg_seq body c') (λ u f.
          if-Framed p.0.failed _ _ (λ t. (Frame-refl p.0, refl))
            (λ g. rest p.0 (
              let kept = f.ready_fits (length c'.ready) (omega arith) (omega arith) in
              omega (arith, less)))))

  deliver_ready-Framed :
      (fuel : ℕ) (c : Client Key)
      → length c.ready < fuel
      → Framed 0 c (deliver_ready lib sys fuel c)
  unfolding deliver_ready
  deliver_ready-Framed zero c h = absurd (omega arith)
  deliver_ready-Framed (suc fuel) c h =
      deliver_next-Framed fuel 0 (get c.ready c.next_recv_msg_seq) c refl h
        (λ c' k. deliver_ready-Framed fuel c' k)

  -- A frame for a smaller bound.
  Frame-weaken : (c c' : Client Key) → Frame 0 c c' → Frame 16 c c'
  Frame-weaken c c' f = record {
    inbox_same = f.inbox_same;
    appdata_same = f.appdata_same;
    windows_same = f.windows_same;
    active_same = f.active_same;
    outbox_fits = f.outbox_fits;
    pending_fits = f.pending_fits;
    ready_fits = λ n l h. f.ready_fits n (omega arith) h;
    active_only = f.active_only;
  }

  Framed-weaken :
      {A : Type 0} (c : Client Key) (p : Client Key × Result A) → Framed 0 c p → Framed 16 c p
  Framed-weaken c (c', r) (f, q) = (Frame-weaken c c' f, q)

  put_message-Framed :
      (msg_type msg_seq : ℕ) (body : Bytes) (c : Client Key)
      → Framed 16 c (put_message lib sys msg_type msg_seq body c)
  unfolding put_message is_stuck
  put_message-Framed msg_type msg_seq body c =
      let ready = set c.ready msg_seq (msg_type, body) in
      let c' = record c { ready = ready } in
      if-Framed (leb 16 (length c.ready)) _ _ (λ t. (failed-Frame lib sys 16 c, refl))
        (λ f.
          after-Framed (deliver_ready lib sys (suc (length ready)) c')
            (Frame-intro c c' refl refl refl refl refl (λ h. h)
              (λ n l h. let grown = length-set c.ready msg_seq (msg_type, body) in ground arith)
              (λ e n. clash (is_established c.phase) e n))
            (Framed-weaken c' (deliver_ready lib sys (suc (length ready)) c')
              (deliver_ready-Framed (suc (length ready)) c' (omega arith))))

  settle_message-Framed :
      (msg_type msg_seq : ℕ) (p : Dict ℕ Entry × Assembled) (c : Client Key)
      → (length c.pending ≤ 16 → length p.0 ≤ 16)
      → Framed 16 c (settle_message lib sys msg_type msg_seq p c)
  unfolding settle_message is_stuck
  settle_message-Framed msg_type msg_seq (pending, failed) c h = (
    Frame-intro c _ refl refl refl refl refl h (λ n l k. k)
        (λ e n. clash (is_established c.phase) e n),
    refl,
  )
  settle_message-Framed msg_type msg_seq (pending, waiting) c h = (
    Frame-intro c _ refl refl refl refl refl h (λ n l k. k)
        (λ e n. clash (is_established c.phase) e n),
    refl,
  )
  settle_message-Framed msg_type msg_seq (pending, complete body) c h =
      let c' = record c { pending = pending } in
      after-Framed (put_message lib sys msg_type msg_seq body c')
        (Frame-intro c c' refl refl refl refl refl h (λ n l k. k)
          (λ e n. clash (is_established c.phase) e n))
        (put_message-Framed msg_type msg_seq body c')

  take_fragment-Framed :
      (rest : Handler Key)
      → ((c' : Client Key) → Framed 16 c' (rest c'))
      → (msg_type msg_seq size frag_off : ℕ) (body : Bytes) (c : Client Key)
      → Framed 16 c (take_fragment lib sys rest msg_type msg_seq size frag_off body c)
  unfolding take_fragment is_stuck
  take_fragment-Framed rest after msg_type msg_seq size frag_off body c =
      let r = reassemble c.pending msg_seq size frag_off body in
      if-Framed (msg_type == 3 && frag_off == 0) _ _
        (λ t.
          next_if_ok-Framed (handle_hello_verify_request lib sys body msg_seq c) _
            (handle_hello_verify_request-Framed lib sys 16 body msg_seq c) (λ u c'. after c'))
        (λ f.
          if-Framed (ltb msg_seq c.next_recv_msg_seq) _ _ (λ t. after c)
            (λ g.
              next_if_ok-Framed (settle_message lib sys msg_type msg_seq r c) _
                (settle_message-Framed msg_type msg_seq r c
                  (λ h. reassemble-fits c.pending msg_seq size frag_off body h))
                (λ u c'. if-Framed c'.failed _ _ (λ t. (Frame-refl c', refl)) (λ h. after c'))))

  take_fragments-Framed :
      (fuel : ℕ) (only : Bool) (payload : Bytes) (c : Client Key)
      → length payload < fuel
      → Framed 16 c (take_fragments lib sys fuel only payload c)
  unfolding take_fragments is_stuck
  take_fragments-Framed zero only payload c h = absurd (omega arith)
  take_fragments-Framed (suc fuel) only payload c h =
      let size = from_bytes (slice 1 3 payload) in
      let frag_off = from_bytes (slice 6 3 payload) in
      let frag_len = from_bytes (slice 9 3 payload) in
      let rest = drop (12 + frag_len) payload in
      if-Framed (ltb (length payload) 12 || (only && not (byte_at 0 payload == 3))) _ _
        (λ t. (Frame-refl c, refl))
        (λ f.
          if-Framed (ltb (length payload) (12 + frag_len) || ltb size (frag_off + frag_len)) _ _
            (λ t. (Frame-refl c, refl))
            (λ g.
              if-Framed (ltb 16384 size) _ _ (λ t. (failed-Frame lib sys 16 c, refl))
                (λ k.
                  take_fragment-Framed (take_fragments lib sys fuel only rest)
                    (λ c'.
                      take_fragments-Framed fuel only rest c'
                        (let left = length-drop (12 + frag_len) payload in ground arith))
                    (byte_at 0 payload) (from_bytes (slice 4 2 payload)) size frag_off
                    (slice 12 frag_len payload) c)))

  pub handle_handshake_fragment-Framed :
      (payload : Bytes) (authenticated only : Bool) (c : Client Key)
      → Framed 16 c (handle_handshake_fragment lib sys payload authenticated only c)
  unfolding handle_handshake_fragment is_stuck
  handle_handshake_fragment-Framed payload authenticated only c =
      if-Framed (is_established c.phase && authenticated) _ _ (λ t. (Frame-refl c, refl))
        (λ f. take_fragments-Framed (suc (length payload)) only payload c (omega arith))
