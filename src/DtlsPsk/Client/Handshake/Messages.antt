-- ===== src/DtlsPsk/Client/Handshake/Messages.antt =====
-- What each handler leaves as it is, and that the loops do not run out of fuel.
use smart_things_local.Prelude.{ℕ, ◌+◌, refl, false, not, ◌||◌, [], length, take, arith, ltb, ◌==◌}
use smart_things_local.Prelude.Bytes.{Bytes, bytes_eq, from_bytes}
use smart_things_local.Session.Pending.{nat_eq}
use smart_things_local.DtlsPsk.Client.{
  Client, Library, System, is_established, awaits_hello, sent_cookie, awaits_finished, has_hello,
  fail,
}
use smart_things_local.DtlsPsk.Client.Emit.{version, send_client_hello}
use smart_things_local.DtlsPsk.Client.Emit.Frame.{is_stuck, send_client_hello-Emitted}
use smart_things_local.DtlsPsk.Client.Handshake.Frame.{
  clash, Frame, Frame-trans, Framed, Frame-intro, Frame-refl, if-Framed, if-Frame,
  next_if_ok-Framed, after-Framed, Emitted-Framed,
}
use smart_things_local.DtlsPsk.Client.Handshake.{
  byte_at, slice, accept_cookie, count_hello_verify, handle_hello_verify_request, read_suite,
  handle_server_hello, take_point, read_params, handle_server_key_exchange, handle_server_finished,
  expected_finished,
}

module _ {Key : Type 0} (lib : Library Key) (sys : System Key) (k : ℕ) where
  accept_cookie-Framed :
      (cookie : Bytes) (msg_seq : ℕ) (c : Client Key)
      → Framed k c (accept_cookie lib sys cookie msg_seq c)
  unfolding accept_cookie is_stuck is_established
  accept_cookie-Framed cookie msg_seq c =
      let c' = record c {
        cookie = cookie;
        transcript = [];
        next_recv_msg_seq = msg_seq + 1;
        ready = [];
      } in
      next_if_ok-Framed (send_client_hello lib sys cookie c') _
        (after-Framed (send_client_hello lib sys cookie c')
          (Frame-intro c c' refl refl refl refl refl (λ h. h) (λ n l h. omega arith)
            (λ e n. clash (is_established c.phase) e n))
          (Emitted-Framed (send_client_hello lib sys cookie c')
            (send_client_hello-Emitted lib sys cookie c')))
        (λ u d. (
          Frame-intro d _ refl refl refl refl refl (λ h. h) (λ n l h. h)
              (λ e n. clash false e refl),
          refl,
        ))

  count_hello_verify-Framed :
      (cookie : Bytes) (msg_seq : ℕ) (c : Client Key)
      → Framed k c (count_hello_verify lib sys cookie msg_seq c)
  unfolding count_hello_verify is_stuck
  count_hello_verify-Framed cookie msg_seq c =
      let c' = record c { hello_verify_count = c.hello_verify_count + 1 } in
      let counted : Frame k c c' =
        Frame-intro c c' refl refl refl refl refl (λ h. h) (λ n l h. h)
          (λ e n. clash (is_established c.phase) e n) in
      if-Framed (ltb 5 c'.hello_verify_count) _ _
        (λ t. (
          Frame-intro c (fail c') refl refl refl refl refl (λ h. h) (λ n l h. h)
              (λ e n. clash (is_established c.phase) e n),
          refl,
        ))
        (λ f.
          if-Framed (bytes_eq cookie c.cookie) _ _ (λ t. (counted, refl))
            (λ g.
              after-Framed (accept_cookie lib sys cookie msg_seq c') counted
                (accept_cookie-Framed cookie msg_seq c')))

  pub handle_hello_verify_request-Framed :
      (body : Bytes) (msg_seq : ℕ) (c : Client Key)
      → Framed k c (handle_hello_verify_request lib sys body msg_seq c)
  unfolding handle_hello_verify_request is_stuck
  handle_hello_verify_request-Framed body msg_seq c =
      let size = byte_at 2 body in
      if-Framed
        (not (awaits_hello c.phase) || (ltb (length body) 3 || ltb (length body) (3 + size))) _ _
        (λ t. (Frame-refl c, refl))
        (λ f.
          if-Framed (sent_cookie c.phase) _ _
            (λ t. count_hello_verify-Framed (slice 3 size body) msg_seq c)
            (λ g. accept_cookie-Framed (slice 3 size body) msg_seq c))

  pub failed-Frame : (c : Client Key) → Frame k c (fail c)
  failed-Frame c =
      Frame-intro c (fail c) refl refl refl refl refl (λ h. h) (λ n l h. h)
        (λ e n. clash (is_established c.phase) e n)

  read_suite-Frame :
      (offset : ℕ) (body : Bytes) (c : Client Key) → Frame k c (read_suite lib sys offset body c)
  unfolding read_suite is_established
  read_suite-Frame offset body c =
      if-Frame (ltb (length body) (offset + 3)) _ _ (λ t. failed-Frame c)
        (λ f.
          if-Frame (not (from_bytes (slice offset 2 body) == 49207)) _ _ (λ t. failed-Frame c)
            (λ g.
              if-Frame (not (byte_at (offset + 2) body == 0)) _ _ (λ t. failed-Frame c)
                (λ h.
                  Frame-intro c _ refl refl refl refl refl (λ h. h) (λ n l h. h)
                    (λ e n. clash false e refl))))

  pub handle_server_hello-Frame :
      (body : Bytes) (c : Client Key) → Frame k c (handle_server_hello lib sys body c)
  unfolding handle_server_hello
  handle_server_hello-Frame body c =
      let c' = record c { server_random = slice 2 32 body } in
      if-Frame (not (awaits_hello c.phase)) _ _ (λ t. Frame-refl c)
        (λ f.
          if-Frame (ltb (length body) 35) _ _ (λ t. failed-Frame c)
            (λ g.
              if-Frame (not (bytes_eq (take 2 body) version)) _ _ (λ t. failed-Frame c)
                (λ h.
                  Frame-trans
                    (Frame-intro c c' refl refl refl refl refl (λ h. h) (λ n l h. h)
                      (λ e n. clash (is_established c.phase) e n))
                    (read_suite-Frame (35 + byte_at 34 body) body c'))))

  take_point-Frame :
      (size : ℕ) (point : Bytes) (c : Client Key) → Frame k c (take_point lib sys size point c)
  unfolding take_point is_established
  take_point-Frame size point c =
      if-Frame (not (length point == size) || size == 0) _ _ (λ t. failed-Frame c)
        (λ f.
          if-Frame (not (lib.is_point point)) _ _ (λ t. failed-Frame c)
            (λ g.
              Frame-intro c _ refl refl refl refl refl (λ h. h) (λ n l h. h)
                (λ e n. clash false e refl)))

  read_params-Frame :
      (offset : ℕ) (body : Bytes) (c : Client Key) → Frame k c (read_params lib sys offset body c)
  unfolding read_params
  read_params-Frame offset body c =
      if-Frame (ltb (length body) (offset + 4)) _ _ (λ t. failed-Frame c)
        (λ f.
          if-Frame (not (byte_at offset body == 3)) _ _ (λ t. failed-Frame c)
            (λ g.
              if-Frame (not (from_bytes (slice (offset + 1) 2 body) == 23)) _ _
                (λ t. failed-Frame c)
                (λ h.
                  take_point-Frame (byte_at (offset + 3) body)
                    (slice (offset + 4) (byte_at (offset + 3) body) body) c)))

  pub handle_server_key_exchange-Frame :
      (body : Bytes) (c : Client Key) → Frame k c (handle_server_key_exchange lib sys body c)
  unfolding handle_server_key_exchange
  handle_server_key_exchange-Frame body c =
      if-Frame (not (has_hello c.phase)) _ _ (λ t. Frame-refl c)
        (λ f.
          if-Frame (ltb (length body) 2) _ _ (λ t. failed-Frame c)
            (λ g. read_params-Frame (2 + from_bytes (take 2 body)) body c))

  pub handle_server_finished-Frame :
      (body : Bytes) (c : Client Key) → Frame k c (handle_server_finished lib sys body c)
  unfolding handle_server_finished
  handle_server_finished-Frame body c =
      if-Frame (not c.read_active || not (awaits_finished c.phase)) _ _ (λ t. Frame-refl c)
        (λ f.
          if-Frame (not (length body == 12) || not (bytes_eq body (expected_finished lib sys c))) _
            _ (λ t. failed-Frame c)
            (λ g.
              Frame-intro c _ refl refl refl refl refl (λ h. h) (λ n l h. h) (λ e n. ground arith)))
