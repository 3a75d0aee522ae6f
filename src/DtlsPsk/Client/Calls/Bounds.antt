-- ===== src/DtlsPsk/Client/Calls/Bounds.antt =====
-- The bounds of a client, whatever is called.
use mathlib.Core.Path.{subst}
use smart_things_local.Prelude.{
  ℕ, ◌+◌, ◌*◌, ◌≤◌, ◌≡◌, inl, inr, refl, Bool, true, false, not, ◌&&◌, ◌||◌, List, [], ◌∷◌, ◌++◌,
  Option, none, some, length, length-append, length-drop, drop, min, arith, ltb, leb, ◌==◌,
  if◌then◌else◌, All, Bool-cases,
}
use smart_things_local.Prelude.Bytes.{Bytes}
use smart_things_local.Errors.{Result, ok, err, value_error}
use smart_things_local.DtlsPsk.Client.{
  Client, Library, System, sent_hello, is_established, max_inbox, new_client, init, bio_write,
  bio_read,
}
use smart_things_local.DtlsPsk.Client.Emit.{emit_record, send_client_hello}
use smart_things_local.DtlsPsk.Client.Emit.Frame.{
  is_out_of_fuel, is_stuck, emit_record-Emitted, send_client_hello-Emitted,
}
use smart_things_local.DtlsPsk.Client.Handshake.Frame.{clash}
use smart_things_local.DtlsPsk.Client.Records.{drain_inbox}
use smart_things_local.DtlsPsk.Client.Records.Frame.{
  IsSound, Sound, next_if_ok-Sound, if-Sound, Emitted-Sound, IsSound-intro, drain_inbox-Sound,
}
use smart_things_local.DtlsPsk.Client.Calls.{
  is_start, concat, advance, do_handshake, send, take_queued, recv, shutdown, resend,
  handle_timeout,
}
use smart_things_local.DtlsPsk.Client.Calls.Run.{
  Call, writes, reads, shakes_hands, sends, receives, shuts_down, times_out, never_resends,
  without_value, step, run,
}

module _ {Key : Type 0} (lib : Library Key) (sys : System Key) (timely : Bool) where
  without_value-Sound :
      {A : Type 0} (p : Client Key × Result A)
      → Sound timely p
      → Sound timely (without_value lib sys p)
  unfolding is_stuck
  without_value-Sound (c, err e) h = h
  without_value-Sound (c, ok a) h = h

  bio_write-Sound :
      (datagram : Bytes) (c : Client Key) → IsSound timely c → Sound timely (bio_write datagram c)
  unfolding bio_write is_stuck
  bio_write-Sound datagram c s =
      if-Sound (leb max_inbox (length c.inbox)) _ _ (λ t. (s, refl))
        (λ f. (
          IsSound-intro c (record c { inbox = c.inbox ++ (datagram ∷ []) }) s
              (let grown = length-append c.inbox (datagram ∷ []) in ground arith) s.appdata_fits
              refl refl refl s.active,
          refl,
        ))

  bio_read-Sound :
      (capacity : ℕ) (c : Client Key) → IsSound timely c → Sound timely (bio_read capacity c)
  unfolding bio_read is_stuck is_out_of_fuel
  bio_read-Sound capacity c s =
      if-Sound (length c.outbox == 0) _ _ (λ t. (s, refl))
        (λ f. (
          record {
            inbox_fits = s.inbox_fits;
            appdata_fits = s.appdata_fits;
            outbox_fits =
                λ t. let fits = s.outbox_fits t in omega (arith, length-drop capacity c.outbox);
            pending_fits = s.pending_fits;
            ready_fits = s.ready_fits;
            active = s.active;
          },
          refl,
        ))

  advance-Sound : (c : Client Key) → IsSound timely c → Sound timely (advance lib sys c)
  unfolding advance is_stuck is_out_of_fuel
  advance-Sound c s =
      next_if_ok-Sound (drain_inbox lib sys c) _ (drain_inbox-Sound lib sys timely c s) (λ u c' s'.
        if-Sound c'.failed _ _ (λ t. (s', refl))
          (λ f. if-Sound (is_established c'.phase) _ _ (λ t. (s', refl)) (λ g. (s', refl))))

  do_handshake-Sound : (c : Client Key) → IsSound timely c → Sound timely (do_handshake lib sys c)
  unfolding do_handshake is_stuck is_out_of_fuel is_established
  do_handshake-Sound c s =
      if-Sound c.failed _ _ (λ t. (s, refl))
        (λ f.
          if-Sound (is_established c.phase) _ _ (λ t. (s, refl))
            (λ g.
              if-Sound (is_start c.phase) _ _
                (λ t.
                  next_if_ok-Sound (send_client_hello lib sys [] c) _
                    (Emitted-Sound c (send_client_hello lib sys [] c) s
                      (send_client_hello-Emitted lib sys [] c))
                    (λ u c' s'.
                      advance-Sound (record c' { phase = sent_hello })
                        (IsSound-intro c' (record c' { phase = sent_hello }) s' s'.inbox_fits
                          s'.appdata_fits refl refl refl (λ e. clash false e refl))))
                (λ h. advance-Sound c s)))

  send-Sound :
      (bytes : Bytes) (c : Client Key) → IsSound timely c → Sound timely (send lib sys bytes c)
  unfolding send is_stuck is_out_of_fuel
  send-Sound bytes c s =
      if-Sound (not (is_established c.phase) || c.failed) _ _ (λ t. (s, refl))
        (λ f.
          next_if_ok-Sound (emit_record lib sys 23 bytes c) _
            (Emitted-Sound c (emit_record lib sys 23 bytes c) s
              (emit_record-Emitted lib sys 23 bytes c))
            (λ u c' s'. (s', refl)))

  take_queued-Sound :
      (capacity : ℕ) (appdata : List Bytes) (c : Client Key)
      → length appdata ≤ 256
      → IsSound timely c
      → Sound timely (take_queued lib sys capacity appdata c)
  unfolding take_queued is_stuck is_out_of_fuel
  take_queued-Sound capacity [] c h s =
      if-Sound c.failed _ _ (λ t. (s, refl))
        (λ f. if-Sound c.peer_closed _ _ (λ t. (s, refl)) (λ g. (s, refl)))
  take_queued-Sound capacity (bytes ∷ queued) c h s =
      if-Sound (ltb capacity (length bytes)) _ _
        (λ t. (
          IsSound-intro c (record c { appdata = drop capacity bytes ∷ queued }) s s.inbox_fits h
              refl refl refl s.active,
          refl,
        ))
        (λ f. (
          IsSound-intro c (record c { appdata = queued }) s s.inbox_fits (omega arith) refl refl
              refl s.active,
          refl,
        ))

  recv-Sound :
      (capacity : ℕ) (c : Client Key) → IsSound timely c → Sound timely (recv lib sys capacity c)
  unfolding recv
  recv-Sound capacity c s =
      if-Sound (length c.appdata == 0) _ _
        (λ t.
          next_if_ok-Sound (drain_inbox lib sys c) _ (drain_inbox-Sound lib sys timely c s)
            (λ u c' s'. take_queued-Sound capacity c'.appdata c' s'.appdata_fits s'))
        (λ f. take_queued-Sound capacity c.appdata c s.appdata_fits s)

  shutdown-Sound : (c : Client Key) → IsSound timely c → Sound timely (shutdown lib sys c)
  unfolding shutdown is_stuck
  shutdown-Sound c s =
      if-Sound (is_established c.phase && not c.failed) _ _
        (λ t.
          Emitted-Sound c (emit_record lib sys 21 (1 ∷ 0 ∷ []) c) s
            (emit_record-Emitted lib sys 21 (1 ∷ 0 ∷ []) c))
        (λ f. (s, refl))

  resend-IsSound :
      (deadline : Option ℕ) (c : Client Key)
      → timely ≡ false
      → IsSound timely c
      → IsSound timely (resend lib sys deadline c)
  unfolding resend
  resend-IsSound none c late s = s
  resend-IsSound (some deadline) c late s = go (length c.flight == 0)
    where
      go :
          (idle : Bool)
          → IsSound timely (
              if idle
              then c
              else let rto = min (c.rto * 2) 60000 in
                record c {
                  outbox = c.outbox ++ concat c.flight;
                  rto = rto;
                  flight_deadline = some (sys.now c.draws + rto);
                  draws = c.draws + 1;
                })
      go true = s
      go false = record {
        inbox_fits = s.inbox_fits;
        appdata_fits = s.appdata_fits;
        outbox_fits = λ t. clash timely t late;
        pending_fits = s.pending_fits;
        ready_fits = s.ready_fits;
        active = s.active;
      }

  step-Sound :
      (call : Call) (c : Client Key)
      → (timely ≡ true → never_resends (call ∷ []) ≡ true)
      → IsSound timely c
      → Sound timely (step lib sys call c)
  unfolding step is_stuck handle_timeout
  step-Sound (writes datagram) c h s =
      without_value-Sound (bio_write datagram c) (bio_write-Sound datagram c s)
  step-Sound (reads capacity) c h s =
      without_value-Sound (bio_read capacity c) (bio_read-Sound capacity c s)
  step-Sound shakes_hands c h s = do_handshake-Sound c s
  step-Sound (sends bytes) c h s = without_value-Sound (send lib sys bytes c) (send-Sound bytes c s)
  step-Sound (receives capacity) c h s =
      without_value-Sound (recv lib sys capacity c) (recv-Sound capacity c s)
  step-Sound shuts_down c h s = shutdown-Sound c s
  step-Sound times_out c h s = (
    elim (Bool-cases timely) [
      | inl t ↦ clash false (h t) refl
      | inr f ↦ resend-IsSound c.flight_deadline c f s
    ],
    refl,
  )

  never_resends_parts :
      (call : Call) (calls : List Call)
      → never_resends (call ∷ calls) ≡ true
      → (never_resends (call ∷ []) ≡ true) × (never_resends calls ≡ true)
  never_resends_parts (writes datagram) calls h = (refl, h)
  never_resends_parts (reads capacity) calls h = (refl, h)
  never_resends_parts shakes_hands calls h = (refl, h)
  never_resends_parts (sends bytes) calls h = (refl, h)
  never_resends_parts (receives capacity) calls h = (refl, h)
  never_resends_parts shuts_down calls h = (refl, h)
  never_resends_parts times_out calls h = clash false h refl

  run-Sound :
      (calls : List Call) (c : Client Key)
      → (timely ≡ true → never_resends calls ≡ true)
      → IsSound timely c
      → IsSound timely (run lib sys calls c).0
        × All (λ r. is_stuck r ≡ false) (run lib sys calls c).1
  unfolding run
  run-Sound [] c h s = (s, tt)
  run-Sound (call ∷ calls) c h s =
      let p = step lib sys call c in
      let (s', q) = step-Sound call c (λ t. (never_resends_parts call calls (h t)).0) s in
      let (s'', qs) = run-Sound calls p.0 (λ t. (never_resends_parts call calls (h t)).1) s' in
      (s'', (q, qs))

module _ {Key : Type 0} (lib : Library Key) (sys : System Key) where
  new_client-IsSound :
      (identity key : Bytes) (timely : Bool) → IsSound timely (new_client {Key = Key} identity key)
  unfolding new_client is_established
  new_client-IsSound identity key timely = record {
    inbox_fits = omega arith;
    appdata_fits = omega arith;
    outbox_fits = λ t. omega arith;
    pending_fits = omega arith;
    ready_fits = omega arith;
    active = λ e. clash false e refl;
  }

  chosen : (b : Bool) (x c : Client Key) → (if b then ok x else err value_error) ≡ ok c → x ≡ c
  chosen true x c h = cc
  chosen false x c h = absurd (ground arith)

  init-IsSound :
      (identity key : Bytes) (mtu : ℕ) (c : Client Key) (timely : Bool)
      → init identity key mtu ≡ ok c
      → IsSound timely c
  unfolding init
  init-IsSound identity key mtu c timely h =
      subst (λ (x : Client Key). IsSound timely x) (chosen _ (new_client identity key) c h)
        (new_client-IsSound identity key timely)

  -- Whatever is called of a new client, and whatever arrives: at most 64 datagrams and 256 records of application data
  -- wait, 16 messages are reassembled and 16 are ready, and 262144 bytes are to be sent as long as no flight was sent
  -- again; an established session reads protected records only; and no loop runs out of its fuel.
  pub run-IsSound :
      (identity key : Bytes) (mtu : ℕ) (c : Client Key)
      → init identity key mtu ≡ ok c
      → (calls : List Call)
      → IsSound (never_resends calls) (run lib sys calls c).0
        × All (λ r. is_stuck r ≡ false) (run lib sys calls c).1
  run-IsSound identity key mtu c h calls =
      run-Sound lib sys (never_resends calls) calls c (λ t. t)
        (init-IsSound identity key mtu c (never_resends calls) h)
