-- ===== src/DtlsPsk/ClientExamples.antt =====
-- The theorems on DtlsPskClient at a concrete client.
use smart_things_local.Prelude.{
  ℕ, ◌≡◌, refl, true, false, List, [], ◌∷◌, ◌++◌, some, arith, length, All,
}
use smart_things_local.Prelude.Bytes.{Bytes, bytes_eq}
use smart_things_local.Errors.{ok}
use smart_things_local.Session.Pending.{nat_eq}
use smart_things_local.Ocf.Dict.{get}
use smart_things_local.DtlsPsk.ReplayWindow.Window.{was_accepted}
use smart_things_local.DtlsPsk.ReplayWindow.Exact.{accept_all, is_stale, highest_of}
use smart_things_local.DtlsPsk.Client.Handshake.{byte_at}
use smart_things_local.DtlsPsk.Transform.{
  Transform, repeat, unprotect, open_plain, open_padded, open_content, check_mac, mac_input,
  backwards, bad_padding,
}
use smart_things_local.DtlsPsk.Client.{Client, Library, System, established, init, new_client}
use smart_things_local.DtlsPsk.Client.Emit.Frame.{is_stuck}
use smart_things_local.DtlsPsk.Client.Records.{window_of, handle_each}
use smart_things_local.DtlsPsk.Client.Records.Frame.{IsSound}
use smart_things_local.DtlsPsk.Client.Receive.{
  newest, received, verdict, verdict_of, is_fatal, payload_of,
}
use smart_things_local.DtlsPsk.Client.Receive.Refined.{handle_each-newest}
use smart_things_local.DtlsPsk.Client.Calls.Bounds.{run-IsSound}
use smart_things_local.DtlsPsk.Client.Calls.Run.{
  Call, writes, reads, shakes_hands, times_out, never_resends, run,
}

-- Keys are numbers, a digest depends on lengths only, and the cipher changes nothing.
abbrev library : Library ℕ
library = record {
  hmac = λ k m. repeat 32 (length (k ++ m));
  sha256 = λ m. repeat 32 (length m);
  encrypt = λ k iv x. x;
  decrypt = λ k iv x. x;
  is_point = λ p. true;
  public_bytes = λ key. key ∷ [];
  exchange = λ key p. key ∷ p;
}

abbrev system : System ℕ
system = record { urandom = λ n size. repeat size n; new_key = λ n. n; now = λ n. n }

abbrev keys : Transform
keys = record { mac_enc = []; mac_dec = []; enc_key = []; dec_key = [] }

-- A client that has an established session.
abbrev client : Client ℕ
client = record (new_client (7 ∷ []) (repeat 16 1)) {
  phase = established;
  read_active = true;
  transform = some keys;
}

-- A protected record with the number 5 and the payload 104, which comes twice.
abbrev protected : Bytes
protected =
    23
    ∷ 254
    ∷ 253
    ∷ 0
    ∷ 1
    ∷ 0
    ∷ 0
    ∷ 0
    ∷ 0
    ∷ 0
    ∷ 5
    ∷ 0
    ∷ 64
    ∷ (repeat 16 0 ++ (104 ∷ []) ++ repeat 32 14 ++ repeat 15 14)

handle_each-newest_example :
    (handle_each library system (protected ∷ protected ∷ []) client).0.appdata
    ≡ newest (client.appdata ++ received library keys [] (protected ∷ protected ∷ []))
unfolding new_client window_of get accept_all
handle_each-newest_example =
    handle_each-newest library system keys (protected ∷ protected ∷ []) [] client
      (record {
        phase_is = refl;
        active = refl;
        transform_is = refl;
        window_is = refl;
        going = refl;
      })
      (omega arith)

-- A datagram before the hello, the hello, which waits, and a timeout.
abbrev calls : List Call
calls = writes (protected ++ protected) ∷ shakes_hands ∷ times_out ∷ reads 100 ∷ []

started : init (7 ∷ []) (repeat 16 1) 1400 ≡ ok (new_client {Key = ℕ} (7 ∷ []) (repeat 16 1))
unfolding init repeat
started = refl

-- The payload is returned once.
returned_once : received library keys [] (protected ∷ protected ∷ []) ≡ (104 ∷ []) ∷ []
unfolding received verdict verdict_of is_fatal payload_of was_accepted is_stale highest_of unprotect
    open_plain open_padded open_content check_mac mac_input backwards bad_padding repeat bytes_eq
    byte_at
returned_once = refl

run-IsSound_example :
    IsSound (never_resends calls) (run library system calls (new_client (7 ∷ []) (repeat 16 1))).0
    × All (λ r. is_stuck r ≡ false) (run library system calls (new_client (7 ∷ []) (repeat 16 1))).1
run-IsSound_example =
    run-IsSound library system (7 ∷ []) (repeat 16 1) 1400 (new_client (7 ∷ []) (repeat 16 1))
      started calls
