-- ===== src/DtlsPsk/Client/Receive/Payload.antt =====
-- The payload of a record of an established session, against the abstract receiver.
use smart_things_local.Prelude.{
  ℕ, ◌≡◌, inl, inr, refl, ap, ◌∙◌, Bool, true, false, not, ◌&&◌, ◌||◌, List, [], ◌∷◌, Option, some,
  length, arith, ltb, leb, ◌==◌, if◌then◌else◌, Bool-cases,
}
use smart_things_local.Prelude.Bytes.{Bytes, bytes_eq}
use smart_things_local.Errors.{Result, ok, err}
use smart_things_local.Ocf.Dict.{Dict, get, set, remove}
use smart_things_local.Ocf.Dict.Laws.{get-set}
use smart_things_local.Session.Pending.{nat_eq}
use smart_things_local.DtlsPsk.ReplayWindow.{ReplayWindow}
use smart_things_local.DtlsPsk.ReplayWindow.Exact.{accept_all}
use smart_things_local.DtlsPsk.Transform.{Transform, opened}
use smart_things_local.DtlsPsk.Client.{
  Client, Library, System, established, is_established, awaits_finished, fail,
}
use smart_things_local.DtlsPsk.Client.Handshake.{byte_at, handle_handshake_fragment}
use smart_things_local.DtlsPsk.Client.Records.{
  push_appdata, window_of, handle_alert, change_cipher, take_appdata, handle_payload,
}
use smart_things_local.DtlsPsk.Client.Receive.{
  Verdict, halted, passed, is_fatal, payload_of, verdict_of, push_all,
}

pub get-set_own : {V : Type 0} (d : Dict ℕ V) (v : V) → get (set d 1 v) 1 ≡ some v
get-set_own d v = get-set d 1 v 1

window_of-some : (o : Option ReplayWindow) (w : ReplayWindow) → o ≡ some w → window_of o ≡ w
unfolding window_of
window_of-some o w e = rw e refl

and_false : (a b : Bool) → b ≡ false → (a && b) ≡ false
and_false a b e = ground arith

is_fatal-other :
    (content_type : ℕ) (payload : Bytes)
    → (content_type == 21) ≡ false
    → is_fatal content_type payload ≡ false
unfolding is_fatal
is_fatal-other content_type payload a = rw a refl

payload_of-other :
    (content_type : ℕ) (payload : Bytes)
    → (content_type == 23) ≡ false
    → payload_of content_type payload ≡ []
unfolding payload_of
payload_of-other content_type payload d = rw d refl

verdict_of-quiet :
    (history : List ℕ) (content_type seq : ℕ) (payload : Bytes)
    → (content_type == 21) ≡ false
    → (content_type == 23) ≡ false
    → verdict_of history seq content_type (opened payload) ≡ passed (seq ∷ history) []
unfolding verdict_of
verdict_of-quiet history content_type seq payload a d =
    rw (is_fatal-other content_type payload a) (
      ap (λ (xs : List Bytes). passed (seq ∷ history) xs) (payload_of-other content_type payload d))

module _ {Key : Type 0} (lib : Library Key) (sys : System Key) (t : Transform) where
  -- A client that reads what the transform protects, and has accepted these numbers.
  pub record Reads (history : List ℕ) (c : Client Key) : Type 0 where
    pub phase_is : c.phase ≡ established
    pub active : c.read_active ≡ true
    pub transform_is : c.transform ≡ some t
    pub window_is : window_of (get c.recv_windows 1) ≡ accept_all history
    pub going : c.failed ≡ false

  -- What a call did, by the verdict, with the payloads that waited before it.
  abbrev pub Meets : List Bytes → Verdict → Client Key × Result (Unit {0}) → Type 0
  Meets appdata (passed history payloads) (c, ok u) =
      Reads history c × (c.appdata ≡ push_all appdata payloads)
  Meets appdata halted (c, ok u) = (c.failed ≡ true) × (c.appdata ≡ appdata)
  Meets appdata halted (c, err e) = c.appdata ≡ appdata
  Meets appdata (passed history payloads) (c, err e) = ⊥

  -- The fields that matter of a client that reads.
  pub Reads-intro :
      (history history' : List ℕ) (c c' : Client Key)
      → Reads history c
      → c'.phase ≡ c.phase
      → c'.read_active ≡ c.read_active
      → c'.transform ≡ c.transform
      → c'.failed ≡ c.failed
      → get c'.recv_windows 1 ≡ some (accept_all history')
      → Reads history' c'
  Reads-intro history history' c c' r p a f g w = record {
    phase_is = p ∙ r.phase_is;
    active = a ∙ r.active;
    transform_is = f ∙ r.transform_is;
    window_is = window_of-some (get c'.recv_windows 1) (accept_all history') w;
    going = g ∙ r.going;
  }

  handshake-idle :
      (payload : Bytes) (c : Client Key)
      → c.phase ≡ established
      → handle_handshake_fragment lib sys payload true false c ≡ (c, ok tt)
  unfolding handle_handshake_fragment is_established
  handshake-idle payload c e = rw e refl

  change_cipher-idle :
      (payload : Bytes) (c : Client Key)
      → c.phase ≡ established
      → change_cipher lib sys payload c ≡ c
  unfolding change_cipher awaits_finished
  change_cipher-idle payload c e =
      let closed : (bytes_eq payload (1 ∷ []) && awaits_finished c.phase) ≡ false =
        and_false (bytes_eq payload (1 ∷ [])) (awaits_finished c.phase) (ap awaits_finished e) in
      ap
        (λ (b : Bool).
          if b then record c { read_active = true; recv_windows = remove c.recv_windows 1 } else c)
        closed

  -- A payload that is no fatal alert and no application data.
  quiet-Meets :
      (history : List ℕ) (content_type seq : ℕ) (payload : Bytes) (c : Client Key)
      (p : Client Key × Result (Unit {0}))
      → (content_type == 21) ≡ false
      → (content_type == 23) ≡ false
      → Reads (seq ∷ history) c
      → p ≡ (c, ok tt)
      → Meets c.appdata (verdict_of history seq content_type (opened payload)) p
  unfolding push_all
  quiet-Meets history content_type seq payload c p a d r e =
      rw (verdict_of-quiet history content_type seq payload a d) (rw e (r, refl))

  alert-Meets :
      (history : List ℕ) (seq : ℕ) (payload : Bytes) (c : Client Key)
      → Reads (seq ∷ history) c
      → Meets c.appdata
          (verdict_of history seq 21 (opened payload))
          (handle_alert lib sys payload true c, ok tt)
  unfolding verdict_of is_fatal payload_of handle_alert push_all
  alert-Meets history seq payload c r =
      go (ltb (length payload) 2) (byte_at 1 payload == 0) (byte_at 0 payload == 2)
        (leb 2 (length payload)) (ground arith)
    where
      go :
          (short closing fatal long : Bool)
          → long ≡ not short
          → Meets c.appdata
              (if long && (not closing && fatal) then halted else passed (seq ∷ history) [])
              (
                if short
                    then c
                    else if closing
                    then record c { peer_closed = c.peer_closed || true }
                    else if fatal
                    then fail c
                    else c,
                ok tt,
              )
      go true closing fatal long e = rw e (r, refl)
      go false true fatal long e = rw e (
        record {
          phase_is = r.phase_is;
          active = r.active;
          transform_is = r.transform_is;
          window_is = r.window_is;
          going = r.going;
        },
        refl,
      )
      go false false true long e = rw e (refl, refl)
      go false false false long e = rw e (r, refl)

  data-Meets :
      (history : List ℕ) (seq : ℕ) (payload : Bytes) (c : Client Key)
      → Reads (seq ∷ history) c
      → Meets c.appdata
          (verdict_of history seq 23 (opened payload))
          (take_appdata lib sys payload true c, ok tt)
  unfolding verdict_of is_fatal payload_of take_appdata push_all push_appdata
  data-Meets history seq payload c r = go (length payload == 0) refl
    where
      appdata-Reads : (d : List Bytes) → Reads (seq ∷ history) (record c { appdata = d })
      appdata-Reads d = record {
        phase_is = r.phase_is;
        active = r.active;
        transform_is = r.transform_is;
        window_is = r.window_is;
        going = r.going;
      }

      go :
          (empty : Bool)
          → (length payload == 0) ≡ empty
          → Meets c.appdata
              (passed (seq ∷ history) (if not empty then payload ∷ [] else []))
              (record c { appdata = push_appdata c.appdata payload }, ok tt)
      go true e = (appdata-Reads (push_appdata c.appdata payload), rw e refl)
      go false e = (appdata-Reads (push_appdata c.appdata payload), refl)

  pub handle_payload-Meets :
      (history : List ℕ) (content_type seq : ℕ) (payload : Bytes) (c : Client Key)
      → Reads (seq ∷ history) c
      → Meets c.appdata
          (verdict_of history seq content_type (opened payload))
          (handle_payload lib sys content_type true false payload c)
  unfolding handle_payload
  handle_payload-Meets history content_type seq payload c r =
      elim (Bool-cases (content_type == 22)) [
        | inl t ↦
            quiet-Meets history content_type seq payload c _ (ground arith) (ground arith) r
              (rw t (handshake-idle payload c r.phase_is))
        | inr f ↦ elim (Bool-cases (content_type == 20)) [
          | inl t ↦
              quiet-Meets history content_type seq payload c _ (ground arith) (ground arith) r (
                rw f (
                  rw t (
                    ap (λ (d : Client Key). (d, ok tt)) (change_cipher-idle payload c r.phase_is))))
          | inr g ↦ elim (Bool-cases (content_type == 21)) [
            | inl t ↦
                let is : content_type ≡ 21 = ground arith in
                rw f (rw g (rw t (rw is (alert-Meets history seq payload c r))))
            | inr h ↦ elim (Bool-cases (content_type == 23)) [
              | inl t ↦
                  let is : content_type ≡ 23 = ground arith in
                  rw f (rw g (rw h (rw t (rw is (data-Meets history seq payload c r)))))
              | inr k ↦
                  quiet-Meets history content_type seq payload c _ h k r
                    (rw f (rw g (rw h (rw k refl))))
            ]
          ]
        ]
      ]
