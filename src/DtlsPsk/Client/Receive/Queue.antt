-- ===== src/DtlsPsk/Client/Receive/Queue.antt =====
-- The queue of application data holds the newest payloads.
use smart_things_local.Prelude.{
  ℕ, suc, ◌-◌, ◌≤◌, ◌<◌, ◌≡◌, inl, inr, refl, ap, ◌∙◌, Bool, true, false, not, ◌&&◌, List, [], ◌∷◌,
  ◌++◌, append-nil, append_assoc, length, length-append, drop, arith, ltb, ◌==◌, if◌then◌else◌,
  Bool-cases,
}
use smart_things_local.Prelude.Bytes.{Bytes}
use smart_things_local.DtlsPsk.Transform.{Opened, raised, rejected, opened, unprotect, Transform}
use smart_things_local.DtlsPsk.Client.{Library}
use smart_things_local.DtlsPsk.Client.Records.{push_appdata, content_type_of, seq_of, fragment_of}
use smart_things_local.DtlsPsk.Client.Receive.{
  Verdict, halted, passed, is_fatal, payload_of, verdict_of, push_all, newest, verdict, received,
}

pub push_all-append :
    (appdata xs ys : List Bytes) → push_all (push_all appdata xs) ys ≡ push_all appdata (xs ++ ys)
unfolding push_all
push_all-append appdata [] ys = refl
push_all-append appdata (x ∷ xs) ys = push_all-append (push_appdata appdata x) xs ys

-- No payload that is empty
abbrev pub AllFull : List Bytes → Type 0
AllFull [] = Unit
AllFull (x ∷ xs) = (1 ≤ length x) × AllFull xs

push_appdata-room :
    (appdata : List Bytes) (x : Bytes)
    → 1 ≤ length x
    → length appdata < 256
    → push_appdata appdata x ≡ appdata ++ (x ∷ [])
unfolding push_appdata
push_appdata-room appdata x some_byte h = ground arith

push_appdata-full :
    (first : Bytes) (appdata : List Bytes) (x : Bytes)
    → 1 ≤ length x
    → length appdata ≡ 255
    → push_appdata (first ∷ appdata) x ≡ appdata ++ (x ∷ [])
unfolding push_appdata
push_appdata-full first appdata x some_byte h = ground arith

-- One payload more than the queue holds
newest-drop :
    (first : Bytes) (payloads : List Bytes)
    → 256 ≤ length payloads
    → newest payloads ≡ newest (first ∷ payloads)
unfolding newest
newest-drop first payloads h =
    let one_more : suc (length payloads - 256) ≡ suc (length payloads) - 256 = omega arith in
    ap (λ (n : ℕ). drop n (first ∷ payloads)) one_more

pub push_all-newest :
    (appdata xs : List Bytes)
    → length appdata ≤ 256
    → AllFull xs
    → push_all appdata xs ≡ newest (appdata ++ xs)
unfolding push_all newest
push_all-newest appdata [] h f = rw (append-nil appdata) (
    let none_lost : 0 ≡ length appdata - 256 = omega arith in
    ap (λ (n : ℕ). drop n appdata) none_lost)
push_all-newest [] (x ∷ xs) h (some_byte, f) =
    rw (push_appdata-room [] x some_byte (omega arith))
      (push_all-newest (x ∷ []) xs (omega arith) f)
push_all-newest (first ∷ appdata) (x ∷ xs) h (some_byte, f) =
    let grown = length-append appdata (x ∷ []) in
    let whole = length-append appdata (x ∷ xs) in
    elim (Bool-cases (ltb (length (first ∷ appdata)) 256)) [
      | inl t ↦ rw (push_appdata-room (first ∷ appdata) x some_byte (ground arith)) (
          push_all-newest (first ∷ (appdata ++ (x ∷ []))) xs (ground arith) f
          ∙ ap (λ (ys : List Bytes). newest (first ∷ ys)) (append_assoc appdata (x ∷ []) xs))
      | inr l ↦
          let full : length appdata ≡ 255 = ground arith in
          rw (push_appdata-full first appdata x some_byte full) (
            push_all-newest (appdata ++ (x ∷ [])) xs (ground arith) f
            ∙ ap newest (append_assoc appdata (x ∷ []) xs)
            ∙ newest-drop first (appdata ++ (x ∷ xs)) (omega arith))
    ]

AllFull-append : (xs ys : List Bytes) → AllFull xs → AllFull ys → AllFull (xs ++ ys)
AllFull-append [] ys f g = g
AllFull-append (x ∷ xs) ys (e, f) g = (e, AllFull-append xs ys f g)

abbrev Full : Verdict → Type 0
Full halted = Unit
Full (passed history payloads) = AllFull payloads

payload_of-full : (content_type : ℕ) (payload : Bytes) → AllFull (payload_of content_type payload)
unfolding payload_of
payload_of-full content_type payload = go (length payload == 0) (content_type == 23) refl
  where
    go :
        (empty is_data : Bool)
        → (length payload == 0) ≡ empty
        → AllFull (if is_data && not empty then payload ∷ [] else [])
    go true true e = tt
    go true false e = tt
    go false true e = (ground arith, tt)
    go false false e = tt

verdict_of-Full :
    (history : List ℕ) (seq content_type : ℕ) (o : Opened)
    → Full (verdict_of history seq content_type o)
unfolding verdict_of
verdict_of-Full history seq content_type raised = tt
verdict_of-Full history seq content_type rejected = tt
verdict_of-Full history seq content_type (opened payload) = go (is_fatal content_type payload)
  where
    go :
        (b : Bool)
        → Full (if b then halted else passed (seq ∷ history) (payload_of content_type payload))
    go true = tt
    go false = payload_of-full content_type payload

module _ {Key : Type 0} (lib : Library Key) (t : Transform) where
  verdict-Full : (history : List ℕ) (bytes : Bytes) → Full (verdict lib t history bytes)
  unfolding verdict
  verdict-Full history bytes = go _ _ (
      verdict_of-Full history (seq_of bytes) (content_type_of bytes) (
        unprotect lib.hmac lib.decrypt t 1 (seq_of bytes) (content_type_of bytes)
          (fragment_of bytes)))
    where
      go : (b : Bool) (v : Verdict) → Full v → Full (if b then v else passed history [])
      go true v f = f
      go false v f = tt

  pub received-full :
      (records : List Bytes) (history : List ℕ) → AllFull (received lib t history records)
  unfolding received
  received-full [] history = tt
  received-full (bytes ∷ rest) history =
      go (verdict lib t history bytes) (verdict-Full history bytes) (λ h. received-full rest h)
    where
      go :
          (v : Verdict)
          → Full v
          → ((h : List ℕ) → AllFull (received lib t h rest))
          → AllFull (elim v [ halted ↦ [] | passed h payloads ↦ payloads ++ received lib t h rest ])
      go halted f k = tt
      go (passed h payloads) f k = AllFull-append payloads (received lib t h rest) f (k h)
