-- ===== src/Ble/Reassembler/RoundTrip.antt =====
-- PDUs cut into frames and put together again, one after the other.
use smart_things_local.Prelude.{
  ℕ, ◌+◌, ◌-◌, ◌≤◌, ◌<◌, ◌≡◌, refl, ap, sym, ◌∙◌, true, List, [], ◌∷◌, ◌++◌, Option, none, some,
  arith, map, length, length-take, min, All, All-append, ltb, Bool-cases, inl, inr,
}
use smart_things_local.Prelude.Bytes.{Bytes}
use smart_things_local.Errors.{Result, ok, err, ◌>>=◌}
use smart_things_local.Ble.Frame.{
  BleOcfPdu, header_of, coerce_bytes, decode_header, fragment_pdu, validate_mtu,
  validate_max_pdu_size,
}
use smart_things_local.Ble.Frame.Sendable.{Sendable, decode_header-header_bytes}
use smart_things_local.Ble.Reassembler.{
  Reassembler, idle, init, feed, Adaptive, feed_adaptive, reassembler_for, keep_open, feed_found,
  find_reassembler,
}
use smart_things_local.Ble.Reassembler.Fragments.{
  Reassembles, last, next, first_frame, fragment_pdu-Reassembles, fragment_pdu_fitted,
}

module _ {S : Type 0} where
  abbrev emit : BleOcfPdu → S × Result (List BleOcfPdu) → S × Result (List BleOcfPdu)
  emit p (s, err e) = (s, err e)
  emit p (s, ok ps) = (s, ok (p ∷ ps))

  abbrev collect :
      S × Result (Option BleOcfPdu) → S × Result (List BleOcfPdu) → S × Result (List BleOcfPdu)
  collect (s, err e) later = (s, err e)
  collect (s, ok none) later = later
  collect (s, ok (some p)) later = emit p later

  -- Frames fed in turn: the PDUs returned, up to the first error.
  unfoldable pub feed_all :
      (S → Bytes → S × Result (Option BleOcfPdu)) → S → List Bytes → S × Result (List BleOcfPdu)
  feed_all step s [] = (s, ok [])
  feed_all step s (f ∷ fs) = let fed = step s f in collect fed (feed_all step fed.0 fs)

  feed_all-step :
      (step : S → Bytes → S × Result (Option BleOcfPdu)) (s s' : S) (f : Bytes) (fs : List Bytes)
      (o : Option BleOcfPdu)
      → step s f ≡ (s', ok o)
      → feed_all step s (f ∷ fs) ≡ collect (s', ok o) (feed_all step s' fs)
  unfolding feed_all
  feed_all-step step s s' f fs o e =
      ap (λ (fed : S × Result (Option BleOcfPdu)). collect fed (feed_all step fed.0 fs)) e

-- The frames of PDUs, each cut for its frame size.
unfoldable pub fragment_each : ℕ → List (ℕ × BleOcfPdu) → Result (List Bytes)
fragment_each max_pdu_size [] = ok []
fragment_each max_pdu_size ((mtu, p) ∷ sends) = do
  fs ← fragment_pdu p mtu max_pdu_size
  later ← fragment_each max_pdu_size sends
  ok (fs ++ later)

abbrev pub closed : ℕ → Adaptive
closed max_pdu_size = record { max_pdu_size = max_pdu_size; reassembler = none }

abbrev opened : ℕ → Reassembler → Adaptive
opened max_pdu_size r = record { max_pdu_size = max_pdu_size; reassembler = some r }

keep_open-closed :
    (max_pdu_size : ℕ) (r : Reassembler) (fed : Reassembler × Result (Option BleOcfPdu))
    → keep_open (opened max_pdu_size r) fed ≡ keep_open (closed max_pdu_size) fed
keep_open-closed max_pdu_size r (r', err e) = refl
keep_open-closed max_pdu_size r (r', ok none) = refl
keep_open-closed max_pdu_size r (r', ok (some p)) = refl

module _ (mtu max_pdu_size : ℕ) (p : BleOcfPdu) where
  Reassembles-feed_all :
      (r : Reassembler) (fs more : List Bytes)
      → Reassembles mtu max_pdu_size p r fs
      → feed_all feed r (fs ++ more) ≡ emit p (feed_all feed (idle mtu max_pdu_size) more)
  Reassembles-feed_all r [] more k = elim k [ ]
  Reassembles-feed_all r (f ∷ fs) more (last h e) = feed_all-step feed r _ f more (some p) e
  Reassembles-feed_all r (f ∷ fs) more (next {r' = r'} h e k) =
      feed_all-step feed r r' f (fs ++ more) none e ∙ Reassembles-feed_all r' fs more k

  Reassembles-fits :
      (r : Reassembler) (fs : List Bytes)
      → Reassembles mtu max_pdu_size p r fs
      → All (λ f. length f ≤ mtu) fs
  Reassembles-fits r [] k = elim k [ ]
  Reassembles-fits r (f ∷ fs) (last h e) = (h, tt)
  Reassembles-fits r (f ∷ fs) (next {r' = r'} h e k) = (h, Reassembles-fits r' fs k)

-- The adaptive reassembler does what its reassembler does.
feed_adaptive-opened :
    (max_pdu_size : ℕ) (r : Reassembler) (f : Bytes)
    → length f ≤ 0xffff
    → feed_adaptive (opened max_pdu_size r) f ≡ keep_open (closed max_pdu_size) (feed r f)
unfolding feed_adaptive find_reassembler reassembler_for coerce_bytes
feed_adaptive-opened max_pdu_size r f h =
    let found : find_reassembler (opened max_pdu_size r) f ≡ ok r = ground arith in
    ap (feed_found (opened max_pdu_size r) f) found ∙ keep_open-closed max_pdu_size r (feed r f)

feed_adaptive-closed :
    (max_pdu_size : ℕ) (p : BleOcfPdu) (f : Bytes)
    → 6 < length f
    → length f ≤ 0xffff
    → 1 ≤ max_pdu_size
    → max_pdu_size ≤ 0xffffffff
    → decode_header f ≡ ok (header_of p true)
    → feed_adaptive (closed max_pdu_size) f
      ≡ keep_open (closed max_pdu_size) (feed (idle (length f) max_pdu_size) f)
unfolding feed_adaptive find_reassembler reassembler_for coerce_bytes init validate_mtu
    validate_max_pdu_size
feed_adaptive-closed max_pdu_size p f room fits some_bound bound_fits e =
    let found : find_reassembler (closed max_pdu_size) f ≡ ok (idle (length f) max_pdu_size) =
      ground (arith, e) in
    ap (feed_found (closed max_pdu_size) f) found

module _ (mtu max_pdu_size : ℕ) (p : BleOcfPdu) (mtu_fits : mtu ≤ 0xffff) where
  Reassembles-adaptive :
      (a : Adaptive) (r : Reassembler) (f : Bytes) (fs more : List Bytes)
      → feed_adaptive a f ≡ keep_open (closed max_pdu_size) (feed r f)
      → Reassembles mtu max_pdu_size p r (f ∷ fs)
      → feed_all feed_adaptive a (f ∷ (fs ++ more))
        ≡ emit p (feed_all feed_adaptive (closed max_pdu_size) more)
  Reassembles-adaptive a r f fs more same (last h e) =
      feed_all-step feed_adaptive a (closed max_pdu_size) f more (some p)
        (same ∙ ap (keep_open (closed max_pdu_size)) e)
  Reassembles-adaptive a r f [] more same (next h e k) = elim k [ ]
  Reassembles-adaptive a r f (g ∷ fs) more same (next {r' = r'} h e k) =
      feed_all-step feed_adaptive a (opened max_pdu_size r') f (g ∷ (fs ++ more)) none
        (same ∙ ap (keep_open (closed max_pdu_size)) e)
      ∙ Reassembles-adaptive (opened max_pdu_size r') r' g fs more
          (feed_adaptive-opened max_pdu_size r' g
            (let fits = (Reassembles-fits mtu max_pdu_size p r' (g ∷ fs) k).0 in omega arith))
          k

-- The frame size that the first frame of a PDU shows.
abbrev shown_size : ℕ → BleOcfPdu → ℕ
shown_size mtu p = min mtu (length p.pdu + 6)

resize :
    {mtu max_pdu_size : ℕ} {p : BleOcfPdu}
    → Sendable mtu max_pdu_size p
    → (size : ℕ) → 6 < size
    → size ≤ 0xffff
    → Sendable size max_pdu_size p
resize s size room fits = record {
  room = room;
  mtu_fits = fits;
  bound_fits = s.bound_fits;
  source_some = s.source_some;
  source_fits = s.source_fits;
  destination_fits = s.destination_fits;
  pdu_some = s.pdu_some;
  pdu_fits = s.pdu_fits;
}

length-first_frame :
    (mtu : ℕ) (p : BleOcfPdu) → 6 < mtu → length (first_frame mtu p) ≡ shown_size mtu p
length-first_frame mtu p room = omega (arith, length-take (min (length p.pdu) (mtu - 6)) p.pdu)

module _ (mtu max_pdu_size : ℕ) (p : BleOcfPdu) (s : Sendable mtu max_pdu_size p) where
  -- The frames of a PDU are those for the frame size that its first frame shows.
  fragment_pdu-shown :
      (fs : List Bytes) × (fragment_pdu p mtu max_pdu_size ≡ ok (first_frame mtu p ∷ fs))
      × Reassembles
          (shown_size mtu p)
          max_pdu_size
          p
          (idle (shown_size mtu p) max_pdu_size)
          (first_frame mtu p ∷ fs)
  fragment_pdu-shown = elim (Bool-cases (ltb (length p.pdu + 6) mtu)) [
    | inl fits ↦
        let some_pdu = s.pdu_some in
        let fits_wire = s.mtu_fits in
        let s' : Sendable (length p.pdu + 6) max_pdu_size p =
          resize s (length p.pdu + 6) (omega arith) (ground arith) in
        let (fs, built, feeds) = fragment_pdu-Reassembles (length p.pdu + 6) max_pdu_size p s' in
        let (whole, same) = fragment_pdu_fitted mtu max_pdu_size p s (ground arith) in
        let (whole', same') =
          fragment_pdu_fitted (length p.pdu + 6) max_pdu_size p s' (omega arith) in
        let joined = sym built ∙ whole' in
        let single : fs ≡ [] = ground arith in
        let size : shown_size mtu p ≡ length p.pdu + 6 = ground arith in
        ([], whole, rw (size, same) (rw single at feeds))
    | inr fills ↦
        let size : shown_size mtu p ≡ mtu = ground arith in
        rw size (fragment_pdu-Reassembles mtu max_pdu_size p s)
  ]

init-idle :
    (mtu max_pdu_size : ℕ) (r : Reassembler)
    → init mtu max_pdu_size ≡ ok r
    → r ≡ idle mtu max_pdu_size
unfolding init validate_mtu validate_max_pdu_size
init-idle mtu max_pdu_size r e = ground arith

feed_all-nil :
    {S : Type 0} (step : S → Bytes → S × Result (Option BleOcfPdu)) (s : S)
    → feed_all step s [] ≡ (s, ok [])
unfolding feed_all
feed_all-nil step s = refl

module _ (mtu max_pdu_size : ℕ) where
  feed_all-idle :
      (ps : List BleOcfPdu)
      → All (Sendable mtu max_pdu_size) ps
      → (fs : List Bytes) × (fragment_each max_pdu_size (map (λ p. (mtu, p)) ps) ≡ ok fs)
        × All (λ f. length f ≤ mtu) fs
        × (feed_all feed (idle mtu max_pdu_size) fs ≡ (idle mtu max_pdu_size, ok ps))
  unfolding fragment_each
  feed_all-idle [] h = ([], refl, tt, feed_all-nil feed (idle mtu max_pdu_size))
  feed_all-idle (p ∷ ps) (s, h) =
      let (later, cut, fit, fed) = feed_all-idle ps h in
      let (fs, built, feeds) = fragment_pdu-Reassembles mtu max_pdu_size p s in
      let frames = first_frame mtu p ∷ fs in
      (
        frames ++ later,
        rw (built, cut) refl,
        All-append (λ f. length f ≤ mtu) frames later
            (Reassembles-fits mtu max_pdu_size p (idle mtu max_pdu_size) frames feeds) fit,
        Reassembles-feed_all mtu max_pdu_size p (idle mtu max_pdu_size) frames later feeds
            ∙ ap (emit p) fed,
      )

-- PDUs that `fragment_pdu` accepts for the frame size of a reassembler, cut and fed to it one after the other: every frame
-- is within that size, and the reassembler returns each of them with its ports and its flag, in order, and is left as it was made.
pub feed_all-fragment_each :
    (mtu max_pdu_size : ℕ) (r : Reassembler) (ps : List BleOcfPdu)
    → init mtu max_pdu_size ≡ ok r
    → All (Sendable mtu max_pdu_size) ps
    → (fs : List Bytes) × (fragment_each max_pdu_size (map (λ p. (mtu, p)) ps) ≡ ok fs)
      × All (λ f. length f ≤ mtu) fs
      × (feed_all feed r fs ≡ (r, ok ps))
feed_all-fragment_each mtu max_pdu_size r ps made h =
    let fresh : r ≡ idle mtu max_pdu_size = init-idle mtu max_pdu_size r made in
    rw fresh (feed_all-idle mtu max_pdu_size ps h)

abbrev pub sent : List (ℕ × BleOcfPdu) → List BleOcfPdu
sent = map (λ (x : ℕ × BleOcfPdu). x.1)

-- PDUs that `fragment_pdu` accepts, each cut for a frame size of its own and fed to an adaptive reassembler one after
-- the other: it returns each PDU with its ports and its flag, in order, and is left with none in progress.
pub feed_all-adaptive :
    (max_pdu_size : ℕ) (sends : List (ℕ × BleOcfPdu))
    → All (λ (x : ℕ × BleOcfPdu). Sendable x.0 max_pdu_size x.1) sends
    → (fs : List Bytes) × (fragment_each max_pdu_size sends ≡ ok fs)
      × (feed_all feed_adaptive (closed max_pdu_size) fs ≡ (closed max_pdu_size, ok (sent sends)))
unfolding fragment_each
feed_all-adaptive max_pdu_size [] h = ([], refl, feed_all-nil feed_adaptive (closed max_pdu_size))
feed_all-adaptive max_pdu_size ((mtu, p) ∷ sends) (s, h) =
    let (later, cut, fed) = feed_all-adaptive max_pdu_size sends h in
    let (fs, built, feeds) = fragment_pdu-shown mtu max_pdu_size p s in
    let first = first_frame mtu p in
    let size : length first ≡ shown_size mtu p = length-first_frame mtu p s.room in
    let (h1, h2, h3, h4) : (6 < mtu)
        × (mtu ≤ 0xffff)
        × (1 ≤ length p.pdu)
        × (length p.pdu ≤ max_pdu_size) =
      (s.room, s.mtu_fits, s.pdu_some, s.pdu_fits) in
    let opens =
      feed_adaptive-closed max_pdu_size p first (omega arith) (omega arith) (omega arith)
        s.bound_fits (decode_header-header_bytes mtu max_pdu_size p s true _) in
    (
      (first ∷ fs) ++ later,
      rw (built, cut) refl,
      Reassembles-adaptive (shown_size mtu p) max_pdu_size p (omega arith) (closed max_pdu_size)
            (idle (shown_size mtu p) max_pdu_size) first fs later (rw size at opens) feeds
          ∙ ap (emit p) fed,
    )
