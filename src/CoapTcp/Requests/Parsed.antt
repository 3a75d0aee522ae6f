-- ===== src/CoapTcp/Requests/Parsed.antt =====
-- The segments of a path say everything of it but where slashes repeat.
use smart_things_local.Prelude.{◌≡◌, ◌≢◌, refl, ap, false, List, [], ◌∷◌, ◌++◌, arith, All, ◌==◌}
use smart_things_local.CoapTcp.Requests.{Text, split_slash, nonempty, segments, contains}

-- The path that some segments are written as.
abbrev pub path_of : List Text → Text
path_of [] = []
path_of (t ∷ ts) = 47 ∷ (t ++ path_of ts)

-- A segment: not empty, and without a slash.
abbrev pub IsSegment : Text → Type 0
IsSegment t = (contains 47 t ≡ false) × (t ≢ [])

split_slash-append :
    (t : Text) (ts : List Text) (rest : Text)
    → contains 47 t ≡ false
    → split_slash rest ≡ ([], ts)
    → split_slash (t ++ rest) ≡ (t, ts)
unfolding split_slash contains
split_slash-append [] ts rest h e = e
split_slash-append (c ∷ cs) ts rest h e =
    let e' = split_slash-append cs ts rest (ground arith) e in
    let other : (c == 47) ≡ false = ground arith in rw (e', other) refl

split_slash-path_of : (ts : List Text) → All IsSegment ts → split_slash (path_of ts) ≡ ([], ts)
unfolding split_slash
split_slash-path_of [] h = refl
split_slash-path_of (t ∷ ts) h =
    rw (split_slash-append t ts (path_of ts) h.0.0 (split_slash-path_of ts h.1)) refl

nonempty-All : (ts : List Text) → All IsSegment ts → nonempty ts ≡ ts
unfolding nonempty
nonempty-All [] h = refl
nonempty-All ([] ∷ ts) h = absurd (h.0.1 refl)
nonempty-All ((c ∷ cs) ∷ ts) h = ap (◌∷◌ (c ∷ cs)) (nonempty-All ts h.1)

-- A path written from segments that are not empty and hold no slash is taken apart into exactly these
-- segments.
segments-path_of : (ts : List Text) → All IsSegment ts → segments (path_of ts) ≡ ts
unfolding segments nonempty
segments-path_of ts h = rw (split_slash-path_of ts h) (nonempty-All ts h)
