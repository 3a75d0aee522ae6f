-- ===== src/CoapTcp/Stream/Chunks.antt =====
-- The stream decoder against a description of the whole stream, however it is cut into chunks.
use smart_things_local.Prelude.{
  ℕ, zero, suc, ◌-◌, ◌≤◌, ◌<◌, ◌≡◌, refl, ◌∙◌, ◌⊎◌, inl, inr, true, false, List, [], ◌∷◌, ◌++◌,
  Option, none, some, arith, ltb, length, take, drop, length-append, length-drop, length-take,
  append_assoc, append-nil, take-append_ge, drop-append_ge, take_all, min,
}
use smart_things_local.Prelude.Bytes.{Bytes}
use smart_things_local.Errors.{ok, Result-cases}
use smart_things_local.CoapTcp.Frame.{
  CoapTcpMessage, frame_size_from_prefix, parse_coap_tcp_message,
}
use smart_things_local.CoapTcp.Stream.{feed_loop}
use smart_things_local.CoapTcp.Stream.Prefix.{
  frame_size-append, frame_size-snoc, frame_size_positive,
}

-- No whole frame is in these bytes, and what is there is acceptable so far.
abbrev pub Stopped : ℕ → Bytes → Type 0
Stopped maximum bs =
    (frame_size_from_prefix bs maximum ≡ ok none)
    ⊎ ((n : ℕ) × (frame_size_from_prefix bs maximum ≡ ok (some n)) × (length bs < n))

-- The bytes are the frames of these messages, one after the other, and a rest that is no frame.
abbrev pub Frames : ℕ → Bytes → List CoapTcpMessage → Bytes → Type 0
Frames maximum bs [] rest = (rest ≡ bs) × Stopped maximum bs
Frames maximum bs (m ∷ ms) rest =
    (n : ℕ) × (frame_size_from_prefix bs maximum ≡ ok (some n))
    × (n ≤ length bs)
    × (parse_coap_tcp_message (take n bs) maximum ≡ ok m)
    × Frames maximum (drop n bs) ms rest

-- The buffer never holds a whole frame.
abbrev pub Pending : ℕ → Bytes → Type 0
Pending maximum bs = (n : ℕ) → frame_size_from_prefix bs maximum ≡ ok (some n) → length bs < n

pub Stopped-Pending : (maximum : ℕ) (bs : Bytes) → Stopped maximum bs → Pending maximum bs
Stopped-Pending maximum bs (inl e) n h = ground arith
Stopped-Pending maximum bs (inr (k, e, lt)) n h = ground arith

pub Pending-empty : (maximum : ℕ) → Pending maximum []
unfolding frame_size_from_prefix
Pending-empty maximum n h = ground arith

-- The rest is no frame.
pub Frames-Stopped :
    (maximum : ℕ) (bs : Bytes) (ms : List CoapTcpMessage) (rest : Bytes)
    → Frames maximum bs ms rest
    → Stopped maximum rest
Frames-Stopped maximum bs [] rest (e, s) = rw e s
Frames-Stopped maximum bs (m ∷ ms) rest (n, _, _, _, h) =
    Frames-Stopped maximum (drop n bs) ms rest h

-- The decoder returns from the loop as the description says.
abbrev Agrees : ℕ → ℕ → Bytes → Bytes → Type 0
Agrees fuel maximum buffer chunk =
    (ms : List CoapTcpMessage) (rest : Bytes)
    → Frames maximum (buffer ++ chunk) ms rest
    → feed_loop fuel maximum buffer chunk ≡ ok (ms, rest)

-- The buffer is empty, and the frames are in the chunk.
direct :
    (fuel maximum c : ℕ) (cs : Bytes) (ms : List CoapTcpMessage) (rest : Bytes)
    → ((n : ℕ) (ms' : List CoapTcpMessage)
        → 0 < n
        → Frames maximum (drop n (c ∷ cs)) ms' rest
        → feed_loop fuel maximum [] (drop n (c ∷ cs)) ≡ ok (ms', rest))
    → Frames maximum (c ∷ cs) ms rest
    → feed_loop (suc fuel) maximum [] (c ∷ cs) ≡ ok (ms, rest)
unfolding feed_loop
direct fuel maximum c cs [] rest later (e, inl s) = rw s (ground arith)
direct fuel maximum c cs [] rest later (e, inr (n, s, lt)) = rw s (ground arith)
direct fuel maximum c cs (m ∷ ms) rest later (n, s, le, p, h) =
    let whole : ltb (length (c ∷ cs)) n ≡ false = ground arith in
    rw (s, whole, p, later n ms (frame_size_positive (c ∷ cs) maximum n s) h) refl

-- The buffer announces a frame of `n` bytes.
filled :
    (fuel maximum n b c : ℕ) (bs cs : Bytes) (ms : List CoapTcpMessage) (rest : Bytes)
    → ((k : ℕ) (ms' : List CoapTcpMessage)
        → 0 < k
        → Frames maximum (drop k (c ∷ cs)) ms' rest
        → feed_loop fuel maximum [] (drop k (c ∷ cs)) ≡ ok (ms', rest))
    → frame_size_from_prefix (b ∷ bs) maximum ≡ ok (some n)
    → length (b ∷ bs) < n
    → Frames maximum (b ∷ (bs ++ (c ∷ cs))) ms rest
    → feed_loop (suc fuel) maximum (b ∷ bs) (c ∷ cs) ≡ ok (ms, rest)
unfolding feed_loop
filled fuel maximum n b c bs cs [] rest later s lt (e, stop) =
    let whole : frame_size_from_prefix (b ∷ (bs ++ (c ∷ cs))) maximum ≡ ok (some n) =
      frame_size-append (b ∷ bs) (c ∷ cs) maximum (λ none. ground arith) ∙ s in
    let short : length (b ∷ (bs ++ (c ∷ cs))) < n = Stopped-Pending maximum _ stop n whole in
    let size = length-append bs (c ∷ cs) in
    let taken : min (n - length (b ∷ bs)) (length (c ∷ cs)) ≡ length (c ∷ cs) =
      omega (arith, size) in
    let open_frame : ltb (length (b ∷ (bs ++ (c ∷ cs)))) n ≡ true = ground arith in
    rw (s, taken, take_all (length (c ∷ cs)) (c ∷ cs) (omega arith), open_frame) (ground arith)
filled fuel maximum n b c bs cs (m ∷ ms) rest later s lt (k, s', le, p, h) =
    let whole : frame_size_from_prefix (b ∷ (bs ++ (c ∷ cs))) maximum ≡ ok (some n) =
      frame_size-append (b ∷ bs) (c ∷ cs) maximum (λ none. ground arith) ∙ s in
    let same : k ≡ n = ground arith in
    let size = length-append bs (c ∷ cs) in
    let taken : min (n - length (b ∷ bs)) (length (c ∷ cs)) ≡ n - length (b ∷ bs) =
      omega (arith, size) in
    let frame : take n (b ∷ (bs ++ (c ∷ cs))) ≡ b ∷ (bs ++ take (n - length (b ∷ bs)) (c ∷ cs)) =
      take-append_ge n (b ∷ bs) (c ∷ cs) (omega arith) in
    let p' = rw frame at (rw same at p) in
    let h' = rw (drop-append_ge n (b ∷ bs) (c ∷ cs) (omega arith)) at (rw same at h) in
    let filled_up : ltb (length (b ∷ (bs ++ take (n - length (b ∷ bs)) (c ∷ cs)))) n ≡ false =
      ground (
        arith,
        length-append bs (take (n - length (b ∷ bs)) (c ∷ cs)),
        length-take (n - length (b ∷ bs)) (c ∷ cs),
      ) in
    rw (s, taken, filled_up, p', later (n - length (b ∷ bs)) ms (omega arith) h') refl

-- The length field is not complete: one more byte.
one_more :
    (fuel maximum b c : ℕ) (bs cs : Bytes) (ms : List CoapTcpMessage) (rest : Bytes)
    → frame_size_from_prefix (b ∷ bs) maximum ≡ ok none
    → feed_loop fuel maximum (b ∷ (bs ++ (c ∷ []))) cs ≡ ok (ms, rest)
    → feed_loop (suc fuel) maximum (b ∷ bs) (c ∷ cs) ≡ ok (ms, rest)
unfolding feed_loop
one_more fuel maximum b c bs cs ms rest s later = rw s later

end_of_chunk :
    (fuel maximum : ℕ) (buffer : Bytes) (ms : List CoapTcpMessage) (rest : Bytes)
    → Pending maximum buffer
    → Frames maximum buffer ms rest
    → feed_loop fuel maximum buffer [] ≡ ok (ms, rest)
unfolding feed_loop
end_of_chunk fuel maximum buffer [] rest p (e, _) = rw e refl
end_of_chunk fuel maximum buffer (m ∷ ms) rest p (n, s, le, _, _) = absurd (omega (arith, p n s))

-- Described bytes are acceptable so far.
Frames-frame_size :
    (maximum : ℕ) (bs : Bytes) (ms : List CoapTcpMessage) (rest : Bytes)
    → Frames maximum bs ms rest
    → (size : Option ℕ) × (frame_size_from_prefix bs maximum ≡ ok size)
Frames-frame_size maximum bs [] rest (e, inl s) = (none, s)
Frames-frame_size maximum bs [] rest (e, inr (n, s, _)) = (some n, s)
Frames-frame_size maximum bs (m ∷ ms) rest (n, s, _, _, _) = (some n, s)

-- Bytes that go on acceptably are so already.
pub frame_size-cases :
    (maximum : ℕ) (bs more : Bytes) (ms : List CoapTcpMessage) (rest : Bytes)
    → Frames maximum (bs ++ more) ms rest
    → (frame_size_from_prefix bs maximum ≡ ok none)
      ⊎ ((n : ℕ) × (frame_size_from_prefix bs maximum ≡ ok (some n)))
frame_size-cases maximum bs more ms rest h =
    elim (Result-cases (frame_size_from_prefix bs maximum)) [
      | inl (none, e) ↦ inl e
      | inl (some n, e) ↦ inr (n, e)
      | inr (x, e) ↦
          let (size, e') = Frames-frame_size maximum (bs ++ more) ms rest h in
          let same = frame_size-append bs more maximum (λ none. ground arith) in
          absurd (ground arith)
    ]

pub Pending-snoc :
    (maximum b c : ℕ) (bs : Bytes)
    → frame_size_from_prefix (b ∷ bs) maximum ≡ ok none
    → Pending maximum (b ∷ (bs ++ (c ∷ [])))
Pending-snoc maximum b c bs e n h = frame_size-snoc b c bs maximum n e h

-- With a round for each byte of the chunk.
pub feed_loop-Agrees :
    (fuel maximum : ℕ) (buffer chunk : Bytes)
    → Pending maximum buffer
    → length chunk ≤ fuel
    → Agrees fuel maximum buffer chunk
feed_loop-Agrees fuel maximum buffer [] p len ms rest h =
    end_of_chunk fuel maximum buffer ms rest p (rw append-nil at h)
feed_loop-Agrees zero maximum buffer (c ∷ cs) p len ms rest h = absurd (omega arith)
feed_loop-Agrees (suc fuel) maximum [] (c ∷ cs) p len ms rest h =
    direct fuel maximum c cs ms rest
      (λ k ms' pos h'.
        feed_loop-Agrees fuel maximum [] (drop k (c ∷ cs)) (Pending-empty maximum)
          (omega (arith, length-drop k (c ∷ cs))) ms' rest h')
      h
feed_loop-Agrees (suc fuel) maximum (b ∷ bs) (c ∷ cs) p len ms rest h =
    elim (frame_size-cases maximum (b ∷ bs) (c ∷ cs) ms rest h) [
      | inl e ↦ one_more fuel maximum b c bs cs ms rest e (
          feed_loop-Agrees fuel maximum (b ∷ (bs ++ (c ∷ []))) cs (Pending-snoc maximum b c bs e)
            (omega arith) ms rest (rw (append_assoc bs (c ∷ []) cs) h))
      | inr (n, e) ↦
          filled fuel maximum n b c bs cs ms rest
            (λ k ms' pos h'.
              feed_loop-Agrees fuel maximum [] (drop k (c ∷ cs)) (Pending-empty maximum)
                (omega (arith, length-drop k (c ∷ cs))) ms' rest h')
            e (p n e) h
    ]
