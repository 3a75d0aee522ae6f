-- ===== src/DtlsPsk/Reassembly/Splice.antt =====
-- A buffer and its marks, as fragments of a message are put into them.
use smart_things_local.Prelude.{
  ℕ, zero, suc, ◌+◌, ◌≤◌, ◌≡◌, refl, ap, ◌∙◌, Bool, true, false, not, List, [], ◌∷◌, ◌++◌, arith,
  length, take, drop, ◌==◌,
}
use mathlib.Core.Path.{subst}
use smart_things_local.Prelude.Bytes.{Bytes}
use smart_things_local.DtlsPsk.Transform.{repeat}
use smart_things_local.DtlsPsk.Reassembly.{splice, all_seen}
use smart_things_local.DtlsPsk.Reassembly.Spans.{Span, covered, all_covered}

-- A covered position holds the byte of the message and a mark, another no mark.
abbrev Cell : Bool → ℕ → ℕ → ℕ → Type 0
Cell true m b s = (s ≡ 1) × (b ≡ m)
Cell false m b s = s ≡ 0

-- The same of the positions from one on.
pub data Holds (spans : List Span) : ℕ → Bytes → Bytes → Bytes → Type 0 where
  past : {i : ℕ} → Holds spans i [] [] []
  cell :
      {i m b s : ℕ} {message buffer seen : Bytes}
      → Cell (covered spans i) m b s
      → Holds spans (suc i) message buffer seen
      → Holds spans i (m ∷ message) (b ∷ buffer) (s ∷ seen)

Cell-same : (c d : Bool) (m b s : ℕ) → c ≡ d → Cell c m b s → Cell d m b s
Cell-same c d m b s e h = subst (λ (x : Bool). Cell x m b s) e h

pub Holds-length :
    {spans : List Span} {i : ℕ} {message buffer seen : Bytes}
    → Holds spans i message buffer seen
    → (length buffer ≡ length message) × (length seen ≡ length message)
Holds-length past = (refl, refl)
Holds-length (cell c h) = let (x, y) = Holds-length h in (ap suc x, ap suc y)

pub new-Holds :
    (message : Bytes) (i : ℕ)
    → Holds [] i message (repeat (length message) 0) (repeat (length message) 0)
unfolding covered repeat
new-Holds [] i = past
new-Holds (m ∷ message) i = cell refl (new-Holds message (suc i))

Cell-mark : (c : Bool) (m b s : ℕ) → Cell c m b s → not (s == 0) ≡ c
Cell-mark true m b s (mark, byte) = ground arith
Cell-mark false m b s mark = ground arith

pub all_seen-Holds :
    {spans : List Span} {i : ℕ} {message buffer seen : Bytes}
    → Holds spans i message buffer seen
    → all_seen seen ≡ all_covered spans i (length message)
unfolding all_seen all_covered
all_seen-Holds past = refl
all_seen-Holds {spans = spans} {i = i} (cell {m = m} {b = b} {s = s} c h) =
    let here = Cell-mark (covered spans i) m b s c in let rest = all_seen-Holds h in ground arith

pub whole-Holds :
    {spans : List Span} {i : ℕ} {message buffer seen : Bytes}
    → Holds spans i message buffer seen
    → all_covered spans i (length message) ≡ true
    → buffer ≡ message
unfolding all_covered
whole-Holds past e = refl
whole-Holds {spans = spans} {i = i}
      (cell {m = m} {b = b} {s = s} {message = message} {buffer = buffer} c h) e =
    let here : covered spans i ≡ true = ground arith in
    let there : all_covered spans (suc i) (length message) ≡ true = ground arith in
    let (_, byte) = Cell-same (covered spans i) true m b s here c in
    ap (λ (x : ℕ). x ∷ buffer) byte ∙ ap (◌∷◌ m) (whole-Holds h there)

-- Putting a fragment in, byte by byte.
pub overwrite : Bytes → ℕ → Bytes → Bytes
overwrite (x ∷ xs) (suc off) body = x ∷ overwrite xs off body
overwrite (x ∷ xs) zero (b ∷ body) = b ∷ overwrite xs zero body
overwrite xs _ _ = xs

pub splice-overwrite :
    (target : Bytes) (off : ℕ) (body : Bytes)
    → off + length body ≤ length target
    → splice target off body ≡ overwrite target off body
unfolding splice overwrite
splice-overwrite [] zero [] h = refl
splice-overwrite [] zero (b ∷ body) h = absurd (omega arith)
splice-overwrite [] (suc off) body h = absurd (omega arith)
splice-overwrite (x ∷ xs) zero [] h = refl
splice-overwrite (x ∷ xs) zero (b ∷ body) h =
    let size : 0 + suc (length body) ≡ suc (0 + length body) = omega arith in
    ap (λ (n : ℕ). b ∷ (body ++ drop n (x ∷ xs))) size
    ∙ ap (◌∷◌ b) (splice-overwrite xs zero body (omega arith))
splice-overwrite (x ∷ xs) (suc off) body h =
    let size : suc off + length body ≡ suc (off + length body) = omega arith in
    ap (λ (n : ℕ). x ∷ (take off xs ++ (body ++ drop n (x ∷ xs)))) size
    ∙ ap (◌∷◌ x) (splice-overwrite xs off body (omega arith))

-- Behind the fragment nothing changes.
after-Holds :
    {spans : List Span} {i : ℕ} {message buffer seen : Bytes} (off size : ℕ)
    → Holds spans i message buffer seen
    → off + size ≤ i
    → Holds ((off, size) ∷ spans) i message buffer seen
unfolding covered
after-Holds off size past h = past
after-Holds {spans = spans} {i = i} off size (cell {m = m} {b = b} {s = s} c r) h =
    cell (Cell-same (covered spans i) (covered ((off, size) ∷ spans) i) m b s (ground arith) c)
      (after-Holds off size r (omega arith))

within-Holds :
    {spans : List Span} {i : ℕ} {message buffer seen : Bytes} (off size left : ℕ)
    → Holds spans i message buffer seen
    → off ≤ i
    → i + left ≡ off + size
    → left ≤ length message
    → Holds
        ((off, size) ∷ spans)
        i
        message
        (overwrite buffer 0 (take left message))
        (overwrite seen 0 (repeat left 1))
unfolding covered overwrite repeat
within-Holds off size zero past h e p = past
within-Holds off size (suc left) past h e p = absurd (omega arith)
within-Holds off size zero (cell c r) h e p = after-Holds off size (cell c r) (omega arith)
within-Holds {spans = spans} {i = i} off size (suc left) (cell {m = m} {b = b} {s = s} c r) h e p =
    cell (Cell-same true (covered ((off, size) ∷ spans) i) m m 1 (ground arith) (refl, refl))
      (within-Holds off size left r (omega arith) (omega arith) (omega arith))

pub overwrite-Holds :
    {spans : List Span} {i : ℕ} {message buffer seen : Bytes} (off size skip : ℕ)
    → Holds spans i message buffer seen
    → i + skip ≡ off
    → skip + size ≤ length message
    → Holds
        ((off, size) ∷ spans)
        i
        message
        (overwrite buffer skip (take size (drop skip message)))
        (overwrite seen skip (repeat size 1))
unfolding covered overwrite
overwrite-Holds off size zero h e p =
    within-Holds off size size h (omega arith) (omega arith) (omega arith)
overwrite-Holds off size (suc skip) past e p = absurd (omega arith)
overwrite-Holds {spans = spans} {i = i} off size (suc skip) (cell {m = m} {b = b} {s = s} c r) e p =
    cell (Cell-same (covered spans i) (covered ((off, size) ∷ spans) i) m b s (ground arith) c)
      (overwrite-Holds off size skip r (omega arith) (omega arith))
