-- ===== src/DtlsPsk/Client/Handshake/Frame.antt =====
-- What the handshake messages of the server leave as it is.
use smart_things_local.Prelude.{
  ℕ, ◌≤◌, ◌≡◌, inl, inr, refl, sym, ap, ◌∙◌, Bool, true, false, length, arith, if◌then◌else◌,
  Bool-cases,
}
use smart_things_local.Errors.{Result, ok, err}
use smart_things_local.Session.Pending.{nat_eq}
use smart_things_local.DtlsPsk.Client.{Client, Action, is_established, max_outbox, next_if_ok}
use smart_things_local.DtlsPsk.Client.Emit.Frame.{is_stuck, Emits, Emitted}

pub clash : {A : Type 0} (b : Bool) → b ≡ true → b ≡ false → A
clash b t f = absurd (ground arith)

module _ {Key : Type 0} where
  -- What is kept, a bound of the table of ready messages from `k` on among it; and a session is established only by a step of a client that reads protected records.
  pub record Frame (k : ℕ) (c c' : Client Key) : Type 0 where
    pub inbox_same : c'.inbox ≡ c.inbox
    pub appdata_same : c'.appdata ≡ c.appdata
    pub windows_same : c'.recv_windows ≡ c.recv_windows
    pub active_same : c'.read_active ≡ c.read_active
    pub outbox_fits : length c.outbox ≤ max_outbox → length c'.outbox ≤ max_outbox
    pub pending_fits : length c.pending ≤ 16 → length c'.pending ≤ 16
    pub ready_fits : (n : ℕ) → k ≤ n → length c.ready ≤ n → length c'.ready ≤ n
    pub active_only :
        is_established c'.phase ≡ true → is_established c.phase ≡ false → c.read_active ≡ true

  pub Frame-trans : {k : ℕ} {a b c : Client Key} → Frame k a b → Frame k b c → Frame k a c
  Frame-trans {a = a} {b = b} f g = record {
    inbox_same = g.inbox_same ∙ f.inbox_same;
    appdata_same = g.appdata_same ∙ f.appdata_same;
    windows_same = g.windows_same ∙ f.windows_same;
    active_same = g.active_same ∙ f.active_same;
    outbox_fits = λ h. g.outbox_fits (f.outbox_fits h);
    pending_fits = λ h. g.pending_fits (f.pending_fits h);
    ready_fits = λ n l h. g.ready_fits n l (f.ready_fits n l h);
    active_only = λ e n. elim (Bool-cases (is_established b.phase)) [
      | inl t ↦ f.active_only t n
      | inr o ↦ sym f.active_same ∙ g.active_only e o
    ];
  }

  abbrev pub Framed : {A : Type 0} → ℕ → Client Key → Client Key × Result A → Type 0
  Framed k c (c', r) = Frame k c c' × (is_stuck r ≡ false)

  -- A change of fields that are not told of, of the phase, and of the tables.
  pub Frame-intro :
      {k : ℕ} (c c' : Client Key)
      → c'.inbox ≡ c.inbox
      → c'.appdata ≡ c.appdata
      → c'.recv_windows ≡ c.recv_windows
      → c'.read_active ≡ c.read_active
      → c'.outbox ≡ c.outbox
      → (length c.pending ≤ 16 → length c'.pending ≤ 16)
      → ((n : ℕ) → k ≤ n → length c.ready ≤ n → length c'.ready ≤ n)
      → (is_established c'.phase ≡ true → is_established c.phase ≡ false → c.read_active ≡ true)
      → Frame k c c'
  Frame-intro c c' a b d e f g h i = record {
    inbox_same = a;
    appdata_same = b;
    windows_same = d;
    active_same = e;
    outbox_fits = λ o. rw f o;
    pending_fits = g;
    ready_fits = h;
    active_only = i;
  }

  pub Emits-Frame : {k : ℕ} (c c' : Client Key) → Emits c c' → Frame k c c'
  Emits-Frame c c' f = record {
    inbox_same = f.inbox_same;
    appdata_same = f.appdata_same;
    windows_same = f.windows_same;
    active_same = f.active_same;
    outbox_fits = f.outbox_fits;
    pending_fits = λ h. rw f.pending_same h;
    ready_fits = λ n l h. rw f.ready_same h;
    active_only =
        λ e n. clash (is_established c.phase) (sym (ap is_established f.phase_same) ∙ e) n;
  }

  pub Frame-refl : {k : ℕ} (c : Client Key) → Frame k c c
  Frame-refl c =
      Frame-intro c c refl refl refl refl refl (λ h. h) (λ n l h. h)
        (λ e n. clash (is_established c.phase) e n)

  pub if-Framed :
      {k : ℕ} {A : Type 0} {c : Client Key} (b : Bool) (p q : Client Key × Result A)
      → (b ≡ true → Framed k c p)
      → (b ≡ false → Framed k c q)
      → Framed k c (if b then p else q)
  if-Framed true p q h k = h refl
  if-Framed false p q h k = k refl

  pub if-Frame :
      {k : ℕ} {c : Client Key} (b : Bool) (p q : Client Key)
      → (b ≡ true → Frame k c p)
      → (b ≡ false → Frame k c q)
      → Frame k c (if b then p else q)
  if-Frame true p q h k = h refl
  if-Frame false p q h k = k refl

  pub next_if_ok-Framed :
      {k : ℕ} {A B : Type 0} {c : Client Key} (p : Client Key × Result A) (next : A → Action Key B)
      → Framed k c p
      → ((a : A) (c' : Client Key) → Framed k c' (next a c'))
      → Framed k c (next_if_ok p next)
  unfolding is_stuck
  next_if_ok-Framed (c', err e) next (f, q) h = (f, q)
  next_if_ok-Framed (c', ok a) next (f, q) h = let (g, r) = h a c' in (Frame-trans f g, r)

  pub after-Framed :
      {k : ℕ} {A : Type 0} {c c' : Client Key} (p : Client Key × Result A)
      → Frame k c c'
      → Framed k c' p
      → Framed k c p
  after-Framed (d, r) f (g, q) = (Frame-trans f g, q)

  pub Emitted-Framed :
      {k : ℕ} {A : Type 0} {c : Client Key} (p : Client Key × Result A) → Emitted c p → Framed k c p
  Emitted-Framed {c = c} (d, r) (f, q) = (Emits-Frame c d f, q)
