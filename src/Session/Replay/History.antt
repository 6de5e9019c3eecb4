-- ===== src/Session/Replay/History.antt =====
-- What the window promises: a list of all accepted nonces, with no ring.
pub mod Refine
use dave_go.Base.{
  ℕ, zero, suc, ◌+◌, ◌-◌, ◌/◌, ◌%◌, ◌≤◌, ◌<◌, ◌≡◌, ◌≢◌, ◌⊎◌, refl, sym, ap, ◌∙◌, arith, max, List,
  [], ◌∷◌, length, get_or, replicate, Bool, true, false, not, ◌&&◌, ◌||◌, ltb, leb, ◌==◌,
  if◌then◌else◌, Bool-cases, inl, inr, eq→==, ne→==, ==→eq, ==→ne, ltb→lt, ltb→le, lt→ltb, le→ltb,
  leb→le, le→leb, leb→gt, gt→leb, get_or-replicate,
}
use native.Mathlib.Decide.{ℕ_discrete, dec_le}
use dave_go.Base.Bits.{bit_at, bit_at-zero}
use dave_go.Session.Replay.{
  AntiReplayWindow, new_window, empty_bitmap, mark, marked, advance, clear_loop, check_and_mark,
  reset,
}
use dave_go.Session.Replay.Ring.{ring_bit, marked-ring_bit, mark-ring_bit, clear_loop-ring_bit}

pub contains : List ℕ → ℕ → Bool
contains [] n = false
contains (x ∷ xs) n = x == n || contains xs n

pub highest_of : List ℕ → ℕ
highest_of [] = 0
highest_of (x ∷ xs) = max x (highest_of xs)

-- A nonce is accepted when it is new and less than 1024 below the highest accepted one.
pub history_check : List ℕ → ℕ → List ℕ × Bool
history_check accepted nonce =
    if not (contains accepted nonce) && ltb (highest_of accepted) (nonce + 1024)
    then (nonce ∷ accepted, true)
    else (accepted, false)

pub contains-le : (xs : List ℕ) (n : ℕ) → contains xs n ≡ true → n ≤ highest_of xs
unfolding contains highest_of
contains-le [] n h = cc
contains-le (x ∷ xs) n h = ground (arith, contains-le xs n)

pub not-contains_above : (xs : List ℕ) (n : ℕ) → highest_of xs < n → contains xs n ≡ false
not-contains_above xs n h = elim (Bool-cases (contains xs n)) [
  | inl e ↦ absurd (omega (arith, contains-le xs n e))
  | inr e ↦ e
]

abbrev pub to_bit : Bool → ℕ
to_bit true = 1
to_bit false = 0

-- A used window against the nonces it accepted.
pub record Tracks (w : AntiReplayWindow) (accepted : List ℕ) : Type 0 where
  pub size : length w.bitmap ≡ 16
  pub used : w.seen ≡ true
  pub top : w.highest ≡ highest_of accepted
  pub bits :
      (m : ℕ)
      → m ≤ w.highest
      → w.highest < m + 1024
      → ring_bit w.bitmap m ≡ to_bit (contains accepted m)

-- A window that has seen nothing: after construction or `reset`.
pub record IsFresh (w : AntiReplayWindow) (accepted : List ℕ) : Type 0 where
  pub size : length w.bitmap ≡ 16
  pub unused : w.seen ≡ false
  pub none_accepted : accepted ≡ []
  pub clear : (m : ℕ) → ring_bit w.bitmap m ≡ 0

abbrev pub Refines : AntiReplayWindow → List ℕ → Type 0
Refines w accepted = IsFresh w accepted ⊎ Tracks w accepted

-- Marking the nonce that the highest one has been set to, or one below it.
pub mark-Tracks :
    (w : AntiReplayWindow) (accepted : List ℕ) (n : ℕ)
    → length w.bitmap ≡ 16
    → w.seen ≡ true
    → w.highest ≡ max n (highest_of accepted)
    → w.highest < n + 1024
    → ((m : ℕ)
        → m ≤ w.highest
        → w.highest < m + 1024
        → m ≢ n
        → ring_bit w.bitmap m ≡ to_bit (contains accepted m))
    → Tracks (mark w n) (n ∷ accepted)
unfolding mark highest_of
mark-Tracks w accepted n size used top near bits = record {
  size = (mark-ring_bit w n size).2;
  used = used;
  top = top;
  bits = λ m low high. elim (ℕ_discrete m n) [
    | yes e ↦
        ap (ring_bit (mark w n).bitmap) e
        ∙ (mark-ring_bit w n size).0
        ∙ (unfold contains in rw (eq→== n m (sym e)))
    | no d ↦
        (mark-ring_bit w n size).1 m (λ q. d (omega arith))
        ∙ bits m low high d
        ∙ (unfold contains in rw (ne→== n m (λ q. d (sym q))))
  ];
}

pub first-Tracks :
    (w : AntiReplayWindow) (n : ℕ)
    → IsFresh w []
    → Tracks (mark (record w { highest = n; seen = true }) n) (n ∷ [])
unfolding highest_of
first-Tracks w n f =
    mark-Tracks (record w { highest = n; seen = true }) [] n f.size refl (omega arith) (omega arith)
      (λ m low high d. f.clear m ∙ (unfold contains in refl))

pub empty-ring_bit : (m : ℕ) → ring_bit empty_bitmap m ≡ 0
empty-ring_bit m =
    ap (bit_at (m % 1024 % 64)) (get_or-replicate 16 (m % 1024 / 64) 0)
    ∙ bit_at-zero (m % 1024 % 64)

advance_far :
    (w : AntiReplayWindow) (accepted : List ℕ) (n : ℕ)
    → Tracks w accepted
    → 1024 ≤ n - w.highest
    → Tracks (mark (record w { highest = n; bitmap = empty_bitmap }) n) (n ∷ accepted)
advance_far w accepted n t far =
    mark-Tracks (record w { highest = n; bitmap = empty_bitmap }) accepted n refl t.used
      (omega (arith, t.top)) (omega arith)
      (λ m low high d. empty-ring_bit m ∙ rw (not-contains_above accepted m (omega (arith, t.top))))

-- The window moved up within itself: only the slots of the skipped nonces are cleared.
abbrev moved : AntiReplayWindow → ℕ → AntiReplayWindow
moved w n = record w {
  highest = n;
  bitmap = clear_loop (n - (w.highest + 1)) (w.highest + 1) w.bitmap;
}

advance_close :
    (w : AntiReplayWindow) (accepted : List ℕ) (n : ℕ)
    → Tracks w accepted
    → w.highest < n
    → n - w.highest < 1024
    → Tracks (mark (moved w n) n) (n ∷ accepted)
advance_close w accepted n t new close =
    let loop =
      clear_loop-ring_bit (n - (w.highest + 1)) (w.highest + 1) w.bitmap t.size (omega arith) in
    mark-Tracks (moved w n) accepted n loop.0 t.used (omega (arith, t.top)) (omega arith)
      (λ m low high d. elim (dec_le m w.highest) [
        | yes old ↦ loop.2 m (λ k a b. omega arith) ∙ t.bits m old (omega arith)
        | no skipped ↦
            loop.1 m (omega arith) (omega arith)
            ∙ rw (not-contains_above accepted m (omega (arith, t.top)))
      ])

pub advance-Tracks :
    (w : AntiReplayWindow) (accepted : List ℕ) (n : ℕ)
    → Tracks w accepted
    → w.highest < n
    → Tracks (mark (advance w n) n) (n ∷ accepted)
unfolding advance
advance-Tracks w accepted n t new = elim (Bool-cases (leb 1024 (n - w.highest))) [
  | inl far ↦ rw far (advance_far w accepted n t (leb→le _ _ far))
  | inr close ↦ rw close (advance_close w accepted n t new (leb→gt _ _ close))
]
