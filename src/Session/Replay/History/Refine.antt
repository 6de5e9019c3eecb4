-- ===== src/Session/Replay/History/Refine.antt =====
-- The window against the list of accepted nonces.
use dave_go.Base.{
  ℕ, ◌+◌, ◌-◌, ◌≤◌, ◌<◌, ◌≡◌, refl, sym, ap, subst, ◌∙◌, arith, List, [], ◌∷◌, Bool, true, false,
  ltb, leb, Bool-cases, inl, inr, eq→==, ltb→lt, ltb→le, lt→ltb, le→ltb, le→leb, leb→le, leb→gt,
  gt→leb,
}
use dave_go.Session.Replay.{
  AntiReplayWindow, new_window, mark, marked, advance, check_and_mark, reset,
}
use dave_go.Session.Replay.Ring.{ring_bit, marked-ring_bit}
use dave_go.Session.Replay.History.{
  contains, highest_of, history_check, to_bit, Tracks, IsFresh, Refines, not-contains_above,
  mark-Tracks, first-Tracks, empty-ring_bit, advance-Tracks,
}

module _ (w : AntiReplayWindow) (nonce : ℕ) where
  pub check_first :
      w.seen ≡ false
      → check_and_mark w nonce ≡ (mark (record w { highest = nonce; seen = true }) nonce, true)
  unfolding check_and_mark
  check_first e = rw e refl

  check_above :
      w.seen ≡ true
      → w.highest < nonce
      → check_and_mark w nonce ≡ (mark (advance w nonce) nonce, true)
  unfolding check_and_mark
  check_above e h = simp (e, lt→ltb _ _ h) refl

  check_old :
      w.seen ≡ true
      → nonce ≤ w.highest
      → 1024 ≤ w.highest - nonce
      → check_and_mark w nonce ≡ (w, false)
  unfolding check_and_mark
  check_old e h far = simp (e, le→ltb _ _ h, le→leb _ _ far) refl

  check_marked :
      w.seen ≡ true
      → nonce ≤ w.highest
      → w.highest - nonce < 1024
      → marked w nonce ≡ true
      → check_and_mark w nonce ≡ (w, false)
  unfolding check_and_mark
  check_marked e h near m = simp (e, le→ltb _ _ h, gt→leb _ _ near, m) refl

  check_inside :
      w.seen ≡ true
      → nonce ≤ w.highest
      → w.highest - nonce < 1024
      → marked w nonce ≡ false
      → check_and_mark w nonce ≡ (mark w nonce, true)
  unfolding check_and_mark
  check_inside e h near m = simp (e, le→ltb _ _ h, gt→leb _ _ near, m) refl

-- The specification's two answers.
history_new :
    (accepted : List ℕ) (nonce : ℕ)
    → contains accepted nonce ≡ false
    → highest_of accepted < nonce + 1024
    → history_check accepted nonce ≡ (nonce ∷ accepted, true)
unfolding history_check
history_new accepted nonce e h = rw (e, lt→ltb _ _ h) refl

history_known :
    (accepted : List ℕ) (nonce : ℕ)
    → contains accepted nonce ≡ true
    → history_check accepted nonce ≡ (accepted, false)
unfolding history_check
history_known accepted nonce e = rw e refl

history_old :
    (accepted : List ℕ) (nonce : ℕ)
    → nonce + 1024 ≤ highest_of accepted
    → history_check accepted nonce ≡ (accepted, false)
unfolding history_check
history_old accepted nonce h = elim (Bool-cases (contains accepted nonce)) [
  | inl e ↦ rw e refl
  | inr e ↦ rw (e, le→ltb _ _ h) refl
]

marked-one : (w : AntiReplayWindow) (n : ℕ) → ring_bit w.bitmap n ≡ 1 → marked w n ≡ true
marked-one w n e = elim (marked-ring_bit w n) [
  | inl (d, m) ↦ m
  | inr (d, m) ↦ absurd (omega (arith, d, e))
]

marked-zero : (w : AntiReplayWindow) (n : ℕ) → ring_bit w.bitmap n ≡ 0 → marked w n ≡ false
marked-zero w n e = elim (marked-ring_bit w n) [
  | inl (d, m) ↦ absurd (omega (arith, d, e))
  | inr (d, m) ↦ m
]

-- One check against the specification: the same answer, and the relation kept.
abbrev pub Agrees : AntiReplayWindow × Bool → List ℕ × Bool → Type 0
Agrees (w, answer) (accepted, promised) = (answer ≡ promised) × Refines w accepted

module _ (w : AntiReplayWindow) (accepted : List ℕ) (nonce : ℕ) where
  fresh-Agrees : IsFresh w accepted → Agrees (check_and_mark w nonce) (history_check accepted nonce)
  fresh-Agrees f =
      rw
        (
          check_first w nonce f.unused,
          history_new accepted nonce (rw f.none_accepted (unfold contains in refl))
              (rw f.none_accepted (unfold highest_of in omega arith)),
          f.none_accepted,
        )
        (refl, inr (first-Tracks w nonce (subst (IsFresh w) f.none_accepted f)))

  old-Agrees :
      Tracks w accepted
      → nonce ≤ w.highest
      → Agrees (check_and_mark w nonce) (history_check accepted nonce)
  old-Agrees t low = elim (Bool-cases (leb 1024 (w.highest - nonce))) [
    | inl far ↦
        rw
          (
            check_old w nonce t.used low (leb→le _ _ far),
            history_old accepted nonce (omega (arith, t.top, leb→le _ _ far)),
          )
          (refl, inr t)
    | inr near ↦ inside (leb→gt _ _ near)
  ]
    where
      inside :
          w.highest - nonce < 1024 → Agrees (check_and_mark w nonce) (history_check accepted nonce)
      inside near =
          let digit = t.bits nonce low (omega arith) in
          elim (Bool-cases (contains accepted nonce)) [
            | inl known ↦
                rw
                  (
                    check_marked w nonce t.used low near
                        (marked-one w nonce (digit ∙ ap to_bit known)),
                    history_known accepted nonce known,
                  )
                  (refl, inr t)
            | inr new ↦
                rw
                  (
                    check_inside w nonce t.used low near
                        (marked-zero w nonce (digit ∙ ap to_bit new)),
                    history_new accepted nonce new (omega (arith, t.top)),
                  )
                  (
                    refl,
                    inr (
                        mark-Tracks w accepted nonce t.size t.used (omega (arith, t.top))
                          (omega arith) (λ m a b d. t.bits m a b)),
                  )
          ]

  used-Agrees : Tracks w accepted → Agrees (check_and_mark w nonce) (history_check accepted nonce)
  used-Agrees t = elim (Bool-cases (ltb w.highest nonce)) [
    | inl above ↦
        let h : w.highest < nonce = ltb→lt _ _ above in
        rw
          (
            check_above w nonce t.used h,
            history_new accepted nonce (not-contains_above accepted nonce (omega (arith, t.top)))
                (omega (arith, t.top)),
          )
          (refl, inr (advance-Tracks w accepted nonce t h))
    | inr below ↦ old-Agrees t (ltb→le _ _ below)
  ]

-- A window that stands for a list of accepted nonces answers every check as the list does, and
-- then stands for the list that the check leaves.
pub check_and_mark-Refines :
    (w : AntiReplayWindow) (accepted : List ℕ) (nonce : ℕ)
    → Refines w accepted
    → ((check_and_mark w nonce).1 ≡ (history_check accepted nonce).1)
      × Refines (check_and_mark w nonce).0 (history_check accepted nonce).0
check_and_mark-Refines w accepted nonce (inl f) = fresh-Agrees w accepted nonce f
check_and_mark-Refines w accepted nonce (inr t) = used-Agrees w accepted nonce t

-- The window after a reset, whatever it held, stands for no accepted nonce.
pub reset-Refines : (w : AntiReplayWindow) → Refines (reset w) []
unfolding reset
reset-Refines w =
    inl (record { size = refl; unused = refl; none_accepted = refl; clear = empty-ring_bit })

pub new_window-Refines : Refines new_window []
new_window-Refines =
    inl (record { size = refl; unused = refl; none_accepted = refl; clear = empty-ring_bit })

-- The checks of a sequence of nonces, one after the other: the window they leave.
pub check_all : AntiReplayWindow → List ℕ → AntiReplayWindow
check_all w [] = w
check_all w (n ∷ ns) = check_all (check_and_mark w n).0 ns

history_all : List ℕ → List ℕ → List ℕ
history_all accepted [] = accepted
history_all accepted (n ∷ ns) = history_all (history_check accepted n).0 ns

check_all-Refines :
    (w : AntiReplayWindow) (accepted ns : List ℕ)
    → Refines w accepted
    → Refines (check_all w ns) (history_all accepted ns)
unfolding check_all history_all
check_all-Refines w accepted [] r = r
check_all-Refines w accepted (n ∷ ns) r =
    check_all-Refines (check_and_mark w n).0 (history_check accepted n).0 ns
      (check_and_mark-Refines w accepted n r).1

history_check-keeps :
    (accepted : List ℕ) (n m : ℕ)
    → contains accepted m ≡ true
    → contains (history_check accepted n).0 m ≡ true
unfolding history_check contains
history_check-keeps accepted n m h = ground arith

history_all-keeps :
    (accepted ns : List ℕ) (m : ℕ)
    → contains accepted m ≡ true
    → contains (history_all accepted ns) m ≡ true
unfolding history_all
history_all-keeps accepted [] m h = h
history_all-keeps accepted (n ∷ ns) m h =
    history_all-keeps (history_check accepted n).0 ns m (history_check-keeps accepted n m h)

history_check-accepts :
    (accepted : List ℕ) (n : ℕ)
    → (history_check accepted n).1 ≡ true
    → contains (history_check accepted n).0 n ≡ true
unfolding history_check contains
history_check-accepts accepted n h = ground (arith, eq→== n n refl)

-- A nonce that a window has accepted is refused from then on, whatever is checked in between, if the
-- window stood for a list of accepted nonces.
pub no_replay :
    (w : AntiReplayWindow) (accepted : List ℕ) (n : ℕ) (between : List ℕ)
    → Refines w accepted
    → (check_and_mark w n).1 ≡ true
    → (check_and_mark (check_all (check_and_mark w n).0 between) n).1 ≡ false
no_replay w accepted n between r h =
    let first = check_and_mark-Refines w accepted n r in
    let later =
      check_all-Refines (check_and_mark w n).0 (history_check accepted n).0 between first.1 in
    let known =
      history_all-keeps (history_check accepted n).0 between n
        (history_check-accepts accepted n (sym first.0 ∙ h)) in
    (check_and_mark-Refines (check_all (check_and_mark w n).0 between)
      (history_all (history_check accepted n).0 between) n later).0
    ∙ ap (λ (p : List ℕ × Bool). p.1)
        (history_known (history_all (history_check accepted n).0 between) n known)
