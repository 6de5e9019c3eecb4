-- ===== src/Session/Replay/Ring.antt =====
-- The ring of bits: what marking and clearing a slot do to every slot.
use dave_go.Base.{
  ℕ, zero, suc, ◌+◌, ◌/◌, ◌%◌, ◌^◌, ◌≤◌, ◌<◌, ◌≡◌, ◌≢◌, ◌⊎◌, refl, sym, ap, ◌∙◌, arith, bit_and,
  bit_or, List, get_or, set, length, length-set, get_or-set_self, get_or-set_ne, true, false, ne→==,
  inl, inr,
}
use dave_go.Base.Bits.{
  bit_at, bit_at-le, bit_at-bit_and, bit_at-bit_or, bit_at-pow_self, bit_at-pow_ne,
  bit_and-pow_unset, bit_and-pow_set,
}
use dave_go.Base.Xor.{bit_at-bit_xor}
use native.Mathlib.Decide.{ℕ_discrete}
use dave_go.Session.Replay.{slot, and_not, AntiReplayWindow, mark, marked, clear_loop}

-- The bit of a nonce in the ring.
abbrev pub ring_bit : List ℕ → ℕ → ℕ
ring_bit bitmap n = bit_at (n % 1024 % 64) (get_or bitmap (n % 1024 / 64) 0)

ring_place : (n : ℕ) → (n % 1024 / 64 < 16) × (n % 1024 % 64 < 64)
ring_place n = omega arith

-- Two nonces share a bit exactly when they agree modulo the window.
same_place :
    (n m : ℕ) → n % 1024 / 64 ≡ m % 1024 / 64 → n % 1024 % 64 ≡ m % 1024 % 64 → n % 1024 ≡ m % 1024
same_place n m p q = omega arith

-- Writing a word whose digits are known, seen at every nonce.
module _ (bitmap : List ℕ) (size : length bitmap ≡ 16) (n word : ℕ) where
  abbrev written : List ℕ
  written = set bitmap (n % 1024 / 64) word

  ring_bit-written :
      (m : ℕ)
      → ((n % 1024 / 64 ≡ m % 1024 / 64) × (ring_bit written m ≡ bit_at (m % 1024 % 64) word))
        ⊎ ((n % 1024 / 64 ≢ m % 1024 / 64) × (ring_bit written m ≡ ring_bit bitmap m))
  ring_bit-written m = elim (ℕ_discrete (n % 1024 / 64) (m % 1024 / 64)) [
    | yes e ↦ inl (
      e,
      ap (bit_at (m % 1024 % 64)) (
          ap (λ (t : ℕ). get_or written t 0) (sym e)
          ∙ get_or-set_self bitmap (n % 1024 / 64) word 0 (omega (arith, ring_place n))),
    )
    | no d ↦ inr (
      d,
      ap (bit_at (m % 1024 % 64)) (get_or-set_ne bitmap (n % 1024 / 64) (m % 1024 / 64) word 0 d),
    )
  ]

module _ (bitmap : List ℕ) (size : length bitmap ≡ 16) (n : ℕ) where
  abbrev old_word : ℕ
  old_word = get_or bitmap (n % 1024 / 64) 0

  abbrev bit : ℕ
  bit = 2 ^ (n % 1024 % 64)

  old_digit :
      (m : ℕ) → n % 1024 / 64 ≡ m % 1024 / 64 → bit_at (m % 1024 % 64) old_word ≡ ring_bit bitmap m
  old_digit m e = ap (λ (t : ℕ). bit_at (m % 1024 % 64) (get_or bitmap t 0)) e

  -- Setting the bit of `n`.
  set-bit_self : ring_bit (set bitmap (n % 1024 / 64) (bit_or old_word bit)) n ≡ 1
  set-bit_self = elim (ring_bit-written bitmap size n (bit_or old_word bit) n) [
    | inl (e, d) ↦ omega (
      arith,
      d,
      bit_at-bit_or (n % 1024 % 64) old_word bit,
      bit_at-pow_self (n % 1024 % 64),
      bit_at-le (n % 1024 % 64) old_word,
    )
    | inr (d, e) ↦ absurd (d refl)
  ]

  set-bit_ne :
      (m : ℕ)
      → n % 1024 ≢ m % 1024
      → ring_bit (set bitmap (n % 1024 / 64) (bit_or old_word bit)) m ≡ ring_bit bitmap m
  set-bit_ne m ne = elim (ring_bit-written bitmap size n (bit_or old_word bit) m) [
    | inl (e, d) ↦ omega (
      arith,
      d,
      old_digit m e,
      bit_at-bit_or (m % 1024 % 64) old_word bit,
      bit_at-pow_ne (m % 1024 % 64) (n % 1024 % 64) (λ q. ne (same_place n m e (sym q))),
    )
    | inr (d, e) ↦ e
  ]

  -- Clearing it.
  clear_bit_self : ring_bit (set bitmap (n % 1024 / 64) (and_not old_word bit)) n ≡ 0
  clear_bit_self = elim (ring_bit-written bitmap size n (and_not old_word bit) n) [
    | inl (e, d) ↦ omega (
      arith,
      d,
      bit_at-bit_xor (n % 1024 % 64) old_word (bit_and old_word bit),
      bit_at-bit_and (n % 1024 % 64) old_word bit,
      bit_at-pow_self (n % 1024 % 64),
      bit_at-le (n % 1024 % 64) old_word,
    )
    | inr (d, e) ↦ absurd (d refl)
  ]

  clear_bit_ne :
      (m : ℕ)
      → n % 1024 ≢ m % 1024
      → ring_bit (set bitmap (n % 1024 / 64) (and_not old_word bit)) m ≡ ring_bit bitmap m
  clear_bit_ne m ne = elim (ring_bit-written bitmap size n (and_not old_word bit) m) [
    | inl (e, d) ↦ omega (
      arith,
      d,
      old_digit m e,
      bit_at-bit_xor (m % 1024 % 64) old_word (bit_and old_word bit),
      bit_at-bit_and (m % 1024 % 64) old_word bit,
      bit_at-le (m % 1024 % 64) old_word,
      bit_at-pow_ne (m % 1024 % 64) (n % 1024 % 64) (λ q. ne (same_place n m e (sym q))),
    )
    | inr (d, e) ↦ e
  ]

abbrev cleared : ℕ → List ℕ → List ℕ
cleared n bitmap =
    set bitmap (n % 1024 / 64) (and_not (get_or bitmap (n % 1024 / 64) 0) (2 ^ (n % 1024 % 64)))

-- `marked` reads the bit.
pub marked-ring_bit :
    (w : AntiReplayWindow) (n : ℕ)
    → ((ring_bit w.bitmap n ≡ 1) × (marked w n ≡ true))
      ⊎ ((ring_bit w.bitmap n ≡ 0) × (marked w n ≡ false))
unfolding marked slot
marked-ring_bit w n = elim (ℕ_discrete (ring_bit w.bitmap n) 0) [
  | yes e ↦ inr (e, rw (bit_and-pow_unset (n % 1024 % 64) (get_or w.bitmap (n % 1024 / 64) 0) e))
  | no d ↦
      let one : ring_bit w.bitmap n ≡ 1 =
        omega (arith, bit_at-le (n % 1024 % 64) (get_or w.bitmap (n % 1024 / 64) 0)) in
      inl (
        one,
        rw (ne→== _ 0 (bit_and-pow_set (n % 1024 % 64) (get_or w.bitmap (n % 1024 / 64) 0) one)),
      )
]

-- `mark` sets the bit of its nonce and no other.
pub mark-ring_bit :
    (w : AntiReplayWindow) (n : ℕ)
    → length w.bitmap ≡ 16
    → (ring_bit (mark w n).bitmap n ≡ 1)
      × ((m : ℕ) → n % 1024 ≢ m % 1024 → ring_bit (mark w n).bitmap m ≡ ring_bit w.bitmap m)
      × (length (mark w n).bitmap ≡ 16)
unfolding mark slot
mark-ring_bit w n size =
    (set-bit_self w.bitmap size n, set-bit_ne w.bitmap size n, length-set w.bitmap _ _ ∙ size)

clear_loop_step :
    (n : ℕ) (bitmap : List ℕ)
    → length bitmap ≡ 16
    → (length (cleared n bitmap) ≡ 16)
      × (ring_bit (cleared n bitmap) n ≡ 0)
      × ((m : ℕ) → n % 1024 ≢ m % 1024 → ring_bit (cleared n bitmap) m ≡ ring_bit bitmap m)
clear_loop_step n bitmap size =
    (length-set bitmap _ _ ∙ size, clear_bit_self bitmap size n, clear_bit_ne bitmap size n)

-- The loop clears the slots that it passes and no others, as long as it passes none twice.
pub clear_loop-ring_bit :
    (rounds n : ℕ) (bitmap : List ℕ)
    → length bitmap ≡ 16
    → rounds ≤ 1024
    → (length (clear_loop rounds n bitmap) ≡ 16)
      × ((m : ℕ) → n ≤ m → m < n + rounds → ring_bit (clear_loop rounds n bitmap) m ≡ 0)
      × ((m : ℕ)
          → ((k : ℕ) → n ≤ k → k < n + rounds → k % 1024 ≢ m % 1024)
          → ring_bit (clear_loop rounds n bitmap) m ≡ ring_bit bitmap m)
unfolding clear_loop slot
clear_loop-ring_bit zero n bitmap size few =
    (size, (λ m p q. absurd (omega arith)), (λ m apart. refl))
clear_loop-ring_bit (suc rounds) n bitmap size few =
    let step = clear_loop_step n bitmap size in
    let rest = clear_loop-ring_bit rounds (n + 1) (cleared n bitmap) step.0 (omega arith) in
    (
      rest.0,
      (λ m p q. elim (ℕ_discrete m n) [
        | yes e ↦ rest.2 m (λ k a b. omega arith) ∙ ap (ring_bit (cleared n bitmap)) e ∙ step.1
        | no d ↦ rest.1 m (omega arith) (omega arith)
      ]),
      (λ m apart.
          rest.2 m (λ k a b. apart k (omega arith) (omega arith))
          ∙ step.2 m (apart n (omega arith) (omega arith))),
    )
