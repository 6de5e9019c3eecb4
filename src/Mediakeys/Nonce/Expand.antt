-- ===== src/Mediakeys/Nonce/Expand.antt =====
-- The expansion of truncated nonces: one nonce, and a stream of them.
use dave_go.Base.{
  ℕ, ◌+◌, ◌-◌, ◌*◌, ◌/◌, ◌%◌, ◌^◌, ◌<◌, ◌≡◌, refl, ap, ◌∙◌, arith, max, bit_or, List, [], ◌∷◌, map,
  true, ltb, Bool-cases, inl, inr, ltb→lt, ltb→le,
}
use dave_go.Base.Bits.{bit_or-add_low}
use dave_go.Mediakeys.Nonce.{
  truncated_nonce_from_counter, NonceExpander, new_nonce_expander, abs_diff, in_cycle, nearest,
  nearest_of_expand, expand_tentative, expand, commit,
}

in_cycle-add : (c t : ℕ) → c < 2 ^ 32 → t < 2 ^ 32 → in_cycle c t ≡ c * 2 ^ 32 + t
unfolding in_cycle
in_cycle-add c t hc ht = ap (λ (k : ℕ). bit_or k t) (omega arith) ∙ bit_or-add_low 32 c t ht

-- The cycle above the last one wraps round to the first.
in_cycle-above :
    (c t : ℕ)
    → c < 2 ^ 32
    → t < 2 ^ 32
    → in_cycle ((c + 1) % 2 ^ 64) t ≡ (c + 1) % 2 ^ 32 * 2 ^ 32 + t
unfolding in_cycle
in_cycle-above c t hc ht =
    ap (λ (k : ℕ). bit_or k t) (omega arith) ∙ bit_or-add_low 32 ((c + 1) % 2 ^ 32) t ht

-- Two numbers are within half a cycle of each other.
abbrev pub Near : ℕ → ℕ → Type 0
Near a b = (a < b + 2 ^ 31) × (b < a + 2 ^ 31)

pub nearest-full :
    (highest full : ℕ)
    → highest < 2 ^ 64
    → full < 2 ^ 64
    → Near full highest
    → nearest highest (full % 2 ^ 32) ≡ full
unfolding nearest abs_diff
nearest-full highest full hh hf near =
    rw
      (
        in_cycle-add (highest / 2 ^ 32) (full % 2 ^ 32) (omega arith) (omega arith),
        in_cycle-add (highest / 2 ^ 32 - 1) (full % 2 ^ 32) (omega arith) (omega arith),
        in_cycle-above (highest / 2 ^ 32) (full % 2 ^ 32) (omega arith) (omega arith),
      )
      (ground arith)

nearest_of_expand-nearest :
    (highest truncated : ℕ) → nearest_of_expand highest truncated ≡ nearest highest truncated
unfolding nearest nearest_of_expand
nearest_of_expand-nearest highest truncated = refl

module _ (e : NonceExpander) where
  -- `Expand` is `ExpandTentative` with its result committed at once.
  pub expand-commit :
      (truncated : ℕ)
      → expand e truncated ≡ (commit e (expand_tentative e truncated), expand_tentative e truncated)
  unfolding expand expand_tentative commit
  expand-commit truncated = elim (Bool-cases e.initialized) [
    | inl used ↦ elim (Bool-cases (ltb e.highest_seen (nearest e.highest_seen truncated))) [
      | inl new ↦ simp (used, nearest_of_expand-nearest e.highest_seen truncated, new) refl
      | inr old ↦ simp (used, nearest_of_expand-nearest e.highest_seen truncated, old) refl
    ]
    | inr fresh ↦ simp fresh refl
  ]

  -- The nonce that a sender truncated is recovered from its low 32 bits, when it lies less than
  -- half a cycle from the highest nonce seen, on either side and across the end of a cycle.
  pub expand_tentative-truncated :
      (full : ℕ)
      → e.initialized ≡ true
      → e.highest_seen < 2 ^ 64
      → full < 2 ^ 64
      → Near full e.highest_seen
      → expand_tentative e (truncated_nonce_from_counter full) ≡ full
  unfolding expand_tentative truncated_nonce_from_counter
  expand_tentative-truncated full used hh hf near =
      rw used (nearest-full e.highest_seen full hh hf near)

commit-highest :
    (e : NonceExpander) (n : ℕ)
    → e.initialized ≡ true
    → ((commit e n).initialized ≡ true) × ((commit e n).highest_seen ≡ max n e.highest_seen)
unfolding commit
commit-highest e n used = elim (Bool-cases (ltb e.highest_seen n)) [
  | inl new ↦ simp (used, new) (refl, omega (arith, ltb→lt _ _ new))
  | inr old ↦ simp (used, old) (refl, omega (arith, ltb→le _ _ old))
]

-- Nonces that arrive one by one, each less than half a cycle from the highest one before it.
abbrev pub Stream : ℕ → List ℕ → Type 0
Stream highest [] = highest < 2 ^ 64
Stream highest (n ∷ ns) =
    (n < 2 ^ 64) × Near n highest × (highest < 2 ^ 64) × Stream (max n highest) ns

pub expand_all : NonceExpander → List ℕ → List ℕ
expand_all e [] = []
expand_all e (t ∷ ts) = (expand e t).1 ∷ expand_all (expand e t).0 ts

-- A whole stream of nonces, reordered and across cycles, is recovered from the truncated ones.
pub expand_all-truncated :
    (e : NonceExpander) (ns : List ℕ)
    → e.initialized ≡ true
    → Stream e.highest_seen ns
    → expand_all e (map truncated_nonce_from_counter ns) ≡ ns
unfolding expand_all
expand_all-truncated e [] used s = refl
expand_all-truncated e (n ∷ ns) used s =
    let found = expand_tentative-truncated e n used s.2 s.0 s.1 in
    let after = commit-highest e n used in
    let rest = expand_all-truncated (commit e n) ns after.0 (rw after.1 s.3) in
    rw (expand-commit e (truncated_nonce_from_counter n), found) (ap (◌∷◌ n) rest)

-- A new expander recovers a stream of nonces from the truncated ones when the first is below 2^32
-- and each later one is below 2^64 and less than half a cycle from the highest before it.
pub expand_all-first :
    (n : ℕ) (ns : List ℕ)
    → n < 2 ^ 32
    → Stream n ns
    → expand_all new_nonce_expander (map truncated_nonce_from_counter (n ∷ ns)) ≡ n ∷ ns
unfolding expand_all expand
expand_all-first n ns h s =
    let same : truncated_nonce_from_counter n ≡ n =
      unfold truncated_nonce_from_counter in omega arith in
    rw same (
      ap (◌∷◌ n) (expand_all-truncated (record { initialized = true; highest_seen = n }) ns refl s))
