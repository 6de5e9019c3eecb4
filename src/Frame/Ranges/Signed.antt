-- ===== src/Frame/Ranges/Signed.antt =====
-- The signed tests of ValidateRanges, on ints that are not negative.
use dave_go.Base.{
  ℕ, ◌+◌, ◌-◌, ◌%◌, ◌^◌, ◌<◌, ◌≡◌, ◌∙◌, sym, arith, ltb, Bool-cases, inl, inr, ltb→lt, ltb→le,
  lt→ltb, le→ltb,
}
use dave_go.Frame.Ranges.{signed_ltb}

pub signed_ltb-ltb : (a b : ℕ) → a < 2 ^ 63 → b < 2 ^ 63 → signed_ltb a b ≡ ltb a b
unfolding signed_ltb
signed_ltb-ltb a b ha hb = elim (Bool-cases (ltb a b)) [
  | inl less ↦ lt→ltb _ _ (omega (arith, ltb→lt _ _ less)) ∙ sym less
  | inr more ↦ le→ltb _ _ (omega (arith, ltb→le _ _ more)) ∙ sym more
]

pub signed_ltb-room :
    (size o n : ℕ)
    → size < 2 ^ 63
    → o < 2 ^ 63
    → n < 2 ^ 63
    → signed_ltb ((size + 2 ^ 64 - o) % 2 ^ 64) n ≡ ltb size (o + n)
unfolding signed_ltb
signed_ltb-room size o n hs ho hn = elim (Bool-cases (ltb size (o + n))) [
  | inl less ↦ lt→ltb _ _ (omega (arith, ltb→lt _ _ less)) ∙ sym less
  | inr more ↦ le→ltb _ _ (omega (arith, ltb→le _ _ more)) ∙ sym more
]
