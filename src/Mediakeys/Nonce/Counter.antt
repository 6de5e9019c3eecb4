-- ===== src/Mediakeys/Nonce/Counter.antt =====
-- The nonces that a sender counts out, and their generations.
use dave_go.Base.{ℕ, zero, suc, ◌+◌, ◌%◌, ◌^◌, ◌<◌, ◌≡◌, refl, ap, arith, List, [], ◌∷◌}
use dave_go.Mediakeys.Nonce.{
  NonceCounter, next, generation_from_truncated_nonce, truncated_nonce_from_counter,
}

-- The full nonces of `k` calls of `Next`.
pub next_all : ℕ → NonceCounter → List ℕ
next_all zero c = []
next_all (suc k) c = (next c).1 ∷ next_all k (next c).0

-- The numbers from `n` on.
pub count_from : ℕ → ℕ → List ℕ
count_from zero n = []
count_from (suc k) n = n ∷ count_from k (n + 1)

-- As long as the counter stays below 2^64, the full nonces of successive calls are the next numbers.
pub next_all-count_from :
    (k : ℕ) (c : NonceCounter)
    → c.counter + k < 2 ^ 64
    → next_all k c ≡ count_from k (c.counter + 1)
unfolding next_all count_from next
next_all-count_from zero c h = refl
next_all-count_from (suc k) c h =
    let e : (c.counter + 1) % 2 ^ 64 ≡ c.counter + 1 = omega arith in
    rw e (
      ap (◌∷◌ (c.counter + 1))
        (next_all-count_from k (record { counter = c.counter + 1 }) (omega arith)))

-- The truncated nonce is that of the full one, and the generation that a receiver reads from its
-- top byte is the sender's generation in its low 8 bits.
pub next-generation :
    (c : NonceCounter)
    → let (after, full, truncated, generation) = next c in
      (truncated ≡ truncated_nonce_from_counter full)
      × (generation_from_truncated_nonce truncated ≡ generation % 256)
      × (truncated < 2 ^ 32)
unfolding next generation_from_truncated_nonce truncated_nonce_from_counter
next-generation c = omega arith
