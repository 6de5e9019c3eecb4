-- ===== src/Mediakeys/Ratchet/Chain.antt =====
-- The chain of secrets that a ratchet stands for, and the invariant that it is in step with it.
use dave_go.Base.{
  ℕ, zero, suc, ◌+◌, ◌≤◌, ◌≡◌, refl, ap₂, subst, arith, List, [], ◌∷◌, All, some, ltb, ◌==◌, Result,
  ok, ◌>>=◌, Bool-cases, inl, inr, ==→eq,
}
use dave_go.Mediakeys.Ratchet.{
  Kdf, RatchetError, CachedGeneration, KeyRatchet, lookup, remove, put, unexpired, prune_expired,
  store, derive_key_for_generation, advance_secret,
}

module _ (kdf : Kdf) (first : List ℕ) where
  -- The secret of a generation, from the sender's base secret, and its key.
  pub secret_at : ℕ → Result RatchetError (List ℕ)
  secret_at zero = ok first
  secret_at (suc g) = secret_at g >>= λ s. advance_secret kdf s g

  pub key_at : ℕ → Result RatchetError (List ℕ)
  key_at g = secret_at g >>= λ s. derive_key_for_generation kdf s g

  abbrev pub IsKey : ℕ × CachedGeneration → Type 0
  IsKey (g, c) = key_at g ≡ ok c.key

  -- The base secret is the chain's at the base generation, and so is every key of the cache.
  pub record InStep (r : KeyRatchet) : Type 0 where
    pub base : secret_at r.base_generation ≡ ok r.base_secret
    pub cached : All IsKey r.cache

  pub secret_at-zero : secret_at 0 ≡ ok first
  unfolding secret_at
  secret_at-zero = refl

  pub secret_at-next :
      (g : ℕ) (s : List ℕ) → secret_at g ≡ ok s → secret_at (g + 1) ≡ advance_secret kdf s g
  unfolding secret_at
  secret_at-next g s e = let one : g + 1 ≡ suc g = omega arith in rw (one, e) refl

  pub key_at-derive :
      (g : ℕ) (s : List ℕ) → secret_at g ≡ ok s → key_at g ≡ derive_key_for_generation kdf s g
  unfolding key_at
  key_at-derive g s e = rw e refl

-- `KdfExpandLabel` fails on no secret, label or context with the two lengths asked for here.
abbrev pub Succeeds : Kdf → Type 0
Succeeds kdf =
    (secret label context : List ℕ) (n : ℕ)
    → n ≤ 32
    → (out : List ℕ) × (kdf.expand_label secret label context n ≡ some out)

module _ (P : ℕ × CachedGeneration → Type 0) where
  pub lookup-All :
      (g : ℕ) (c : CachedGeneration) (cache : List (ℕ × CachedGeneration))
      → All P cache
      → lookup g cache ≡ some c
      → P (g, c)
  unfolding lookup
  lookup-All g c [] p e = cc
  lookup-All g c ((h, d) ∷ cache) p e = elim (Bool-cases (h == g)) [
    | inl same ↦
        let f : some d ≡ some c = rw same at e in
        let q : d ≡ c = cc in
        let q' : h ≡ g = ==→eq h g same in subst P (ap₂ (λ x y. (x, y)) q' q) p.0
    | inr other ↦ lookup-All g c cache p.1 (rw other at e)
  ]

  remove-All : (g : ℕ) (cache : List (ℕ × CachedGeneration)) → All P cache → All P (remove g cache)
  unfolding remove
  remove-All g [] p = tt
  remove-All g ((h, d) ∷ cache) p =
      let rest = remove-All g cache p.1 in
      elim (Bool-cases (h == g)) [ inl same ↦ rw same rest | inr other ↦ rw other (p.0, rest) ]

  put-All :
      (g : ℕ) (c : CachedGeneration) (cache : List (ℕ × CachedGeneration))
      → P (g, c)
      → All P cache
      → All P (put g c cache)
  unfolding put
  put-All g c cache q p = (q, remove-All g cache p)

  pub unexpired-All :
      (time : ℕ) (cache : List (ℕ × CachedGeneration)) → All P cache → All P (unexpired time cache)
  unfolding unexpired
  unexpired-All time [] p = tt
  unexpired-All time ((g, c) ∷ cache) p =
      let rest = unexpired-All time cache p.1 in
      elim (Bool-cases (ltb time c.expires_at)) [
        | inl later ↦ rw later (p.0, rest)
        | inr past ↦ rw past rest
      ]

-- What `GetKey` and `Commit` may not change.
abbrev pub Settings : KeyRatchet → KeyRatchet → Type 0
Settings r r' =
    (r'.retention_ttl ≡ r.retention_ttl)
    × (r'.max_generation_gap ≡ r.max_generation_gap)
    × (r'.now ≡ r.now)

abbrev pub SameBase : KeyRatchet → KeyRatchet → Type 0
SameBase r r' = (r'.base_secret ≡ r.base_secret) × (r'.base_generation ≡ r.base_generation)

module _ (kdf : Kdf) (first : List ℕ) where
  pub prune_expired-InStep :
      (r : KeyRatchet) → InStep kdf first r → InStep kdf first (prune_expired r)
  unfolding prune_expired
  prune_expired-InStep r s = record {
    base = s.base;
    cached = unexpired-All (IsKey kdf first) (r.now r.calls) r.cache s.cached;
  }

  pub store-InStep :
      (r : KeyRatchet) (g : ℕ) (k : List ℕ)
      → InStep kdf first r
      → key_at kdf first g ≡ ok k
      → InStep kdf first (store r g k)
  unfolding store
  store-InStep r g k s e = record {
    base = s.base;
    cached = put-All (IsKey kdf first) g _ r.cache e s.cached;
  }
