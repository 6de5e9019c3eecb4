-- ===== src/Mediakeys/Ratchet/Keys.antt =====
-- `GetKey` against the chain of secrets: its loop, its errors and its cache.
use dave_go.Base.{
  ℕ, zero, suc, ◌+◌, ◌-◌, ◌≤◌, ◌<◌, ◌≡◌, refl, ◌∙◌, arith, List, Option, none, some, ltb, Result,
  ok, err, panic, Bool-cases, inl, inr, ltb→le, lt→ltb, le→ltb,
}
use dave_go.Mediakeys.Ratchet.{
  Kdf, RatchetError, generation_expired, generation_too_far, CachedGeneration, KeyRatchet, lookup,
  prune_expired, store, Call, and_then, derive_key_for_generation, advance_secret, derive_and_store,
  store_missing, walk, find_key, get_key, key_label, secret_label,
}
use dave_go.Base.Bytes.{put_be}
use dave_go.Mediakeys.Ratchet.Chain.{
  secret_at, key_at, InStep, IsKey, Succeeds, Settings, SameBase, secret_at-next, key_at-derive,
  lookup-All, prune_expired-InStep, store-InStep,
}

module _ (kdf : Kdf) (first : List ℕ) where
  -- A call leaves the ratchet in step and its base and settings alone, and its value is as `Q` says.
  abbrev Post : {A : Type 0} → KeyRatchet → (A → Type 0) → Call A → Type 0
  Post r Q (r', result) =
      InStep kdf first r' × SameBase r r' × Settings r r' × ((a : _) → result ≡ ok a → Q a)

  and_then-Post :
      {A B : Type 0} (r : KeyRatchet) (Q : A → Type 0) (Q' : B → Type 0) (m : Call A)
      (f : KeyRatchet → A → Call B)
      → Post r Q m
      → ((r' : KeyRatchet) (a : A)
          → InStep kdf first r'
          → SameBase r r'
          → Settings r r'
          → Q a
          → Post r Q' (f r' a))
      → Post r Q' (and_then m f)
  and_then-Post r Q Q' (r', ok a) f p k = k r' a p.0 p.1 p.2 (p.3 a refl)
  and_then-Post r Q Q' (r', err e) f p k = (p.0, p.1, p.2, (λ a h. cc))
  and_then-Post r Q Q' (r', panic) f p k = (p.0, p.1, p.2, (λ a h. cc))

  unmoved-Post :
      {A : Type 0} (r r' : KeyRatchet) (Q : A → Type 0) (result : Result RatchetError A)
      → InStep kdf first r'
      → SameBase r r'
      → Settings r r'
      → ((a : A) → result ≡ ok a → Q a)
      → Post r Q (r', result)
  unmoved-Post r r' Q result s b t q = (s, b, t, q)

  abbrev KeyOf : ℕ → List ℕ → Type 0
  KeyOf g k = key_at kdf first g ≡ ok k

  derive_and_store-Post :
      (r r' : KeyRatchet) (g : ℕ) (work : List ℕ)
      → InStep kdf first r'
      → SameBase r r'
      → Settings r r'
      → secret_at kdf first g ≡ ok work
      → Post r (KeyOf g) (derive_and_store kdf r' g work)
  unfolding store
  derive_and_store-Post r r' g work s b t e =
      and_then-Post r (KeyOf g) (KeyOf g) (r', derive_key_for_generation kdf work g) _
        (s, b, t, (λ k h. key_at-derive kdf first g work e ∙ h))
        (λ r'' k s' b' t' q. (store-InStep kdf first r'' g k s' q, b', t', (λ a h. q ∙ h)))

  store_missing-Post :
      (found : Option CachedGeneration) (r r' : KeyRatchet) (g : ℕ) (work : List ℕ)
      → lookup g r'.cache ≡ found
      → InStep kdf first r'
      → SameBase r r'
      → Settings r r'
      → secret_at kdf first g ≡ ok work
      → Post r (KeyOf g) (store_missing kdf found r' g work)
  store_missing-Post (some c) r r' g work l s b t e =
      (s, b, t, (λ k h. lookup-All (IsKey kdf first) g c r'.cache s.cached l ∙ h))
  store_missing-Post none r r' g work l s b t e = derive_and_store-Post r r' g work s b t e

  abbrev SecretOf : ℕ → List ℕ → Type 0
  SecretOf g s = secret_at kdf first g ≡ ok s

  walk-Post :
      (rounds g target : ℕ) (work : List ℕ) (r r' : KeyRatchet)
      → target ≡ g + rounds
      → InStep kdf first r'
      → SameBase r r'
      → Settings r r'
      → SecretOf g work
      → Post r (SecretOf target) (walk kdf rounds g work r')
  unfolding walk
  walk-Post zero g target work r r' at s b t e =
      let same : target ≡ g = omega arith in (s, b, t, (λ a h. rw same (e ∙ h)))
  walk-Post (suc rounds) g target work r r' at s b t e =
      and_then-Post r (KeyOf g) (SecretOf target) _ _
        (store_missing-Post (lookup g r'.cache) r r' g work refl s b t e)
        (λ r1 k s1 b1 t1 q1.
          and_then-Post r (SecretOf (g + 1)) (SecretOf target) (r1, advance_secret kdf work g) _
            (s1, b1, t1, (λ next h. secret_at-next kdf first g work e ∙ h))
            (λ r2 next s2 b2 t2 q2.
              walk-Post rounds (g + 1) target next r r2 (omega arith) s2 b2 t2 q2))

  find_key-Post :
      (found : Option CachedGeneration) (r r' : KeyRatchet) (target : ℕ)
      → lookup target r'.cache ≡ found
      → InStep kdf first r'
      → SameBase r r'
      → Settings r r'
      → Post r (KeyOf target) (find_key kdf found r' target)
  unfolding find_key
  find_key-Post (some c) r r' target l s b t =
      (s, b, t, (λ k h. lookup-All (IsKey kdf first) target c r'.cache s.cached l ∙ h))
  find_key-Post none r r' target l s b t = elim (Bool-cases (ltb target r'.base_generation)) [
    | inl expired ↦ rw expired (s, b, t, (λ k h. cc))
    | inr kept ↦ elim (Bool-cases (ltb r'.max_generation_gap (target - r'.base_generation))) [
      | inl far ↦ rw (kept, far) (s, b, t, (λ k h. cc))
      | inr near ↦
          rw (kept, near)
            (and_then-Post r (SecretOf target) (KeyOf target) _ _
              (walk-Post (target - r'.base_generation) r'.base_generation target r'.base_secret r r'
                (omega (arith, ltb→le _ _ kept)) s b t s.base)
              (λ r'' work s' b' t' q. derive_and_store-Post r r'' target work s' b' t' q))
    ]
  ]

  get_key-Post :
      (r : KeyRatchet) (target : ℕ)
      → InStep kdf first r
      → Post r (KeyOf target) (get_key kdf r target)
  unfolding get_key prune_expired
  get_key-Post r target s =
      find_key-Post _ r (prune_expired r) target refl (prune_expired-InStep kdf first r s)
        (refl, refl) (refl, refl, refl)

  -- The key that a ratchet in step with its chain returns is the chain's key of that generation,
  -- whether it is derived or comes from the cache.
  pub get_key-key_at :
      (r : KeyRatchet) (target : ℕ) (k : List ℕ)
      → InStep kdf first r
      → (get_key kdf r target).1 ≡ ok k
      → key_at kdf first target ≡ ok k
  get_key-key_at r target k s e = (get_key-Post r target s).3 k e

  -- Asking for a key, with success or not, leaves a ratchet in step with its chain, and leaves its
  -- base secret, its base generation and its settings as they were.
  pub get_key-InStep :
      (r : KeyRatchet) (target : ℕ)
      → InStep kdf first r
      → InStep kdf first (get_key kdf r target).0
        × SameBase r (get_key kdf r target).0
        × Settings r (get_key kdf r target).0
  get_key-InStep r target s = let p = get_key-Post r target s in (p.0, p.1, p.2)

-- A derivation that succeeds leaves a value whatever the state.
module _ (kdf : Kdf) (succeeds : Succeeds kdf) where
  abbrev Returns : {A : Type 0} → Call A → Type 0
  Returns {A} m = (a : A) × (m.1 ≡ ok a)

  and_then-Returns :
      {A B : Type 0} (m : Call A) (f : KeyRatchet → A → Call B)
      → Returns m
      → ((r : KeyRatchet) (a : A) → Returns (f r a))
      → Returns (and_then m f)
  and_then-Returns (r, ok a) f p k = k r a
  and_then-Returns (r, err e) f p k = cc
  and_then-Returns (r, panic) f p k = cc

  pub advance_secret-ok :
      (s : List ℕ) (g : ℕ) → (next : List ℕ) × (advance_secret kdf s g ≡ ok next)
  unfolding advance_secret
  advance_secret-ok s g =
      let (out, e) = succeeds s secret_label (put_be 4 g) 32 (omega arith) in (out, rw e refl)

  derive_key-ok : (s : List ℕ) (g : ℕ) → (k : List ℕ) × (derive_key_for_generation kdf s g ≡ ok k)
  unfolding derive_key_for_generation
  derive_key-ok s g =
      let (out, e) = succeeds s key_label (put_be 4 g) 16 (omega arith) in (out, rw e refl)

  derive_and_store-Returns :
      (r : KeyRatchet) (g : ℕ) (work : List ℕ) → Returns (derive_and_store kdf r g work)
  derive_and_store-Returns r g work =
      and_then-Returns (r, derive_key_for_generation kdf work g) _ (derive_key-ok work g)
        (λ r' k. (k, refl))

  walk-Returns :
      (rounds g : ℕ) (work : List ℕ) (r : KeyRatchet) → Returns (walk kdf rounds g work r)
  unfolding walk
  walk-Returns zero g work r = (work, refl)
  walk-Returns (suc rounds) g work r = and_then-Returns _ _ (missing (lookup g r.cache)) (λ r' k.
      and_then-Returns (r', advance_secret kdf work g) _ (advance_secret-ok work g)
        (λ r'' next. walk-Returns rounds (g + 1) next r''))
    where
      missing : (found : Option CachedGeneration) → Returns (store_missing kdf found r g work)
      missing (some c) = (c.key, refl)
      missing none = derive_and_store-Returns r g work

  find_key-Returns :
      (found : Option CachedGeneration) (r : KeyRatchet) (target : ℕ)
      → r.base_generation ≤ target
      → target - r.base_generation ≤ r.max_generation_gap
      → Returns (find_key kdf found r target)
  unfolding find_key
  find_key-Returns (some c) r target low high = (c.key, refl)
  find_key-Returns none r target low high =
      rw (le→ltb _ _ low, le→ltb _ _ high)
        (and_then-Returns _ _ (walk-Returns _ _ _ _)
          (λ r' work. derive_and_store-Returns r' target work))

  -- Where the derivation does not fail, every generation from the base one up to the gap has a key.
  pub get_key_within :
      (r : KeyRatchet) (target : ℕ)
      → r.base_generation ≤ target
      → target - r.base_generation ≤ r.max_generation_gap
      → (k : List ℕ) × ((get_key kdf r target).1 ≡ ok k)
  unfolding get_key prune_expired
  get_key_within r target low high = find_key-Returns _ (prune_expired r) target low high

module _ (kdf : Kdf) (r : KeyRatchet) (target : ℕ) where
  -- Below the base generation, and beyond the gap, a key comes from the cache only.
  pub get_key_outside :
      lookup target (prune_expired r).cache ≡ none
      → (target < r.base_generation
          → get_key kdf r target ≡ (prune_expired r, err generation_expired))
        × (r.base_generation + r.max_generation_gap < target
            → get_key kdf r target ≡ (prune_expired r, err generation_too_far))
  unfolding get_key find_key prune_expired
  get_key_outside l = (
    (λ h. rw (l, lt→ltb _ _ h) refl),
    (λ h.
        simp
          (
            l,
            le→ltb target r.base_generation (omega arith),
            lt→ltb r.max_generation_gap (target - r.base_generation) (omega arith),
          )
          refl),
  )
