-- ===== src/Mediakeys/Ratchet/Commits.antt =====
-- `Commit`, new ratchets, and two ratchets of one chain.
use dave_go.Base.{
  ℕ, zero, suc, ◌+◌, ◌-◌, ◌≤◌, ◌≡◌, refl, sym, subst, ◌∙◌, arith, min, max, List, [], ◌∷◌, length,
  true, ltb, leb, ◌==◌, Result, ok, err, Bool-cases, inl, inr, ==→eq, ltb→lt, ltb→le, leb→le,
  leb→gt,
}
use dave_go.Mediakeys.Ratchet.{
  Kdf, RatchetError, invalid_base_secret, KeyRatchet, RatchetOption, with_retention_ttl, with_clock,
  with_max_generation_gap, apply_option, apply_options, new_key_ratchet, get_key, commit_loop,
  commit_to, commit,
}
use dave_go.Mediakeys.Ratchet.Chain.{secret_at, InStep, Succeeds, secret_at-zero, secret_at-next}
use dave_go.Mediakeys.Ratchet.Keys.{get_key-key_at, advance_secret-ok}

module _ (kdf : Kdf) (first : List ℕ) where
  commit_loop-chain :
      Succeeds kdf
      → (rounds g target : ℕ) (secret : List ℕ) → target ≡ g + rounds
      → secret_at kdf first g ≡ ok secret
      → (secret_at kdf first target ≡ ok (commit_loop kdf rounds g secret).0)
        × ((commit_loop kdf rounds g secret).1 ≡ true)
  unfolding commit_loop
  commit_loop-chain succeeds zero g target secret at e =
      let same : target ≡ g = omega arith in (rw same e, refl)
  commit_loop-chain succeeds (suc rounds) g target secret at e =
      let (next, f) = advance_secret-ok kdf succeeds secret g in
      rw (f, commit_loop)
        (commit_loop-chain succeeds rounds (g + 1) target next (omega arith)
          (secret_at-next kdf first g secret e ∙ f))

  commit_to-InStep :
      Succeeds kdf
      → (r : KeyRatchet) (target : ℕ) → r.base_generation ≤ target
      → InStep kdf first r
      → InStep kdf first (commit_to kdf r target)
        × ((commit_to kdf r target).base_generation ≡ target)
  unfolding commit_to
  commit_to-InStep succeeds r target low s =
      let (chain, done) =
        commit_loop-chain succeeds (target - r.base_generation) r.base_generation target
          r.base_secret (omega arith) s.base in
      simp done (record { base = chain; cached = s.cached }, refl)

  -- Where the derivation does not fail, committing a generation keeps the ratchet in step and never
  -- moves it back: the base generation is the committed one, but no more than the gap ahead.
  pub commit-InStep :
      Succeeds kdf
      → (r : KeyRatchet) (generation : ℕ) → InStep kdf first r
      → InStep kdf first (commit kdf r generation)
        × ((commit kdf r generation).base_generation
            ≡ max r.base_generation (min generation (r.base_generation + r.max_generation_gap)))
  unfolding commit
  commit-InStep succeeds r generation s = elim (Bool-cases (leb generation r.base_generation)) [
    | inl old ↦ rw old (s, omega (arith, leb→le _ _ old))
    | inr new ↦ elim (Bool-cases (ltb r.max_generation_gap (generation - r.base_generation))) [
      | inl far ↦
          let (step, e) =
            commit_to-InStep succeeds r (r.base_generation + r.max_generation_gap) (omega arith)
              s in
          rw (new, far) (step, e ∙ omega (arith, ltb→lt _ _ far))
      | inr near ↦
          let (step, e) =
            commit_to-InStep succeeds r generation (omega (arith, leb→gt _ _ new)) s in
          rw (new, near) (step, e ∙ omega (arith, leb→gt _ _ new, ltb→le _ _ near))
    ]
  ]

  apply_options-InStep :
      (opts : List RatchetOption) (r : KeyRatchet)
      → InStep kdf first r
      → InStep kdf first (apply_options opts r)
  unfolding apply_options apply_option
  apply_options-InStep [] r s = s
  apply_options-InStep (with_retention_ttl ttl ∷ os) r s =
      apply_options-InStep os (record r { retention_ttl = ttl })
        (record { base = s.base; cached = s.cached })
  apply_options-InStep (with_clock now ∷ os) r s =
      apply_options-InStep os (record r { now = now }) (record { base = s.base; cached = s.cached })
  apply_options-InStep (with_max_generation_gap gap ∷ os) r s =
      apply_options-InStep os (record r { max_generation_gap = gap })
        (record { base = s.base; cached = s.cached })

  ok-inj : {r r' : KeyRatchet} → ◌≡◌ {A = Result RatchetError KeyRatchet} (ok r) (ok r') → r ≡ r'
  ok-inj e = cc

  -- A new ratchet is in step with the chain of its secret, which has 16 bytes.
  pub new_key_ratchet-InStep :
      (time_now : ℕ → ℕ) (opts : List RatchetOption) (r : KeyRatchet)
      → new_key_ratchet time_now first opts ≡ ok r
      → InStep kdf first r × (length first ≡ 16)
  unfolding new_key_ratchet
  new_key_ratchet-InStep time_now opts r e = elim (Bool-cases (length first == 16)) [
    | inl long ↦
        let made : ok _ ≡ ok r = rw long at e in
        let same : _ ≡ r = ok-inj made in
        (
          subst (InStep kdf first) same (
              apply_options-InStep opts _
                (record { base = secret_at-zero kdf first; cached = tt })),
          ==→eq _ _ long,
        )
    | inr short ↦ let failed : err invalid_base_secret ≡ ok r = rw short at e in cc
  ]

  -- Two ratchets in step with one chain, a sender's and a receiver's, give the same key for a
  -- generation whenever both give one.
  pub get_key-agree :
      (r r' : KeyRatchet) (target : ℕ) (k k' : List ℕ)
      → InStep kdf first r
      → InStep kdf first r'
      → (get_key kdf r target).1 ≡ ok k
      → (get_key kdf r' target).1 ≡ ok k'
      → k ≡ k'
  get_key-agree r r' target k k' s s' e e' =
      let one = get_key-key_at kdf first r target k s e in
      let two = get_key-key_at kdf first r' target k' s' e' in
      let same : ok k ≡ ok k' = sym one ∙ two in cc
