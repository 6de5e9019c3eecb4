-- ===== src/Mediakeys/Ratchet.antt =====
-- mediakeys/ratchet.go: the keys of a sender's generations. KdfExpandLabel of mls-go is the
-- parameter `Kdf`; secrets are byte strings, and their erasure is not modelled. Generations are
-- uint32s: the code subtracts and adds them only where neither wraps.
pub mod Chain
pub mod Keys
pub mod Commits
use dave_go.Base.{
  ℕ, zero, suc, ◌+◌, ◌-◌, ◌*◌, List, [], ◌∷◌, length, Option, none, some, Bool, true, false, not,
  ltb, leb, ◌==◌, if◌then◌else◌, Result, ok, err, panic, ◌>>=◌,
}
use dave_go.Base.Bytes.{put_be}

-- `KdfExpandLabel(label, context, length)` of a secret; no value is an error.
pub record Kdf : Type 0 where
  pub expand_label : List ℕ → List ℕ → List ℕ → ℕ → Option (List ℕ)

pub data RatchetError : Type 0 where
  invalid_base_secret : RatchetError
  generation_expired : RatchetError
  generation_too_far : RatchetError
  derive_failed : ℕ → RatchetError
  advance_failed : ℕ → RatchetError

pub record CachedGeneration : Type 0 where
  pub key : List ℕ
  pub expires_at : ℕ

-- `now` gives the time of every call of the clock, and `calls` counts them. The map has one entry
-- for a generation at most.
pub record KeyRatchet : Type 0 where
  pub retention_ttl : ℕ
  pub max_generation_gap : ℕ
  pub now : ℕ → ℕ
  pub calls : ℕ
  pub base_secret : List ℕ
  pub base_generation : ℕ
  pub cache : List (ℕ × CachedGeneration)

pub lookup : ℕ → List (ℕ × CachedGeneration) → Option CachedGeneration
lookup g [] = none
lookup g ((h, c) ∷ cache) = if h == g then some c else lookup g cache

pub remove : ℕ → List (ℕ × CachedGeneration) → List (ℕ × CachedGeneration)
remove g [] = []
remove g ((h, c) ∷ cache) = let rest = remove g cache in if h == g then rest else (h, c) ∷ rest

pub put : ℕ → CachedGeneration → List (ℕ × CachedGeneration) → List (ℕ × CachedGeneration)
put g c cache = (g, c) ∷ remove g cache

pub data RatchetOption : Type 0 where
  with_retention_ttl : ℕ → RatchetOption
  with_clock : (ℕ → ℕ) → RatchetOption
  with_max_generation_gap : ℕ → RatchetOption

pub apply_option : RatchetOption → KeyRatchet → KeyRatchet
apply_option (with_retention_ttl ttl) r = record r { retention_ttl = ttl }
apply_option (with_clock now) r = record r { now = now }
apply_option (with_max_generation_gap gap) r = record r { max_generation_gap = gap }

pub apply_options : List RatchetOption → KeyRatchet → KeyRatchet
apply_options [] r = r
apply_options (o ∷ os) r = apply_options os (apply_option o r)

-- The default times are 10 seconds, in nanoseconds, and the clock of the system, `time_now`.
pub new_key_ratchet : (ℕ → ℕ) → List ℕ → List RatchetOption → Result RatchetError KeyRatchet
new_key_ratchet time_now secret opts =
    if not (length secret == 16)
    then err invalid_base_secret
    else ok (
        apply_options opts (record {
          retention_ttl = 10 * 1000000000;
          max_generation_gap = 256;
          now = time_now;
          calls = 0;
          base_secret = secret;
          base_generation = 0;
          cache = [];
        }))

-- The entries that expire after `time`.
pub unexpired : ℕ → List (ℕ × CachedGeneration) → List (ℕ × CachedGeneration)
unexpired time [] = []
unexpired time ((g, c) ∷ cache) =
    let rest = unexpired time cache in if ltb time c.expires_at then (g, c) ∷ rest else rest

pub prune_expired : KeyRatchet → KeyRatchet
prune_expired r = record r { calls = r.calls + 1; cache = unexpired (r.now r.calls) r.cache }

-- `r.cache[g] = cachedGeneration{key, r.now().Add(r.retentionTTL)}`
pub store : KeyRatchet → ℕ → List ℕ → KeyRatchet
store r g k = record r {
  calls = r.calls + 1;
  cache = put g (record { key = k; expires_at = r.now r.calls + r.retention_ttl }) r.cache;
}

-- The two labels, "key" and "secret".
abbrev pub key_label : List ℕ
key_label = 107 ∷ 101 ∷ 121 ∷ []

abbrev pub secret_label : List ℕ
secret_label = 115 ∷ 101 ∷ 99 ∷ 114 ∷ 101 ∷ 116 ∷ []

abbrev pub or_error : Option (List ℕ) → RatchetError → Result RatchetError (List ℕ)
or_error (some s) e = ok s
or_error none e = err e

-- A call that changes the ratchet and may return an error, after which the caller returns.
abbrev pub Call : Type 0 → Type 0
Call A = KeyRatchet × Result RatchetError A

abbrev pub and_then : {A B : Type 0} → Call A → (KeyRatchet → A → Call B) → Call B
and_then (r, ok a) f = f r a
and_then (r, err e) f = (r, err e)
and_then (r, panic) f = (r, panic)

module _ (kdf : Kdf) where
  pub derive_key_for_generation : List ℕ → ℕ → Result RatchetError (List ℕ)
  derive_key_for_generation secret g =
      or_error (kdf.expand_label secret key_label (put_be 4 g) 16) (derive_failed g)

  pub advance_secret : List ℕ → ℕ → Result RatchetError (List ℕ)
  advance_secret secret g =
      or_error (kdf.expand_label secret secret_label (put_be 4 g) 32) (advance_failed g)

  abbrev pub derive_and_store : KeyRatchet → ℕ → List ℕ → Call (List ℕ)
  derive_and_store r g work =
      and_then (r, derive_key_for_generation work g) (λ r' k. (store r' g k, ok k))

  -- `if _, ok := r.cache[g]; !ok { ... }`
  abbrev pub store_missing : Option CachedGeneration → KeyRatchet → ℕ → List ℕ → Call (List ℕ)
  store_missing (some c) r g work = (r, ok c.key)
  store_missing none r g work = derive_and_store r g work

  -- The loop from generation `g` on, `rounds` times: the secret at the end.
  pub walk : ℕ → ℕ → List ℕ → KeyRatchet → Call (List ℕ)
  walk zero g work r = (r, ok work)
  walk (suc rounds) g work r =
      and_then (store_missing (lookup g r.cache) r g work)
        (λ r' _. and_then (r', advance_secret work g) (λ r'' next. walk rounds (g + 1) next r''))

  -- `GetKey` once the expired entries are gone and the generation has been looked up.
  pub find_key : Option CachedGeneration → KeyRatchet → ℕ → Call (List ℕ)
  find_key (some c) r target = (r, ok c.key)
  find_key none r target =
      if ltb target r.base_generation
      then (r, err generation_expired)
      else if ltb r.max_generation_gap (target - r.base_generation)
      then (r, err generation_too_far)
      else and_then (walk (target - r.base_generation) r.base_generation r.base_secret r)
          (λ r' work. derive_and_store r' target work)

  pub get_key : KeyRatchet → ℕ → Call (List ℕ)
  get_key r target = let r' = prune_expired r in find_key (lookup target r'.cache) r' target

  -- The loop of `Commit`: the secret, and whether every round succeeded.
  pub commit_loop : ℕ → ℕ → List ℕ → List ℕ × Bool
  commit_loop zero g secret = (secret, true)
  commit_loop (suc rounds) g secret = elim (advance_secret secret g) [
    | ok next ↦ commit_loop rounds (g + 1) next
    | err e ↦ (secret, false)
    | panic ↦ (secret, false)
  ]

  -- A failed round returns with the secrets of the rounds before it in place.
  pub commit_to : KeyRatchet → ℕ → KeyRatchet
  commit_to r generation =
      let (secret, done) =
        commit_loop (generation - r.base_generation) r.base_generation r.base_secret in
      if done
      then record r { base_secret = secret; base_generation = generation }
      else record r { base_secret = secret }

  pub commit : KeyRatchet → ℕ → KeyRatchet
  commit r generation =
      if leb generation r.base_generation
      then r
      else if ltb r.max_generation_gap (generation - r.base_generation)
      then commit_to r (r.base_generation + r.max_generation_gap)
      else commit_to r generation
