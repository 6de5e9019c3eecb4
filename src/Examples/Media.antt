-- ===== src/Examples/Media.antt =====
-- Nonces, a ratchet, a displayable code and video frames, and the theorems on them.
use dave_go.Base.{
  ℕ, ◌+◌, ◌*◌, ◌%◌, ◌^◌, ◌<◌, ◌≡◌, refl, arith, max, min, List, [], ◌∷◌, length, map, replicate,
  All, some, true, ok,
}
use dave_go.Frame.Types.{Range}
use dave_go.Frame.Ranges.Layout.{Fits}
use dave_go.Codecs.Types.{codec_h264}
use dave_go.Codecs.Vp8.{vp8_ranges, vp8_ranges-Fits}
use dave_go.Codecs.H26x.{h26x_ranges}
use dave_go.Codecs.H26x.Units.{h26x_ranges-Fits}
use dave_go.Mediakeys.Nonce.{
  truncated_nonce_from_counter, generation_from_truncated_nonce, new_nonce_counter, next,
  NonceExpander, new_nonce_expander, expand, expand_tentative, commit,
}
use dave_go.Mediakeys.Nonce.Counter.{next_all, count_from, next_all-count_from, next-generation}
use dave_go.Mediakeys.Nonce.Expand.{expand_all, expand-commit, expand_all-first}
use dave_go.Mediakeys.Ratchet
use dave_go.Mediakeys.Ratchet.{Kdf, KeyRatchet, get_key}
use dave_go.Mediakeys.Ratchet.Chain.{secret_at-zero, key_at, InStep, Succeeds, SameBase, Settings}
use dave_go.Mediakeys.Ratchet.Keys.{get_key-key_at, get_key-InStep, get_key_within}
use dave_go.Mediakeys.Ratchet.Commits.{commit-InStep, get_key-agree}
use dave_go.Mediakeys.Displayable.{displayable_code}
use dave_go.Mediakeys.Displayable.Digits.{IsDigit, displayable_code-digits}
use dave_go.Mediakeys.Export.{sender_id_context_le-inj}

-- A stream that passes the end of the first cycle, with one nonce late.
abbrev some_nonces : List ℕ
some_nonces = 4294967297 ∷ 4294967295 ∷ 4294967299 ∷ []

expand_all-first_example :
    expand_all new_nonce_expander (map truncated_nonce_from_counter (4294967290 ∷ some_nonces))
    ≡ 4294967290 ∷ some_nonces
expand_all-first_example = expand_all-first 4294967290 some_nonces (omega arith) (omega arith)

abbrev some_expander : NonceExpander
some_expander = record { initialized = true; highest_seen = 4294967290 }

expand-commit_example :
    expand some_expander 3
    ≡ (commit some_expander (expand_tentative some_expander 3), expand_tentative some_expander 3)
expand-commit_example = expand-commit some_expander 3

next_all-count_from_example : next_all 3 new_nonce_counter ≡ count_from 3 (0 + 1)
next_all-count_from_example = next_all-count_from 3 new_nonce_counter (omega arith)

next-generation_example :
    let (after, full, truncated, generation) = next (record { counter = 4294967296 }) in
    (truncated ≡ truncated_nonce_from_counter full)
    × (generation_from_truncated_nonce truncated ≡ generation % 256)
    × (truncated < 2 ^ 32)
next-generation_example = next-generation (record { counter = 4294967296 })

-- A derivation that gives zeros, which never fails.
abbrev toy_kdf : Kdf
toy_kdf = record { expand_label = λ secret label context n. some (replicate n 0) }

toy_kdf-Succeeds : Succeeds toy_kdf
toy_kdf-Succeeds secret label context n h = (replicate n 0, refl)

abbrev toy_secret : List ℕ
toy_secret = replicate 16 1

abbrev toy_ratchet : KeyRatchet
toy_ratchet = record {
  retention_ttl = 10;
  max_generation_gap = 256;
  now = λ n. n;
  calls = 0;
  base_secret = toy_secret;
  base_generation = 0;
  cache = [];
}

toy_ratchet-InStep : InStep toy_kdf toy_secret toy_ratchet
toy_ratchet-InStep = record { base = secret_at-zero toy_kdf toy_secret; cached = tt }

some_key : (k : List ℕ) × ((get_key toy_kdf toy_ratchet 3).1 ≡ ok k)
some_key = get_key_within toy_kdf toy_kdf-Succeeds toy_ratchet 3 (omega arith) (omega arith)

get_key_within_example : (k : List ℕ) × ((get_key toy_kdf toy_ratchet 3).1 ≡ ok k)
get_key_within_example =
    get_key_within toy_kdf toy_kdf-Succeeds toy_ratchet 3 (omega arith) (omega arith)

get_key-key_at_example : key_at toy_kdf toy_secret 3 ≡ ok some_key.0
get_key-key_at_example =
    get_key-key_at toy_kdf toy_secret toy_ratchet 3 some_key.0 toy_ratchet-InStep some_key.1

get_key-InStep_example :
    InStep toy_kdf toy_secret (get_key toy_kdf toy_ratchet 3).0
    × SameBase toy_ratchet (get_key toy_kdf toy_ratchet 3).0
    × Settings toy_ratchet (get_key toy_kdf toy_ratchet 3).0
get_key-InStep_example = get_key-InStep toy_kdf toy_secret toy_ratchet 3 toy_ratchet-InStep

commit-InStep_example :
    InStep toy_kdf toy_secret (Ratchet.commit toy_kdf toy_ratchet 300)
    × ((Ratchet.commit toy_kdf toy_ratchet 300).base_generation ≡ max 0 (min 300 (0 + 256)))
commit-InStep_example =
    commit-InStep toy_kdf toy_secret toy_kdf-Succeeds toy_ratchet 300 toy_ratchet-InStep

get_key-agree_example : some_key.0 ≡ some_key.0
get_key-agree_example =
    get_key-agree toy_kdf toy_secret toy_ratchet toy_ratchet 3 some_key.0 some_key.0
      toy_ratchet-InStep toy_ratchet-InStep some_key.1 some_key.1

displayable_code-digits_example :
    (s : List ℕ) × (displayable_code (replicate 32 255) (6 * 5) 5 ≡ ok s)
    × (length s ≡ 6 * 5)
    × All IsDigit s
displayable_code-digits_example =
    displayable_code-digits (replicate 32 255) 6 5 (omega arith) (omega arith) (omega arith)
      (omega arith)

abbrev some_id : ℕ
some_id = 258

sender_id_context_le-inj_example : some_id ≡ some_id
sender_id_context_le-inj_example =
    sender_id_context_le-inj some_id some_id (omega arith) (omega arith) refl

abbrev some_vp8 : List ℕ
some_vp8 = 16 ∷ 2 ∷ []

vp8_ranges-Fits_example : Fits 0 (vp8_ranges some_vp8) (length some_vp8)
vp8_ranges-Fits_example = vp8_ranges-Fits some_vp8

abbrev some_h264 : List ℕ
some_h264 = 0 ∷ 0 ∷ 0 ∷ 1 ∷ 103 ∷ 66 ∷ 0 ∷ 0 ∷ 1 ∷ 101 ∷ 136 ∷ []

h26x_ranges-Fits_example :
    (ranges : List Range) × (h26x_ranges codec_h264 some_h264 ≡ some ranges)
    × Fits 0 ranges (length some_h264)
h26x_ranges-Fits_example = h26x_ranges-Fits codec_h264 some_h264

-- A temporal delimiter and a frame OBU, each with its size.
abbrev some_av1 : List ℕ
some_av1 = 18 ∷ 0 ∷ 50 ∷ 2 ∷ 7 ∷ 8 ∷ []
