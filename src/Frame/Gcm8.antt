-- ===== src/Frame/Gcm8.antt =====
-- frame/gcm8.go: AES-128-GCM with its tag cut to 8 bytes. crypto/aes and crypto/cipher are the
-- parameter `Gcm`; `IsGcm` is what their documentation says of them.
pub mod Open
use dave_go.Base.{
  ℕ, ◌+◌, ◌-◌, ◌≤◌, ◌<◌, ◌≡◌, bit_or, bit_xor, List, [], ◌∷◌, ◌++◌, length, replicate, get_or, All,
  Bool, true, false, not, ltb, ◌==◌, if◌then◌else◌, Result, ok, err, panic, ◌>>=◌, ◌>>◌, panic_if,
}
use dave_go.Base.Bytes.{slice, index, IsByte}
use dave_go.Frame.Types.{Error, auth_tag_mismatch}

-- The standard library's part. `accepts key` says that aes.NewCipher takes the key; `seal` is what
-- `Seal(nil, nonce, plaintext, aad)` returns under that key, for a nonce of 12 bytes: it panics on any
-- other, and so do `seal8` and `open8`.
pub record Gcm : Type 0 where
  pub accepts : List ℕ → Bool
  pub seal : List ℕ → List ℕ → List ℕ → List ℕ → List ℕ

abbrev pub xor_bytes : List ℕ → List ℕ → List ℕ
xor_bytes [] ks = []
xor_bytes (x ∷ xs) [] = []
xor_bytes (x ∷ xs) (k ∷ ks) = bit_xor x k ∷ xor_bytes xs ks

-- GCM encrypts in counter mode and appends a tag of 16 bytes (NIST SP 800-38D).
pub record IsGcm (g : Gcm) : Type 0 where
  pub keystream : List ℕ → List ℕ → ℕ → List ℕ
  pub tag : List ℕ → List ℕ → List ℕ → List ℕ → List ℕ
  pub length-keystream : (k n : List ℕ) (m : ℕ) → length (keystream k n m) ≡ m
  pub keystream-bytes : (k n : List ℕ) (m : ℕ) → All IsByte (keystream k n m)
  pub length-tag : (k n p a : List ℕ) → length (tag k n p a) ≡ 16
  pub tag-bytes : (k n p a : List ℕ) → All IsByte (tag k n p a)
  pub seal_lem :
      (k n p a : List ℕ)
      → length n ≡ 12
      → g.seal k n p a ≡ xor_bytes p (keystream k n (length p)) ++ tag k n p a
  pub accepts_sixteen : (k : List ℕ) → length k ≡ 16 → g.accepts k ≡ true

-- The loop of `constantTimeEqual`, over slices of one length.
difference : List ℕ → List ℕ → ℕ → ℕ
difference (x ∷ xs) (y ∷ ys) diff = difference xs ys (bit_or diff (bit_xor x y))
difference [] ys diff = diff
difference (x ∷ xs) [] diff = diff

pub constant_time_equal : List ℕ → List ℕ → Bool
constant_time_equal a b = if length a == length b then difference a b 0 == 0 else false

-- The loop of `Open`: `keystream[i]` panics past the end.
xor_loop : List ℕ → List ℕ → Result Error (List ℕ)
xor_loop [] ks = ok []
xor_loop (x ∷ xs) [] = panic
xor_loop (x ∷ xs) (k ∷ ks) = xor_loop xs ks >>= λ rest. ok (bit_xor x k ∷ rest)

module _ (g : Gcm) (key : List ℕ) where
  -- `dst` is what the sealed bytes are appended to. A negative index panics.
  pub seal8 : List ℕ → List ℕ → List ℕ → List ℕ → Result Error (List ℕ)
  seal8 dst nonce plaintext aad = do
    panic_if (not (length nonce == 12))
    let sealed = dst ++ g.seal key nonce plaintext aad
    let tag_start = length sealed - 16
    panic_if (ltb (length sealed) 16)
    body ← slice sealed 0 tag_start
    tag ← slice sealed tag_start (tag_start + 8)
    ok (body ++ tag)

  pub open8 : List ℕ → List ℕ → List ℕ → List ℕ → Result Error (List ℕ)
  open8 dst nonce ciphertext aad = if ltb (length ciphertext) 8 then err auth_tag_mismatch else (do
    data' ← slice ciphertext 0 (length ciphertext - 8)
    received_tag ← slice ciphertext (length ciphertext - 8) (length ciphertext)
    panic_if (not (length nonce == 12))
    keystream ← slice (g.seal key nonce (replicate (length data') 0) aad) 0 (length data')
    plaintext ← xor_loop data' keystream
    let full_sealed = g.seal key nonce plaintext aad
    panic_if (ltb (length full_sealed) 16)
    full_tag ← slice full_sealed (length full_sealed - 16) (length full_sealed)
    short_tag ← slice full_tag 0 8
    if constant_time_equal received_tag short_tag
        then ok (dst ++ plaintext)
        else err auth_tag_mismatch)
