-- ===== src/Session/Checks/Wires.antt =====
-- What is read from a vector's length, and its body.
use dave_go.Base.{
  ℕ, zero, suc, ◌+◌, ◌-◌, ◌*◌, ◌/◌, ◌%◌, ◌^◌, ◌≤◌, ◌<◌, ◌≡◌, sym, ap, arith, ◌∙◌, List, [], ◌∷◌,
  ◌++◌, length, take, drop, take-append-drop, length-take, length-drop, subst, refl, All, ltb,
  ltb→le, inl, inr, Bool-cases, if◌then◌else◌, Result, ok, err, ◌>>=◌,
}
use dave_go.Base.Bytes.{IsByte, slice, slice_ok}
use dave_go.Session.Types.{SessionError, invalid_vector_length, proposals_truncated}
use dave_go.Session.Wire.Vectors.{read_form, read_tls_vector_length, vector_body}

-- The length that a prefix stands for: 6 bits of it in one byte, 14 in two bytes, 30 in four, big end
-- first, with the form in the top two bits.
pub data Stands : List ℕ → ℕ → Type 0 where
  in_1_byte : (b : ℕ) → b < 64 → Stands (b ∷ []) b
  in_2_bytes : (b c : ℕ) → b < 64 → c < 256 → Stands ((64 + b) ∷ c ∷ []) (256 * b + c)
  in_4_bytes :
      (b c d e : ℕ)
      → b < 64
      → c < 256
      → d < 256
      → e < 256
      → Stands ((128 + b) ∷ c ∷ d ∷ e ∷ []) (256 * (256 * (256 * b + c) + d) + e)

-- The length that the first bytes stand for; or the error.
data IsPrefix (xs : List ℕ) : Result SessionError (ℕ × ℕ) → Type 0 where
  prefix : (len n : ℕ) → n ≤ length xs → Stands (take n xs) len → IsPrefix xs (ok (len, n))
  no_prefix : IsPrefix xs (err invalid_vector_length)

form-IsPrefix :
    (form b : ℕ) (rest : List ℕ)
    → b / 64 ≡ form
    → IsByte b
    → All IsByte rest
    → IsPrefix (b ∷ rest) (read_form form b rest)
form-IsPrefix zero b rest hf hb hs =
    prefix _ _ (omega arith)
      (let same : b % 64 ≡ b = omega (arith, hf) in rw same (in_1_byte b (omega (arith, hf))))
form-IsPrefix (suc zero) b [] hf hb hs = no_prefix
form-IsPrefix (suc zero) b (c ∷ rest) hf hb (hc, hs) = prefix _ _ (omega arith) (
    subst (λ t. Stands (t ∷ c ∷ []) (b % 64 * 2 ^ 8 + c)) (omega (arith, hf))
      (subst (Stands ((64 + b % 64) ∷ c ∷ [])) (omega arith)
        (in_2_bytes (b % 64) c (omega arith) hc)))
form-IsPrefix (suc (suc zero)) b [] hf hb hs = no_prefix
form-IsPrefix (suc (suc zero)) b (c ∷ []) hf hb hs = no_prefix
form-IsPrefix (suc (suc zero)) b (c ∷ d ∷ []) hf hb hs = no_prefix
form-IsPrefix (suc (suc zero)) b (c ∷ d ∷ e ∷ rest) hf hb (hc, (hd, (he, hs))) =
    prefix _ _ (omega arith) (
      subst (λ t. Stands (t ∷ c ∷ d ∷ e ∷ []) (b % 64 * 2 ^ 24 + c * 2 ^ 16 + d * 2 ^ 8 + e))
        (omega (arith, hf))
        (subst (Stands ((128 + b % 64) ∷ c ∷ d ∷ e ∷ [])) (omega arith)
          (in_4_bytes (b % 64) c d e (omega arith) hc hd he)))
form-IsPrefix (suc (suc (suc form))) b rest hf hb hs = no_prefix

read-IsPrefix : (xs : List ℕ) → All IsByte xs → IsPrefix xs (read_tls_vector_length xs)
unfolding read_tls_vector_length
read-IsPrefix [] h = no_prefix
read-IsPrefix (b ∷ rest) (hb, hs) = form-IsPrefix (b / 64) b rest refl hb hs

-- The body found, after a prefix that stands for its length; or an error, and no panic.
pub data IsBody (xs : List ℕ) : Result SessionError (List ℕ) → Type 0 where
  body :
      (pre mid post : List ℕ)
      → xs ≡ pre ++ (mid ++ post)
      → Stands pre (length mid)
      → IsBody xs (ok mid)
  bad_length : IsBody xs (err invalid_vector_length)
  truncated : IsBody xs (err proposals_truncated)

cut-IsBody :
    (xs : List ℕ) (r : Result SessionError (ℕ × ℕ))
    → IsPrefix xs r
    → IsBody xs (
        r >>= λ (len, n).
        if ltb (length xs) (n + len) then err proposals_truncated else slice xs n (n + len))
cut-IsBody xs _ no_prefix = bad_length
cut-IsBody xs _ (prefix len n h k) = elim (Bool-cases (ltb (length xs) (n + len))) [
  | inl short ↦ rw short truncated
  | inr long ↦
      rw (long, slice_ok SessionError xs n (n + len) (omega arith) (ltb→le _ _ long))
        (body (take n xs) (take (n + len - n) (drop n xs)) (drop (n + len - n) (drop n xs))
          (sym (
            ap (λ ys. take n xs ++ ys) (take-append-drop (n + len - n) (drop n xs))
            ∙ take-append-drop n xs))
          (subst (Stands (take n xs))
            (omega
              (arith, ltb→le _ _ long, length-take (n + len - n) (drop n xs), length-drop n xs))
            k))
]

-- The cut that readTLSVectorLength leads to, on any bytes, never panics: it gives the part of the
-- payload that follows a prefix of 1, 2 or 4 bytes and is as long as this says, or one of two errors.
pub vector_body-IsBody : (xs : List ℕ) → All IsByte xs → IsBody xs (vector_body xs)
unfolding vector_body
vector_body-IsBody xs h = cut-IsBody xs (read_tls_vector_length xs) (read-IsPrefix xs h)
