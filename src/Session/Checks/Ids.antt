-- ===== src/Session/Checks/Ids.antt =====
-- A user id and the bytes of its identity.
use dave_go.Base.{
  ℕ, zero, suc, ◌+◌, ◌-◌, ◌*◌, ◌/◌, ◌%◌, ◌^◌, ◌≤◌, ◌<◌, ◌≡◌, refl, ap, arith, ◌∙◌, List, [], ◌∷◌,
  ◌++◌, length, length-append, All, All-append, ltb, inl, inr, Bool-cases, Result, ok, err, panic,
  subst, ◌>>=◌,
}
use native.Mathlib.Nat.{pow-suc}
use dave_go.Base.Bytes.{IsByte, put_be}
use dave_go.Mediakeys.Displayable.{decimal}
use dave_go.Session.Types.{UserId, SessionError}
use dave_go.Session.Wire.Identity.{
  parse_digits, parse_uint, user_id_to_identity_bytes, get_be, format_uint,
  identity_bytes_to_user_id,
}

get_be-append : (xs : List ℕ) (b v : ℕ) → get_be (xs ++ (b ∷ [])) v ≡ get_be xs v * 256 + b
unfolding get_be
get_be-append [] b v = refl
get_be-append (x ∷ xs) b v = get_be-append xs b (v * 256 + x)

get_be-put_be : (n v : ℕ) → v < 256 ^ n → get_be (put_be n v) 0 ≡ v
unfolding get_be
get_be-put_be zero v h = omega arith
get_be-put_be (suc n) v h = omega (
  arith,
  get_be-append (put_be n (v / 256)) (v % 256) 0,
  get_be-put_be n (v / 256) (omega (arith, pow-suc 256 n)),
)

-- A digit after digits.
parse-append :
    (xs : UserId) (d v n : ℕ)
    → parse_digits xs v ≡ ok n
    → d ≤ 9
    → n * 10 + d < 2 ^ 64
    → parse_digits (xs ++ ((48 + d) ∷ [])) v ≡ ok (n * 10 + d)
unfolding parse_digits
parse-append [] d v n e h k = ground arith
parse-append (c ∷ cs) d v n e h k =
    let ih = parse-append cs d (v * 10 + (c - 48)) n in ground (arith, ih)

length-decimal : (fuel n : ℕ) → 1 ≤ length (decimal fuel n)
unfolding decimal
length-decimal zero n = omega arith
length-decimal (suc fuel) n =
    let seam = length-append (decimal fuel (n / 10)) ((48 + n % 10) ∷ []) in ground (arith, seam)

-- Reading what was printed.
parse-decimal :
    (fuel n : ℕ) → n < 10 ^ suc fuel → n < 2 ^ 64 → parse_digits (decimal fuel n) 0 ≡ ok n
unfolding parse_digits decimal
parse-decimal zero n h k = ground arith
parse-decimal (suc fuel) n h k =
    let ih = parse-decimal fuel (n / 10) (omega (arith, pow-suc 10 (suc fuel))) (omega arith) in
    elim (Bool-cases (ltb n 10)) [
      | inl small ↦ ground (arith, small)
      | inr big ↦ rw big (
          parse-append (decimal fuel (n / 10)) (n % 10) 0 (n / 10) ih (omega arith) (omega arith)
          ∙ ap ok (omega arith))
    ]

parse_uint-digits :
    (xs : UserId) (n : ℕ) → 1 ≤ length xs → parse_digits xs 0 ≡ ok n → parse_uint xs ≡ ok n
parse_uint-digits [] n h e = absurd (omega arith)
parse_uint-digits (c ∷ cs) n h e = e

-- A user id below 2^64, in decimal without leading zeros, is encoded as 8 bytes, big end first, and
-- those bytes are decoded as that user id and its number.
pub user_id-roundtrip :
    (n : ℕ)
    → n < 2 ^ 64
    → (user_id_to_identity_bytes (format_uint n) ≡ ok (put_be 8 n))
      × (identity_bytes_to_user_id (put_be 8 n) ≡ ok (format_uint n, n))
unfolding user_id_to_identity_bytes identity_bytes_to_user_id
user_id-roundtrip n h =
    let parsed =
      parse_uint-digits (decimal 19 n) n (length-decimal 19 n)
        (parse-decimal 19 n (omega arith) h) in
    let value = get_be-put_be 8 n (omega arith) in
    (rw parsed refl, ap (λ v. ok (format_uint v, v)) value)

put_be-IsByte : (n v : ℕ) → All IsByte (put_be n v)
put_be-IsByte zero v = tt
put_be-IsByte (suc n) v =
    All-append IsByte (put_be n (v / 256)) _ (put_be-IsByte n (v / 256)) (omega arith, tt)

bytes_of : Result SessionError (List ℕ) → List ℕ
bytes_of (ok bs) = bs
bytes_of (err e) = []
bytes_of panic = []

parse_digits-lt : (xs : UserId) (v n : ℕ) → v < 2 ^ 64 → parse_digits xs v ≡ ok n → n < 2 ^ 64
unfolding parse_digits
parse_digits-lt [] v n h e = ground (arith, h, e)
parse_digits-lt (c ∷ cs) v n h e =
    let ih = parse_digits-lt cs (v * 10 + (c - 48)) n in ground (arith, ih, e)

parse_uint-lt : (xs : UserId) (n : ℕ) → parse_uint xs ≡ ok n → n < 2 ^ 64
parse_uint-lt [] n e = absurd (cc)
parse_uint-lt (c ∷ cs) n e = parse_digits-lt (c ∷ cs) 0 n (omega arith) e

-- The bytes of a user id, and what they are decoded as.
abbrev IsEncoded : UserId → List ℕ → Type 0
IsEncoded user bs =
    (n : ℕ) × (parse_uint user ≡ ok n)
    × (length bs ≡ 8)
    × All IsByte bs
    × (identity_bytes_to_user_id bs ≡ ok (format_uint n, n))

encoded :
    (user : UserId) (r : Result SessionError ℕ) (bs : List ℕ)
    → parse_uint user ≡ r
    → (r >>= λ n. ok (put_be 8 n)) ≡ ok bs
    → IsEncoded user bs
unfolding bytes_of identity_bytes_to_user_id
encoded user (ok n) bs parsed e =
    let value = get_be-put_be 8 n (omega (arith, parse_uint-lt user n parsed)) in
    subst (IsEncoded user) (ap bytes_of e)
      (n, parsed, refl, put_be-IsByte 8 n, ap (λ v. ok (format_uint v, v)) value)
encoded user (err x) bs parsed e = absurd (cc)
encoded user panic bs parsed e = absurd (cc)

-- What a user id is encoded as, if it is one, is 8 bytes, which are decoded as the number that its
-- digits stand for, and as this number in decimal.
pub user_id_to_identity_bytes-IsByte :
    (user : UserId) (bs : List ℕ)
    → user_id_to_identity_bytes user ≡ ok bs
    → (n : ℕ) × (parse_uint user ≡ ok n)
      × (length bs ≡ 8)
      × All IsByte bs
      × (identity_bytes_to_user_id bs ≡ ok (format_uint n, n))
unfolding user_id_to_identity_bytes
user_id_to_identity_bytes-IsByte user bs e = encoded user (parse_uint user) bs refl e
