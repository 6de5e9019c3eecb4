-- ===== src/Mediakeys/Displayable.antt =====
-- mediakeys/displayable_code.go: the digits that users compare. The two lengths are Go ints; a
-- negative one takes the branch of 0, and only the others are modelled.
pub mod Digits
use dave_go.Base.{
  ℕ, zero, suc, ◌+◌, ◌-◌, ◌*◌, ◌/◌, ◌%◌, ◌^◌, bit_or, List, [], ◌∷◌, ◌++◌, length, replicate, Bool,
  true, false, not, ltb, leb, ◌==◌, ◌||◌, if◌then◌else◌, Result, ok, err, ◌>>=◌, ◌>>◌, guard,
}
use dave_go.Base.Bytes.{index}

pub data DisplayableError : Type 0 where
  group_size_too_large : DisplayableError
  group_size_invalid : DisplayableError
  code_len_invalid : DisplayableError
  input_too_short : DisplayableError

-- The verb `%0*d`: the decimal digits of a uint64, 20 at most, after zeros up to the width.
unfoldable pub decimal : ℕ → ℕ → List ℕ
decimal zero n = (48 + n % 10) ∷ []
decimal (suc fuel) n =
    let rest = decimal fuel (n / 10) in
    if ltb n 10 then (48 + n) ∷ [] else rest ++ ((48 + n % 10) ∷ [])

pub zero_padded : ℕ → ℕ → List ℕ
zero_padded width n = let ds = decimal 19 n in replicate (width - length ds) 48 ++ ds

-- The loop that computes `mod`.
mod_loop : ℕ → ℕ → ℕ
mod_loop zero m = m
mod_loop (suc rounds) m = mod_loop rounds (m * 10 % 2 ^ 64)

-- The inner loop, from the byte at `k` on.
group_loop : List ℕ → ℕ → ℕ → ℕ → Result DisplayableError ℕ
group_loop secret zero k n = ok n
group_loop secret (suc rounds) k n =
    index secret k >>= λ b. group_loop secret rounds (k + 1) (bit_or (n * 2 ^ 8 % 2 ^ 64) b)

-- The outer loop, from group `i` on.
code_loop : List ℕ → ℕ → ℕ → ℕ → ℕ → List ℕ → Result DisplayableError (List ℕ)
code_loop secret group_size m zero i b = ok b
code_loop secret group_size m (suc rounds) i b =
    group_loop secret group_size (i * group_size) 0 >>= λ n.
    code_loop secret group_size m rounds (i + 1) (b ++ zero_padded group_size (n % m))

pub displayable_code : List ℕ → ℕ → ℕ → Result DisplayableError (List ℕ)
displayable_code secret code_len group_size =
    if leb 8 group_size
    then err group_size_too_large
    else if group_size == 0
    then err group_size_invalid
    else if code_len == 0 || not (code_len % group_size == 0)
    then err code_len_invalid
    else if ltb (length secret) (code_len / group_size * group_size)
    then err input_too_short
    else code_loop secret group_size (mod_loop group_size 1) (code_len / group_size) 0 []
