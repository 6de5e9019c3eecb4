-- ===== src/Mediakeys/Displayable/Digits.antt =====
-- The characters of a displayable code.
use dave_go.Base.{
  ℕ, zero, suc, ◌+◌, ◌-◌, ◌*◌, ◌/◌, ◌%◌, ◌^◌, ◌≤◌, ◌<◌, ◌≡◌, refl, arith, List, [], ◌∷◌, ◌++◌,
  length, length-append, replicate, All, All-append, ltb, ok, Bool-cases, inl, inr, ltb→lt, lt→ltb,
  le→ltb, gt→leb, ne→==,
}
use native.Mathlib.Nat.{pow-suc, mod-lt, one-le-pow, mul-div_left, mul-mod_left}
use dave_go.Base.Bytes.{index_ok}
use dave_go.Mediakeys.Displayable.{
  DisplayableError, decimal, zero_padded, mod_loop, group_loop, code_loop, displayable_code,
}

-- The ASCII digits.
abbrev pub IsDigit : ℕ → Type 0
IsDigit c = (48 ≤ c) × (c ≤ 57)

abbrev Shows : ℕ → List ℕ → Type 0
Shows size s = (length s ≡ size) × All IsDigit s

Shows-append :
    (m n size : ℕ) (s t : List ℕ) → Shows m s → Shows n t → size ≡ m + n → Shows size (s ++ t)
Shows-append m n size s t p q e =
    (omega (arith, length-append s t, p.0, q.0), All-append IsDigit s t p.1 q.1)

zeros : (n : ℕ) → Shows n (replicate n 48)
zeros zero = (refl, tt)
zeros (suc n) = (omega (arith, (zeros n).0), ((omega arith, omega arith), (zeros n).1))

decimal-digits : (fuel n : ℕ) → All IsDigit (decimal fuel n)
unfolding decimal
decimal-digits zero n = omega arith
decimal-digits (suc fuel) n =
    let rest = decimal-digits fuel (n / 10) in
    elim (Bool-cases (ltb n 10)) [
      | inl small ↦ rw small (omega (arith, ltb→lt _ _ small))
      | inr big ↦ rw big (All-append IsDigit (decimal fuel (n / 10)) _ rest (omega arith))
    ]

length-decimal : (fuel w n : ℕ) → n < 10 ^ suc w → length (decimal fuel n) ≤ suc w
unfolding decimal
length-decimal zero w n h = omega arith
length-decimal (suc fuel) zero n h = rw (lt→ltb n 10 h) (omega arith)
length-decimal (suc fuel) (suc w) n h =
    let rest = length-decimal fuel w (n / 10) (omega (arith, pow-suc 10 (suc w))) in
    elim (Bool-cases (ltb n 10)) [
      | inl small ↦ rw small (omega arith)
      | inr big ↦
          rw big (omega (arith, rest, length-append (decimal fuel (n / 10)) ((48 + n % 10) ∷ [])))
    ]

zero_padded-Shows : (w n : ℕ) → n < 10 ^ suc w → Shows (suc w) (zero_padded (suc w) n)
unfolding zero_padded
zero_padded-Shows w n h =
    Shows-append _ (length (decimal 19 n)) (suc w) _ _ (zeros (suc w - length (decimal 19 n)))
      (refl, decimal-digits 19 n) (omega (arith, length-decimal 19 w n h))

mod_loop-pow : (g : ℕ) → g < 8 → mod_loop g 1 ≡ 10 ^ g
unfolding mod_loop
mod_loop-pow zero h = refl
mod_loop-pow (suc zero) h = refl
mod_loop-pow (suc (suc zero)) h = refl
mod_loop-pow (suc (suc (suc zero))) h = refl
mod_loop-pow (suc (suc (suc (suc zero)))) h = refl
mod_loop-pow (suc (suc (suc (suc (suc zero))))) h = refl
mod_loop-pow (suc (suc (suc (suc (suc (suc zero)))))) h = refl
mod_loop-pow (suc (suc (suc (suc (suc (suc (suc zero))))))) h = refl
mod_loop-pow (suc (suc (suc (suc (suc (suc (suc (suc g)))))))) h = absurd (omega arith)

group_loop-ok :
    (secret : List ℕ) (rounds k n : ℕ)
    → k + rounds ≤ length secret
    → (m : ℕ) × (group_loop secret rounds k n ≡ ok m)
unfolding group_loop
group_loop-ok secret zero k n h = (n, refl)
group_loop-ok secret (suc rounds) k n h =
    rw (index_ok DisplayableError secret k (omega arith))
      (group_loop-ok secret rounds (k + 1) _ (omega arith))

mod_below : (n k : ℕ) → n % 10 ^ k < 10 ^ k
mod_below n k = mod-lt n (one-le-pow k 10 (omega arith))

code_loop-Shows :
    (secret : List ℕ) (w rounds i size goal : ℕ) (b : List ℕ)
    → suc w < 8
    → (i + rounds) * suc w ≤ length secret
    → Shows size b
    → goal ≡ size + rounds * suc w
    → (s : List ℕ) × (code_loop secret (suc w) (mod_loop (suc w) 1) rounds i b ≡ ok s)
      × Shows goal s
unfolding code_loop
code_loop-Shows secret w zero i size goal b small long shown e =
    (b, refl, (omega (arith, shown.0), shown.1))
code_loop-Shows secret w (suc rounds) i size goal b small long shown e =
    let (n, f) = group_loop-ok secret (suc w) (i * suc w) 0 (omega arith) in
    let digits =
      zero_padded-Shows w (n % mod_loop (suc w) 1)
        (rw (mod_loop-pow (suc w) small) (mod_below n (suc w))) in
    rw f (
      code_loop-Shows secret w rounds (i + 1) (size + suc w) goal _ small (omega arith)
        (Shows-append size (suc w) _ b _ shown digits refl) (omega arith))

-- With a group size from 1 to 7, a code length that is a positive multiple of it, and that many
-- bytes, there is a code: exactly that many characters, each a decimal digit.
pub displayable_code-digits :
    (secret : List ℕ) (groups group_size : ℕ)
    → 1 ≤ groups
    → 1 ≤ group_size
    → group_size < 8
    → groups * group_size ≤ length secret
    → (s : List ℕ) × (displayable_code secret (groups * group_size) group_size ≡ ok s)
      × (length s ≡ groups * group_size)
      × All IsDigit s
unfolding displayable_code
displayable_code-digits secret groups zero some_group some_digit small long = absurd (omega arith)
displayable_code-digits secret groups (suc w) some_group some_digit small long =
    let count : groups * suc w / suc w ≡ groups = mul-div_left groups (omega arith) in
    let even : groups * suc w % suc w ≡ 0 = mul-mod_left groups (suc w) in
    let (s, made, shown) =
      code_loop-Shows secret w groups 0 0 (groups * suc w) [] small (omega arith) (refl, tt)
        (omega arith) in
    rw
      (
        gt→leb 8 (suc w) small,
        ne→== (suc w) 0 (omega arith),
        ne→== (groups * suc w) 0 (omega arith),
        even,
        count,
        le→ltb (length secret) (groups * suc w) long,
      )
      (s, made, shown.0, shown.1)
