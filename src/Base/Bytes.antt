-- ===== src/Base/Bytes.antt =====
-- Byte strings: Go's slice expressions, `copy`, and the fixed-width integers of encoding/binary.
use Prim.Native.Nat.{ℕ, zero, suc, ◌+◌, ◌-◌, ◌/◌, ◌%◌, ◌≤◌, ◌<◌}
use mathlib.Core.Path.{◌≡◌, refl, ap, ◌∙◌}
use mathlib.Core.Bool.{Bool, true, false, ◌&&◌}
use mathlib.Core.List.{List, [], ◌∷◌, ◌++◌}
use native.Mathlib.Omega.{arith}
use dave_go.Base.Tests.{leb, ltb, ◌==◌, if◌then◌else◌}
use dave_go.Base.Lists.{length, take, drop, get_or, length-append, take-append, drop-append}
use dave_go.Base.Results.{Result, ok, panic}

abbrev pub IsByte : ℕ → Type 0
IsByte b = b < 256

-- `xs[a:b]`: Go panics when the bounds are out of order or past the end.
abbrev pub slice : {E : Type 0} → List ℕ → ℕ → ℕ → Result E (List ℕ)
slice xs a b = if leb a b && leb b (length xs) then ok (take (b - a) (drop a xs)) else panic

-- `xs[i]`
abbrev pub index : {E : Type 0} → List ℕ → ℕ → Result E ℕ
index xs i = if ltb i (length xs) then ok (get_or xs i 0) else panic

-- `copy(out[i:], src)`: as many bytes as both have are written.
abbrev pub copy_at : List ℕ → ℕ → List ℕ → List ℕ
copy_at out i src = take i out ++ (take (length out - i) src ++ drop (i + length src) out)

-- bytes.Equal
abbrev pub bytes_equal : List ℕ → List ℕ → Bool
bytes_equal [] [] = true
bytes_equal [] (y ∷ ys) = false
bytes_equal (x ∷ xs) [] = false
bytes_equal (x ∷ xs) (y ∷ ys) = (x == y) && bytes_equal xs ys

-- binary.LittleEndian and binary.BigEndian, on `n` bytes.
abbrev pub put_le : ℕ → ℕ → List ℕ
put_le zero v = []
put_le (suc n) v = (v % 256) ∷ put_le n (v / 256)

abbrev pub put_be : ℕ → ℕ → List ℕ
put_be zero v = []
put_be (suc n) v = put_be n (v / 256) ++ ((v % 256) ∷ [])

module _ (E : Type 0) where
  pub slice_ok :
      (xs : List ℕ) (a b : ℕ)
      → a ≤ b
      → b ≤ length xs
      → slice {E = E} xs a b ≡ ok (take (b - a) (drop a xs))
  slice_ok xs a b h k = ground arith

  -- A slice between the ends of a middle part.
  pub slice_at :
      (xs pre mid post : List ℕ) (a b : ℕ)
      → xs ≡ pre ++ (mid ++ post)
      → a ≡ length pre
      → b ≡ length pre + length mid
      → slice {E = E} xs a b ≡ ok mid
  slice_at xs pre mid post a b e ha hb =
      slice_ok xs a b (omega arith)
        (omega (arith, ap length e, length-append pre (mid ++ post), length-append mid post))
      ∙ ap ok (
          ap (λ t. take (b - a) (drop a t)) e
          ∙ ap (take (b - a)) (drop-append a pre (mid ++ post) ha)
          ∙ take-append (b - a) mid post (omega arith))

  pub index_ok : (xs : List ℕ) (i : ℕ) → i < length xs → index {E = E} xs i ≡ ok (get_or xs i 0)
  index_ok xs i h = ground arith

pub bytes_equal→eq : (xs ys : List ℕ) → bytes_equal xs ys ≡ true → xs ≡ ys
bytes_equal→eq [] [] h = refl
bytes_equal→eq [] (y ∷ ys) h = cc
bytes_equal→eq (x ∷ xs) [] h = cc
bytes_equal→eq (x ∷ xs) (y ∷ ys) h = ground (arith, bytes_equal→eq xs ys)

pub bytes_equal_refl : (xs : List ℕ) → bytes_equal xs xs ≡ true
bytes_equal_refl [] = refl
bytes_equal_refl (x ∷ xs) = ground (arith, bytes_equal_refl xs)
