-- ===== src/Frame/Uleb128/Groups.antt =====
-- uleb128.go against plain arithmetic on groups of seven bits.
use dave_go.Base.{
  ℕ, zero, suc, ◌+◌, ◌-◌, ◌*◌, ◌/◌, ◌%◌, ◌^◌, ◌≤◌, ◌<◌, bit_and, bit_or, ◌≡◌, refl, arith, List, [],
  ◌∷◌, ◌++◌, ltb, ◌==◌, if◌then◌else◌, ◌&&◌, not, Bool, true, false, Result, ok, err, panic, All,
  Bool-cases, ne→==, ◌>>=◌, append_assoc, ◌∙◌, ap, inl, inr,
}
use dave_go.Base.Bits.{bit_and-mask_127, bit_or-top_bit, bit_or-add_high}
use dave_go.Base.Bytes.{IsByte}
use native.Mathlib.Numerals.{towards_suc}
use native.Mathlib.Nat.{mod-eq_of_lt, div-eq_of_lt}
use dave_go.Frame.Types.{Error, invalid_uleb128}
use dave_go.Frame.Uleb128.{append_loop, append_uleb128, decode_loop, decode_uleb128}

-- The groups of `v`, lowest first, for `v` below 128 ^ (k + 1).
unfoldable pub groups : ℕ → ℕ → List ℕ
groups zero v = v ∷ []
groups (suc k) v =
    let rest = groups k (v / 128) in if ltb v 128 then v ∷ [] else (v % 128 + 128) ∷ rest

inner_byte : (v : ℕ) → bit_or 0x80 (bit_and v 0x7f % 256) ≡ v % 128 + 128
inner_byte v =
    let e : bit_and v 0x7f % 256 ≡ v % 128 = omega (arith, bit_and-mask_127 v) in
    rw e (bit_or-top_bit (v % 128) (omega arith))

append_loop-groups :
    (k v : ℕ) (dst : List ℕ) → v < 128 ^ suc k → append_loop k dst v ≡ dst ++ groups k v
unfolding append_loop groups
append_loop-groups zero v dst h = ground arith
append_loop-groups (suc k) v dst h = ground (
  arith,
  inner_byte v,
  append_loop-groups k (v / 128) (dst ++ ((v % 128 + 128) ∷ [])) (omega arith),
  append_assoc dst ((v % 128 + 128) ∷ []) (groups k (v / 128)),
)

pub append_uleb128-groups :
    (dst : List ℕ) (v : ℕ) → v < 2 ^ 32 → append_uleb128 dst v ≡ dst ++ groups 4 v
unfolding append_uleb128
append_uleb128-groups dst v h = append_loop-groups 4 v dst (omega arith)

-- What one number takes: the value and the bytes used. `left` counts the bytes that may still
-- follow, and the fifth byte holds four bits.
unfoldable pub read_groups : ℕ → Bool → List ℕ → Result Error (ℕ × ℕ)
read_groups left first [] = err invalid_uleb128
read_groups zero first (b ∷ bs) =
    if ltb b 16 && not (not first && (b == 0)) then ok (b, 1) else err invalid_uleb128
read_groups (suc left) first (b ∷ bs) =
    if ltb b 128
    then (if not first && (b == 0) then err invalid_uleb128 else ok (b, 1))
    else (read_groups left false bs >>= λ r. ok (b - 128 + 128 * r.0, suc r.1))

-- What one round adds to `value`, at a shift that leaves room for it.
accumulate :
    (b value shift : ℕ)
    → value < 2 ^ shift
    → b % 128 * 2 ^ shift < 2 ^ 32
    → bit_or value (bit_and b 0x7f * 2 ^ shift % 2 ^ 32) ≡ value + b % 128 * 2 ^ shift
accumulate b value shift h fits =
    rw (bit_and-mask_127 b, mod-eq_of_lt fits) (bit_or-add_high shift (b % 128) value h)

-- The first four bytes can neither overflow nor be cut off by the limit of five.
inner_round :
    (b : ℕ) (bs : List ℕ) (i value shift : ℕ)
    → b < 256
    → value < 2 ^ shift
    → 2 ^ shift ≤ 2 ^ 21
    → 256 ≤ 2 ^ (32 - shift)
    → shift + 7 < 32
    → i < 4
    → decode_loop (b ∷ bs) i value shift ≡ (
        if ltb b 128
        then (if not (i == 0) && (b == 0)
            then err invalid_uleb128
            else ok (value + b * 2 ^ shift, i + 1))
        else decode_loop bs (i + 1) (value + (b - 128) * 2 ^ shift) (shift + 7))
unfolding decode_loop
inner_round b bs i value shift hb hv hp hq hs hi =
    ground (arith, accumulate b value shift hv fits, top)
  where
    fits : b % 128 * 2 ^ shift < 2 ^ 32
    fits = grind arith

    top : b / 2 ^ (32 - shift) ≡ 0
    top = div-eq_of_lt (omega arith)

last_round :
    (b : ℕ) (bs : List ℕ) (value : ℕ)
    → b < 256
    → value < 2 ^ 28
    → decode_loop (b ∷ bs) 4 value 28
      ≡ (if ltb b 16 && not (b == 0) then ok (value + b * 2 ^ 28, 5) else err invalid_uleb128)
unfolding decode_loop
last_round b bs value hb hv = ground (arith, small)
  where
    small : b < 16 → bit_or value (bit_and b 0x7f * 2 ^ 28 % 2 ^ 32) ≡ value + b * 2 ^ 28
    small h = accumulate b value 28 hv (omega arith) ∙ omega arith

shift_bounds : (i : ℕ) → i < 4 → (2 ^ (7 * i) ≤ 2 ^ 21) × (256 ≤ 2 ^ (32 - 7 * i))
shift_bounds zero h = omega arith
shift_bounds (suc zero) h = omega arith
shift_bounds (suc (suc zero)) h = omega arith
shift_bounds (suc (suc (suc zero))) h = omega arith
shift_bounds (suc (suc (suc (suc i)))) h = absurd (omega arith)

shift_seven : (s : ℕ) → 2 ^ (s + 7) ≡ 128 * 2 ^ s
shift_seven s = simp towards_suc (omega arith)

-- The value and the count, moved on by what came before.
abbrev placed : ℕ → ℕ → ℕ → Result Error (ℕ × ℕ) → Result Error (ℕ × ℕ)
placed i value shift r = r >>= λ p. ok (value + p.0 * 2 ^ shift, i + p.1)

placed_inner :
    (i value shift g : ℕ) (r : Result Error (ℕ × ℕ))
    → placed (i + 1) (value + g * 2 ^ shift) (shift + 7) r
      ≡ placed i value shift (r >>= λ p. ok (g + 128 * p.0, suc p.1))
placed_inner i value shift g (ok (w, n)) = λ j. ok (values j, counts j)
  where
    values : value + g * 2 ^ shift + w * 2 ^ (shift + 7) ≡ value + (g + 128 * w) * 2 ^ shift
    values = omega (arith, ap (λ (t : ℕ). w * t) (shift_seven shift))

    counts : i + 1 + n ≡ i + suc n
    counts = omega arith
placed_inner i value shift g (err e) = refl
placed_inner i value shift g panic = refl

read_last :
    (b : ℕ) (bs : List ℕ) (value : ℕ)
    → b < 256
    → value < 2 ^ 28
    → decode_loop (b ∷ bs) 4 value 28 ≡ placed 4 value 28 (read_groups 0 false (b ∷ bs))
unfolding read_groups
read_last b bs value hb hv = last_round b bs value hb hv ∙ ground arith

group-le : (g p : ℕ) → g < 128 → g * p ≤ 127 * p
group-le g p h = grind arith

-- The next round's place, and its value still below it.
next_place :
    (i value b : ℕ)
    → value < 2 ^ (7 * i)
    → b < 256
    → (7 * (i + 1) ≡ 7 * i + 7) × (value + (b - 128) * 2 ^ (7 * i) < 2 ^ (7 * (i + 1)))
next_place i value b h hb =
    (e, rw (e, shift_seven (7 * i)) (omega (arith, group-le (b - 128) (2 ^ (7 * i)) (omega arith))))
  where
    e : 7 * (i + 1) ≡ 7 * i + 7
    e = omega arith

decode_loop-read_groups :
    (left i value : ℕ) (bs : List ℕ)
    → All IsByte bs
    → i + left ≡ 4
    → value < 2 ^ (7 * i)
    → decode_loop bs i value (7 * i) ≡ placed i value (7 * i) (read_groups left (i == 0) bs)
unfolding read_groups
decode_loop-read_groups zero i value [] hb h hv = unfold decode_loop in refl
decode_loop-read_groups (suc left) i value [] hb h hv = unfold decode_loop in refl
decode_loop-read_groups zero i value (b ∷ bs) hb h hv =
    let e : i ≡ 4 = omega arith in rw e (read_last b bs value hb.0 (rw e at hv))
decode_loop-read_groups (suc left) i value (b ∷ bs) hb h hv =
    let place = next_place i value b hv hb.0 in
    let deeper = decode_loop-read_groups left (i + 1) _ bs hb.1 (omega arith) place.1 in
    inner_round b bs i value (7 * i) hb.0 hv (shift_bounds i (omega arith)).0
      (shift_bounds i (omega arith)).1 (omega arith) (omega arith)
    ∙ elim (Bool-cases (ltb b 128)) [
      | inl small ↦ rw small (ground arith)
      | inr big ↦ rw big (
          rw (place.0, ne→== (i + 1) 0 (omega arith)) at deeper
          ∙ placed_inner i value (7 * i) (b - 128) (read_groups left false bs))
    ]

placed_first : (r : Result Error (ℕ × ℕ)) → placed 0 0 0 r ≡ r
placed_first (ok (w, n)) = λ j. ok (same j, none_before j)
  where
    same : 0 + w * 2 ^ 0 ≡ w
    same = omega arith

    none_before : 0 + n ≡ n
    none_before = omega arith
placed_first (err e) = refl
placed_first panic = refl

-- `DecodeULEB128` reads groups of seven bits, lowest first.
pub decode_uleb128-read_groups :
    (bs : List ℕ) → All IsByte bs → decode_uleb128 bs ≡ read_groups 4 true bs
unfolding decode_uleb128
decode_uleb128-read_groups bs hb =
    decode_loop-read_groups 4 0 0 bs hb (omega arith) (omega arith) ∙ placed_first _
