-- ===== src/Frame/Uleb128/Laws.antt =====
-- Encoding and decoding of uint32s against each other.
use dave_go.Base.{
  ℕ, zero, suc, ◌+◌, ◌-◌, ◌*◌, ◌/◌, ◌^◌, ◌≤◌, ◌<◌, ◌≡◌, refl, ◌∙◌, arith, List, [], ◌∷◌, ◌++◌,
  length, drop, ltb, Bool, true, false, ok, >>=-eq-ok, All, All-append, Bool-cases, inl, inr,
}
use dave_go.Base.Bytes.{IsByte}
use dave_go.Frame.Uleb128.{append_uleb128, encode_uleb128, decode_uleb128}
use dave_go.Frame.Uleb128.Groups.{
  groups, read_groups, append_uleb128-groups, decode_uleb128-read_groups,
}

-- The numbers that `left` further bytes can reach.
abbrev limit : ℕ → ℕ
limit zero = 16
limit (suc left) = 128 * limit left

limit-pos : (left : ℕ) → 0 < limit left
limit-pos zero = omega arith
limit-pos (suc left) = omega (arith, limit-pos left)

groups-IsByte : (k v : ℕ) → v < limit k → All IsByte (groups k v)
unfolding groups
groups-IsByte zero v h = omega arith
groups-IsByte (suc k) v h = ground (arith, groups-IsByte k (v / 128))

length-groups : (k v : ℕ) → (1 ≤ length (groups k v)) × (length (groups k v) ≤ k + 1)
unfolding groups
length-groups zero v = omega arith
length-groups (suc k) v = ground (arith, length-groups k (v / 128))

read_groups-groups :
    (k v : ℕ) (first : Bool) (rest : List ℕ)
    → v < limit k
    → (first ≡ false → 0 < v)
    → read_groups k first (groups k v ++ rest) ≡ ok (v, length (groups k v))
unfolding read_groups groups
read_groups-groups zero v first rest h nz = ground arith
read_groups-groups (suc k) v first rest h nz =
    ground (arith, read_groups-groups k (v / 128) false rest)

-- What a successful read says of the bytes.
abbrev Reads : ℕ → Bool → List ℕ → ℕ → ℕ → Type 0
Reads k first bs v n =
    (v < limit k)
    × (bs ≡ groups k v ++ drop n bs)
    × (n ≡ length (groups k v))
    × (first ≡ false → 0 < v)

Reads-more :
    (k b w m v n : ℕ) (first : Bool) (bs : List ℕ)
    → b < 256
    → ltb b 128 ≡ false
    → Reads k false bs w m
    → v ≡ b - 128 + 128 * w
    → n ≡ suc m
    → Reads (suc k) first (b ∷ bs) v n
unfolding groups
Reads-more k b w m v n first bs hb big r ev en =
    let same : v / 128 ≡ w = ground arith in ground (arith, r.3 refl)

groups-read_groups :
    (k : ℕ) (first : Bool) (bs : List ℕ) (v n : ℕ)
    → All IsByte bs
    → read_groups k first bs ≡ ok (v, n)
    → Reads k first bs v n
unfolding read_groups groups
groups-read_groups zero first [] v n hb e = cc
groups-read_groups (suc k) first [] v n hb e = cc
groups-read_groups zero first (b ∷ bs) v n hb e = ground arith
groups-read_groups (suc k) first (b ∷ bs) v n hb e = elim (Bool-cases (ltb b 128)) [
  | inl small ↦ ground (arith, limit-pos k)
  | inr big ↦
      let (r, e1, e2) = >>=-eq-ok (read_groups k false bs) _ (rw big at e) in
      Reads-more k b r.0 r.1 v n first bs hb.0 big (groups-read_groups k false bs r.0 r.1 hb.1 e1)
        (ground arith) (ground arith)
]

-- Reading back the encoding of a uint32 gives the value and the bytes used, whatever bytes follow.
pub decode_uleb128-append :
    (v : ℕ) (rest : List ℕ)
    → v < 2 ^ 32
    → All IsByte rest
    → decode_uleb128 (encode_uleb128 v ++ rest) ≡ ok (v, length (encode_uleb128 v))
unfolding encode_uleb128
decode_uleb128-append v rest h hr = rw (append_uleb128-groups [] v h) (
    decode_uleb128-read_groups (groups 4 v ++ rest)
      (All-append IsByte (groups 4 v) rest (groups-IsByte 4 v (omega arith)) hr)
    ∙ read_groups-groups 4 v true rest (omega arith) (λ e. cc))

-- No bytes but the encoding of a uint32 are accepted: what was read is what would be written.
pub encode_uleb128-decode :
    (bs : List ℕ) (v n : ℕ)
    → All IsByte bs
    → decode_uleb128 bs ≡ ok (v, n)
    → (v < 2 ^ 32) × (bs ≡ encode_uleb128 v ++ drop n bs) × (n ≡ length (encode_uleb128 v))
unfolding encode_uleb128
encode_uleb128-decode bs v n hb e =
    let r = groups-read_groups 4 true bs v n hb (rw (decode_uleb128-read_groups bs hb) at e) in
    rw (append_uleb128-groups [] v r.0) (r.0, r.1, r.2)

pub encode_uleb128-IsByte : (v : ℕ) → v < 2 ^ 32 → All IsByte (encode_uleb128 v)
unfolding encode_uleb128
encode_uleb128-IsByte v h = rw (append_uleb128-groups [] v h) (groups-IsByte 4 v (omega arith))

pub length-encode_uleb128 :
    (v : ℕ) → v < 2 ^ 32 → (1 ≤ length (encode_uleb128 v)) × (length (encode_uleb128 v) ≤ 5)
unfolding encode_uleb128
length-encode_uleb128 v h = rw (append_uleb128-groups [] v h) (length-groups 4 v)

pub append_uleb128-encode :
    (dst : List ℕ) (v : ℕ) → v < 2 ^ 32 → append_uleb128 dst v ≡ dst ++ encode_uleb128 v
unfolding encode_uleb128
append_uleb128-encode dst v h = rw (append_uleb128-groups dst v h, append_uleb128-groups [] v h)
