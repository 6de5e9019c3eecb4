-- ===== src/Frame/Uleb128.antt =====
-- frame/uleb128.go: unsigned LEB128 for 32-bit values, in one encoding each.
pub mod Groups
pub mod Laws
use dave_go.Base.{
  ℕ, zero, suc, ◌+◌, ◌-◌, ◌*◌, ◌/◌, ◌%◌, ◌^◌, bit_and, bit_or, List, [], ◌∷◌, ◌++◌, ltb, leb, ◌==◌,
  if◌then◌else◌, ◌&&◌, not, Result, ok, err,
}
use dave_go.Frame.Types.{Error, invalid_uleb128}

-- The loop of `appendULEB128`. Each round shifts `value` by seven bits.
append_loop : ℕ → List ℕ → ℕ → List ℕ
append_loop zero dst value = dst ++ ((value % 256) ∷ [])
append_loop (suc fuel) dst value =
    let more =
      append_loop fuel (dst ++ (bit_or 0x80 (bit_and value 0x7f % 256) ∷ [])) (value / 128) in
    if leb 0x80 value then more else dst ++ ((value % 256) ∷ [])

-- Four rounds leave less than 0x80 of a uint32, so the loop's test ends it.
pub append_uleb128 : List ℕ → ℕ → List ℕ
append_uleb128 dst value = append_loop 4 dst value

pub encode_uleb128 : ℕ → List ℕ
encode_uleb128 value = append_uleb128 [] value

-- The loop of `DecodeULEB128` at index `i`; the list is what it has not read.
unfoldable pub decode_loop : List ℕ → ℕ → ℕ → ℕ → Result Error (ℕ × ℕ)
decode_loop [] i value shift = err invalid_uleb128
decode_loop (b ∷ data') i value shift =
    let value' = bit_or value (bit_and b 0x7f * 2 ^ shift % 2 ^ 32) in
    let more = decode_loop data' (i + 1) value' (shift + 7) in
    if leb 5 i
    then err invalid_uleb128
    else if ltb b 0x80
    then (if ltb 0 i && (b == 0)
        then err invalid_uleb128
        else if not (b / 2 ^ (32 - shift) == 0)
        then err invalid_uleb128
        else ok (value', i + 1))
    else if leb 32 (shift + 7)
    then err invalid_uleb128
    else more

unfoldable pub decode_uleb128 : List ℕ → Result Error (ℕ × ℕ)
decode_uleb128 data' = decode_loop data' 0 0 0
