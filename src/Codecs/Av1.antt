-- ===== src/Codecs/Av1.antt =====
-- codecs/av1.go: the OBUs of an AV1 frame, dropped, stripped of the last size, and their clear headers.
pub mod Headers
pub mod Reading
pub mod Sizes
pub mod Total
use dave_go.Base.{
  ℕ, zero, suc, ◌+◌, ◌-◌, ◌*◌, ◌/◌, ◌%◌, ◌^◌, bit_and, bit_or, bit_xor, List, [], ◌∷◌, ◌++◌, length,
  get_or, take, drop, Bool, true, false, not, ltb, leb, ◌==◌, ◌&&◌, ◌||◌, if◌then◌else◌, Result, ok,
  err, panic, ◌>>=◌, ◌>>◌,
}
use dave_go.Base.Bytes.{slice}
use dave_go.Frame.Types.{Range, invalid_uleb128}
use dave_go.Codecs.Types.{CodecError, frame_error}

-- `parsedOBU`
pub record Obu : Type 0 where
  pub header_byte : ℕ
  pub has_ext : Bool
  pub ext_byte : ℕ
  pub size_bytes : List ℕ
  pub data_bytes : List ℕ

pub should_drop_obu : ℕ → Bool
should_drop_obu obu_type = obu_type == 2 || obu_type == 8 || obu_type == 15

-- The loop of `decodeLEB128` at index `i`; the list is what it has not read.
leb128_loop : List ℕ → ℕ → ℕ → ℕ → Result CodecError (ℕ × ℕ)
leb128_loop [] i value shift = err (frame_error invalid_uleb128)
leb128_loop (b ∷ bs) i value shift =
    let value' = bit_or value (bit_and b 0x7F * 2 ^ shift % 2 ^ 64) in
    let more = leb128_loop bs (i + 1) value' (shift + 7) in
    if not (ltb i 8)
    then err (frame_error invalid_uleb128)
    else if ltb b 0x80
    then ok (value', i + 1)
    else more

pub decode_leb128 : List ℕ → Result CodecError (ℕ × ℕ)
decode_leb128 data' = leb128_loop data' 0 0 0

-- The size field and the payload's size, from the bytes after the header and the extension.
pub parse_size : Bool → List ℕ → Result CodecError (List ℕ × ℕ)
parse_size false rest = ok ([], length rest)
parse_size true rest = do
  (size, n) ← decode_leb128 rest
  size_field ← slice rest 0 n
  ok (size_field, size)

-- One round of the first loop, after the header and the extension: the OBU, and what follows it.
-- The Go code keeps an offset into the frame; here it is the list of the bytes from there on.
pub parse_obu : ℕ → Bool → ℕ → List ℕ → Result CodecError (Obu × List ℕ)
parse_obu header_byte has_ext ext_byte rest = do
  (size_bytes, wanted) ← parse_size (header_byte / 2 % 2 == 1) rest
  let body = drop (length size_bytes) rest
  let payload_size = if ltb (length body) wanted then length body else wanted
  ok (
    record {
      header_byte = header_byte;
      has_ext = has_ext;
      ext_byte = ext_byte;
      size_bytes = size_bytes;
      data_bytes = take payload_size body;
    },
    drop payload_size body,
  )

-- `append` unless the type is one to drop.
abbrev pub keep_obu : List Obu → ℕ → Obu → List Obu
keep_obu obus header_byte obu =
    if should_drop_obu (header_byte / 8 % 16) then obus else obus ++ (obu ∷ [])

-- The first loop. Every round reads a byte at least, so the number of bytes is enough fuel.
parse_loop : ℕ → List ℕ → List Obu → Result CodecError (List Obu)
parse_loop fuel [] obus = ok obus
parse_loop zero (h ∷ rest) obus = panic
parse_loop (suc fuel) (h ∷ []) obus =
    let plain = (do
      (obu, after) ← parse_obu h false 0 []
      parse_loop fuel after (keep_obu obus h obu)) in
    if h / 4 % 2 == 1 then ok obus else plain
parse_loop (suc fuel) (h ∷ (e ∷ rest)) obus =
    let extended = (do
      (obu, after) ← parse_obu h true e rest
      parse_loop fuel after (keep_obu obus h obu)) in
    let plain = (do
      (obu, after) ← parse_obu h false 0 (e ∷ rest)
      parse_loop fuel after (keep_obu obus h obu)) in
    if h / 4 % 2 == 1 then extended else plain

pub parse_obus : List ℕ → Result CodecError (List Obu)
parse_obus payload = parse_loop (length payload) payload []

-- `h &^ 0x02`
abbrev pub clear_size_bit : ℕ → ℕ
clear_size_bit h = bit_xor h (bit_and h 2)

abbrev pub ext_bytes : Obu → List ℕ
ext_bytes obu = if obu.has_ext then obu.ext_byte ∷ [] else []

-- The bytes of an OBU that stay clear.
pub clear_header : Bool → Obu → List ℕ
clear_header is_last obu =
    (if is_last then clear_size_bit obu.header_byte else obu.header_byte)
    ∷ (ext_bytes obu ++ (if is_last then [] else obu.size_bytes))

abbrev pub is_nil : List Obu → Bool
is_nil [] = true
is_nil (o ∷ os) = false

-- The second loop: the frame so far, its length and the ranges so far.
build_loop : List Obu → List ℕ → ℕ → List Range → List ℕ × List Range
build_loop [] transformed write_offset ranges = (transformed, ranges)
build_loop (obu ∷ obus) transformed write_offset ranges =
    let header = clear_header (is_nil obus) obu in
    build_loop obus ((transformed ++ header) ++ obu.data_bytes)
      (write_offset + length header + length obu.data_bytes)
      (ranges ++ (record { offset = write_offset; len = length header } ∷ []))

pub prepare_av1_frame : List ℕ → Result CodecError (List ℕ × List Range)
prepare_av1_frame payload = parse_obus payload >>= λ obus. ok (build_loop obus [] 0 [])
