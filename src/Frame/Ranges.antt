-- ===== src/Frame/Ranges.antt =====
-- frame/ranges.go, and the loops of frame/encrypt.go over the unencrypted ranges (`buildAAD`,
-- `appendInterleaved`). A slice out of bounds is a panic.
pub mod Layout
pub mod Signed
pub mod Weave
use dave_go.Base.{
  ℕ, ◌+◌, ◌-◌, ◌%◌, ◌^◌, ◌≤◌, ◌<◌, Bool, leb, ◌||◌, List, [], ◌∷◌, ◌++◌, length, ltb, if◌then◌else◌,
  ◌&&◌, Option, none, some, Result, ok, err, panic, ◌>>=◌, ◌>>◌,
}
use dave_go.Base.Bytes.{slice, copy_at}
use dave_go.Frame.Types.{Error, invalid_ranges, Range}

-- Signed tests and signed arithmetic on 64-bit ints in two's complement.
abbrev pub is_negative : ℕ → Bool
is_negative n = leb (2 ^ 63) n

unfoldable pub signed_ltb : ℕ → ℕ → Bool
signed_ltb a b = ltb ((a + 2 ^ 63) % 2 ^ 64) ((b + 2 ^ 63) % 2 ^ 64)

-- The loop of `ValidateRanges` at index `i`.
unfoldable pub validate_loop : List Range → ℕ → ℕ → ℕ → Result Error (Unit {0})
validate_loop [] i prev_end size = ok tt
validate_loop (r ∷ rs) i prev_end size =
    let rest = validate_loop rs (i + 1) ((r.offset + r.len) % 2 ^ 64) size in
    if is_negative r.offset || is_negative r.len
    then err invalid_ranges
    else if signed_ltb ((size + 2 ^ 64 - r.offset) % 2 ^ 64) r.len
    then err invalid_ranges
    else if ltb 0 i && signed_ltb r.offset prev_end
    then err invalid_ranges
    else rest

unfoldable pub validate_ranges : List Range → ℕ → Result Error (Unit {0})
validate_ranges ranges size = validate_loop ranges 0 0 size

-- `none` is a negative int.
pub contiguous_plaintext_size : ℕ → List Range → Option ℕ
contiguous_plaintext_size frame_size [] = some frame_size
contiguous_plaintext_size frame_size (r ∷ rs) =
    let rest = contiguous_plaintext_size (frame_size - r.len) rs in
    if ltb frame_size r.len then none else rest

-- The loop of `ExtractCiphertext`, from position `last` on.
extract_loop : List ℕ → List Range → List ℕ → ℕ → Result Error (List ℕ)
extract_loop interleaved [] out last =
    if ltb last (length interleaved)
    then (slice interleaved last (length interleaved) >>= λ s. ok (out ++ s))
    else ok out
extract_loop interleaved (r ∷ rs) out last = do
  out' ←
      if ltb last r.offset then (slice interleaved last r.offset >>= λ s. ok (out ++ s)) else ok out
  extract_loop interleaved rs out' (r.offset + r.len)

-- `make` panics on a negative capacity.
pub extract_ciphertext : List ℕ → List Range → Result Error (List ℕ)
extract_ciphertext interleaved ranges =
    elim (contiguous_plaintext_size (length interleaved) ranges) [
      | none ↦ panic
      | some size ↦ extract_loop interleaved ranges [] 0
    ]

-- The loop of `ReconstructPlaintext`, and of `appendInterleaved`: the gaps between the ranges of
-- `out` are overwritten with the bytes of `source`, in order.
weave_loop : List Range → ℕ → ℕ → List ℕ → List ℕ → Result Error (List ℕ)
weave_loop [] last pos out source =
    if ltb last (length out)
    then (slice source pos (length source) >>= λ s. ok (copy_at out last s))
    else ok out
weave_loop (r ∷ rs) last pos out source =
    let same = weave_loop rs (r.offset + r.len) pos out source in
    let filled = (do
      gap ← slice out last r.offset
      s ← slice source pos (pos + (r.offset - last))
      weave_loop rs (r.offset + r.len) (pos + (r.offset - last)) (copy_at out last s) source) in
    if ltb last r.offset then filled else same

pub reconstruct_plaintext : List ℕ → List ℕ → List Range → Result Error (List ℕ)
reconstruct_plaintext interleaved decrypted ranges = weave_loop ranges 0 0 interleaved decrypted

pub append_interleaved : List ℕ → List ℕ → List Range → List ℕ → Result Error (List ℕ)
append_interleaved dst original ranges ciphertext = do
  out ← weave_loop ranges 0 0 original ciphertext
  ok (dst ++ out)

aad_loop : List ℕ → List Range → List ℕ → Result Error (List ℕ)
aad_loop frame [] aad = ok aad
aad_loop frame (r ∷ rs) aad = do
  s ← slice frame r.offset (r.offset + r.len)
  aad_loop frame rs (aad ++ s)

pub build_aad : List ℕ → List Range → Result Error (List ℕ)
build_aad frame ranges = aad_loop frame ranges []
