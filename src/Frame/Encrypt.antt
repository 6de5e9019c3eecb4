-- ===== src/Frame/Encrypt.antt =====
-- frame/encrypt.go: sealing a media frame in the DAVE format, parsing one and opening it.
pub mod Into
pub mod Footer
pub mod RoundTrip
pub mod Sealed
use dave_go.Base.{
  ℕ, zero, suc, ◌+◌, ◌-◌, ◌%◌, ◌^◌, ◌≤◌, ◌<◌, List, [], ◌∷◌, ◌++◌, length, replicate, get_or, drop,
  Bool, true, false, ltb, leb, ◌==◌, not, ◌||◌, ◌&&◌, if◌then◌else◌, Option, none, some, Result, ok,
  err, panic, guard, ◌>>=◌, ◌>>◌,
}
use dave_go.Base.Bytes.{slice, index, put_le}
use dave_go.Frame.Types.{
  Error, frame_too_short, invalid_magic_marker, invalid_supplemental_size, invalid_key_length,
  buffer_too_small, Range, EncryptParams, DecryptParams, ParsedFrame,
}
use dave_go.Frame.Uleb128.{append_uleb128, decode_uleb128}
use dave_go.Frame.Ranges.{
  validate_ranges, extract_ciphertext, build_aad, append_interleaved, reconstruct_plaintext,
}
use dave_go.Frame.Gcm8.{Gcm, seal8, open8}

abbrev pub magic_byte : ℕ
magic_byte = 0xFA

-- The 96-bit nonce: eight zero bytes and the truncated nonce, little endian.
abbrev pub full_nonce : ℕ → List ℕ
full_nonce truncated = replicate 8 0 ++ put_le 4 truncated

abbrev pub is_empty {ℓ} : {A : Type ℓ} → List A → Bool
is_empty [] = true
is_empty (x ∷ xs) = false

-- The loop over the ranges that ends the footer; uint32(r.Offset) drops the higher bits.
pub append_ranges : List ℕ → List Range → List ℕ
append_ranges out [] = out
append_ranges out (r ∷ rs) =
    append_ranges (append_uleb128 (append_uleb128 out (r.offset % 2 ^ 32)) (r.len % 2 ^ 32)) rs

module _ (g : Gcm) (key : List ℕ) where
  pub encrypt_core_append : List ℕ → List ℕ → ℕ → List Range → Result Error (List ℕ)
  encrypt_core_append dst plaintext truncated_nonce ranges =
      let nonce = full_nonce truncated_nonce in
      let nonce_bytes = append_uleb128 [] truncated_nonce in
      if is_empty ranges
      then (do
        out ← seal8 g key dst nonce plaintext []
        ok (
            ((out ++ nonce_bytes) ++ (((8 + length nonce_bytes + 1 + 2) % 256) ∷ []))
            ++ (magic_byte ∷ magic_byte ∷ [])))
      else (do
        ciphertext ← extract_ciphertext plaintext ranges
        aad ← build_aad plaintext ranges
        sealed ← seal8 g key [] nonce ciphertext aad
        ciphertext_out ← slice sealed 0 (length sealed - 8)
        tag ← slice sealed (length sealed - 8) (length sealed)
        woven ← append_interleaved dst plaintext ranges ciphertext_out
        let out = (woven ++ tag) ++ nonce_bytes
        let with_ranges = append_ranges out ranges
        let ranges_len = length with_ranges - length out
        let suppl_size = 8 + length nonce_bytes + ranges_len + 1 + 2
        guard (not (ltb 255 suppl_size)) invalid_supplemental_size
        ok ((with_ranges ++ ((suppl_size % 256) ∷ [])) ++ (magic_byte ∷ magic_byte ∷ [])))

  -- What Seal leaves in the buffer: without ranges it writes its 16-byte tag there if it fits, and the
  -- footer need not reach the end of that tag.
  abbrev pub sealed_over : List ℕ → List ℕ → ℕ → List Range → List ℕ
  sealed_over dst plaintext truncated_nonce ranges =
      let sealed = g.seal key (full_nonce truncated_nonce) plaintext [] in
      if is_empty ranges && leb (length sealed) (length dst)
      then sealed ++ drop (length sealed) dst
      else dst

  -- The number of bytes written, and the buffer after the call.
  pub encrypt_into_core : List ℕ → List ℕ → ℕ → List Range → Result Error (ℕ × List ℕ)
  encrypt_into_core dst plaintext truncated_nonce ranges = do
    out ← encrypt_core_append [] plaintext truncated_nonce ranges
    guard (not (ltb (length dst) (length out))) buffer_too_small
    ok (length out, out ++ drop (length out) (sealed_over dst plaintext truncated_nonce ranges))

  pub encrypt_with_cipher : List ℕ → ℕ → List Range → Result Error (List ℕ)
  encrypt_with_cipher plaintext truncated_nonce ranges = do
    validate_ranges ranges (length plaintext)
    encrypt_core_append [] plaintext truncated_nonce ranges

  pub encrypt_with_cipher_into : List ℕ → List ℕ → ℕ → List Range → Result Error (ℕ × List ℕ)
  encrypt_with_cipher_into dst plaintext truncated_nonce ranges = do
    validate_ranges ranges (length plaintext)
    encrypt_into_core dst plaintext truncated_nonce ranges

-- newGCM8: aes.NewCipher refuses a key. Its own error is `invalid_key_length` here.
unfoldable pub new_gcm8 : Gcm → List ℕ → Result Error (Unit {0})
new_gcm8 g key = guard (g.accepts key) invalid_key_length

module _ (g : Gcm) where
  pub encrypt : EncryptParams → Result Error (List ℕ)
  encrypt params = do
    guard (length params.key == 16) invalid_key_length
    validate_ranges params.unencrypted_ranges (length params.plaintext)
    new_gcm8 g params.key
    encrypt_core_append g params.key [] params.plaintext params.truncated_nonce
        params.unencrypted_ranges

  pub encrypt_into : List ℕ → EncryptParams → Result Error (ℕ × List ℕ)
  encrypt_into dst params = do
    guard (length params.key == 16) invalid_key_length
    validate_ranges params.unencrypted_ranges (length params.plaintext)
    new_gcm8 g params.key
    encrypt_into_core g params.key dst params.plaintext params.truncated_nonce
        params.unencrypted_ranges

unfoldable pub looks_like_dave_frame : List ℕ → Bool
looks_like_dave_frame packet =
    if ltb (length packet) 11
    then false
    else if not (get_or packet (length packet - 2) 0 == magic_byte)
        || not (get_or packet (length packet - 1) 0 == magic_byte)
    then false
    else true

-- The loop of `Parse` over the ranges' bytes. Each round reads two bytes at least, so the number of
-- bytes is enough fuel.
unfoldable pub parse_ranges : ℕ → List ℕ → List Range → Result Error (List Range)
parse_ranges fuel [] ranges = ok ranges
parse_ranges zero (b ∷ bs) ranges = panic
parse_ranges (suc fuel) (b ∷ bs) ranges = do
  (offset, n1) ← decode_uleb128 (b ∷ bs)
  data1 ← slice (b ∷ bs) n1 (length (b ∷ bs))
  (len, n2) ← decode_uleb128 data1
  data2 ← slice data1 n2 (length data1)
  parse_ranges fuel data2 (ranges ++ (record { offset = offset; len = len } ∷ []))

unfoldable pub parse : List ℕ → Result Error ParsedFrame
parse packet = do
  guard (not (ltb (length packet) 11)) frame_too_short
  m1 ← index packet (length packet - 2)
  m2 ← index packet (length packet - 1)
  guard (not (not (m1 == magic_byte) || not (m2 == magic_byte))) invalid_magic_marker
  suppl_size ← index packet (length packet - 3)
  guard (not (ltb suppl_size 11 || ltb (length packet) suppl_size)) invalid_supplemental_size
  let footer_start = length packet - suppl_size
  footer ← slice packet footer_start (length packet - 3)
  guard (length footer == suppl_size - 3) invalid_supplemental_size
  tag ← slice footer 0 8
  rest ← slice footer 8 (length footer)
  (nonce, n) ← decode_uleb128 rest
  ranges_data ← slice footer (8 + n) (length footer)
  ranges ← parse_ranges (length ranges_data) ranges_data []
  interleaved ← slice packet 0 footer_start
  validate_ranges ranges (length interleaved)
  ok (record {
    interleaved_frame = interleaved;
    tag = tag;
    truncated_nonce = nonce;
    unencrypted_ranges = ranges;
    supplemental_size = suppl_size % 256;
  })

-- What `Decrypt` does with a parsed frame.
unfoldable pub open_parsed : Gcm → List ℕ → ParsedFrame → Result Error (List ℕ × ℕ)
open_parsed g key parsed = do
  new_gcm8 g key
  ciphertext ← extract_ciphertext parsed.interleaved_frame parsed.unencrypted_ranges
  aad ← build_aad parsed.interleaved_frame parsed.unencrypted_ranges
  plaintext ← open8 g key [] (full_nonce parsed.truncated_nonce) (ciphertext ++ parsed.tag) aad
  result ← reconstruct_plaintext parsed.interleaved_frame plaintext parsed.unencrypted_ranges
  ok (result, parsed.truncated_nonce)

unfoldable pub decrypt : Gcm → DecryptParams → Result Error (List ℕ × ℕ)
unfolding open_parsed
decrypt g params = do
  guard (length params.key == 16) invalid_key_length
  guard (looks_like_dave_frame params.ciphertext) frame_too_short
  parsed ← parse params.ciphertext
  open_parsed g params.key parsed
