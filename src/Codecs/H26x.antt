-- ===== src/Codecs/H26x.antt =====
-- codecs/h26x.go: the clear NAL units of H264 and H265 frames, and sealing with nonce retries.
pub mod Units
use dave_go.Base.{
  ℕ, zero, suc, ◌+◌, ◌-◌, ◌/◌, ◌%◌, ◌^◌, bit_and, List, [], ◌∷◌, ◌++◌, length, get_or, Option, none,
  some, Bool, true, false, not, ltb, leb, ◌==◌, ◌&&◌, ◌||◌, if◌then◌else◌, Result, ok, err, panic,
  ◌>>=◌, ◌>>◌,
}
use dave_go.Base.Bytes.{slice}
use dave_go.Frame.Types.{Range, EncryptParams}
use dave_go.Frame.Ranges.{extract_ciphertext}
use dave_go.Frame.Gcm8.{Gcm}
use dave_go.Frame.Encrypt
use dave_go.Codecs.Types.{Kind, codec_h264, CodecError, lift}

abbrev pub max_retries : ℕ
max_retries = 10

abbrev pub is_h264 : Kind → Bool
is_h264 codec_h264 = true
is_h264 k = false

-- `payload[offset]` and the bytes after it, read where the tests on the length hold.
pub start_code_len : List ℕ → ℕ → ℕ
start_code_len payload offset =
    let b = λ (i : ℕ). get_or payload (offset + i) 0 in
    if leb (offset + 3) (length payload) && (b 0 == 0) && (b 1 == 0) && (b 2 == 1)
    then 3
    else if leb (offset + 4) (length payload)
        && (b 0 == 0)
        && (b 1 == 0)
        && (b 2 == 0)
        && (b 3 == 1)
    then 4
    else 0

-- Whether the NAL unit with this first byte is of the video coding layer.
pub is_vcl : Kind → ℕ → Bool
is_vcl kind nal_header =
    let h264_type = bit_and nal_header 0x1F in
    let h265_type = bit_and (nal_header / 2) 0x3F in
    if is_h264 kind then leb 1 h264_type && leb h264_type 5 else leb h265_type 31

-- The loop of `findNextStartCode`, `rounds` indices from `i` on.
find_loop : List ℕ → ℕ → ℕ → Option ℕ
find_loop payload zero i = none
find_loop payload (suc rounds) i =
    let rest = find_loop payload rounds (i + 1) in
    let b = λ (j : ℕ). get_or payload (i + j) 0 in
    if (b 0 == 0) && (b 1 == 0) && ((b 2 == 1) || (b 2 == 0) && (b 3 == 1)) then some i else rest

-- `none` is -1.
pub find_next_start_code : List ℕ → ℕ → Option ℕ
find_next_start_code payload from = find_loop payload (length payload - 3 - from) from

abbrev pub or_end : Option ℕ → List ℕ → ℕ
or_end (some i) payload = i
or_end none payload = length payload

-- The loop of `h26xRanges`. The offset grows in every round, so the length is enough fuel.
h26x_loop : ℕ → Kind → List ℕ → ℕ → List Range → Option (List Range)
h26x_loop zero kind payload offset ranges = none
h26x_loop (suc fuel) kind payload offset ranges =
    let code_len = start_code_len payload offset in
    let nal_start = offset + code_len in
    let next_offset = or_end (find_next_start_code payload nal_start) payload in
    let clear = ranges ++ (record { offset = offset; len = next_offset - offset } ∷ []) in
    let after_vcl = h26x_loop fuel kind payload next_offset ranges in
    let after_other = h26x_loop fuel kind payload next_offset clear in
    if not (ltb offset (length payload)) || (code_len == 0) || leb (length payload) nal_start
    then some ranges
    else if is_vcl kind (get_or payload nal_start 0)
    then after_vcl
    else after_other

pub h26x_ranges : Kind → List ℕ → Option (List Range)
h26x_ranges kind payload = h26x_loop (length payload + 1) kind payload 0 []

starts_with : List ℕ → List ℕ → Bool
starts_with [] data' = true
starts_with (x ∷ xs) [] = false
starts_with (x ∷ xs) (y ∷ ys) = (x == y) && starts_with xs ys

-- bytes.Contains
bytes_contains : List ℕ → List ℕ → Bool
bytes_contains [] sub = starts_with sub []
bytes_contains (b ∷ bs) sub = starts_with sub (b ∷ bs) || bytes_contains bs sub

pub has_start_code_sequence : List ℕ → Bool
has_start_code_sequence data' =
    bytes_contains data' (0 ∷ 0 ∷ 1 ∷ []) || bytes_contains data' (0 ∷ 0 ∷ 0 ∷ 1 ∷ [])

pub nonce_for_encryption : ℕ → ℕ → ℕ
nonce_for_encryption base_nonce attempt = (base_nonce + attempt % 2 ^ 32) % 2 ^ 32

-- Whether the sealed bytes of a frame hold a start code, outside the clear ranges.
collides : List ℕ → List ℕ → List Range → Result CodecError Bool
collides encrypted plaintext ranges = do
  interleaved ← slice encrypted 0 (length plaintext)
  ciphertext ← lift (extract_ciphertext interleaved ranges)
  footer ← slice encrypted (length plaintext) (length encrypted)
  ok (not (not (has_start_code_sequence ciphertext) && not (has_start_code_sequence footer)))

module _ (g : Gcm) (plaintext key : List ℕ) (base_nonce : ℕ) (ranges : List Range) where
  abbrev attempt_params : ℕ → EncryptParams
  attempt_params attempt = record {
    plaintext = plaintext;
    key = key;
    truncated_nonce = nonce_for_encryption base_nonce attempt;
    unencrypted_ranges = ranges;
  }

  retry_loop : ℕ → ℕ → List ℕ → Result CodecError (List ℕ)
  retry_loop zero attempt last_result = ok last_result
  retry_loop (suc rounds) attempt last_result = do
    encrypted ← lift (Encrypt.encrypt g (attempt_params attempt))
    let again = retry_loop rounds (attempt + 1) encrypted
    collision ← collides encrypted plaintext ranges
    if collision then again else ok encrypted

  -- The number of bytes written and the buffer; the buffer keeps the last attempt.
  retry_into_loop : ℕ → ℕ → ℕ → List ℕ → Result CodecError (ℕ × List ℕ)
  retry_into_loop zero attempt n dst = ok (n, dst)
  retry_into_loop (suc rounds) attempt n dst = do
    (written, buffer) ← lift (Encrypt.encrypt_into g dst (attempt_params attempt))
    encrypted ← slice buffer 0 written
    let again = retry_into_loop rounds (attempt + 1) written buffer
    collision ← collides encrypted plaintext ranges
    if collision then again else ok (written, buffer)

-- The loop over the NAL units has run out of fuel in `none`, which it never does.
abbrev with_ranges {ℓ} :
    {A : Type ℓ} → Option (List Range) → (List Range → Result CodecError A) → Result CodecError A
with_ranges (some ranges) f = f ranges
with_ranges none f = panic

pub encrypt_h26x : Gcm → Kind → List ℕ → List ℕ → ℕ → Result CodecError (List ℕ)
encrypt_h26x g kind plaintext key base_nonce =
    with_ranges (h26x_ranges kind plaintext)
      (λ ranges. retry_loop g plaintext key base_nonce ranges max_retries 0 [])

pub encrypt_h26x_into : Gcm → Kind → List ℕ → List ℕ → List ℕ → ℕ → Result CodecError (ℕ × List ℕ)
encrypt_h26x_into g kind dst plaintext key base_nonce =
    with_ranges (h26x_ranges kind plaintext)
      (λ ranges. retry_into_loop g plaintext key base_nonce ranges max_retries 0 0 dst)
