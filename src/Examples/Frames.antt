-- ===== src/Examples/Frames.antt =====
-- A small cipher that is a GCM, a frame with a clear range, and the theorems on packages frame and
-- codecs at them.
use dave_go.Base.{
  ℕ, zero, suc, ◌+◌, ◌*◌, ◌^◌, ◌≤◌, ◌<◌, ◌≡◌, ◌⊎◌, ◌↔◌, refl, arith, List, [], ◌∷◌, ◌++◌, length,
  drop, replicate, All, All-append, true, ◌==◌, eq→==, ok, err,
}
use dave_go.Base.Bytes.{IsByte}
use dave_go.Frame.Types.{auth_tag_mismatch, Range, EncryptParams}
use dave_go.Frame.Uleb128.{encode_uleb128, decode_uleb128}
use dave_go.Frame.Uleb128.Laws.{decode_uleb128-append, encode_uleb128-decode, encode_uleb128-IsByte}
use dave_go.Frame.Ranges.{validate_ranges}
use dave_go.Frame.Ranges.Layout.{Fits}
use dave_go.Frame.Ranges.Weave.{validate_ranges-ok}
use dave_go.Frame.Gcm8.{Gcm, IsGcm, xor_bytes, seal8, open8, constant_time_equal}
use dave_go.Frame.Gcm8.Open.{open8-cases, constant_time_equal_iff}
use dave_go.Frame.Encrypt.{encrypt, decrypt}
use dave_go.Frame.Encrypt.Sealed.{IsValid, decrypt-encrypt, encrypt_total}
use dave_go.Codecs.Types.{codec_opus}
use dave_go.Codecs.Dispatch
use dave_go.Codecs.Dispatch.Opus.{encrypt-roundtrip, supported_opus}

length-replicate : (m b : ℕ) → length (replicate m b) ≡ m
length-replicate zero b = refl
length-replicate (suc m) b = omega (arith, length-replicate m b)

replicate-IsByte : (m b : ℕ) → b < 256 → All IsByte (replicate m b)
replicate-IsByte zero b h = tt
replicate-IsByte (suc m) b h = (h, replicate-IsByte m b h)

-- The key stream repeats one byte, and the tag is constant.
abbrev toy : Gcm
toy = record {
  accepts = λ k. length k == 16;
  seal = λ k n p a. xor_bytes p (replicate (length p) 90) ++ replicate 16 7;
}

toy-IsGcm : IsGcm toy
toy-IsGcm = record {
  keystream = λ k n m. replicate m 90;
  tag = λ k n p a. replicate 16 7;
  length-keystream = λ k n m. length-replicate m 90;
  keystream-bytes = λ k n m. replicate-IsByte m 90 (omega arith);
  length-tag = λ k n p a. refl;
  tag-bytes = λ k n p a. replicate-IsByte 16 7 (omega arith);
  seal_lem = λ k n p a hn. refl;
  accepts_sixteen = λ k h. eq→== (length k) 16 h;
}

abbrev toy_key : List ℕ
toy_key = replicate 16 9

abbrev some_ranges : List Range
some_ranges = record { offset = 1; len = 2 } ∷ []

abbrev some_params : EncryptParams
some_params = record {
  plaintext = 1 ∷ 2 ∷ 3 ∷ 4 ∷ 5 ∷ [];
  key = toy_key;
  truncated_nonce = 70000;
  unencrypted_ranges = some_ranges;
}

some_params-IsValid : IsValid some_params
some_params-IsValid = record {
  key_size = refl;
  in_range = (omega arith, omega arith, omega arith);
  nonce_fits = omega arith;
  frame_fits = omega arith;
}

sealed : (out : List ℕ) × (encrypt toy some_params ≡ ok out)
sealed =
    let (out, e, low, high) =
      encrypt_total toy toy-IsGcm some_params some_params-IsValid (omega arith) in
    (out, e)

decrypt-encrypt_example :
    decrypt toy (record { ciphertext = sealed.0; key = toy_key })
    ≡ ok (1 ∷ 2 ∷ 3 ∷ 4 ∷ 5 ∷ [], 70000)
decrypt-encrypt_example =
    decrypt-encrypt toy toy-IsGcm some_params some_params-IsValid sealed.0 sealed.1

encrypt_total_example :
    (out : List ℕ) × (encrypt toy some_params ≡ ok out)
    × (5 + 12 ≤ length out)
    × (length out ≤ 5 + 16 + 10 * 1)
encrypt_total_example = encrypt_total toy toy-IsGcm some_params some_params-IsValid (omega arith)

abbrev some_sealed : List ℕ
some_sealed = 88 ∷ 7 ∷ 7 ∷ 7 ∷ 7 ∷ 7 ∷ 7 ∷ 7 ∷ 7 ∷ []

open8-cases_example :
    (open8 toy toy_key [] (replicate 12 0) some_sealed [] ≡ err auth_tag_mismatch)
    ⊎ ((p : List ℕ) × (open8 toy toy_key [] (replicate 12 0) some_sealed [] ≡ ok ([] ++ p))
        × (seal8 toy toy_key [] (replicate 12 0) p [] ≡ ok some_sealed))
open8-cases_example = open8-cases toy toy-IsGcm toy_key [] (replicate 12 0) some_sealed [] refl

constant_time_equal_iff_example :
    (constant_time_equal some_sealed toy_key ≡ true) ↔ (some_sealed ≡ toy_key)
constant_time_equal_iff_example = constant_time_equal_iff some_sealed toy_key

validate_ranges-ok_example : (validate_ranges some_ranges 5 ≡ ok tt) ↔ Fits 0 some_ranges 5
validate_ranges-ok_example = validate_ranges-ok some_ranges 5 (omega arith)

decode_uleb128-append_example :
    decode_uleb128 (encode_uleb128 300 ++ (7 ∷ [])) ≡ ok (300, length (encode_uleb128 300))
decode_uleb128-append_example = decode_uleb128-append 300 (7 ∷ []) (omega arith) (omega arith)

some_uleb128 :
    decode_uleb128 (encode_uleb128 300 ++ (7 ∷ [])) ≡ ok (300, length (encode_uleb128 300))
some_uleb128 = decode_uleb128-append 300 (7 ∷ []) (omega arith) (omega arith)

some_bytes : All IsByte (encode_uleb128 300 ++ (7 ∷ []))
some_bytes =
    All-append IsByte (encode_uleb128 300) (7 ∷ []) (encode_uleb128-IsByte 300 (omega arith))
      (omega arith)

encode_uleb128-decode_example :
    (300 < 2 ^ 32)
    × (encode_uleb128 300 ++ (7 ∷ [])
        ≡ encode_uleb128 300 ++ drop (length (encode_uleb128 300)) (encode_uleb128 300 ++ (7 ∷ [])))
    × (length (encode_uleb128 300) ≡ length (encode_uleb128 300))
encode_uleb128-decode_example =
    encode_uleb128-decode (encode_uleb128 300 ++ (7 ∷ [])) 300 (length (encode_uleb128 300))
      some_bytes some_uleb128

encrypt-roundtrip_example :
    (out : List ℕ) × (Dispatch.encrypt toy codec_opus (1 ∷ 2 ∷ []) toy_key 5 ≡ ok out)
    × (2 + 12 ≤ length out)
    × (length out ≤ 2 + 16)
    × (decrypt toy (record { ciphertext = out; key = toy_key }) ≡ ok (1 ∷ 2 ∷ [], 5))
encrypt-roundtrip_example =
    encrypt-roundtrip toy toy_key (1 ∷ 2 ∷ []) 5 codec_opus toy-IsGcm refl (omega arith)
      (omega arith) supported_opus
