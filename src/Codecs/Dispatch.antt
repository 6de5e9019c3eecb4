-- ===== src/Codecs/Dispatch.antt =====
-- codecs/codecs.go: the four entry points, by codec.
pub mod Opus
use dave_go.Base.{
  ℕ, List, [], ◌∷◌, Option, none, some, Bool, true, false, if◌then◌else◌, not, Result, ok, err,
  panic, ◌>>=◌, ◌>>◌,
}
use dave_go.Frame.Types.{Range, EncryptParams}
use dave_go.Frame.Gcm8.{Gcm}
use dave_go.Frame.Encrypt
use dave_go.Codecs.Types.{
  Kind, codec_unknown, codec_opus, codec_vp8, codec_vp9, codec_h264, codec_h265, codec_av1,
  codec_other, CodecError, codec_not_supported, lift,
}
use dave_go.Codecs.Vp8.{vp8_ranges}
use dave_go.Codecs.H26x.{h26x_ranges, encrypt_h26x, encrypt_h26x_into}
use dave_go.Codecs.Av1.{prepare_av1_frame}

pub supported_for_encrypt : Kind → Bool
supported_for_encrypt codec_opus = true
supported_for_encrypt codec_unknown = true
supported_for_encrypt kind = false

-- `none` is the loop over NAL units out of fuel, which it never is.
pub unencrypted_ranges : Kind → List ℕ → Option (List Range)
unencrypted_ranges codec_opus payload = some []
unencrypted_ranges codec_vp9 payload = some []
unencrypted_ranges codec_vp8 payload = some (vp8_ranges payload)
unencrypted_ranges codec_h264 payload = h26x_ranges codec_h264 payload
unencrypted_ranges codec_h265 payload = h26x_ranges codec_h265 payload
unencrypted_ranges kind payload = some []

-- The frame that is sealed and its clear ranges, in the branches that do not retry.
prepare : Kind → List ℕ → Result CodecError (List ℕ × List Range)
prepare codec_av1 plaintext = prepare_av1_frame plaintext
prepare kind plaintext = elim (unencrypted_ranges kind plaintext) [
  | some ranges ↦ ok (plaintext, ranges)
  | none ↦ panic
]

abbrev pub params_of : List ℕ × List Range → List ℕ → ℕ → EncryptParams
params_of (plaintext, ranges) key nonce = record {
  plaintext = plaintext;
  key = key;
  truncated_nonce = nonce;
  unencrypted_ranges = ranges;
}

module _ (g : Gcm) where
  -- The switch of `Encrypt`, behind its guard.
  encrypt_by : Kind → List ℕ → List ℕ → ℕ → Result CodecError (List ℕ)
  encrypt_by codec_h264 plaintext key nonce = encrypt_h26x g codec_h264 plaintext key nonce
  encrypt_by codec_h265 plaintext key nonce = encrypt_h26x g codec_h265 plaintext key nonce
  encrypt_by kind plaintext key nonce =
      prepare kind plaintext >>= λ p. lift (Encrypt.encrypt g (params_of p key nonce))

  pub encrypt : Kind → List ℕ → List ℕ → ℕ → Result CodecError (List ℕ)
  encrypt kind plaintext key nonce =
      if not (supported_for_encrypt kind)
      then err codec_not_supported
      else encrypt_by kind plaintext key nonce

  encrypt_into_by : Kind → List ℕ → List ℕ → List ℕ → ℕ → Result CodecError (ℕ × List ℕ)
  encrypt_into_by codec_h264 dst plaintext key nonce =
      encrypt_h26x_into g codec_h264 dst plaintext key nonce
  encrypt_into_by codec_h265 dst plaintext key nonce =
      encrypt_h26x_into g codec_h265 dst plaintext key nonce
  encrypt_into_by kind dst plaintext key nonce =
      prepare kind plaintext >>= λ p. lift (Encrypt.encrypt_into g dst (params_of p key nonce))

  pub encrypt_into : Kind → List ℕ → List ℕ → List ℕ → ℕ → Result CodecError (ℕ × List ℕ)
  encrypt_into kind dst plaintext key nonce =
      if not (supported_for_encrypt kind)
      then err codec_not_supported
      else encrypt_into_by kind dst plaintext key nonce

  -- The cipher is the one that was made from `key`.
  module _ (key : List ℕ) where
    pub encrypt_with_cipher : Kind → List ℕ → ℕ → Result CodecError (List ℕ)
    encrypt_with_cipher kind plaintext nonce =
        if not (supported_for_encrypt kind)
        then err codec_not_supported
        else (prepare kind plaintext >>= λ p.
            lift (Encrypt.encrypt_with_cipher g key p.0 nonce p.1))

    pub encrypt_with_cipher_into : Kind → List ℕ → List ℕ → ℕ → Result CodecError (ℕ × List ℕ)
    encrypt_with_cipher_into kind dst plaintext nonce =
        if not (supported_for_encrypt kind)
        then err codec_not_supported
        else (prepare kind plaintext >>= λ p.
            lift (Encrypt.encrypt_with_cipher_into g key dst p.0 nonce p.1))
