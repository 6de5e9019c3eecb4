-- ===== src/Codecs/Dispatch/Opus.antt =====
-- The entry points of package codecs on the kinds they support, and on the others.
use dave_go.Base.{
  ℕ, ◌+◌, ◌^◌, ◌≤◌, ◌<◌, ◌≡◌, ◌⊎◌, inl, inr, refl, sym, ap, ◌∙◌, arith, List, [], length, true,
  false, ok, err,
}
use dave_go.Frame.Types.{EncryptParams}
use dave_go.Frame.Gcm8.{Gcm, IsGcm}
use dave_go.Frame.Encrypt
use dave_go.Frame.Encrypt.Sealed.{IsValid, decrypt-encrypt, encrypt_total}
use dave_go.Codecs.Types.{
  Kind, codec_unknown, codec_opus, codec_vp8, codec_vp9, codec_h264, codec_h265, codec_av1,
  codec_other, codec_not_supported, lift,
}
use dave_go.Codecs.Dispatch.{
  supported_for_encrypt, unencrypted_ranges, prepare, params_of, encrypt_by, encrypt,
  encrypt_into_by, encrypt_into, encrypt_with_cipher, encrypt_with_cipher_into,
}

module _ (g : Gcm) (key plaintext : List ℕ) (nonce : ℕ) where
  abbrev pub whole : EncryptParams
  whole = params_of (plaintext, []) key nonce

  -- Every kind is either supported, and all four entry points seal the frame whole, with no clear
  -- range, or it is not, and all four refuse it.
  encrypt-whole :
      (kind : Kind) (dst : List ℕ)
      → ((supported_for_encrypt kind ≡ true)
          × (encrypt g kind plaintext key nonce ≡ lift (Encrypt.encrypt g whole))
          × (encrypt_into g kind dst plaintext key nonce ≡ lift (Encrypt.encrypt_into g dst whole))
          × (encrypt_with_cipher g key kind plaintext nonce
              ≡ lift (Encrypt.encrypt_with_cipher g key plaintext nonce []))
          × (encrypt_with_cipher_into g key kind dst plaintext nonce
              ≡ lift (Encrypt.encrypt_with_cipher_into g key dst plaintext nonce [])))
        ⊎ ((supported_for_encrypt kind ≡ false)
            × (encrypt g kind plaintext key nonce ≡ err codec_not_supported)
            × (encrypt_into g kind dst plaintext key nonce ≡ err codec_not_supported)
            × (encrypt_with_cipher g key kind plaintext nonce ≡ err codec_not_supported)
            × (encrypt_with_cipher_into g key kind dst plaintext nonce ≡ err codec_not_supported))
  unfolding encrypt encrypt_into encrypt_with_cipher encrypt_with_cipher_into supported_for_encrypt
      encrypt_by encrypt_into_by prepare unencrypted_ranges
  encrypt-whole codec_opus dst = inl (refl, refl, refl, refl, refl)
  encrypt-whole codec_unknown dst = inl (refl, refl, refl, refl, refl)
  encrypt-whole codec_vp8 dst = inr (refl, refl, refl, refl, refl)
  encrypt-whole codec_vp9 dst = inr (refl, refl, refl, refl, refl)
  encrypt-whole codec_h264 dst = inr (refl, refl, refl, refl, refl)
  encrypt-whole codec_h265 dst = inr (refl, refl, refl, refl, refl)
  encrypt-whole codec_av1 dst = inr (refl, refl, refl, refl, refl)
  encrypt-whole (codec_other n) dst = inr (refl, refl, refl, refl, refl)

  encrypt-supported :
      (kind : Kind)
      → supported_for_encrypt kind ≡ true
      → encrypt g kind plaintext key nonce ≡ lift (Encrypt.encrypt g whole)
  encrypt-supported kind s = elim (encrypt-whole kind []) [
    | inl p ↦ p.1
    | inr p ↦ let wrong : true ≡ false = sym s ∙ p.0 in cc
  ]

  -- With a key of 16 bytes, a 32-bit nonce and a frame below 4 GiB, an Opus or unassigned frame is
  -- always sealed, in 12 to 16 bytes more than it has, and opening it gives the frame and the nonce.
  pub encrypt-roundtrip :
      (kind : Kind)
      → IsGcm g
      → length key ≡ 16
      → nonce < 2 ^ 32
      → length plaintext < 2 ^ 32
      → supported_for_encrypt kind ≡ true
      → (out : List ℕ) × (encrypt g kind plaintext key nonce ≡ ok out)
        × (length plaintext + 12 ≤ length out)
        × (length out ≤ length plaintext + 16)
        × (Encrypt.decrypt g (record { ciphertext = out; key = key }) ≡ ok (plaintext, nonce))
  encrypt-roundtrip kind h hk hn hp s =
      let valid : IsValid whole = record {
        key_size = hk;
        in_range = omega arith;
        nonce_fits = hn;
        frame_fits = hp;
      } in
      let (out, e, low, high) = encrypt_total g h whole valid (omega arith) in
      (
        out,
        encrypt-supported kind s ∙ ap lift e,
        low,
        omega arith,
        decrypt-encrypt g h whole valid out e,
      )

pub supported_opus : supported_for_encrypt codec_opus ≡ true
unfolding supported_for_encrypt
supported_opus = refl
