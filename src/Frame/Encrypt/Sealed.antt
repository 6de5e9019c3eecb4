-- ===== src/Frame/Encrypt/Sealed.antt =====
-- `Encrypt` on any parameters, and `Decrypt` on what it returns.
use dave_go.Base.{
  ℕ, ◌+◌, ◌*◌, ◌^◌, ◌≤◌, ◌<◌, ◌≡◌, sym, ap, subst, ◌∙◌, arith, List, [], ◌∷◌, ◌++◌, length, All,
  length-append, ok, err, ltb, if◌then◌else◌, le→ltb, eq→==, ltb→le, Bool-cases, inl, inr,
}
use dave_go.Frame.Types.{invalid_supplemental_size, Range, EncryptParams}
use dave_go.Frame.Uleb128.{encode_uleb128}
use dave_go.Frame.Uleb128.Laws.{length-encode_uleb128}
use dave_go.Frame.Ranges.Layout.{
  Fits, Part, join, ranges_of, covered_bytes, clear_bytes, length-join-Alike, Recut, recut, Cut,
  Fits-Cut_start,
}
use dave_go.Frame.Ranges.Weave.{validate_ranges-ok}
use dave_go.Frame.Gcm8.{Gcm, IsGcm}
use dave_go.Frame.Gcm8.Open.{sealed_bytes, length-sealed_bytes}
use dave_go.Frame.Encrypt.{encrypt_core_append, encrypt, decrypt, new_gcm8, full_nonce}
use dave_go.Frame.Encrypt.Footer.{IsSmall, range_bytes, frame_bytes, footer_bytes}
use dave_go.Frame.Encrypt.RoundTrip.{
  frame_tag, suppl_size, Seals, footer_size, encrypt_core-parts, decrypt-parts,
}

Fits-IsSmall :
    (pos : ℕ) (rs : List Range) (size : ℕ) → Fits pos rs size → size < 2 ^ 32 → All IsSmall rs
Fits-IsSmall pos [] size f h = tt
Fits-IsSmall pos (r ∷ rs) size f h =
    ((omega (arith, f.1), omega (arith, f.1)), Fits-IsSmall (r.offset + r.len) rs size f.2 h)

length-range_bytes-le :
    (rs : List Range) → All IsSmall rs → length (range_bytes rs) ≤ 10 * length rs
length-range_bytes-le [] h = omega arith
length-range_bytes-le (r ∷ rs) h = omega (
  arith,
  length-append (encode_uleb128 r.offset) (encode_uleb128 r.len ++ range_bytes rs),
  length-append (encode_uleb128 r.len) (range_bytes rs),
  length-encode_uleb128 r.offset h.0.0,
  length-encode_uleb128 r.len h.0.1,
  length-range_bytes-le rs h.1,
)

-- Parameters that `Encrypt` does not refuse at once, on a frame below 4 GiB.
pub record IsValid (params : EncryptParams) : Type 0 where
  pub key_size : length params.key ≡ 16
  pub in_range : Fits 0 params.unencrypted_ranges (length params.plaintext)
  pub nonce_fits : params.truncated_nonce < 2 ^ 32
  pub frame_fits : length params.plaintext < 2 ^ 32

module _ (g : Gcm) (h : IsGcm g) (params : EncryptParams) where
  open params use {plaintext, key, truncated_nonce, unencrypted_ranges}

  -- The parts of the frame, and of the sealed frame.
  record Sealing : Type 0 where
    parts : List Part
    last : List ℕ
    sealed_parts : List Part
    sealed_last : List ℕ
    plain : plaintext ≡ join parts last
    places : unencrypted_ranges ≡ ranges_of 0 parts
    nonce_fits : truncated_nonce < 2 ^ 32
    small : All IsSmall (ranges_of 0 parts)
    seals : Seals g h key truncated_nonce nonce_fits parts last sealed_parts sealed_last

  sealing : IsValid params → Sealing
  sealing v = record {
    parts = cut.parts;
    last = cut.last;
    sealed_parts = cover.parts;
    sealed_last = cover.last;
    plain = cut.joined;
    places = cut.places;
    nonce_fits = v.nonce_fits;
    small = subst (All IsSmall) cut.places (Fits-IsSmall 0 _ _ v.in_range v.frame_fits);
    seals = (cover.alike, cover.covers);
  }
    where
      cut : Cut 0 unencrypted_ranges plaintext
      cut = Fits-Cut_start unencrypted_ranges plaintext v.in_range

      cover : Recut cut.parts cut.last (
          sealed_bytes g h key
            (full_nonce truncated_nonce)
            (covered_bytes cut.parts cut.last)
            (clear_bytes cut.parts))
      cover =
          recut cut.parts cut.last _
            (length-sealed_bytes g h key (full_nonce truncated_nonce) _ (clear_bytes cut.parts))

  -- Past its checks `Encrypt` is the core.
  encrypt-core :
      IsValid params
      → encrypt g params ≡ encrypt_core_append g key [] plaintext truncated_nonce unencrypted_ranges
  unfolding encrypt
  encrypt-core v = rw (
    eq→== (length key) 16 v.key_size,
    (validate_ranges-ok unencrypted_ranges (length plaintext) (omega (arith, v.frame_fits))).1
        v.in_range,
    accepted,
  )
    where
      accepted : new_gcm8 g key ≡ ok tt
      accepted = unfold new_gcm8 in rw (h.accepts_sixteen key v.key_size)

  sealing_size : IsValid params → ℕ
  sealing_size v =
      let s = sealing v in suppl_size g h key truncated_nonce s.nonce_fits s.parts s.last

  sealed_frame : IsValid params → List ℕ
  sealed_frame v =
      let s = sealing v in
      frame_bytes (join s.sealed_parts s.sealed_last)
        (frame_tag g h key truncated_nonce s.nonce_fits s.parts s.last) truncated_nonce
        (ranges_of 0 s.parts)

  encrypt_lem :
      (v : IsValid params)
      → encrypt g params
        ≡ (if ltb 255 (sealing_size v) then err invalid_supplemental_size else ok (sealed_frame v))
  unfolding sealing_size sealed_frame
  encrypt_lem v =
      let s = sealing v in
      encrypt-core v
      ∙ (λ i. encrypt_core_append g key [] (s.plain i) truncated_nonce (s.places i))
      ∙ encrypt_core-parts g h key truncated_nonce s.nonce_fits s.parts s.last s.sealed_parts
          s.sealed_last [] s.small s.seals

  -- Whatever `Encrypt` returns for valid parameters, `Decrypt` turns back into the plaintext and the
  -- nonce under the same key.
  pub decrypt-encrypt :
      IsValid params
      → (out : List ℕ) → encrypt g params ≡ ok out
      → decrypt g (record { ciphertext = out; key = key }) ≡ ok (plaintext, truncated_nonce)
  unfolding sealing_size sealed_frame
  decrypt-encrypt v out e = elim (Bool-cases (ltb 255 (sealing_size v))) [
    | inl large ↦ cc (rw (encrypt_lem v, large) at e)
    | inr short ↦
        let s = sealing v in
        let same : sealed_frame v ≡ out = cc (rw (encrypt_lem v, short) at e) in
        rw (← same) (
          decrypt-parts g h key truncated_nonce s.nonce_fits s.parts s.last s.sealed_parts
            s.sealed_last s.small s.seals (ltb→le _ _ short)
            (omega (arith, v.frame_fits, ap length s.plain)) v.key_size
          ∙ ap (λ t. ok (t, truncated_nonce)) (sym s.plain))
  ]

  -- The sizes of the sealed frame.
  sealing_size-le :
      (v : IsValid params)
      → (12 ≤ sealing_size v) × (sealing_size v ≤ 16 + 10 * length unencrypted_ranges)
  unfolding sealing_size
  sealing_size-le v =
      let s = sealing v in
      let size = footer_size g h key truncated_nonce s.nonce_fits s.parts s.last in
      let ranges = length-range_bytes-le (ranges_of 0 s.parts) s.small in
      let nonce = length-encode_uleb128 truncated_nonce v.nonce_fits in
      let count = ap length s.places in (omega arith, omega arith)

  length-sealed_frame :
      (v : IsValid params) → length (sealed_frame v) ≡ length plaintext + sealing_size v
  unfolding sealing_size sealed_frame
  length-sealed_frame v =
      let s = sealing v in
      let footer =
        footer_bytes (frame_tag g h key truncated_nonce s.nonce_fits s.parts s.last) truncated_nonce
          (ranges_of 0 s.parts) in
      omega (
        arith,
        ap length s.plain,
        length-join-Alike s.parts s.last s.sealed_parts s.sealed_last s.seals.0,
        length-append (join s.sealed_parts s.sealed_last)
            (footer ++ ((length footer + 3) ∷ 0xFA ∷ 0xFA ∷ [])),
        length-append footer ((length footer + 3) ∷ 0xFA ∷ 0xFA ∷ []),
      )

  -- `Encrypt` succeeds on valid parameters with up to 23 ranges, and its result is 12 to 16 bytes
  -- longer than the frame, plus at most 10 bytes for each range.
  pub encrypt_total :
      IsValid params
      → length unencrypted_ranges ≤ 23
      → (out : List ℕ) × (encrypt g params ≡ ok out)
        × (length plaintext + 12 ≤ length out)
        × (length out ≤ length plaintext + 16 + 10 * length unencrypted_ranges)
  encrypt_total v few =
      let sizes = sealing_size-le v in
      (
        sealed_frame v,
        encrypt_lem v ∙ rw (le→ltb 255 (sealing_size v) (omega arith)),
        omega (arith, length-sealed_frame v),
        omega (arith, length-sealed_frame v),
      )
