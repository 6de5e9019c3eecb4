-- ===== src/Frame/Encrypt/RoundTrip.antt =====
-- `Encrypt` by the parts of the frame, and `Decrypt` after it.
use dave_go.Base.{
  ℕ, ◌+◌, ◌-◌, ◌%◌, ◌^◌, ◌≤◌, ◌<◌, ◌≡◌, refl, sym, ap, arith, List, [], ◌∷◌, ◌++◌, length, All,
  append_assoc, append-nil, length-append, ok, err, ltb, if◌then◌else◌, le→ltb, eq→==, ltb→le,
  guard, not, Bool-cases, inl, inr, ◌>>=◌,
}
use dave_go.Base.Bytes.{slice_at}
use dave_go.Frame.Types.{Error, invalid_supplemental_size}
use dave_go.Frame.Uleb128.{encode_uleb128}
use dave_go.Frame.Uleb128.Laws.{append_uleb128-encode, length-encode_uleb128}
use dave_go.Frame.Ranges.Layout.{
  length-join-Alike, Part, join, ranges_of, covered_bytes, clear_bytes, Alike, Alike-sym,
  ranges_of-Alike, clear_bytes-Alike, ranges_of-Fits_start,
}
use dave_go.Frame.Ranges.Weave.{
  extract_ciphertext-parts, build_aad-parts, reconstruct_plaintext-parts, append_interleaved-parts,
}
use dave_go.Frame.Gcm8.{Gcm, IsGcm}
use dave_go.Frame.Gcm8.Open.{sealed_bytes, short_tag, seal8_lem, open8-seal8, length-short_tag}
use dave_go.Frame.Encrypt.{encrypt_core_append, decrypt, new_gcm8, full_nonce, magic_byte}
use dave_go.Frame.Encrypt.Footer.{
  IsSmall, range_bytes, footer_bytes, frame_bytes, append_ranges-range_bytes, parse-frame_bytes,
  looks_like-frame_bytes,
}
use native.Mathlib.Nat.{mod-eq_of_lt}

-- The appends of `encryptCoreAppend`, regrouped.
assemble_plain :
    (d b t n : List ℕ) (s s' : ℕ)
    → s ≡ s'
    → ((((d ++ (b ++ t)) ++ n) ++ (s ∷ [])) ++ (magic_byte ∷ magic_byte ∷ []))
      ≡ d ++ (b ++ ((t ++ (n ++ [])) ++ (s' ∷ magic_byte ∷ magic_byte ∷ [])))
assemble_plain d b t n s s' e = rw e (simp (append_assoc, append-nil))

assemble :
    (d b t n r : List ℕ) (s s' : ℕ)
    → s ≡ s'
    → ((((((d ++ b) ++ t) ++ n) ++ r) ++ (s ∷ [])) ++ (magic_byte ∷ magic_byte ∷ []))
      ≡ d ++ (b ++ ((t ++ (n ++ r)) ++ (s' ∷ magic_byte ∷ magic_byte ∷ [])))
assemble d b t n r s s' e = rw e (simp append_assoc)

-- The end of `encryptCoreAppend`: the size is tested and written.
finish :
    (d b t n r : List ℕ) (size total : ℕ)
    → size ≡ total
    → (guard (not (ltb 255 size)) invalid_supplemental_size >>= λ _.
        ok (
          (((((d ++ b) ++ t) ++ n) ++ r) ++ ((size % 256) ∷ [])) ++ (magic_byte ∷ magic_byte ∷ [])))
      ≡ (if ltb 255 total
          then err invalid_supplemental_size
          else ok (d ++ (b ++ ((t ++ (n ++ r)) ++ (total ∷ magic_byte ∷ magic_byte ∷ [])))))
finish d b t n r size total e = elim (Bool-cases (ltb 255 total)) [
  | inl large ↦ rw (e, large)
  | inr fits ↦
      rw (e, fits)
        (ap ok
          (assemble d b t n r (total % 256) total (mod-eq_of_lt (omega (arith, ltb→le _ _ fits)))))
]

module _ (g : Gcm) (h : IsGcm g) (key : List ℕ) (nonce : ℕ) (fits : nonce < 2 ^ 32) where
  abbrev pub frame_tag : List Part → List ℕ → List ℕ
  frame_tag ps l = short_tag g h key (full_nonce nonce) (covered_bytes ps l) (clear_bytes ps)

  abbrev pub suppl_size : List Part → List ℕ → ℕ
  suppl_size ps l = length (footer_bytes (frame_tag ps l) nonce (ranges_of 0 ps)) + 3

  -- `qs` and `m` stand for the same frame with its covered bytes sealed.
  abbrev pub Seals : List Part → List ℕ → List Part → List ℕ → Type 0
  Seals ps l qs m =
      Alike ps l qs m
      × (covered_bytes qs m
          ≡ sealed_bytes g h key (full_nonce nonce) (covered_bytes ps l) (clear_bytes ps))

  encrypt_core-plain :
      (l m dst : List ℕ)
      → m ≡ sealed_bytes g h key (full_nonce nonce) l []
      → encrypt_core_append g key dst l nonce []
        ≡ ok (dst ++ frame_bytes m (frame_tag [] l) nonce [])
  unfolding encrypt_core_append
  encrypt_core-plain l m dst e =
      rw
        (seal8_lem g h key dst (full_nonce nonce) l [] refl, append_uleb128-encode [] nonce fits, e)
        (ap ok (
          assemble_plain dst _ (frame_tag [] l) (encode_uleb128 nonce) _ _ (
            omega (
              arith,
              length-encode_uleb128 nonce fits,
              length-short_tag g h key (full_nonce nonce) l [],
              length-append (frame_tag [] l) (encode_uleb128 nonce ++ []),
              length-append (encode_uleb128 nonce) [],
            ))))

  pub footer_size :
      (ps : List Part) (l : List ℕ)
      → suppl_size ps l
        ≡ 8 + length (encode_uleb128 nonce) + length (range_bytes (ranges_of 0 ps)) + 1 + 2
  footer_size ps l = omega (
    arith,
    length-short_tag g h key (full_nonce nonce) (covered_bytes ps l) (clear_bytes ps),
    length-append (frame_tag ps l) (encode_uleb128 nonce ++ range_bytes (ranges_of 0 ps)),
    length-append (encode_uleb128 nonce) (range_bytes (ranges_of 0 ps)),
  )

  encrypt_core-ranges :
      (p : Part) (ps qs : List Part) (l m dst : List ℕ)
      → All IsSmall (ranges_of 0 (p ∷ ps))
      → Seals (p ∷ ps) l qs m
      → encrypt_core_append g key dst (join (p ∷ ps) l) nonce (ranges_of 0 (p ∷ ps)) ≡ (
          if ltb 255 (suppl_size (p ∷ ps) l)
          then err invalid_supplemental_size
          else ok
              (dst ++ frame_bytes (join qs m) (frame_tag (p ∷ ps) l) nonce (ranges_of 0 (p ∷ ps))))
  unfolding encrypt_core_append
  encrypt_core-ranges p ps qs l m dst small (alike, seals) =
      rw
        (
          extract_ciphertext-parts (p ∷ ps) l,
          build_aad-parts (p ∷ ps) l,
          seal8_lem g h key [] (full_nonce nonce) (covered_bytes (p ∷ ps) l) (clear_bytes (p ∷ ps))
              refl,
          slice_at Error sealed [] body tag 0 (length sealed - 8) refl refl
              (omega (arith, sizes, tag_size)),
          slice_at Error sealed body tag [] (length sealed - 8) (length sealed)
              (ap (◌++◌ body) (sym (append-nil tag))) (omega (arith, sizes, tag_size)) sizes,
          ← seals,
          append_interleaved-parts (p ∷ ps) l qs m alike dst,
          append_uleb128-encode [] nonce fits,
          append_ranges-range_bytes (ranges_of 0 (p ∷ ps))
              (((dst ++ join qs m) ++ tag) ++ encode_uleb128 nonce) small,
        )
        (finish dst (join qs m) tag (encode_uleb128 nonce) (range_bytes (ranges_of 0 (p ∷ ps))) _
          (suppl_size (p ∷ ps) l)
          (omega (
            arith,
            footer_size (p ∷ ps) l,
            length-append (((dst ++ join qs m) ++ tag) ++ encode_uleb128 nonce)
                (range_bytes (ranges_of 0 (p ∷ ps))),
          )))
    where
      body : List ℕ
      body =
          sealed_bytes g h key (full_nonce nonce) (covered_bytes (p ∷ ps) l) (clear_bytes (p ∷ ps))

      tag : List ℕ
      tag = frame_tag (p ∷ ps) l

      sealed : List ℕ
      sealed = body ++ tag

      sizes : length sealed ≡ length body + length tag
      sizes = length-append body tag

      tag_size : length tag ≡ 8
      tag_size =
          length-short_tag g h key (full_nonce nonce) (covered_bytes (p ∷ ps) l)
            (clear_bytes (p ∷ ps))

  -- The core on any frame: it fails only where the supplemental data outgrow their size byte.
  pub encrypt_core-parts :
      (ps : List Part) (l : List ℕ) (qs : List Part) (m dst : List ℕ)
      → All IsSmall (ranges_of 0 ps)
      → Seals ps l qs m
      → encrypt_core_append g key dst (join ps l) nonce (ranges_of 0 ps) ≡ (
          if ltb 255 (suppl_size ps l)
          then err invalid_supplemental_size
          else ok (dst ++ frame_bytes (join qs m) (frame_tag ps l) nonce (ranges_of 0 ps)))
  encrypt_core-parts [] l [] m dst small (alike, seals) =
      rw
        (le→ltb 255 (suppl_size [] l)
          (omega (arith, footer_size [] l, length-encode_uleb128 nonce fits)))
        (encrypt_core-plain l m dst seals)
  encrypt_core-parts [] l (q ∷ qs) m dst small (alike, seals) = absurd alike
  encrypt_core-parts (p ∷ ps) l qs m dst small s = encrypt_core-ranges p ps qs l m dst small s

  -- `Decrypt` on what the core wrote.
  pub decrypt-parts :
      (ps : List Part) (l : List ℕ) (qs : List Part) (m : List ℕ)
      → All IsSmall (ranges_of 0 ps)
      → Seals ps l qs m
      → suppl_size ps l ≤ 255
      → length (join ps l) < 2 ^ 63
      → length key ≡ 16
      → decrypt g (record {
        ciphertext = frame_bytes (join qs m) (frame_tag ps l) nonce (ranges_of 0 ps);
        key = key;
      })
        ≡ ok (join ps l, nonce)
  unfolding decrypt
  decrypt-parts ps l qs m small (alike, seals) short in_memory sixteen = rw (
    eq→== (length key) 16 sixteen,
    looks_like-frame_bytes (join qs m) tag nonce (ranges_of 0 ps) tag_size fits small short,
    parse-frame_bytes (join qs m) tag nonce (ranges_of 0 ps) tag_size fits small short
        (rw (ranges_of-Alike ps l qs m 0 alike) (ranges_of-Fits_start qs m))
        (omega (arith, in_memory, length-join-Alike ps l qs m alike)),
    accepted,
    ranges_of-Alike ps l qs m 0 alike,
    extract_ciphertext-parts qs m,
    build_aad-parts qs m,
    ← clear_bytes-Alike ps l qs m alike,
    seals,
    open8-seal8 g h key [] (full_nonce nonce) (covered_bytes ps l) (clear_bytes ps) refl,
    reconstruct_plaintext-parts qs m ps l (Alike-sym ps l qs m alike),
  )
    where
      tag : List ℕ
      tag = frame_tag ps l

      tag_size : length tag ≡ 8
      tag_size = length-short_tag g h key (full_nonce nonce) (covered_bytes ps l) (clear_bytes ps)

      accepted : new_gcm8 g key ≡ ok tt
      accepted = unfold new_gcm8 in rw (h.accepts_sixteen key sixteen)
