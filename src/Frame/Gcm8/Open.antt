-- ===== src/Frame/Gcm8/Open.antt =====
-- `Open` against `Seal`.
use dave_go.Base.{
  ℕ, zero, suc, ◌+◌, ◌-◌, ◌≡◌, ◌↔◌, ◌⊎◌, append-nil, refl, sym, ap, ap₂, ◌∙◌, arith, bit_or,
  bit_xor, List, [], ◌∷◌, ◌++◌, length, take, drop, replicate, All, true, ltb, ◌==◌, if◌then◌else◌,
  Bool-cases, inl, inr, ok, err, length-append, length-take, length-drop, length-replicate,
  take-append-drop, le→ltb, ltb→le, eq→==, ==→eq, append_assoc,
}
use dave_go.Base.Xor.{
  bit_xor-bit_xor, zero-bit_xor, bit_xor-eq_zero, bit_xor_self, bit_or-eq_zero, bit_xor-byte,
}
use dave_go.Base.Bytes.{slice_at, IsByte}
use dave_go.Frame.Types.{Error, auth_tag_mismatch}
use dave_go.Frame.Gcm8.{
  Gcm, IsGcm, xor_bytes, difference, constant_time_equal, xor_loop, seal8, open8,
}

length-xor_bytes : (xs ks : List ℕ) → length ks ≡ length xs → length (xor_bytes xs ks) ≡ length xs
length-xor_bytes [] ks h = refl
length-xor_bytes (x ∷ xs) [] h = absurd (omega arith)
length-xor_bytes (x ∷ xs) (k ∷ ks) h = ap suc (length-xor_bytes xs ks (omega arith))

xor_bytes_twice : (xs ks : List ℕ) → length ks ≡ length xs → xor_bytes (xor_bytes xs ks) ks ≡ xs
xor_bytes_twice [] ks h = refl
xor_bytes_twice (x ∷ xs) [] h = absurd (omega arith)
xor_bytes_twice (x ∷ xs) (k ∷ ks) h =
    ap₂ ◌∷◌ (bit_xor-bit_xor x k) (xor_bytes_twice xs ks (omega arith))

xor_bytes-zeros : (ks : List ℕ) (n : ℕ) → length ks ≡ n → xor_bytes (replicate n 0) ks ≡ ks
xor_bytes-zeros [] zero h = refl
xor_bytes-zeros [] (suc n) h = absurd (omega arith)
xor_bytes-zeros (k ∷ ks) zero h = absurd (omega arith)
xor_bytes-zeros (k ∷ ks) (suc n) h = ap₂ ◌∷◌ (zero-bit_xor k) (xor_bytes-zeros ks n (omega arith))

xor_bytes-IsByte : (xs ks : List ℕ) → All IsByte xs → All IsByte ks → All IsByte (xor_bytes xs ks)
xor_bytes-IsByte [] ks p q = tt
xor_bytes-IsByte (x ∷ xs) [] p q = tt
xor_bytes-IsByte (x ∷ xs) (k ∷ ks) p q = (bit_xor-byte x k p.0 q.0, xor_bytes-IsByte xs ks p.1 q.1)

xor_loop_lem : (xs ks : List ℕ) → length ks ≡ length xs → xor_loop xs ks ≡ ok (xor_bytes xs ks)
unfolding xor_loop
xor_loop_lem [] ks h = refl
xor_loop_lem (x ∷ xs) [] h = absurd (omega arith)
xor_loop_lem (x ∷ xs) (k ∷ ks) h = rw (xor_loop_lem xs ks (omega arith))

difference-zero :
    (xs ys : List ℕ) (diff : ℕ)
    → length xs ≡ length ys
    → difference xs ys diff ≡ 0
    → (diff ≡ 0) × (xs ≡ ys)
unfolding difference
difference-zero [] [] diff h e = (e, refl)
difference-zero [] (y ∷ ys) diff h e = absurd (omega arith)
difference-zero (x ∷ xs) [] diff h e = absurd (omega arith)
difference-zero (x ∷ xs) (y ∷ ys) diff h e =
    let (d, same) = difference-zero xs ys (bit_or diff (bit_xor x y)) (omega arith) e in
    let (d', b) = bit_or-eq_zero diff (bit_xor x y) d in (d', ap₂ ◌∷◌ (bit_xor-eq_zero x y b) same)

difference_self : (xs : List ℕ) → difference xs xs 0 ≡ 0
unfolding difference
difference_self [] = refl
difference_self (x ∷ xs) = rw (bit_xor_self x) (difference_self xs)

-- The comparison without early exit decides equality.
pub constant_time_equal_iff : (a b : List ℕ) → (constant_time_equal a b ≡ true) ↔ (a ≡ b)
unfolding constant_time_equal
constant_time_equal_iff a b = (
  (λ e. elim (Bool-cases (length a == length b)) [
    | inl same ↦ (difference-zero a b 0 (==→eq _ _ same) (==→eq _ _ (rw same at e))).1
    | inr differ ↦ cc (rw differ at e)
  ]),
  (λ e. rw (e, eq→== (length b) (length b) refl, difference_self b)),
)

constant_time_equal_refl : (a : List ℕ) → constant_time_equal a a ≡ true
constant_time_equal_refl a = (constant_time_equal_iff a a).1 refl

module _ (g : Gcm) (h : IsGcm g) (key : List ℕ) where
  -- The bytes that `Seal` writes.
  abbrev pub sealed_bytes : List ℕ → List ℕ → List ℕ → List ℕ
  sealed_bytes nonce p aad = xor_bytes p (h.keystream key nonce (length p))

  abbrev pub short_tag : List ℕ → List ℕ → List ℕ → List ℕ
  short_tag nonce p aad = take 8 (h.tag key nonce p aad)

  pub length-short_tag : (nonce p aad : List ℕ) → length (short_tag nonce p aad) ≡ 8
  length-short_tag nonce p aad =
      omega (arith, length-take 8 (h.tag key nonce p aad), h.length-tag key nonce p aad)

  pub seal8_lem :
      (dst nonce p aad : List ℕ)
      → length nonce ≡ 12
      → seal8 g key dst nonce p aad
        ≡ ok (dst ++ (sealed_bytes nonce p aad ++ short_tag nonce p aad))
  unfolding seal8
  seal8_lem dst nonce p aad hn =
      rw
        (
          eq→== (length nonce) 12 hn,
          h.seal_lem key nonce p aad hn,
          le→ltb (length sealed) 16 (omega (arith, sizes, ht)),
          slice_at Error sealed [] (dst ++ body) tag 0 (length sealed - 16) whole refl
              (omega (arith, sizes, ht)),
          slice_at Error sealed (dst ++ body) (take 8 tag) (drop 8 tag) (length sealed - 16)
              (length sealed - 16 + 8) cut (omega (arith, sizes, ht))
              (omega (arith, sizes, ht, length-take 8 tag)),
        )
        (ap ok (append_assoc dst body (take 8 tag)))
    where
      body : List ℕ
      body = sealed_bytes nonce p aad

      tag : List ℕ
      tag = h.tag key nonce p aad

      sealed : List ℕ
      sealed = dst ++ (body ++ tag)

      ht : length tag ≡ 16
      ht = h.length-tag key nonce p aad

      sizes : length sealed ≡ length (dst ++ body) + length tag
      sizes =
          omega
            (arith, length-append dst (body ++ tag), length-append body tag, length-append dst body)

      whole : sealed ≡ (dst ++ body) ++ tag
      whole = sym (append_assoc dst body tag)

      cut : sealed ≡ (dst ++ body) ++ (take 8 tag ++ drop 8 tag)
      cut = whole ∙ ap (◌++◌ (dst ++ body)) (sym (take-append-drop 8 tag))

  -- What `Open` makes of bytes that end in an 8-byte tag.
  pub open8_lem :
      (dst nonce data' tag aad : List ℕ)
      → length nonce ≡ 12
      → length tag ≡ 8
      → open8 g key dst nonce (data' ++ tag) aad ≡ (
          if constant_time_equal tag (short_tag nonce (sealed_bytes nonce data' aad) aad)
          then ok (dst ++ sealed_bytes nonce data' aad)
          else err auth_tag_mismatch)
  unfolding open8
  open8_lem dst nonce data' tag aad hn ht = rw (
    eq→== (length nonce) 12 hn,
    le→ltb (length whole) 8 (omega (arith, length-append data' tag)),
    slice_at Error whole [] data' tag 0 (length whole - 8) refl refl
        (omega (arith, length-append data' tag)),
    slice_at Error whole data' tag [] (length whole - 8) (length whole)
        (ap (◌++◌ data') (sym (append-nil tag))) (omega (arith, length-append data' tag))
        (length-append data' tag),
    slice_at Error zeros [] ks zeros_tag 0 (length data') zeros_lem refl
        (omega (arith, h.length-keystream key nonce (length data'))),
    xor_loop_lem data' ks (h.length-keystream key nonce (length data')),
    le→ltb (length full) 16 (omega (arith, full_size, h.length-tag key nonce pt aad)),
    slice_at Error full again full_tag [] (length full - 16) (length full)
        (h.seal_lem key nonce pt aad hn ∙ ap (◌++◌ again) (sym (append-nil full_tag)))
        (omega (arith, full_size, h.length-tag key nonce pt aad)) full_size,
    slice_at Error full_tag [] (take 8 full_tag) (drop 8 full_tag) 0 8
        (sym (take-append-drop 8 full_tag)) refl
        (omega (arith, length-take 8 full_tag, h.length-tag key nonce pt aad)),
  )
    where
      whole : List ℕ
      whole = data' ++ tag

      ks : List ℕ
      ks = h.keystream key nonce (length data')

      zeros : List ℕ
      zeros = g.seal key nonce (replicate (length data') 0) aad

      zeros_tag : List ℕ
      zeros_tag = h.tag key nonce (replicate (length data') 0) aad

      zeros_lem : zeros ≡ ks ++ zeros_tag
      zeros_lem =
          h.seal_lem key nonce (replicate (length data') 0) aad hn
          ∙ ap (λ n. xor_bytes (replicate (length data') 0) (h.keystream key nonce n) ++ zeros_tag)
              (length-replicate (length data') 0)
          ∙ ap (λ t. t ++ zeros_tag)
              (xor_bytes-zeros ks (length data') (h.length-keystream key nonce (length data')))

      pt : List ℕ
      pt = xor_bytes data' ks

      full : List ℕ
      full = g.seal key nonce pt aad

      again : List ℕ
      again = sealed_bytes nonce pt aad

      full_tag : List ℕ
      full_tag = h.tag key nonce pt aad

      full_size : length full ≡ length again + length full_tag
      full_size = ap length (h.seal_lem key nonce pt aad hn) ∙ length-append again full_tag

  pub length-sealed_bytes : (nonce p aad : List ℕ) → length (sealed_bytes nonce p aad) ≡ length p
  length-sealed_bytes nonce p aad = length-xor_bytes p _ (h.length-keystream key nonce (length p))

  sealed_bytes_twice :
      (nonce p aad : List ℕ) → sealed_bytes nonce (sealed_bytes nonce p aad) aad ≡ p
  sealed_bytes_twice nonce p aad =
      ap (λ n. xor_bytes (sealed_bytes nonce p aad) (h.keystream key nonce n))
        (length-sealed_bytes nonce p aad)
      ∙ xor_bytes_twice p _ (h.length-keystream key nonce (length p))

  -- `Open` returns what was sealed.
  pub open8-seal8 :
      (dst nonce p aad : List ℕ)
      → length nonce ≡ 12
      → open8 g key dst nonce (sealed_bytes nonce p aad ++ short_tag nonce p aad) aad
        ≡ ok (dst ++ p)
  open8-seal8 dst nonce p aad hn = rw (
    open8_lem dst nonce (sealed_bytes nonce p aad) (short_tag nonce p aad) aad hn
        (length-short_tag nonce p aad),
    sealed_bytes_twice nonce p aad,
    constant_time_equal_refl (short_tag nonce p aad),
  )

  -- With a nonce of 12 bytes, `Open` never panics, and succeeds on nothing but what `Seal` writes for the result.
  pub open8-cases :
      (dst nonce ct aad : List ℕ)
      → length nonce ≡ 12
      → (open8 g key dst nonce ct aad ≡ err auth_tag_mismatch)
        ⊎ ((p : List ℕ) × (open8 g key dst nonce ct aad ≡ ok (dst ++ p))
            × (seal8 g key [] nonce p aad ≡ ok ct))
  open8-cases dst nonce ct aad hn = elim (Bool-cases (ltb (length ct) 8)) [
    | inl short ↦ inl (unfold open8 in rw short)
    | inr long ↦
        split (take (length ct - 8) ct) (drop (length ct - 8) ct)
          (take-append-drop (length ct - 8) ct)
          (omega (arith, length-drop (length ct - 8) ct, ltb→le _ _ long))
  ]
    where
      split :
          (d t : List ℕ)
          → d ++ t ≡ ct
          → length t ≡ 8
          → (open8 g key dst nonce ct aad ≡ err auth_tag_mismatch)
            ⊎ ((p : List ℕ) × (open8 g key dst nonce ct aad ≡ ok (dst ++ p))
                × (seal8 g key [] nonce p aad ≡ ok ct))
      split d t e ht =
          elim (Bool-cases
            (constant_time_equal t (short_tag nonce (sealed_bytes nonce d aad) aad))) [
              | inl same ↦ inr (
                sealed_bytes nonce d aad,
                ap (λ c. open8 g key dst nonce c aad) (sym e)
                    ∙ open8_lem dst nonce d t aad hn ht
                    ∙ rw same,
                seal8_lem [] nonce (sealed_bytes nonce d aad) aad hn
                    ∙ ap ok (
                        ap₂ ◌++◌ (sealed_bytes_twice nonce d aad)
                          (sym ((constant_time_equal_iff _ _).0 same))
                        ∙ e),
              )
              | inr other ↦ inl (
                  ap (λ c. open8 g key dst nonce c aad) (sym e)
                  ∙ open8_lem dst nonce d t aad hn ht
                  ∙ rw other)
            ]
