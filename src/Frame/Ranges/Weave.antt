-- ===== src/Frame/Ranges/Weave.antt =====
-- The loops of ranges.go on a frame that is given by its parts.
use dave_go.Base.{
  ℕ, ◌+◌, ◌-◌, ◌%◌, ◌^◌, ◌<◌, ◌||◌, subst, ◌≤◌, ◌≡◌, ◌↔◌, refl, ap, ◌∙◌, sym, arith, List, [], ◌∷◌,
  ◌++◌, length, drop, take-append, drop-append, take_all, length-append, append-nil, append_assoc,
  ltb, if◌then◌else◌, Bool-cases, inl, inr, some, Result, ok, err, ◌>>=◌, le→ltb, ltb→le, ap₂,
  drop-drop, eq-nil_of_length, ◌&&◌,
}
use dave_go.Base.Bytes.{slice, slice_at, copy_at}
use dave_go.Frame.Types.{Error, invalid_ranges, Range}
use dave_go.Frame.Ranges.{
  is_negative, validate_loop, validate_ranges, contiguous_plaintext_size, extract_loop,
  extract_ciphertext, weave_loop, reconstruct_plaintext, append_interleaved, aad_loop, build_aad,
}
use dave_go.Frame.Ranges.Signed.{signed_ltb-ltb, signed_ltb-room}
use dave_go.Frame.Ranges.Layout.{Fits, Part, join, ranges_of, covered_bytes, clear_bytes, Alike}

module _ {X : Type 0} {v : Result Error (Unit {0})} (o n prev i : ℕ) {size : ℕ} where
  validate_fits :
      (i ≡ 0 → prev ≡ 0)
      → (o + n ≤ size → (v ≡ ok tt) ↔ X)
      → (if ltb size (o + n)
          then err invalid_ranges
          else if ltb 0 i && ltb o prev
          then err invalid_ranges
          else v)
        ≡ ok tt
      → (prev ≤ o) × (o + n ≤ size) × X
  validate_fits h rest e = elim (Bool-cases (ltb size (o + n))) [
    | inl big ↦ cc (rw big at e)
    | inr fits ↦ elim (Bool-cases (ltb 0 i && ltb o prev)) [
      | inl overlap ↦ cc (rw (fits, overlap) at e)
      | inr apart ↦
          let b = ltb→le _ _ fits in (ground (arith, h), b, (rest b).0 (rw (fits, apart) at e))
    ]
  ]

  validate_accepts :
      (prev ≤ o) × (o + n ≤ size) × X
      → (o + n ≤ size → (v ≡ ok tt) ↔ X)
      → (if ltb size (o + n)
          then err invalid_ranges
          else if ltb 0 i && ltb o prev
          then err invalid_ranges
          else v)
        ≡ ok tt
  validate_accepts (a, b, x) rest = rw (le→ltb _ _ b, le→ltb _ _ a) (ground (arith, (rest b).1 x))

validate_loop-ok :
    (rs : List Range) (i prev size : ℕ)
    → (i ≡ 0 → prev ≡ 0)
    → prev ≤ size
    → size < 2 ^ 63
    → (validate_loop rs i prev size ≡ ok tt) ↔ Fits prev rs size
unfolding validate_loop
validate_loop-ok [] i prev size h k hs = (λ e. k, λ f. refl)
validate_loop-ok (r ∷ rs) i prev size h k hs =
    elim (Bool-cases (is_negative r.offset || is_negative r.len)) [
      | inl negative ↦ (
        (λ e. cc (rw negative at e)),
        (λ f.
            let fits : r.offset + r.len ≤ size = f.1 in
            absurd (ground (arith, negative, fits, hs))),
      )
      | inr positive ↦
          let sizes : (r.offset < 2 ^ 63) × (r.len < 2 ^ 63) = ground (arith, positive) in
          let rest = λ (fits : r.offset + r.len ≤ size).
            let same : (r.offset + r.len) % 2 ^ 64 ≡ r.offset + r.len = omega arith in
            subst (λ p. (validate_loop rs (i + 1) p size ≡ ok tt) ↔ Fits (r.offset + r.len) rs size)
              (sym same)
              (validate_loop-ok rs (i + 1) (r.offset + r.len) size (λ e. absurd (omega arith)) fits
                hs) in
          rw
            (
              positive,
              signed_ltb-room size r.offset r.len hs sizes.0 sizes.1,
              signed_ltb-ltb r.offset prev sizes.0 (omega arith),
            )
            (
              (λ e. validate_fits r.offset r.len prev i h rest e),
              (λ f. validate_accepts r.offset r.len prev i f rest),
            )
    ]

-- On a frame of fewer than 2^63 bytes, `ValidateRanges` accepts exactly the ranges with no negative
-- part that are in order, apart and within the frame. `Fits` leaves out the negative ones: they stand
-- for 2^63 and more.
pub validate_ranges-ok :
    (rs : List Range) (size : ℕ)
    → size < 2 ^ 63
    → (validate_ranges rs size ≡ ok tt) ↔ Fits 0 rs size
unfolding validate_ranges
validate_ranges-ok rs size hs = validate_loop-ok rs 0 0 size (λ e. refl) (omega arith) hs

-- `copy` over a middle part of the same length.
copy_middle :
    (pre mid post src : List ℕ) (a : ℕ)
    → a ≡ length pre
    → length src ≡ length mid
    → copy_at (pre ++ (mid ++ post)) a src ≡ pre ++ (src ++ post)
copy_middle pre mid post src a ha hs = ap₂ ◌++◌ (take-append a pre (mid ++ post) ha) (
    ap₂ ◌++◌
      (take_all (length (pre ++ (mid ++ post)) - a) src
        (omega (arith, length-append pre (mid ++ post), length-append mid post)))
      (sym (drop-drop (length src) a (a + length src) (pre ++ (mid ++ post)) refl)
        ∙ ap (drop (length src)) (drop-append a pre (mid ++ post) ha)
        ∙ drop-append (length src) mid post hs))

-- The piece that a loop appends for a covered part, which may be empty.
gap_piece :
    (xs pre mid post out : List ℕ) (a b : ℕ)
    → xs ≡ pre ++ (mid ++ post)
    → a ≡ length pre
    → b ≡ length pre + length mid
    → (if ltb a b then (slice {E = Error} xs a b >>= λ s. ok (out ++ s)) else ok out)
      ≡ ok (out ++ mid)
gap_piece xs pre mid post out a b e ha hb = elim (Bool-cases (ltb a b)) [
  | inl some_bytes ↦
      rw (some_bytes, e)
        (ap (λ r. r >>= λ s. ok (out ++ s)) (slice_at Error _ pre mid post a b refl ha hb))
  | inr no_bytes ↦ rw no_bytes (
      ap ok (
        sym (append-nil out)
        ∙ ap (◌++◌ out) (sym (eq-nil_of_length mid (omega (arith, ltb→le _ _ no_bytes))))))
]

-- The position behind the first part.
regroup :
    (xs pre : List ℕ) (p : Part) (ps : List Part) (l : List ℕ)
    → xs ≡ pre ++ join (p ∷ ps) l
    → xs ≡ (pre ++ (p.covered ++ p.clear)) ++ join ps l
regroup xs pre p ps l e = e ∙ simp append_assoc

length-regroup :
    (pre : List ℕ) (p : Part)
    → length pre + length p.covered + length p.clear ≡ length (pre ++ (p.covered ++ p.clear))
length-regroup pre p =
    omega (arith, length-append pre (p.covered ++ p.clear), length-append p.covered p.clear)

extract_loop-parts :
    (ps : List Part) (l xs pre out : List ℕ) (pos : ℕ)
    → xs ≡ pre ++ join ps l
    → pos ≡ length pre
    → extract_loop xs (ranges_of pos ps) out pos ≡ ok (out ++ covered_bytes ps l)
unfolding extract_loop
extract_loop-parts [] l xs pre out pos e h =
    gap_piece xs pre l [] out pos (length xs) (e ∙ ap (◌++◌ pre) (sym (append-nil l))) h
      (ap length e ∙ length-append pre l)
extract_loop-parts (p ∷ ps) l xs pre out pos e h =
    rw
      (gap_piece xs pre p.covered (p.clear ++ join ps l) out pos (pos + length p.covered) e h
        (omega arith))
      (extract_loop-parts ps l xs (pre ++ (p.covered ++ p.clear)) (out ++ p.covered)
          (pos + length p.covered + length p.clear) (regroup xs pre p ps l e)
          (omega (arith, length-regroup pre p))
        ∙ ap ok (append_assoc out p.covered (covered_bytes ps l)))

aad_loop-parts :
    (ps : List Part) (l xs pre out : List ℕ) (pos : ℕ)
    → xs ≡ pre ++ join ps l
    → pos ≡ length pre
    → aad_loop xs (ranges_of pos ps) out ≡ ok (out ++ clear_bytes ps)
unfolding aad_loop
aad_loop-parts [] l xs pre out pos e h = ap ok (sym (append-nil out))
aad_loop-parts (p ∷ ps) l xs pre out pos e h = rw (here) (
    aad_loop-parts ps l xs (pre ++ (p.covered ++ p.clear)) (out ++ p.clear)
      (pos + length p.covered + length p.clear) (regroup xs pre p ps l e)
      (omega (arith, length-regroup pre p))
    ∙ ap ok (append_assoc out p.clear (clear_bytes ps)))
  where
    here :
        slice {E = Error} xs (pos + length p.covered) (pos + length p.covered + length p.clear)
        ≡ ok p.clear
    here = rw (e ∙ sym (append_assoc pre p.covered (p.clear ++ join ps l))) (
        slice_at Error ((pre ++ p.covered) ++ (p.clear ++ join ps l)) (pre ++ p.covered) p.clear
          (join ps l) _ _ refl (omega (arith, length-append pre p.covered))
          (omega (arith, length-append pre p.covered)))

contiguous_plaintext_size-parts :
    (ps : List Part) (l : List ℕ) (pos size : ℕ)
    → length (join ps l) ≤ size
    → (n : ℕ) × (contiguous_plaintext_size size (ranges_of pos ps) ≡ some n)
unfolding contiguous_plaintext_size
contiguous_plaintext_size-parts [] l pos size h = (size, refl)
contiguous_plaintext_size-parts (p ∷ ps) l pos size h =
    let n : length p.clear + length (join ps l) ≤ size =
      omega (
        arith,
        length-append p.covered (p.clear ++ join ps l),
        length-append p.clear (join ps l),
      ) in
    rw (le→ltb size (length p.clear) (omega arith)) (
      contiguous_plaintext_size-parts ps l (pos + length p.covered + length p.clear)
        (size - length p.clear) (omega arith))

-- The step of `weave_loop` at one gap, which may be empty; `rest` is the loop behind it.
fill_gap :
    (rest : ℕ → List ℕ → Result Error (List ℕ)) (out pre mid post source used c more : List ℕ)
    (last off pos : ℕ)
    → out ≡ pre ++ (mid ++ post)
    → last ≡ length pre
    → off ≡ last + length mid
    → source ≡ used ++ (c ++ more)
    → pos ≡ length used
    → length c ≡ length mid
    → (if ltb last off
        then (slice out last off >>= λ gap. slice source pos (pos + (off - last)) >>= λ s.
            rest (pos + (off - last)) (copy_at out last s))
        else rest pos out)
      ≡ rest (pos + length c) (pre ++ (c ++ post))
fill_gap rest out pre mid post source used c more last off pos eo hl ho es hp hc =
    elim (Bool-cases (ltb last off)) [
      | inl some_bytes ↦
          rw
            (
              some_bytes,
              eo,
              es,
              slice_at Error (pre ++ (mid ++ post)) pre mid post last off refl hl (omega arith),
              slice_at Error (used ++ (c ++ more)) used c more pos (pos + (off - last)) refl hp
                  (omega arith),
              copy_middle pre mid post c last hl hc,
            )
            (ap (λ (t : ℕ). rest t (pre ++ (c ++ post))) (omega arith))
      | inr no_bytes ↦
          let none_left : length mid ≡ 0 = omega (arith, ltb→le _ _ no_bytes) in
          rw (no_bytes, eo, eq-nil_of_length mid none_left, eq-nil_of_length c (omega arith))
            (ap (λ (t : ℕ). rest t (pre ++ post)) (omega arith))
    ]

weave_loop-parts :
    (ps : List Part) (l : List ℕ) (qs : List Part) (m out pre source used : List ℕ) (last pos : ℕ)
    → Alike ps l qs m
    → out ≡ pre ++ join ps l
    → last ≡ length pre
    → source ≡ used ++ covered_bytes qs m
    → pos ≡ length used
    → weave_loop (ranges_of last ps) last pos out source ≡ ok (pre ++ join qs m)
unfolding weave_loop
weave_loop-parts [] l [] m out pre source used last pos h eo hl es hp =
    elim (Bool-cases (ltb last (length out))) [
      | inl some_bytes ↦
          rw
            (
              some_bytes,
              es ∙ ap (◌++◌ used) (sym (append-nil m)),
              slice_at Error (used ++ (m ++ [])) used m [] pos (length (used ++ (m ++ []))) refl hp
                  (omega (arith, length-append used (m ++ []), length-append m [])),
              eo ∙ ap (◌++◌ pre) (sym (append-nil l)),
              copy_middle pre l [] m last hl (sym h),
            )
            (ap (λ t. ok (pre ++ t)) (append-nil m))
      | inr no_bytes ↦
          let none_left : length l ≡ 0 =
            omega (arith, ltb→le _ _ no_bytes, ap length eo, length-append pre l) in
          rw (no_bytes, eo, eq-nil_of_length l none_left, eq-nil_of_length m (omega (arith, h)))
    ]
weave_loop-parts [] l (q ∷ qs) m out pre source used last pos h eo hl es hp = absurd h
weave_loop-parts (p ∷ ps) l [] m out pre source used last pos h eo hl es hp = absurd h
weave_loop-parts (p ∷ ps) l (q ∷ qs) m out pre source used last pos h eo hl es hp =
    fill_gap
      (λ t o.
        weave_loop (ranges_of (last + length p.covered + length p.clear) ps)
          (last + length p.covered + length p.clear) t o source)
      out pre p.covered (p.clear ++ join ps l) source used q.covered (covered_bytes qs m) last
      (last + length p.covered) pos eo hl refl es hp (sym h.0)
    ∙ weave_loop-parts ps l qs m _ (pre ++ (q.covered ++ p.clear)) source (used ++ q.covered) _ _
        h.2 (simp append_assoc)
        (omega
          (arith, length-append pre (q.covered ++ p.clear), length-append q.covered p.clear, h.0))
        (es ∙ sym (append_assoc used q.covered _)) (omega (arith, length-append used q.covered))
    ∙ rw (h.1) (simp append_assoc)

-- On a frame given by its parts every function of ranges.go returns.
module _ (ps : List Part) (l : List ℕ) where
  pub extract_ciphertext-parts :
      extract_ciphertext (join ps l) (ranges_of 0 ps) ≡ ok (covered_bytes ps l)
  unfolding extract_ciphertext
  extract_ciphertext-parts =
      let (n, e) = contiguous_plaintext_size-parts ps l 0 (length (join ps l)) (omega arith) in
      rw (e, extract_ciphertext) (extract_loop-parts ps l (join ps l) [] [] 0 refl refl)

  pub build_aad-parts : build_aad (join ps l) (ranges_of 0 ps) ≡ ok (clear_bytes ps)
  unfolding build_aad
  build_aad-parts = aad_loop-parts ps l (join ps l) [] [] 0 refl refl

  module _ (qs : List Part) (m : List ℕ) (alike : Alike ps l qs m) where
    pub reconstruct_plaintext-parts :
        reconstruct_plaintext (join ps l) (covered_bytes qs m) (ranges_of 0 ps) ≡ ok (join qs m)
    unfolding reconstruct_plaintext
    reconstruct_plaintext-parts =
        weave_loop-parts ps l qs m (join ps l) [] _ [] 0 0 alike refl refl refl refl

    pub append_interleaved-parts :
        (dst : List ℕ)
        → append_interleaved dst (join ps l) (ranges_of 0 ps) (covered_bytes qs m)
          ≡ ok (dst ++ join qs m)
    unfolding append_interleaved
    append_interleaved-parts dst =
        rw (weave_loop-parts ps l qs m (join ps l) [] _ [] 0 0 alike refl refl refl refl)
