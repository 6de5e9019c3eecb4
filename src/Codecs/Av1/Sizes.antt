-- ===== src/Codecs/Av1/Sizes.antt =====
-- One round of the first loop of prepareAV1Frame: the OBU that the bytes start with.
use dave_go.Base.{
  ℕ, ◌+◌, ◌-◌, ◌*◌, ◌^◌, bit_and, bit_or, ◌/◌, ◌%◌, ◌≤◌, ◌≡◌, ◌⊎◌, inl, inr, refl, arith, List, [],
  ◌∷◌, length, take, drop, length-drop, length-take, take-append-drop, ap, ◌∙◌, ◌++◌, ==→eq, eq→==,
  eq-nil_of_length, ltb→lt, ltb→le, le→ltb, sym, ◌<◌, Bool, true, false, ltb, ◌==◌, if◌then◌else◌,
  Bool-cases, Result, ok, err,
}
use dave_go.Base.Bytes.{slice_ok}
use dave_go.Frame.Types.{invalid_uleb128}
use dave_go.Codecs.Types.{CodecError, frame_error}
use dave_go.Codecs.Av1.{Obu, leb128_loop, decode_leb128, parse_size, parse_obu}
use dave_go.Codecs.Av1.Reading.{IsSized, to_end, by_field, Starts}

abbrev pub Bad : {A : Type 0} → Result CodecError A → Type 0
Bad m = m ≡ err (frame_error invalid_uleb128)

leb128_loop-cases :
    (bs : List ℕ) (i value shift : ℕ)
    → Bad (leb128_loop bs i value shift)
      ⊎ ((v : ℕ) × (n : ℕ) × (leb128_loop bs i value shift ≡ ok (v, n)) × (n ≤ i + length bs))
unfolding leb128_loop
leb128_loop-cases [] i value shift = inl refl
leb128_loop-cases (b ∷ bs) i value shift = elim (Bool-cases (ltb i 8)) [
  | inr late ↦ inl (rw late refl)
  | inl early ↦ elim (Bool-cases (ltb b 128)) [
    | inl last ↦ inr (
      bit_or value (bit_and b 0x7F * 2 ^ shift % 2 ^ 64),
      i + 1,
      rw (early, last) refl,
      omega arith,
    )
    | inr more ↦ elim (leb128_loop-cases bs (i + 1) _ (shift + 7)) [
      | inl bad ↦ inl (rw (early, more) bad)
      | inr (v, n, e, h) ↦ inr (v, n, rw (early, more) e, omega arith)
    ]
  ]
]

-- What `parse_size` reads of the bytes after the header.
data Field (rest : List ℕ) : Bool → List ℕ → ℕ → Type 0 where
  no_field : Field rest false [] (length rest)
  field :
      (size n : ℕ)
      → n ≤ length rest
      → decode_leb128 rest ≡ ok (size, n)
      → Field rest true (take n rest) size

parse_size-cases :
    (has_size : Bool) (rest : List ℕ)
    → Bad (parse_size has_size rest)
      ⊎ ((bytes : List ℕ) × (size : ℕ) × (parse_size has_size rest ≡ ok (bytes, size))
          × Field rest has_size bytes size)
unfolding parse_size decode_leb128
parse_size-cases false rest = inr ([], length rest, refl, no_field)
parse_size-cases true rest = elim (leb128_loop-cases rest 0 0 0) [
  | inl bad ↦ inl (rw bad refl)
  | inr (v, n, e, h) ↦ inr (
    take n rest,
    v,
    let whole : n - 0 ≡ n = omega arith in
        simp (e, slice_ok CodecError rest 0 n (omega arith) (omega arith))
          (ap (λ m. ok (take m rest, v)) whole),
    field v n (omega (arith, h)) e,
  )
]

-- The OBU that `parse_obu` makes, and what it leaves.
abbrev payload_size : List ℕ → List ℕ → ℕ → ℕ
payload_size bytes rest wanted =
    let body = drop (length bytes) rest in if ltb (length body) wanted then length body else wanted

abbrev made : ℕ → Bool → ℕ → List ℕ → List ℕ → ℕ → Obu
made h has_ext ext rest bytes wanted = record {
  header_byte = h;
  has_ext = has_ext;
  ext_byte = ext;
  size_bytes = bytes;
  data_bytes = take (payload_size bytes rest wanted) (drop (length bytes) rest);
}

abbrev pub left : List ℕ → List ℕ → ℕ → List ℕ
left rest bytes wanted = drop (payload_size bytes rest wanted) (drop (length bytes) rest)

rest-made :
    (rest bytes : List ℕ) (wanted : ℕ) (b : Bool)
    → Field rest b bytes wanted
    → bytes
        ++ (take (payload_size bytes rest wanted) (drop (length bytes) rest)
            ++ left rest bytes wanted)
      ≡ rest
rest-made rest _ _ _ no_field = take-append-drop _ rest
rest-made rest _ wanted _ (field _ n h e) =
    ap (λ ys. take n rest ++ ys) (take-append-drop _ (drop (length (take n rest)) rest))
    ∙ ap (λ m. take n rest ++ drop m rest)
        (let same : length (take n rest) ≡ n = omega (arith, length-take n rest) in same)
    ∙ take-append-drop n rest

made-IsSized :
    (h : ℕ) (has_ext : Bool) (ext : ℕ) (rest bytes : List ℕ) (wanted : ℕ) (b : Bool)
    → (h / 2 % 2 == 1) ≡ b
    → Field rest b bytes wanted
    → IsSized (made h has_ext ext rest bytes wanted) (left rest bytes wanted)
made-IsSized h has_ext ext rest bytes wanted b test no_field =
    to_end (λ one. let yes : (h / 2 % 2 == 1) ≡ true = eq→== _ _ one in cc) refl
      (eq-nil_of_length (drop (payload_size [] rest (length rest)) rest)
        (omega (arith, length-drop (payload_size [] rest (length rest)) rest, whole)))
  where
    whole : payload_size [] rest (length rest) ≡ length rest
    whole = rw (le→ltb (length rest) (length rest) (omega arith)) refl
made-IsSized h has_ext ext rest bytes wanted b test (field _ n le e) =
    by_field wanted (==→eq _ _ test)
      (ap decode_leb128 (rest-made rest (take n rest) wanted true (field wanted n le e))
        ∙ e
        ∙ ap (λ m. ok (wanted, m)) (omega (arith, length-take n rest)))
      (sizes (drop (length (take n rest)) rest))
  where
    sizes :
        (body : List ℕ)
        → (length (take (if ltb (length body) wanted then length body else wanted) body) ≡ wanted)
          ⊎ ((length (take (if ltb (length body) wanted then length body else wanted) body)
                < wanted)
              × (drop (if ltb (length body) wanted then length body else wanted) body ≡ []))
    sizes body = elim (Bool-cases (ltb (length body) wanted)) [
      | inl short ↦ rw short (
          inr (
            omega (arith, length-take (length body) body, ltb→lt _ _ short),
            eq-nil_of_length _ (omega (arith, length-drop (length body) body)),
          ))
      | inr long ↦ rw long (inl (omega (arith, length-take wanted body, ltb→le _ _ long)))
    ]

-- Past the header and the extension, which the bytes start with.
abbrev pub head_bytes : ℕ → Bool → ℕ → List ℕ → List ℕ
head_bytes h has_ext ext rest = h ∷ ((if has_ext then ext ∷ [] else []) ++ rest)

pub parse_obu-cases :
    (h : ℕ) (has_ext : Bool) (ext : ℕ) (rest : List ℕ)
    → has_ext ≡ (h / 4 % 2 == 1)
    → Bad (parse_obu h has_ext ext rest)
      ⊎ ((obu : Obu) × (after : List ℕ) × (parse_obu h has_ext ext rest ≡ ok (obu, after))
          × (length after ≤ length rest)
          × (obu.header_byte ≡ h)
          × Starts (head_bytes h has_ext ext rest) obu after)
unfolding parse_obu
parse_obu-cases h has_ext ext rest extended = elim (parse_size-cases (h / 2 % 2 == 1) rest) [
  | inl bad ↦ inl (rw bad refl)
  | inr (bytes, wanted, e, read) ↦ inr (
    made h has_ext ext rest bytes wanted,
    left rest bytes wanted,
    rw e refl,
    omega (
      arith,
      length-drop (payload_size bytes rest wanted) (drop (length bytes) rest),
      length-drop (length bytes) rest,
    ),
    refl,
    record {
      whole = ap (head_bytes h has_ext ext) (sym (rest-made rest bytes wanted _ read));
      ext = extended;
      sized = made-IsSized h has_ext ext rest bytes wanted _ refl read;
    },
  )
]
