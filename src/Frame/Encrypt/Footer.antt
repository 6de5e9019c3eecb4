-- ===== src/Frame/Encrypt/Footer.antt =====
-- The bytes of a sealed frame, and `Parse` on them.
use dave_go.Base.{
  ℕ, zero, suc, ◌+◌, ◌-◌, ◌%◌, ◌^◌, ◌≤◌, ◌<◌, ◌≡◌, refl, sym, ap, ◌∙◌, arith, List, [], ◌∷◌, ◌++◌,
  length, get_or, get_or-append, All, All-append, append_assoc, append-nil, length-append, true, ok,
  le→ltb, eq→==,
}
use dave_go.Base.Bytes.{slice, slice_at, index, index_ok, IsByte}
use dave_go.Frame.Types.{Error, Range}
use dave_go.Frame.Uleb128.{encode_uleb128, decode_uleb128}
use dave_go.Frame.Uleb128.Laws.{
  append_uleb128-encode, decode_uleb128-append, encode_uleb128-IsByte, length-encode_uleb128,
}
use dave_go.Frame.Ranges.Layout.{Fits}
use dave_go.Frame.Ranges.Weave.{validate_ranges-ok}
use dave_go.Frame.Encrypt.{append_ranges, parse_ranges, parse, magic_byte, looks_like_dave_frame}
use native.Mathlib.Nat.{mod-eq_of_lt}

-- A range whose numbers are uint32s.
abbrev pub IsSmall : Range → Type 0
IsSmall r = (r.offset < 2 ^ 32) × (r.len < 2 ^ 32)

abbrev pub range_bytes : List Range → List ℕ
range_bytes [] = []
range_bytes (r ∷ rs) = encode_uleb128 r.offset ++ (encode_uleb128 r.len ++ range_bytes rs)

range_bytes-IsByte : (rs : List Range) → All IsSmall rs → All IsByte (range_bytes rs)
range_bytes-IsByte [] h = tt
range_bytes-IsByte (r ∷ rs) h =
    All-append IsByte _ _ (encode_uleb128-IsByte r.offset h.0.0)
      (All-append IsByte _ _ (encode_uleb128-IsByte r.len h.0.1) (range_bytes-IsByte rs h.1))

pub append_ranges-range_bytes :
    (rs : List Range) (out : List ℕ) → All IsSmall rs → append_ranges out rs ≡ out ++ range_bytes rs
unfolding append_ranges
append_ranges-range_bytes [] out h = sym (append-nil out)
append_ranges-range_bytes (r ∷ rs) out h =
    rw
      (
        mod-eq_of_lt h.0.0,
        mod-eq_of_lt h.0.1,
        append_uleb128-encode out r.offset h.0.0,
        append_uleb128-encode (out ++ encode_uleb128 r.offset) r.len h.0.1,
      )
      (append_ranges-range_bytes rs _ h.1 ∙ simp append_assoc)

parse_ranges_step :
    (fuel : ℕ) (bs data1 data2 : List ℕ) (acc : List Range) (r : Range) (n1 n2 : ℕ)
    → 0 < length bs
    → decode_uleb128 bs ≡ ok (r.offset, n1)
    → slice {E = Error} bs n1 (length bs) ≡ ok data1
    → decode_uleb128 data1 ≡ ok (r.len, n2)
    → slice {E = Error} data1 n2 (length data1) ≡ ok data2
    → parse_ranges (suc fuel) bs acc ≡ parse_ranges fuel data2 (acc ++ (r ∷ []))
unfolding parse_ranges
parse_ranges_step fuel [] data1 data2 acc r n1 n2 h e1 e2 e3 e4 = absurd (omega arith)
parse_ranges_step fuel (b ∷ bs) data1 data2 acc r n1 n2 h e1 e2 e3 e4 = rw (e1, e2, e3, e4)

-- The bytes behind a prefix.
slice_rest :
    (pre rest : List ℕ) (n : ℕ)
    → n ≡ length pre
    → slice {E = Error} (pre ++ rest) n (length (pre ++ rest)) ≡ ok rest
slice_rest pre rest n h =
    slice_at Error (pre ++ rest) pre rest [] n _ (ap (◌++◌ pre) (sym (append-nil rest))) h
      (length-append pre rest)

range_bytes_sizes :
    (r : Range) (rs : List Range)
    → IsSmall r
    → (0 < length (range_bytes (r ∷ rs)))
      × (length (range_bytes rs) < length (range_bytes (r ∷ rs)))
range_bytes_sizes r rs h =
    let both : length (range_bytes (r ∷ rs))
        ≡ length (encode_uleb128 r.offset)
          + (length (encode_uleb128 r.len) + length (range_bytes rs)) =
      length-append _ _
      ∙ ap (λ (n : ℕ). length (encode_uleb128 r.offset) + n) (length-append _ _) in
    let first = length-encode_uleb128 r.offset h.0 in (omega arith, omega arith)

parse_ranges-range_bytes :
    (rs : List Range) (fuel : ℕ) (acc : List Range)
    → All IsSmall rs
    → length (range_bytes rs) ≤ fuel
    → parse_ranges fuel (range_bytes rs) acc ≡ ok (acc ++ rs)
parse_ranges-range_bytes [] fuel acc h hf = unfold parse_ranges in ap ok (sym (append-nil acc))
parse_ranges-range_bytes (r ∷ rs) zero acc h hf = absurd (omega (arith, range_bytes_sizes r rs h.0))
parse_ranges-range_bytes (r ∷ rs) (suc fuel) acc h hf =
    parse_ranges_step fuel (range_bytes (r ∷ rs)) (encode_uleb128 r.len ++ range_bytes rs)
      (range_bytes rs) acc r _ _ (range_bytes_sizes r rs h.0).0
      (decode_uleb128-append r.offset _ h.0.0
        (All-append IsByte _ _ (encode_uleb128-IsByte r.len h.0.1) (range_bytes-IsByte rs h.1)))
      (slice_rest (encode_uleb128 r.offset) _ _ refl)
      (decode_uleb128-append r.len _ h.0.1 (range_bytes-IsByte rs h.1))
      (slice_rest (encode_uleb128 r.len) _ _ refl)
    ∙ parse_ranges-range_bytes rs fuel (acc ++ (r ∷ [])) h.1
        (omega (arith, range_bytes_sizes r rs h.0))
    ∙ ap ok (append_assoc acc (r ∷ []) rs)

-- The supplemental data: tag, nonce, ranges, size and marker.
abbrev pub footer_bytes : List ℕ → ℕ → List Range → List ℕ
footer_bytes tag nonce rs = tag ++ (encode_uleb128 nonce ++ range_bytes rs)

abbrev pub frame_bytes : List ℕ → List ℕ → ℕ → List Range → List ℕ
frame_bytes body tag nonce rs =
    body
    ++ (footer_bytes tag nonce rs
        ++ ((length (footer_bytes tag nonce rs) + 3) ∷ magic_byte ∷ magic_byte ∷ []))

-- What `Parse` makes of such a frame.
module _ (body tag : List ℕ) (nonce : ℕ) (rs : List Range) (tag_size : length tag ≡ 8)
    (nonce_fits : nonce < 2 ^ 32) (small : All IsSmall rs)
    (short : length (footer_bytes tag nonce rs) + 3 ≤ 255) where
  abbrev packet : List ℕ
  packet = frame_bytes body tag nonce rs

  abbrev footer : List ℕ
  footer = footer_bytes tag nonce rs

  abbrev size : ℕ
  size = length footer + 3

  length-packet : length packet ≡ length body + size
  length-packet =
      length-append body (footer ++ (size ∷ magic_byte ∷ magic_byte ∷ []))
      ∙ omega (arith, length-append footer (size ∷ magic_byte ∷ magic_byte ∷ []))

  size-ge : 12 ≤ size
  size-ge = omega (
    arith,
    length-append tag (encode_uleb128 nonce ++ range_bytes rs),
    length-append (encode_uleb128 nonce) (range_bytes rs),
    length-encode_uleb128 nonce nonce_fits,
  )

  -- The three bytes at the end.
  get_end :
      (i k : ℕ)
      → i + 3 ≡ length packet + k
      → get_or packet i 0 ≡ get_or (size ∷ magic_byte ∷ magic_byte ∷ []) k 0
  get_end i k h =
      get_or-append body (footer ++ (size ∷ magic_byte ∷ magic_byte ∷ [])) i (length footer + k) 0
        (omega (arith, length-packet))
      ∙ get_or-append footer (size ∷ magic_byte ∷ magic_byte ∷ []) (length footer + k) k 0 refl

  index_end :
      (i k : ℕ)
      → i + 3 ≡ length packet + k
      → k < 3
      → index {E = Error} packet i ≡ ok (get_or (size ∷ magic_byte ∷ magic_byte ∷ []) k 0)
  index_end i k h hk = index_ok Error packet i (omega arith) ∙ ap ok (get_end i k h)

  pub looks_like-frame_bytes : looks_like_dave_frame packet ≡ true
  unfolding looks_like_dave_frame
  looks_like-frame_bytes = rw (
    le→ltb (length packet) 11 (omega (arith, length-packet, size-ge)),
    get_end (length packet - 2) 1 (omega (arith, length-packet, size-ge)),
    get_end (length packet - 1) 2 (omega (arith, length-packet, size-ge)),
  )

  size_byte : size % 256 ≡ size
  size_byte = mod-eq_of_lt (omega arith)

  slice_ranges :
      slice {E = Error} footer (8 + length (encode_uleb128 nonce)) (length footer)
      ≡ ok (range_bytes rs)
  slice_ranges =
      slice_at Error footer (tag ++ encode_uleb128 nonce) (range_bytes rs) [] _ _
        (sym (append_assoc tag (encode_uleb128 nonce) (range_bytes rs))
          ∙ ap (◌++◌ (tag ++ encode_uleb128 nonce)) (sym (append-nil (range_bytes rs))))
        (omega (arith, length-append tag (encode_uleb128 nonce), tag_size))
        (ap length (sym (append_assoc tag (encode_uleb128 nonce) (range_bytes rs)))
          ∙ length-append (tag ++ encode_uleb128 nonce) (range_bytes rs))

  pub parse-frame_bytes :
      Fits 0 rs (length body)
      → length body < 2 ^ 63
      → parse packet
        ≡ ok (record {
          interleaved_frame = body;
          tag = tag;
          truncated_nonce = nonce;
          unencrypted_ranges = rs;
          supplemental_size = size;
        })
  unfolding parse
  parse-frame_bytes fits in_memory = rw (
    le→ltb (length packet) 11 (omega (arith, length-packet, size-ge)),
    index_end (length packet - 2) 1 (omega (arith, length-packet, size-ge)) (omega arith),
    index_end (length packet - 1) 2 (omega (arith, length-packet, size-ge)) (omega arith),
    index_end (length packet - 3) 0 (omega (arith, length-packet, size-ge)) (omega arith),
    le→ltb size 11 (omega (arith, size-ge)),
    le→ltb (length packet) size (omega (arith, length-packet)),
    slice_at Error packet body footer (size ∷ magic_byte ∷ magic_byte ∷ []) (length packet - size)
        (length packet - 3) refl (omega (arith, length-packet)) (omega (arith, length-packet)),
    eq→== (length footer) (size - 3) (omega arith),
    slice_at Error footer [] tag (encode_uleb128 nonce ++ range_bytes rs) 0 8 refl refl
        (omega (arith, tag_size)),
    slice_rest tag (encode_uleb128 nonce ++ range_bytes rs) 8 (sym tag_size),
    decode_uleb128-append nonce (range_bytes rs) nonce_fits (range_bytes-IsByte rs small),
    slice_ranges,
    parse_ranges-range_bytes rs (length (range_bytes rs)) [] small (omega arith),
    slice_at Error packet [] body (footer ++ (size ∷ magic_byte ∷ magic_byte ∷ [])) 0
        (length packet - size) refl refl (omega (arith, length-packet)),
    (validate_ranges-ok rs (length body) in_memory).1 fits,
    size_byte,
  )
