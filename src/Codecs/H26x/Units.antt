-- ===== src/Codecs/H26x/Units.antt =====
-- The loop over NAL units and the ranges it collects.
use dave_go.Base.{
  ℕ, zero, suc, ◌+◌, ◌-◌, ◌≤◌, ◌<◌, ◌≡◌, refl, sym, ap, ◌∙◌, arith, List, [], ◌∷◌, ◌++◌, append-nil,
  append_assoc, length, get_or, Option, none, some, Bool, true, false, not, ltb, leb, ◌==◌, ◌||◌,
  if◌then◌else◌, Bool-cases, inl, inr,
}
use native.Mathlib.Nat.{le_refl}
use dave_go.Frame.Types.{Range}
use dave_go.Frame.Ranges.Layout.{Fits, Fits-le}
use dave_go.Codecs.Types.{Kind}
use dave_go.Codecs.H26x.{
  start_code_len, is_vcl, find_loop, find_next_start_code, or_end, h26x_loop, h26x_ranges,
}

abbrev Found : Option ℕ → ℕ → ℕ → Type 0
Found none low high = 0 ≤ high
Found (some i) low high = (low ≤ i) × (i < high)

find_loop-Found :
    (payload : List ℕ) (rounds i : ℕ) → Found (find_loop payload rounds i) i (i + rounds)
unfolding find_loop
find_loop-Found payload zero i = omega arith
find_loop-Found payload (suc rounds) i =
    step (find_loop payload rounds (i + 1)) (find_loop-Found payload rounds (i + 1)) _
  where
    step :
        (rest : Option ℕ)
        → Found rest (i + 1) (i + 1 + rounds)
        → (here : Bool) → Found (if here then some i else rest) i (i + suc rounds)
    step rest f true = (omega arith, omega arith)
    step none f false = omega arith
    step (some k) f false = (omega (arith, f.0), omega (arith, f.1))

next_offset :
    (payload : List ℕ) (from : ℕ)
    → from < length payload
    → (from ≤ or_end (find_next_start_code payload from) payload)
      × (or_end (find_next_start_code payload from) payload ≤ length payload)
unfolding find_next_start_code
next_offset payload from h =
    bound (find_loop payload (length payload - 3 - from) from)
      (find_loop-Found payload (length payload - 3 - from) from)
  where
    bound :
        (o : Option ℕ)
        → Found o from (from + (length payload - 3 - from))
        → (from ≤ or_end o payload) × (or_end o payload ≤ length payload)
    bound none f = (omega arith, omega arith)
    bound (some i) f = (omega (arith, f.0), omega (arith, f.1))

-- What the loop returns: the ranges so far, and others that fit behind the offset.
abbrev Extends : List ℕ → ℕ → List Range → Option (List Range) → Type 0
Extends payload offset ranges result =
    (more : List Range) × (result ≡ some (ranges ++ more)) × Fits offset more (length payload)

goes_on :
    (payload : List ℕ) (offset code_len : ℕ)
    → (not (ltb offset (length payload))
        || (code_len == 0)
        || leb (length payload) (offset + code_len))
      ≡ false
    → (offset < length payload) × (0 < code_len) × (offset + code_len < length payload)
goes_on payload offset code_len h = ground arith

h26x_loop-Extends :
    (fuel : ℕ) (kind : Kind) (payload : List ℕ) (offset : ℕ) (ranges : List Range)
    → length payload < offset + fuel
    → offset ≤ length payload
    → Extends payload offset ranges (h26x_loop fuel kind payload offset ranges)
unfolding h26x_loop
h26x_loop-Extends zero kind payload offset ranges h low = absurd (omega arith)
h26x_loop-Extends (suc fuel) kind payload offset ranges h low =
    let code_len = start_code_len payload offset in
    let nal_start = offset + code_len in
    let next = or_end (find_next_start_code payload nal_start) payload in
    let unit : Range = record { offset = offset; len = next - offset } in
    let clear = ranges ++ (unit ∷ []) in
    let stop =
      not (ltb offset (length payload)) || (code_len == 0) || leb (length payload) nal_start in
    elim (Bool-cases stop) [
      | inl ends ↦ rw ends ([], ap some (sym (append-nil ranges)), low)
      | inr goes ↦
          let at = goes_on payload offset code_len goes in
          let bounds = next_offset payload nal_start at.2 in
          let after_vcl =
            h26x_loop-Extends fuel kind payload next ranges (omega (arith, bounds, at)) bounds.1 in
          let after_other =
            h26x_loop-Extends fuel kind payload next clear (omega (arith, bounds, at)) bounds.1 in
          elim (Bool-cases (is_vcl kind (get_or payload nal_start 0))) [
            | inl vcl ↦
                rw (goes, vcl)
                  (
                    after_vcl.0,
                    after_vcl.1,
                    Fits-le offset next after_vcl.0 _ _ (omega (arith, bounds)) refl after_vcl.2,
                  )
            | inr other ↦
                rw (goes, other)
                  (
                    unit ∷ after_other.0,
                    after_other.1 ∙ ap some (append_assoc ranges (unit ∷ []) after_other.0),
                    (
                      le_refl offset,
                      omega (arith, bounds, at),
                      Fits-le (offset + (next - offset)) next after_other.0 _ _
                          (omega (arith, bounds)) refl after_other.2,
                    ),
                  )
          ]
    ]

-- Every H264 or H265 frame has its ranges: the loop ends, and the ranges lie inside the frame, in
-- order and apart.
pub h26x_ranges-Fits :
    (kind : Kind) (payload : List ℕ)
    → (ranges : List Range) × (h26x_ranges kind payload ≡ some ranges)
      × Fits 0 ranges (length payload)
unfolding h26x_ranges
h26x_ranges-Fits kind payload =
    h26x_loop-Extends (length payload + 1) kind payload 0 [] (omega arith) (omega arith)
