-- ===== src/Codecs/Av1/Headers.antt =====
-- The ranges that AV1 leaves clear, and the frame that is to be sealed.
use dave_go.Base.{
  ℕ, ◌+◌, ◌≡◌, refl, ap, ◌∙◌, arith, List, [], ◌∷◌, ◌++◌, append-nil, append_assoc, length,
  length-append, ok,
}
use dave_go.Frame.Types.{Range}
use dave_go.Frame.Ranges.Layout.{Fits, Fits-le}
use dave_go.Codecs.Av1.{Obu, clear_header, is_nil, build_loop, prepare_av1_frame, parse_obus}

-- The frame that a list of OBUs is written as, and its clear ranges from `pos` on.
pub written : List Obu → List ℕ
written [] = []
written (o ∷ os) = clear_header (is_nil os) o ++ (o.data_bytes ++ written os)

pub header_ranges : ℕ → List Obu → List Range
header_ranges pos [] = []
header_ranges pos (o ∷ os) =
    record { offset = pos; len = length (clear_header (is_nil os) o) }
    ∷ header_ranges (pos + length (clear_header (is_nil os) o) + length o.data_bytes) os

build_loop-written :
    (os : List Obu) (transformed : List ℕ) (pos : ℕ) (ranges : List Range)
    → build_loop os transformed pos ranges
      ≡ (transformed ++ written os, ranges ++ header_ranges pos os)
unfolding build_loop written header_ranges
build_loop-written [] transformed pos ranges = simp (append-nil) refl
build_loop-written (o ∷ os) transformed pos ranges =
    build_loop-written os _ _ _ ∙ simp append_assoc refl

header_ranges-Fits :
    (os : List Obu) (pos : ℕ) → Fits pos (header_ranges pos os) (pos + length (written os))
unfolding written header_ranges
header_ranges-Fits [] pos = omega arith
header_ranges-Fits (o ∷ os) pos =
    let header = clear_header (is_nil os) o in
    let size = length-append header (o.data_bytes ++ written os) in
    let size' = length-append o.data_bytes (written os) in
    (
      omega arith,
      omega (arith, size),
      Fits-le _ (pos + length header + length o.data_bytes) _ _ _ (omega arith)
          (omega (arith, size, size'))
          (header_ranges-Fits os (pos + length header + length o.data_bytes)),
    )

-- The frame that is sealed is the OBUs' headers and payloads in order, and the ranges are exactly
-- the headers: inside the frame, in order and apart.
pub prepare_av1_frame-written :
    (payload : List ℕ) (obus : List Obu)
    → parse_obus payload ≡ ok obus
    → (prepare_av1_frame payload ≡ ok (written obus, header_ranges 0 obus))
      × Fits 0 (header_ranges 0 obus) (length (written obus))
unfolding prepare_av1_frame
prepare_av1_frame-written payload obus e = (
  rw e (ap ok (build_loop-written obus [] 0 [])),
  Fits-le _ _ _ _ _ (omega arith) (omega arith) (header_ranges-Fits obus 0),
)
