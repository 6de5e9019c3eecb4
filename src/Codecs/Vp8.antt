-- ===== src/Codecs/Vp8.antt =====
-- codecs/vp8.go: the clear header of a VP8 frame.
use dave_go.Base.{ℕ, arith, bit_and, List, [], ◌∷◌, length, leb, ◌==◌, if◌then◌else◌}
use dave_go.Frame.Types.{Range}
use dave_go.Frame.Ranges.Layout.{Fits}

pub vp8_ranges : List ℕ → List Range
vp8_ranges [] = []
vp8_ranges (p ∷ rest) =
    if bit_and p 0x01 == 0
    then (if leb 10 (length (p ∷ rest))
        then record { offset = 0; len = 10 } ∷ []
        else record { offset = 0; len = length (p ∷ rest) } ∷ [])
    else record { offset = 0; len = 1 } ∷ []

-- The clear bytes of a VP8 frame lie inside the frame.
pub vp8_ranges-Fits : (payload : List ℕ) → Fits 0 (vp8_ranges payload) (length payload)
unfolding vp8_ranges
vp8_ranges-Fits [] = omega arith
vp8_ranges-Fits (p ∷ rest) = ground arith
