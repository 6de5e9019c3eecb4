-- ===== src/Codecs/Av1/Reading.antt =====
-- The OBUs that stand in an AV1 frame, and those of them that are kept, from the format alone.
use dave_go.Base.{ℕ, ◌/◌, ◌%◌, ◌<◌, ◌≡◌, ◌≢◌, ◌⊎◌, List, [], ◌∷◌, ◌++◌, length, ◌==◌, ok}
use dave_go.Codecs.Av1.{Obu, decode_leb128, ext_bytes}

-- Without a size field the payload goes on to the end; with one it is as long as the field says, or
-- shorter where the frame ends before.
pub data IsSized (obu : Obu) (after : List ℕ) : Type 0 where
  to_end : obu.header_byte / 2 % 2 ≢ 1 → obu.size_bytes ≡ [] → after ≡ [] → IsSized obu after
  by_field :
      (size : ℕ)
      → obu.header_byte / 2 % 2 ≡ 1
      → decode_leb128 (obu.size_bytes ++ (obu.data_bytes ++ after))
        ≡ ok (size, length obu.size_bytes)
      → (length obu.data_bytes ≡ size) ⊎ ((length obu.data_bytes < size) × (after ≡ []))
      → IsSized obu after

-- The bytes start with the OBU, and go on with `after`.
pub record Starts (bytes : List ℕ) (obu : Obu) (after : List ℕ) : Type 0 where
  pub whole :
      bytes ≡ obu.header_byte ∷ (ext_bytes obu ++ (obu.size_bytes ++ (obu.data_bytes ++ after)))
  pub ext : obu.has_ext ≡ (obu.header_byte / 4 % 2 == 1)
  pub sized : IsSized obu after

-- A temporal delimiter, a tile list or padding.
abbrev pub IsUnwanted : ℕ → Type 0
IsUnwanted kind = (kind ≡ 2) ⊎ (kind ≡ 8) ⊎ (kind ≡ 15)

abbrev pub IsWanted : ℕ → Type 0
IsWanted kind = (kind ≢ 2) × (kind ≢ 8) × (kind ≢ 15)

-- The OBUs in the bytes, without the unwanted ones. A header that announces an extension and ends the
-- frame is no OBU.
pub data Reads : List ℕ → List Obu → Type 0 where
  at_end : Reads [] []
  cut_off : (h : ℕ) → h / 4 % 2 ≡ 1 → Reads (h ∷ []) []
  kept :
      (bytes after : List ℕ) (obu : Obu) (obus : List Obu)
      → Starts bytes obu after
      → IsWanted (obu.header_byte / 8 % 16)
      → Reads after obus
      → Reads bytes (obu ∷ obus)
  dropped :
      (bytes after : List ℕ) (obu : Obu) (obus : List Obu)
      → Starts bytes obu after
      → IsUnwanted (obu.header_byte / 8 % 16)
      → Reads after obus
      → Reads bytes obus
