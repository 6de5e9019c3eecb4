-- ===== src/Codecs/Av1/Total.antt =====
-- The first loop of prepareAV1Frame: what it reads, and its end.
use dave_go.Base.{ℕ, ◌≡◌, ◌⊎◌, List, ◌++◌, Result, ok}
use dave_go.Codecs.Types.{CodecError}
use dave_go.Codecs.Av1.{Obu}
use dave_go.Codecs.Av1.Sizes.{Bad}
use dave_go.Codecs.Av1.Reading.{Reads}

Parses : List ℕ → List Obu → Result CodecError (List Obu) → Type 0
Parses bs obus m = Bad m ⊎ ((more : List Obu) × (m ≡ ok (obus ++ more)) × Reads bs more)
