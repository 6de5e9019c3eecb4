-- ===== src/Session/Wire/Vectors.antt =====
-- session/mls.go: readTLSVectorLength, and the cut that its callers make.
use dave_go.Base.{
  ℕ, zero, suc, ◌+◌, ◌*◌, ◌/◌, ◌%◌, ◌^◌, List, [], ◌∷◌, length, ltb, if◌then◌else◌, Result, ok, err,
  ◌>>=◌,
}
use dave_go.Base.Bytes.{slice}
use dave_go.Session.Types.{SessionError, invalid_vector_length, proposals_truncated}

abbrev read_2_bytes : ℕ → List ℕ → Result SessionError (ℕ × ℕ)
read_2_bytes b [] = err invalid_vector_length
read_2_bytes b (c ∷ rest) = ok (b % 64 * 2 ^ 8 + c, 2)

abbrev read_4_bytes : ℕ → List ℕ → Result SessionError (ℕ × ℕ)
read_4_bytes b (c ∷ d ∷ e ∷ rest) = ok (b % 64 * 2 ^ 24 + c * 2 ^ 16 + d * 2 ^ 8 + e, 4)
read_4_bytes b [] = err invalid_vector_length
read_4_bytes b (c ∷ []) = err invalid_vector_length
read_4_bytes b (c ∷ d ∷ []) = err invalid_vector_length

-- The switch on the top two bits of the first byte. The parts that the source joins with `|` have no
-- bit in common.
abbrev pub read_form : ℕ → ℕ → List ℕ → Result SessionError (ℕ × ℕ)
read_form zero b rest = ok (b % 64, 1)
read_form (suc zero) b rest = read_2_bytes b rest
read_form (suc (suc zero)) b rest = read_4_bytes b rest
read_form (suc (suc (suc prefix))) b rest = err invalid_vector_length

-- The length, and the bytes it takes.
unfoldable pub read_tls_vector_length : List ℕ → Result SessionError (ℕ × ℕ)
read_tls_vector_length [] = err invalid_vector_length
read_tls_vector_length (b ∷ rest) = read_form (b / 64) b rest

-- `payload[headerSize:end]`, where `end` is within the payload.
unfoldable pub vector_body : List ℕ → Result SessionError (List ℕ)
vector_body payload = do
  (len, header_size) ← read_tls_vector_length payload
  if ltb (length payload) (header_size + len)
      then err proposals_truncated
      else slice payload header_size (header_size + len)
