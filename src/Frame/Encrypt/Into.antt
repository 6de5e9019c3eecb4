-- ===== src/Frame/Encrypt/Into.antt =====
-- EncryptInto and EncryptWithCipherInto against Encrypt and EncryptWithCipher.
use dave_go.Base.{ℕ, ◌≤◌, ◌<◌, ◌≡◌, List, ◌++◌, length, Result, ok, err, panic}
use dave_go.Frame.Types.{Error, buffer_too_small}

-- A frame that fits comes to stand at the start of the buffer, which keeps its length; one that does
-- not is an error, and so is one that is not sealed.
pub data IsWritten (dst : List ℕ) : Result Error (List ℕ) → Result Error (ℕ × List ℕ) → Type 0 where
  written :
      (out rest : List ℕ)
      → length out ≤ length dst
      → length (out ++ rest) ≡ length dst
      → IsWritten dst (ok out) (ok (length out, out ++ rest))
  too_small :
      (out : List ℕ) → length dst < length out → IsWritten dst (ok out) (err buffer_too_small)
  failed : (e : Error) → IsWritten dst (err e) (err e)
  panicked : IsWritten dst panic panic
