-- ===== src/Mediakeys/Export.antt =====
-- mediakeys/export.go and mediakeys/exporter_secret.go: the base secret of a sender. The exporter
-- and the functions of mls-go are parameters.
use dave_go.Base.{
  ℕ, zero, suc, ◌+◌, ◌*◌, ◌/◌, ◌^◌, ◌<◌, ◌≡◌, ap, arith, List, [], ◌∷◌, length, Option, none, some,
  ◌==◌, if◌then◌else◌, Result, ok, err, ◌>>=◌,
}
use native.Mathlib.Nat.{pow-suc}
use dave_go.Base.Bytes.{put_le}

-- The errors, without the text and the cause that they wrap.
pub data ExportError : Type 0 where
  nil_exporter : ExportError
  nil_exporter_secret : ExportError
  export_failed : ExportError
  invalid_base_secret : ExportError

-- "Discord Secure Frames v0"
abbrev pub exporter_label : List ℕ
exporter_label =
    68 ∷ 105 ∷ 115 ∷ 99 ∷ 111 ∷ 114 ∷ 100 ∷ 32 ∷ 83 ∷ 101 ∷ 99 ∷ 117 ∷ 114 ∷ 101 ∷ 32 ∷ 70 ∷ 114
    ∷ 97 ∷ 109 ∷ 101 ∷ 115 ∷ 32 ∷ 118 ∷ 48 ∷ []

-- `Export` of the interface `Exporter`; no value is an error.
abbrev pub Exporter : Type 0
Exporter = List ℕ → List ℕ → ℕ → Option (List ℕ)

pub sender_id_context_le : ℕ → List ℕ
sender_id_context_le sender_id = put_le 8 sender_id

abbrev checked_secret : Option (List ℕ) → Result ExportError (List ℕ)
checked_secret none = err export_failed
checked_secret (some secret) = if length secret == 16 then ok secret else err invalid_base_secret

-- `none` is a nil exporter.
pub derive_sender_base_secret : Option Exporter → ℕ → Result ExportError (List ℕ)
derive_sender_base_secret none sender_id = err nil_exporter
derive_sender_base_secret (some export) sender_id =
    checked_secret (export exporter_label (sender_id_context_le sender_id) 16)

-- The functions of mls-go under one cipher suite.
pub record MlsSecrets : Type 0 where
  pub derive_secret : List ℕ → List ℕ → Option (List ℕ)
  pub hash : List ℕ → Option (List ℕ)
  pub kdf_expand_label : List ℕ → List ℕ → List ℕ → ℕ → Option (List ℕ)

-- "exported"
abbrev pub exported_label : List ℕ
exported_label = 101 ∷ 120 ∷ 112 ∷ 111 ∷ 114 ∷ 116 ∷ 101 ∷ 100 ∷ []

abbrev or_failed : Option (List ℕ) → Result ExportError (List ℕ)
or_failed (some s) = ok s
or_failed none = err export_failed

pub export_with_mls_exporter_secret :
    MlsSecrets → Option (List ℕ) → List ℕ → List ℕ → ℕ → Result ExportError (List ℕ)
export_with_mls_exporter_secret mls none label context len = err nil_exporter_secret
export_with_mls_exporter_secret mls (some exporter_secret) label context len = do
  derived ← or_failed (mls.derive_secret exporter_secret label)
  context_hash ← or_failed (mls.hash context)
  or_failed (mls.kdf_expand_label derived exported_label context_hash len)

value_le : List ℕ → ℕ
value_le [] = 0
value_le (x ∷ xs) = x + 256 * value_le xs

value_put_le : (n v : ℕ) → v < 256 ^ n → value_le (put_le n v) ≡ v
unfolding value_le
value_put_le zero v h = omega arith
value_put_le (suc n) v h = omega (arith, value_put_le n (v / 256) (omega (arith, pow-suc 256 n)))

-- The context tells senders apart: two 64-bit identifiers with one context are equal.
pub sender_id_context_le-inj :
    (a b : ℕ) → a < 2 ^ 64 → b < 2 ^ 64 → sender_id_context_le a ≡ sender_id_context_le b → a ≡ b
unfolding sender_id_context_le
sender_id_context_le-inj a b ha hb e =
    omega (arith, value_put_le 8 a ha, value_put_le 8 b hb, ap value_le e)
