-- ===== src/Session/Exec.antt =====
-- Methods that change an object and may return an error. What was written stays written.
pub mod Keeps
pub mod Triples
use dave_go.Base.{Bool, true, false, if◌then◌else◌, Result, ok, err, panic}

abbrev pub Exec : Type 0 → Type 0 → Type 0 → Type 0
Exec S E A = S → S × Result E A

module _ {S E A : Type 0} where
  unfoldable pub pure : A → Exec S E A
  pure value object = (object, ok value)

  unfoldable pub fail : E → Exec S E A
  fail failure object = (object, err failure)

  -- A run-time panic.
  unfoldable pub crash : Exec S E A
  crash object = (object, panic)

  unfoldable pub lift : Result E A → Exec S E A
  lift result object = (object, result)

  unfoldable pub gets : (S → A) → Exec S E A
  gets read object = (object, ok (read object))

module _ {S E A B : Type 0} where
  abbrev proceed : S → Result E A → (A → Exec S E B) → S × Result E B
  proceed object (ok value) next = next value object
  proceed object (err failure) next = (object, err failure)
  proceed object panic next = (object, panic)

  infixl 5 ◌>>=◌ ◌>>◌
  unfoldable pub ◌>>=◌ : Exec S E A → (A → Exec S E B) → Exec S E B
  unfolding pure fail crash lift gets
  ◌>>=◌ m next object = let (changed, result) = m object in proceed changed result next

  -- `if err := m(); err != nil { ... }`: the error goes to the handler.
  abbrev handled : (A → Exec S E B) → (E → Exec S E B) → S → Result E A → S × Result E B
  handled next handler object (ok value) = next value object
  handled next handler object (err failure) = handler failure object
  handled next handler object panic = (object, panic)

  unfoldable pub on_result : Exec S E A → (A → Exec S E B) → (E → Exec S E B) → Exec S E B
  on_result m next handler object =
      let (changed, result) = m object in handled next handler changed result

  abbrev pub ◌>>◌ : Exec S E A → Exec S E B → Exec S E B
  m >> next = m >>= λ done. next

module _ {S E : Type 0} where
  -- `if test { m }`
  unfoldable pub when : Bool → Exec S E (Unit {0}) → Exec S E (Unit {0})
  when test m = if test then m else pure tt

  -- The object after a call whose error is dropped.
  abbrev pub after : Exec S E (Unit {0}) → S → S
  after m object = (m object).0
