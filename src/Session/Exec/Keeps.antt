-- ===== src/Session/Exec/Keeps.antt =====
-- Properties of the object that an action keeps, whether it returns a value, an error or a panic.
use dave_go.Base.{Bool, true, false, if◌then◌else◌, Result, ok, err, panic}
use dave_go.Session.Exec.{Exec, pure, fail, crash, lift, gets, on_result, when, ◌>>=◌}

pub record Keeps {S E A : Type 0} (P : S → Type 0) (m : Exec S E A) : Type 0 where
  pub kept : (object : S) → P object → P (m object).0

module _ {S E A : Type 0} {P : S → Type 0} where
  pub pure-Keeps : (value : A) → Keeps P (pure {S = S} {E = E} value)
  unfolding pure
  pure-Keeps value = record { kept = λ object h. h }

  pub fail-Keeps : (failure : E) → Keeps P (fail {S = S} {A = A} failure)
  unfolding fail
  fail-Keeps failure = record { kept = λ object h. h }

  pub crash-Keeps : Keeps P (crash {S = S} {E = E} {A = A})
  unfolding crash
  crash-Keeps = record { kept = λ object h. h }

  pub lift-Keeps : (result : Result E A) → Keeps P (lift {S = S} result)
  unfolding lift
  lift-Keeps result = record { kept = λ object h. h }

  pub gets-Keeps : (read : S → A) → Keeps P (gets {E = E} read)
  unfolding gets
  gets-Keeps read = record { kept = λ object h. h }

  pub if-Keeps :
      (test : Bool) (m n : Exec S E A) → Keeps P m → Keeps P n → Keeps P (if test then m else n)
  if-Keeps true m n km kn = km
  if-Keeps false m n km kn = kn

module _ {S E : Type 0} {P : S → Type 0} where
  pub when-Keeps : (test : Bool) (m : Exec S E (Unit {0})) → Keeps P m → Keeps P (when test m)
  unfolding when
  when-Keeps test m km = if-Keeps test m (pure tt) km (pure-Keeps tt)

module _ {S E A B : Type 0} {P : S → Type 0} where
  proceed-Keeps :
      (object : S) (result : Result E A) (next : A → Exec S E B)
      → ((value : A) → Keeps P (next value))
      → P object
      → P ((lift result >>= next) object).0
  unfolding ◌>>=◌
  proceed-Keeps object (ok value) next kn p = (kn value).kept object p
  proceed-Keeps object (err failure) next kn p = p
  proceed-Keeps object panic next kn p = p

  pub bind-Keeps :
      (m : Exec S E A) (next : A → Exec S E B)
      → Keeps P m
      → ((value : A) → Keeps P (next value))
      → Keeps P (m >>= next)
  unfolding ◌>>=◌
  bind-Keeps m next km kn = record {
    kept = λ object p. proceed-Keeps (m object).0 (m object).1 next kn (km.kept object p);
  }

module _ {S E A B : Type 0} {P : S → Type 0} where
  handled-Keeps :
      (next : A → Exec S E B) (handler : E → Exec S E B)
      → ((value : A) → Keeps P (next value))
      → ((failure : E) → Keeps P (handler failure))
      → (object : S) (result : Result E A) → P object
      → P (on_result (lift result) next handler object).0
  unfolding on_result lift
  handled-Keeps next handler kn kh object (ok value) p = (kn value).kept object p
  handled-Keeps next handler kn kh object (err failure) p = (kh failure).kept object p
  handled-Keeps next handler kn kh object panic p = p

  pub on_result-Keeps :
      (m : Exec S E A) (next : A → Exec S E B) (handler : E → Exec S E B)
      → Keeps P m
      → ((value : A) → Keeps P (next value))
      → ((failure : E) → Keeps P (handler failure))
      → Keeps P (on_result m next handler)
  unfolding on_result lift
  on_result-Keeps m next handler km kn kh = record {
    kept =
        λ object p. handled-Keeps next handler kn kh (m object).0 (m object).1 (km.kept object p);
  }

pub ruleset keeps_rules = (
  pure-Keeps, fail-Keeps, crash-Keeps, lift-Keeps, gets-Keeps, if-Keeps, when-Keeps,
  on_result-Keeps, bind-Keeps,
)
