-- ===== src/Session/Exec/Triples.antt =====
-- What holds of the object and of the value after an action that starts where `P` holds: `Q` of the
-- value returned and the object, and `E` of the object after an error or a panic.
use dave_go.Base.{Bool, true, false, if◌then◌else◌, Result, ok, err, panic, ◌≡◌, refl}
use dave_go.Session.Exec.{Exec, pure, gets, lift, on_result, ◌>>=◌}
use dave_go.Session.Exec.Keeps.{Keeps}

abbrev pub Outcome : {S E A : Type 0} → (A → S → Type 0) → (S → Type 0) → S → Result E A → Type 0
Outcome Q F object (ok value) = Q value object
Outcome Q F object (err failure) = F object
Outcome Q F object panic = F object

pub record Triple {S E A : Type 0} (P : S → Type 0) (m : Exec S E A) (Q : A → S → Type 0)
    (F : S → Type 0) : Type 0 where
  pub holds : (object : S) → P object → Outcome Q F (m object).0 (m object).1

module _ {S E A : Type 0} {P : S → Type 0} where
  weaken :
      (F : S → Type 0)
      → ((object : S) → P object → F object)
      → (object : S) (result : Result E A) → P object
      → Outcome (λ value. P) F object result
  weaken F f object (ok value) p = p
  weaken F f object (err failure) p = f object p
  weaken F f object panic p = f object p

  pub Keeps-Triple :
      (m : Exec S E A) (F : S → Type 0)
      → ((object : S) → P object → F object)
      → Keeps P m
      → Triple P m (λ value. P) F
  Keeps-Triple m F f km = record {
    holds = λ object p. weaken F f (m object).0 (m object).1 (km.kept object p);
  }

  forget :
      (Q : A → S → Type 0)
      → ((value : A) (object : S) → Q value object → P object)
      → (object : S) (result : Result E A) → Outcome Q P object result
      → P object
  forget Q f object (ok value) q = f value object q
  forget Q f object (err failure) q = q
  forget Q f object panic q = q

  -- What holds whatever comes out.
  pub Triple-result :
      {R : S → Type 0} {m : Exec S E A}
      → Triple R m (λ value. P) P
      → (object : S) → R object
      → P (m object).0
  Triple-result {m = m} t object r =
      forget (λ value. P) (λ value o p. p) (m object).0 (m object).1 (t.holds object r)

  pub Triple-Keeps :
      (m : Exec S E A) (Q : A → S → Type 0)
      → ((value : A) (object : S) → Q value object → P object)
      → Triple P m Q P
      → Keeps P m
  Triple-Keeps m Q f t = record {
    kept = λ object p. forget Q f (m object).0 (m object).1 (t.holds object p);
  }

module _ {S E A B : Type 0} where
  chain :
      (next : A → Exec S E B) (Q : A → S → Type 0) (R : B → S → Type 0) (F : S → Type 0)
      → ((value : A) → Triple (Q value) (next value) R F)
      → (object : S) (result : Result E A) → Outcome Q F object result
      → Outcome R F ((lift result >>= next) object).0 ((lift result >>= next) object).1
  unfolding ◌>>=◌
  chain next Q R F t object (ok value) q = (t value).holds object q
  chain next Q R F t object (err failure) q = q
  chain next Q R F t object panic q = q

  pub bind-Triple :
      {P : S → Type 0} (m : Exec S E A) (next : A → Exec S E B) (Q : A → S → Type 0)
      (R : B → S → Type 0) (F : S → Type 0)
      → Triple P m Q F
      → ((value : A) → Triple (Q value) (next value) R F)
      → Triple P (m >>= next) R F
  unfolding ◌>>=◌
  bind-Triple m next Q R F t u = record {
    holds = λ object p. chain next Q R F u (m object).0 (m object).1 (t.holds object p);
  }

module _ {S E A : Type 0} {P : S → Type 0} where
  pub gets-Triple :
      (read : S → A) (F : S → Type 0)
      → Triple P (gets {E = E} read) (λ value object. P object × (value ≡ read object)) F
  unfolding gets
  gets-Triple read F = record { holds = λ object p. (p, refl) }

  pub pure-Triple :
      (value : A) (Q : A → S → Type 0) (F : S → Type 0)
      → ((object : S) → P object → Q value object)
      → Triple P (pure {E = E} value) Q F
  unfolding pure
  pure-Triple value Q F f = record { holds = λ object p. f object p }

-- Triples of a sequence, where only one of its two parts changes what holds.
module _ {S E A B : Type 0} {P F : S → Type 0} where
  pub then-Triple :
      (m : Exec S E A) (next : A → Exec S E B) (R : B → S → Type 0)
      → ((object : S) → P object → F object)
      → Keeps P m
      → ((value : A) → Triple P (next value) R F)
      → Triple P (m >>= next) R F
  then-Triple m next R f km t = bind-Triple m next (λ value. P) R F (Keeps-Triple m F f km) t

  pub last-Triple :
      (m : Exec S E A) (next : A → Exec S E B)
      → Triple P m (λ value. F) F
      → ((value : A) → Keeps F (next value))
      → Triple P (m >>= next) (λ value. F) F
  last-Triple m next t kn =
      bind-Triple m next (λ value. F) (λ value. F) F t
        (λ value. Keeps-Triple (next value) F (λ object p. p) (kn value))

module _ {S E A : Type 0} where
  pub if-Triple :
      {P : S → Type 0} (test : Bool) (m n : Exec S E A) (Q : A → S → Type 0) (F : S → Type 0)
      → Triple P m Q F
      → Triple P n Q F
      → Triple P (if test then m else n) Q F
  if-Triple true m n Q F tm tn = tm
  if-Triple false m n Q F tm tn = tn

  -- From more before.
  pub Triple-from :
      {P R : S → Type 0} (m : Exec S E A) (Q : A → S → Type 0) (F : S → Type 0)
      → ((object : S) → R object → P object)
      → Triple P m Q F
      → Triple R m Q F
  Triple-from m Q F f t = record { holds = λ object r. t.holds object (f object r) }

  fail_with :
      (Q : A → S → Type 0) (F G : S → Type 0)
      → ((object : S) → F object → G object)
      → (object : S) (result : Result E A) → Outcome Q F object result
      → Outcome Q G object result
  fail_with Q F G f object (ok value) q = q
  fail_with Q F G f object (err failure) q = f object q
  fail_with Q F G f object panic q = f object q

  -- To less after a failure.
  pub Triple-fail :
      {P F : S → Type 0} (m : Exec S E A) (Q : A → S → Type 0) (G : S → Type 0)
      → ((object : S) → F object → G object)
      → Triple P m Q F
      → Triple P m Q G
  Triple-fail {F = F} m Q G f t = record {
    holds = λ object p. fail_with Q F G f (m object).0 (m object).1 (t.holds object p);
  }

module _ {S E A B : Type 0} {P : S → Type 0} where
  handled-Triple :
      (next : A → Exec S E B) (handler : E → Exec S E B) (Q : B → S → Type 0) (F : S → Type 0)
      → ((object : S) → P object → F object)
      → ((value : A) → Triple P (next value) Q F)
      → ((failure : E) → Triple P (handler failure) Q F)
      → (object : S) (result : Result E A) → P object
      → Outcome Q F
          (on_result (lift result) next handler object).0
          (on_result (lift result) next handler object).1
  unfolding on_result lift
  handled-Triple next handler Q F f tn th object (ok value) p = (tn value).holds object p
  handled-Triple next handler Q F f tn th object (err failure) p = (th failure).holds object p
  handled-Triple next handler Q F f tn th object panic p = f object p

  pub on_result-Triple :
      (m : Exec S E A) (next : A → Exec S E B) (handler : E → Exec S E B) (Q : B → S → Type 0)
      (F : S → Type 0)
      → ((object : S) → P object → F object)
      → Keeps P m
      → ((value : A) → Triple P (next value) Q F)
      → ((failure : E) → Triple P (handler failure) Q F)
      → Triple P (on_result m next handler) Q F
  unfolding on_result lift
  on_result-Triple m next handler Q F f km tn th = record {
    holds = λ object p.
        handled-Triple next handler Q F f tn th (m object).0 (m object).1 (km.kept object p);
  }

-- `on_result` where the first action tells more of its value.
module _ {S E A B : Type 0} where
  caught :
      (next : A → Exec S E B) (handler : E → Exec S E B) (Q : A → S → Type 0) (R : B → S → Type 0)
      (F : S → Type 0)
      → ((value : A) → Triple (Q value) (next value) R F)
      → ((failure : E) → Triple F (handler failure) R F)
      → (object : S) (result : Result E A) → Outcome Q F object result
      → Outcome R F
          (on_result (lift result) next handler object).0
          (on_result (lift result) next handler object).1
  unfolding on_result lift
  caught next handler Q R F tn th object (ok value) q = (tn value).holds object q
  caught next handler Q R F tn th object (err failure) q = (th failure).holds object q
  caught next handler Q R F tn th object panic q = q

  pub catch-Triple :
      {P : S → Type 0} (m : Exec S E A) (next : A → Exec S E B) (handler : E → Exec S E B)
      (Q : A → S → Type 0) (R : B → S → Type 0) (F : S → Type 0)
      → Triple P m Q F
      → ((value : A) → Triple (Q value) (next value) R F)
      → ((failure : E) → Triple F (handler failure) R F)
      → Triple P (on_result m next handler) R F
  unfolding on_result lift
  catch-Triple m next handler Q R F t tn th = record {
    holds =
        λ object p. caught next handler Q R F tn th (m object).0 (m object).1 (t.holds object p);
  }
