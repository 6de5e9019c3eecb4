-- ===== src/Session/Nonces/Parts.antt =====
-- The parts of the invariant, step by step.
use dave_go.Base.{ℕ, ◌+◌, ◌≤◌, ◌<◌, ◌≡◌, sym, arith, List, ◌∷◌, ◌∙◌, subst, Option, none, some}
use dave_go.Session.Types.{RatchetRef}
use dave_go.Session.Nonces.{Draw, IsBelow, IsSending, IsApart, IsPending}
use dave_go.Session.Nonces.Lists.{IsUnused-IsBelow, IsBelow-le}
use mathlib.Core.Option.{some-injective, none-ne-some}

-- The ratchet in use.
abbrev pub live_of : Option RatchetRef → Option RatchetRef → Option RatchetRef
live_of none sending = sending
live_of (some ref) sending = some ref

module _ (drawn : List Draw) (counter size : ℕ) where
  pub IsSending-more :
      (more : ℕ) (retained sending : Option RatchetRef)
      → size ≤ more
      → IsSending drawn counter size retained sending
      → IsSending drawn counter more retained sending
  IsSending-more more none none h s = tt
  IsSending-more more none (some ref) h (r, b) = (omega (arith, r, h), b)
  IsSending-more more (some ref) none h (r, b) = (omega (arith, r, h), b)
  IsSending-more more (some ref) (some waiting) h (r, b, w, u, a) =
      (omega (arith, r, h), b, omega (arith, w, h), u, a)

  pub IsPending-more :
      (more : ℕ) (retained sending pending : Option RatchetRef)
      → size ≤ more
      → IsPending drawn size retained sending pending
      → IsPending drawn more retained sending pending
  IsPending-more more retained sending none h p = tt
  IsPending-more more retained sending (some ref) h (r, u, a, b) = (omega (arith, r, h), u, a, b)

  -- Once the retained ratchet is dropped, the counter starts again.
  pub IsSending-expire :
      (retained : RatchetRef) (sending : Option RatchetRef)
      → IsSending drawn counter size (some retained) sending
      → IsSending drawn 0 size none sending
  IsSending-expire retained none s = tt
  IsSending-expire retained (some waiting) (r, b, w, u, apart) =
      (w, IsUnused-IsBelow drawn 0 waiting u)

  pub IsPending-expire :
      (retained : RatchetRef) (sending pending : Option RatchetRef)
      → IsPending drawn size (some retained) sending pending
      → IsPending drawn size none sending pending
  IsPending-expire retained sending none p = tt
  IsPending-expire retained sending (some ref) (r, u, a, b) = (r, u, tt, b)

  -- The send ratchet becomes the retained one: it was in use, or it is not used yet.
  pub IsSending-retain :
      (retained : Option RatchetRef) (ref : RatchetRef)
      → IsSending drawn counter size retained (some ref)
      → (ref < size) × IsBelow drawn counter ref
  IsSending-retain none ref s = s
  IsSending-retain (some old) ref (r, b, w, u, apart) = (w, IsUnused-IsBelow drawn counter ref u)

  pub IsPending-retain :
      (retained pending : Option RatchetRef) (ref : RatchetRef)
      → IsPending drawn size retained (some ref) pending
      → IsPending drawn size (some ref) none pending
  IsPending-retain retained none ref p = tt
  IsPending-retain retained (some own) ref (r, u, a, b) = (r, u, b, tt)

  -- The pending ratchet becomes the one to send with.
  pub IsSending-alone :
      (c : ℕ) (retained sending pending : Option RatchetRef)
      → IsPending drawn size retained sending pending
      → IsSending drawn c size none pending
  IsSending-alone c retained sending none p = tt
  IsSending-alone c retained sending (some own) (r, u, a, b) = (r, IsUnused-IsBelow drawn c own u)

  pub IsSending-after :
      (retained pending : Option RatchetRef)
      → IsSending drawn counter size retained none
      → IsPending drawn size retained none pending
      → IsSending drawn counter size retained pending
  IsSending-after none none s p = tt
  IsSending-after none (some own) s (r, u, a, b) = (r, IsUnused-IsBelow drawn counter own u)
  IsSending-after (some ref) none s p = s
  IsSending-after (some ref) (some own) (r, b) (o, u, a, z) = (r, b, o, u, a)

  pub IsPending-drop :
      (retained sending pending : Option RatchetRef)
      → IsPending drawn size retained sending pending
      → IsPending drawn size none none pending
  IsPending-drop retained sending none p = tt
  IsPending-drop retained sending (some own) (r, u, a, b) = (r, u, tt, tt)

  pub IsApart-new :
      (retained sending : Option RatchetRef) (ref : RatchetRef)
      → size ≤ ref
      → IsSending drawn counter size retained sending
      → IsApart ref retained × IsApart ref sending
  IsApart-new none none ref h s = (tt, tt)
  IsApart-new none (some a) ref h (r, b) = (tt, λ e. omega (arith, r, h, e))
  IsApart-new (some a) none ref h (r, b) = ((λ e. omega (arith, r, h, e)), tt)
  IsApart-new (some a) (some b) ref h (r, l, w, u, z) =
      ((λ e. omega (arith, r, h, e)), λ e. omega (arith, w, h, e))

  pub IsSending-draw :
      (retained sending : Option RatchetRef) (ref : RatchetRef)
      → live_of retained sending ≡ some ref
      → IsSending drawn counter size retained sending
      → IsSending ((ref, counter + 1) ∷ drawn) (counter + 1) size retained sending
  IsSending-draw none none ref e s = tt
  IsSending-draw none (some a) ref e (r, b) =
      (r, ((λ q. omega arith), IsBelow-le drawn counter (counter + 1) a (omega arith) b))
  IsSending-draw (some a) none ref e (r, b) =
      (r, ((λ q. omega arith), IsBelow-le drawn counter (counter + 1) a (omega arith) b))
  IsSending-draw (some a) (some waiting) ref e (r, b, w, u, apart) = (
    r,
    ((λ q. omega arith), IsBelow-le drawn counter (counter + 1) a (omega arith) b),
    w,
    ((λ q. apart (sym q ∙ sym (some-injective _ _ e))), u),
    apart,
  )

  pub IsPending-draw :
      (retained sending pending : Option RatchetRef) (ref n : ℕ)
      → live_of retained sending ≡ some ref
      → IsPending drawn size retained sending pending
      → IsPending ((ref, n) ∷ drawn) size retained sending pending
  IsPending-draw retained sending none ref n e p = tt
  IsPending-draw none none (some own) ref n e (r, u, a, b) = absurd (none-ne-some _ e)
  IsPending-draw none (some x) (some own) ref n e (r, u, a, b) =
      (r, ((λ q. b (sym q ∙ sym (some-injective _ _ e))), u), a, b)
  IsPending-draw (some x) sending (some own) ref n e (r, u, a, b) =
      (r, ((λ q. a (sym q ∙ sym (some-injective _ _ e))), u), a, b)

  pub live-IsBelow :
      (retained sending : Option RatchetRef) (ref : RatchetRef)
      → live_of retained sending ≡ some ref
      → IsSending drawn counter size retained sending
      → (ref < size) × IsBelow drawn counter ref
  live-IsBelow none none ref e s = absurd (none-ne-some _ e)
  live-IsBelow none (some a) ref e s =
      subst (λ r. (r < size) × IsBelow drawn counter r) (some-injective _ _ e) s
  live-IsBelow (some a) none ref e s =
      subst (λ r. (r < size) × IsBelow drawn counter r) (some-injective _ _ e) s
  live-IsBelow (some a) (some b) ref e (r, l, w, u, z) =
      subst (λ x. (x < size) × IsBelow drawn counter x) (some-injective _ _ e) (r, l)
