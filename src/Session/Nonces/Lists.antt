-- ===== src/Session/Nonces/Lists.antt =====
-- Draws of a ratchet, and what the invariant says of its parts.
use dave_go.Base.{ℕ, ◌≤◌, ◌<◌, ◌≢◌, ap, arith, List, [], ◌∷◌, All}
use dave_go.Session.Types.{RatchetRef}
use dave_go.Session.Nonces.{Draw, IsUnused, IsBelow}

pub IsUnused-IsBelow :
    (drawn : List Draw) (counter : ℕ) (ref : RatchetRef)
    → IsUnused drawn ref
    → IsBelow drawn counter ref
IsUnused-IsBelow [] counter ref h = tt
IsUnused-IsBelow (d ∷ ds) counter ref (hd, hs) =
    ((λ e. absurd (hd e)), IsUnused-IsBelow ds counter ref hs)

pub IsBelow-le :
    (drawn : List Draw) (c n : ℕ) (ref : RatchetRef)
    → c ≤ n
    → IsBelow drawn c ref
    → IsBelow drawn n ref
IsBelow-le [] c n ref h b = tt
IsBelow-le (d ∷ ds) c n ref h (bd, bs) = ((λ e. omega (arith, bd e, h)), IsBelow-le ds c n ref h bs)

-- A place at the end of the ratchets is not drawn for.
pub IsUnused-new :
    (drawn : List Draw) (size ref : ℕ)
    → All (λ d. d.0 < size) drawn
    → size ≤ ref
    → IsUnused drawn ref
IsUnused-new [] size ref h k = tt
IsUnused-new (d ∷ ds) size ref (hd, hs) k =
    ((λ e. absurd (omega (arith, hd, k, e))), IsUnused-new ds size ref hs k)

pub All-lt :
    (drawn : List Draw) (size more : ℕ)
    → size ≤ more
    → All (λ d. d.0 < size) drawn
    → All (λ d. d.0 < more) drawn
All-lt [] size more h a = tt
All-lt (d ∷ ds) size more h (ad, as_) = (omega (arith, ad, h), All-lt ds size more h as_)

-- A nonce above the counter is new for its ratchet.
pub new-IsDistinct :
    (drawn : List Draw) (counter n : ℕ) (ref : RatchetRef)
    → IsBelow drawn counter ref
    → counter < n
    → All (λ e. e ≢ (ref, n)) drawn
new-IsDistinct [] counter n ref b h = tt
new-IsDistinct (d ∷ ds) counter n ref (bd, bs) h = (
  (λ e. omega (arith, bd (ap (λ p. p.0) e), h, ap (λ p. p.1) e)),
  new-IsDistinct ds counter n ref bs h,
)
