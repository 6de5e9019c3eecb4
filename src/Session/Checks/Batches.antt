-- ===== src/Session/Checks/Batches.antt =====
-- The loop over a batch of proposals, and the references of a batch of revoked ones.
use dave_go.Base.{
  ℕ, zero, suc, ◌-◌, ◌*◌, ◌≤◌, ◌≡◌, refl, ap, arith, ◌∙◌, List, [], ◌∷◌, ◌++◌, length, take, drop,
  take-append-drop, length-take, length-drop, All, Bool, true, false, ◌&&◌, leb, if◌then◌else◌,
  Result, ok, err, panic,
}
use mathlib.Core.Bool.{true≢false}
use dave_go.Base.Bytes.{slice}
use dave_go.Session.Types.{Session, SessionError, empty_proposal}
use dave_go.Session.World.{World}
use dave_go.Session.Exec.{lift, ◌>>=◌}
use dave_go.Session.Exec.Triples.{
  Outcome, Triple, bind-Triple, pure-Triple, then-Triple, Keeps-Triple,
}
use dave_go.Session.Ops.{Act}
use dave_go.Session.Status.{is_empty}
use dave_go.Session.Proposals.{next_message, proposal_loop, split_refs}
use dave_go.Session.Checks.Members.{Any, Any-Keeps, unless-Triple, given-Triple}

value_of : {E : Type 0} → Result E (List ℕ) → List ℕ
value_of (ok xs) = xs
value_of (err e) = []
value_of panic = []

guarded :
    (test : Bool) (xs ys : List ℕ)
    → ◌≡◌ {A = Result SessionError (List ℕ)} (if test then ok xs else panic) (ok ys)
    → length ys ≤ length xs
unfolding value_of
guarded true xs ys e = let same = ap value_of e in omega (arith, ap length same)
guarded false xs ys e = absurd (cc)

length-slice :
    (xs ys : List ℕ) (a b : ℕ) → slice {E = SessionError} xs a b ≡ ok ys → length ys ≤ length xs - a
length-slice xs ys a b e =
    let short = guarded (leb a b && leb b (length xs)) (take (b - a) (drop a xs)) ys e in
    omega (arith, short, length-take (b - a) (drop a xs), length-drop a xs)

lift-Triple :
    {A : Type 0} (r : Result SessionError A) → Triple Any (lift r) (λ value s. r ≡ ok value) Any
unfolding lift
lift-Triple (ok a) = record { holds = λ s h. refl }
lift-Triple (err e) = record { holds = λ s h. tt }
lift-Triple panic = record { holds = λ s h. tt }

length-nonempty : (xs : List ℕ) → is_empty xs ≡ false → 1 ≤ length xs
length-nonempty [] e = absurd (true≢false e)
length-nonempty (x ∷ xs) e = omega arith

-- A message takes a byte at least.
next_message-shorter :
    (w : World) (b : ℕ) (bs : List ℕ)
    → Triple Any (next_message w (b ∷ bs)) (λ (msg, wire, rest) s. length rest ≤ length bs) Any
unfolding next_message
next_message-shorter w b bs =
    then-Triple _ _ _ (λ s h. tt) (Any-Keeps _)
      (λ long.
        then-Triple _ _ _ (λ s h. tt) (Any-Keeps _)
          (λ msg. bind-Triple _ _ _ _ _ (unless-Triple (is_empty msg.wire) empty_proposal) (λ done.
            given-Triple _ _ _ (λ full.
              then-Triple _ _ _ (λ s h. tt) (Any-Keeps _)
                (λ wire.
                  bind-Triple _ _ _ _ _
                    (lift-Triple (slice (b ∷ bs) (length msg.wire) (suc (length bs))))
                    (λ rest. pure-Triple _ _ _ (λ s e. omega (
                      arith,
                      length-slice (b ∷ bs) rest (length msg.wire) (suc (length bs)) e,
                      length-nonempty msg.wire full,
                    ))))))))

module _ {A B : Type 0} where
  agree :
      (f g : A → Act B) (Q : A → Session → Type 0)
      → ((a : A) (s : Session) → Q a s → f a s ≡ g a s)
      → (s : Session) (r : Result SessionError A) → Outcome Q Any s r
      → (lift r >>= f) s ≡ (lift r >>= g) s
  unfolding ◌>>=◌ lift
  agree f g Q h s (ok a) q = h a s q
  agree f g Q h s (err e) q = refl
  agree f g Q h s panic q = refl

  bind-agree :
      (m : Act A) (f g : A → Act B) (Q : A → Session → Type 0)
      → Triple Any m Q Any
      → ((a : A) (s : Session) → Q a s → f a s ≡ g a s)
      → (s : Session) → (m >>= f) s ≡ (m >>= g) s
  unfolding ◌>>=◌ lift
  bind-agree m f g Q t h s = agree f g Q h (m s).0 (m s).1 (t.holds s tt)

-- Rounds beyond one for each byte change nothing: the loop over the messages of a batch ends.
pub proposal_loop-enough :
    (w : World) (fuel more : ℕ) (bytes : List ℕ) (accepted : Bool) (s : Session)
    → length bytes ≤ fuel
    → length bytes ≤ more
    → proposal_loop w fuel bytes accepted s ≡ proposal_loop w more bytes accepted s
unfolding proposal_loop
proposal_loop-enough w zero zero [] accepted s h k = refl
proposal_loop-enough w zero (suc more) [] accepted s h k = refl
proposal_loop-enough w (suc fuel) zero [] accepted s h k = refl
proposal_loop-enough w (suc fuel) (suc more) [] accepted s h k = refl
proposal_loop-enough w zero more (b ∷ bs) accepted s h k = absurd (omega arith)
proposal_loop-enough w (suc fuel) zero (b ∷ bs) accepted s h k = absurd (omega arith)
proposal_loop-enough w (suc fuel) (suc more) (b ∷ bs) accepted s h k =
    bind-agree _ _ _ _ (next_message-shorter w b bs)
      (λ (msg, wire, rest) o q.
        bind-agree _ _ _ (λ taken. Any) (Keeps-Triple _ Any (λ p u. u) (Any-Keeps _))
          (λ taken p u.
            proposal_loop-enough w fuel more rest _ p (omega (arith, h, q)) (omega (arith, k, q)))
          o)
      s

pub concat : List (List ℕ) → List ℕ
concat [] = []
concat (xs ∷ xss) = xs ++ concat xss

-- A body of n times 32 bytes is split into n references of 32 bytes each, which follow each other in
-- the body.
pub split_refs-concat :
    (n : ℕ) (payload : List ℕ)
    → length payload ≡ 32 * n
    → (concat (split_refs n payload) ≡ payload)
      × (length (split_refs n payload) ≡ n)
      × All (λ ref. length ref ≡ 32) (split_refs n payload)
unfolding concat
split_refs-concat zero [] h = (refl, refl, tt)
split_refs-concat zero (b ∷ bs) h = absurd (omega arith)
split_refs-concat (suc n) payload h =
    let (joined, counted, sized) =
      split_refs-concat n (drop 32 payload) (omega (arith, h, length-drop 32 payload)) in
    (
      ap (λ ys. take 32 payload ++ ys) joined ∙ take-append-drop 32 payload,
      ap suc counted,
      (omega (arith, h, length-take 32 payload), sized),
    )
