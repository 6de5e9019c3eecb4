-- ===== src/Frame/Ranges/Layout.antt =====
-- A frame as the parts that its ranges cut it into. The ranges are determined by the parts.
use native.Mathlib.Nat.{le_refl}
use dave_go.Base.{
  ℕ, ◌+◌, ◌-◌, ◌≤◌, ◌≡◌, refl, ap, ◌∙◌, sym, subst, arith, List, [], ◌∷◌, ◌++◌, length, take, drop,
  take-append-drop, length-take, length-drop, length-append,
}
use dave_go.Frame.Types.{Range}

-- The ranges are in order, do not overlap, start at `pos` or after it and end by `size`.
abbrev pub Fits : ℕ → List Range → ℕ → Type 0
Fits pos [] size = pos ≤ size
Fits pos (r ∷ rs) size =
    (pos ≤ r.offset) × (r.offset + r.len ≤ size) × Fits (r.offset + r.len) rs size

pub Fits-le :
    (pos pos' : ℕ) (rs : List Range) (size size' : ℕ)
    → pos ≤ pos'
    → size ≡ size'
    → Fits pos' rs size'
    → Fits pos rs size
Fits-le pos pos' [] size size' h e f = omega arith
Fits-le pos pos' (r ∷ rs) size size' h e f = (
  omega (arith, f.0),
  omega (arith, f.1),
  Fits-le (r.offset + r.len) (r.offset + r.len) rs size size' (le_refl _) e f.2,
)

-- A part that is to be encrypted and the part behind it that stays clear.
pub record Part : Type 0 where
  pub covered : List ℕ
  pub clear : List ℕ

abbrev pub join : List Part → List ℕ → List ℕ
join [] last = last
join (p ∷ ps) last = p.covered ++ (p.clear ++ join ps last)

abbrev pub ranges_of : ℕ → List Part → List Range
ranges_of pos [] = []
ranges_of pos (p ∷ ps) =
    record { offset = pos + length p.covered; len = length p.clear }
    ∷ ranges_of (pos + length p.covered + length p.clear) ps

abbrev pub covered_bytes : List Part → List ℕ → List ℕ
covered_bytes [] last = last
covered_bytes (p ∷ ps) last = p.covered ++ covered_bytes ps last

abbrev pub clear_bytes : List Part → List ℕ
clear_bytes [] = []
clear_bytes (p ∷ ps) = p.clear ++ clear_bytes ps

-- The same frame but for the bytes of the covered parts.
abbrev pub Alike : List Part → List ℕ → List Part → List ℕ → Type 0
Alike [] l [] m = length l ≡ length m
Alike [] l (q ∷ qs) m = ⊥
Alike (p ∷ ps) l [] m = ⊥
Alike (p ∷ ps) l (q ∷ qs) m =
    (length p.covered ≡ length q.covered) × (p.clear ≡ q.clear) × Alike ps l qs m

pub Alike-sym :
    (ps : List Part) (l : List ℕ) (qs : List Part) (m : List ℕ) → Alike ps l qs m → Alike qs m ps l
Alike-sym [] l [] m h = sym h
Alike-sym [] l (q ∷ qs) m h = h
Alike-sym (p ∷ ps) l [] m h = h
Alike-sym (p ∷ ps) l (q ∷ qs) m h = (sym h.0, sym h.1, Alike-sym ps l qs m h.2)

pub ranges_of-Alike :
    (ps : List Part) (l : List ℕ) (qs : List Part) (m : List ℕ) (pos : ℕ)
    → Alike ps l qs m
    → ranges_of pos ps ≡ ranges_of pos qs
ranges_of-Alike [] l [] m pos h = refl
ranges_of-Alike [] l (q ∷ qs) m pos h = absurd h
ranges_of-Alike (p ∷ ps) l [] m pos h = absurd h
ranges_of-Alike (p ∷ ps) l (q ∷ qs) m pos h =
    rw (h.0, h.1)
      (ap (◌∷◌ (record { offset = pos + length q.covered; len = length q.clear }))
        (ranges_of-Alike ps l qs m (pos + length q.covered + length q.clear) h.2))

pub clear_bytes-Alike :
    (ps : List Part) (l : List ℕ) (qs : List Part) (m : List ℕ)
    → Alike ps l qs m
    → clear_bytes ps ≡ clear_bytes qs
clear_bytes-Alike [] l [] m h = refl
clear_bytes-Alike [] l (q ∷ qs) m h = absurd h
clear_bytes-Alike (p ∷ ps) l [] m h = absurd h
clear_bytes-Alike (p ∷ ps) l (q ∷ qs) m h = rw (h.1, clear_bytes-Alike ps l qs m h.2)

pub length-join-Alike :
    (ps : List Part) (l : List ℕ) (qs : List Part) (m : List ℕ)
    → Alike ps l qs m
    → length (join ps l) ≡ length (join qs m)
length-join-Alike [] l [] m h = h
length-join-Alike [] l (q ∷ qs) m h = absurd h
length-join-Alike (p ∷ ps) l [] m h = absurd h
length-join-Alike (p ∷ ps) l (q ∷ qs) m h =
    simp length-append (omega (arith, h.0, ap length h.1, length-join-Alike ps l qs m h.2))

-- Any bytes, as many as are covered, can stand in their place.
pub record Recut (ps : List Part) (l : List ℕ) (cs : List ℕ) : Type 0 where
  pub parts : List Part
  pub last : List ℕ
  pub alike : Alike ps l parts last
  pub covers : covered_bytes parts last ≡ cs

Recut-more :
    (p : Part) (ps : List Part) (l cs : List ℕ)
    → length cs ≡ length (covered_bytes (p ∷ ps) l)
    → Recut ps l (drop (length p.covered) cs)
    → Recut (p ∷ ps) l cs
Recut-more p ps l cs h rest = record {
  parts = record { covered = take (length p.covered) cs; clear = p.clear } ∷ rest.parts;
  last = rest.last;
  alike = (
    omega
        (arith, h, length-append p.covered (covered_bytes ps l), length-take (length p.covered) cs),
    refl,
    rest.alike,
  );
  covers =
      ap (◌++◌ (take (length p.covered) cs)) rest.covers ∙ take-append-drop (length p.covered) cs;
}

pub recut :
    (ps : List Part) (l cs : List ℕ) → length cs ≡ length (covered_bytes ps l) → Recut ps l cs
recut [] l cs h = record { parts = []; last = cs; alike = sym h; covers = refl }
recut (p ∷ ps) l cs h = Recut-more p ps l cs h (
    recut ps l (drop (length p.covered) cs) (
      omega
        (arith, length-append p.covered (covered_bytes ps l), length-drop (length p.covered) cs)))

-- Ranges that fit a frame cut it into parts.
pub record Cut (pos : ℕ) (rs : List Range) (xs : List ℕ) : Type 0 where
  pub parts : List Part
  pub last : List ℕ
  pub joined : xs ≡ join parts last
  pub places : rs ≡ ranges_of pos parts

-- What follows the first range.
abbrev after_range : ℕ → Range → List ℕ → List ℕ
after_range pos r xs = drop r.len (drop (r.offset - pos) xs)

after_range-Fits :
    (pos : ℕ) (r : Range) (rs : List Range) (xs : List ℕ)
    → Fits pos (r ∷ rs) (pos + length xs)
    → Fits (r.offset + r.len) rs (r.offset + r.len + length (after_range pos r xs))
after_range-Fits pos r rs xs h =
    subst (Fits (r.offset + r.len) rs)
      (omega (
        arith,
        h.0,
        h.1,
        length-drop (r.offset - pos) xs,
        length-drop r.len (drop (r.offset - pos) xs),
      ))
      h.2

Cut-more :
    (pos : ℕ) (r : Range) (rs : List Range) (xs : List ℕ)
    → Fits pos (r ∷ rs) (pos + length xs)
    → Cut (r.offset + r.len) rs (after_range pos r xs)
    → Cut pos (r ∷ rs) xs
Cut-more pos r rs xs h rest = record {
  parts = record { covered = a; clear = b } ∷ rest.parts;
  last = rest.last;
  joined =
      sym (take-append-drop (r.offset - pos) xs)
      ∙ ap (◌++◌ a)
          (sym (take-append-drop r.len (drop (r.offset - pos) xs)) ∙ ap (◌++◌ b) rest.joined);
  places = λ i.
      record { offset = place i; len = size i }
      ∷ (rest.places ∙ ap (λ (t : ℕ). ranges_of t rest.parts) behind) i;
}
  where
    a : List ℕ
    a = take (r.offset - pos) xs

    b : List ℕ
    b = take r.len (drop (r.offset - pos) xs)

    place : r.offset ≡ pos + length a
    place = omega (arith, h.0, h.1, length-take (r.offset - pos) xs)

    size : r.len ≡ length b
    size = omega (
      arith,
      h.0,
      h.1,
      length-drop (r.offset - pos) xs,
      length-take r.len (drop (r.offset - pos) xs),
    )

    behind : r.offset + r.len ≡ pos + length a + length b
    behind = omega (arith, place, size)

Fits-Cut : (pos : ℕ) (rs : List Range) (xs : List ℕ) → Fits pos rs (pos + length xs) → Cut pos rs xs
Fits-Cut pos [] xs h = record { parts = []; last = xs; joined = refl; places = refl }
Fits-Cut pos (r ∷ rs) xs h =
    Cut-more pos r rs xs h
      (Fits-Cut (r.offset + r.len) rs (after_range pos r xs) (after_range-Fits pos r rs xs h))

-- And parts give ranges that fit.
ranges_of-Fits :
    (pos : ℕ) (ps : List Part) (l : List ℕ) → Fits pos (ranges_of pos ps) (pos + length (join ps l))
ranges_of-Fits pos [] l = omega arith
ranges_of-Fits pos (p ∷ ps) l = (
  omega arith,
  omega (arith, length-append p.covered (p.clear ++ join ps l), length-append p.clear (join ps l)),
  subst (Fits _ (ranges_of _ ps))
      (omega
        (arith, length-append p.covered (p.clear ++ join ps l), length-append p.clear (join ps l)))
      (ranges_of-Fits (pos + length p.covered + length p.clear) ps l),
)

pub ranges_of-Fits_start :
    (ps : List Part) (l : List ℕ) → Fits 0 (ranges_of 0 ps) (length (join ps l))
ranges_of-Fits_start ps l = subst (Fits 0 (ranges_of 0 ps)) (omega arith) (ranges_of-Fits 0 ps l)

-- The cut of a whole frame.
pub Fits-Cut_start : (rs : List Range) (xs : List ℕ) → Fits 0 rs (length xs) → Cut 0 rs xs
Fits-Cut_start rs xs h = Fits-Cut 0 rs xs (subst (Fits 0 rs) (omega arith) h)
