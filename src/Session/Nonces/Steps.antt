-- ===== src/Session/Nonces/Steps.antt =====
-- What Encrypt, the handlers and the activation do to the parts of the invariant.
use dave_go.Base.{ℕ, ◌+◌, ◌≤◌, ◌<◌, ◌≡◌, arith, List, ◌∷◌, Option, none, some}
use dave_go.Session.Types.{RatchetRef}
use dave_go.Session.Nonces.{Draw, IsSafe}
use dave_go.Session.Nonces.Lists.{IsUnused-new, All-lt, new-IsDistinct}
use dave_go.Session.Nonces.Parts.{
  live_of, IsApart-new, IsPending-draw, IsPending-drop, IsPending-expire, IsPending-more,
  IsPending-retain, IsSending-after, IsSending-alone, IsSending-draw, IsSending-expire,
  IsSending-more, IsSending-retain, live-IsBelow,
}

module _ {drawn : List Draw} {counter size : ℕ} where
  pub expire-IsSafe :
      (retained : RatchetRef) (sending pending : Option RatchetRef)
      → IsSafe counter sending (some retained) pending size drawn
      → IsSafe 0 sending none pending size drawn
  expire-IsSafe retained sending pending s = record {
    counted = omega arith;
    allocated = s.allocated;
    distinct = s.distinct;
    live = IsSending-expire drawn counter size retained sending s.live;
    waiting = IsPending-expire drawn counter size retained sending pending s.waiting;
  }

  pub retain-IsSafe :
      (retained pending : Option RatchetRef) (ref : RatchetRef)
      → IsSafe counter (some ref) retained pending size drawn
      → IsSafe counter none (some ref) pending size drawn
  retain-IsSafe retained pending ref s = record {
    counted = s.counted;
    allocated = s.allocated;
    distinct = s.distinct;
    live = IsSending-retain drawn counter size retained ref s.live;
    waiting = IsPending-retain drawn counter size retained pending ref s.waiting;
  }

  pub join-IsSafe :
      (retained sending pending : Option RatchetRef)
      → IsSafe counter sending retained pending size drawn
      → IsSafe 0 pending none none size drawn
  join-IsSafe retained sending pending s = record {
    counted = omega arith;
    allocated = s.allocated;
    distinct = s.distinct;
    live = IsSending-alone drawn counter size 0 retained sending pending s.waiting;
    waiting = tt;
  }

  -- Where no send ratchet is set, the retained one stays.
  pub first-IsSafe :
      (retained pending : Option RatchetRef)
      → IsSafe counter none retained pending size drawn
      → IsSafe counter pending retained none size drawn
  first-IsSafe retained pending s = record {
    counted = s.counted;
    allocated = s.allocated;
    distinct = s.distinct;
    live = IsSending-after drawn counter size retained pending s.live s.waiting;
    waiting = tt;
  }

  pub drop-IsSafe :
      (retained sending pending : Option RatchetRef)
      → IsSafe counter sending retained pending size drawn
      → IsSafe counter none none pending size drawn
  drop-IsSafe retained sending pending s = record {
    counted = s.counted;
    allocated = s.allocated;
    distinct = s.distinct;
    live = tt;
    waiting = IsPending-drop drawn counter size retained sending pending s.waiting;
  }

  pub no_pending-IsSafe :
      (retained sending pending : Option RatchetRef)
      → IsSafe counter sending retained pending size drawn
      → IsSafe counter sending retained none size drawn
  no_pending-IsSafe retained sending pending s = record {
    counted = s.counted;
    allocated = s.allocated;
    distinct = s.distinct;
    live = s.live;
    waiting = tt;
  }

  pub more-IsSafe :
      (more : ℕ) (retained sending pending : Option RatchetRef)
      → size ≤ more
      → IsSafe counter sending retained pending size drawn
      → IsSafe counter sending retained pending more drawn
  more-IsSafe more retained sending pending h s = record {
    counted = s.counted;
    allocated = All-lt drawn size more h s.allocated;
    distinct = s.distinct;
    live = IsSending-more drawn counter size more retained sending h s.live;
    waiting = IsPending-more drawn counter size more retained sending pending h s.waiting;
  }

  -- A ratchet made since the size was read is neither used nor set.
  pub renew-IsSafe :
      (more : ℕ) (retained sending pending : Option RatchetRef) (ref : RatchetRef)
      → size ≤ ref
      → ref < more
      → IsSafe counter sending retained pending size drawn
      → IsSafe counter sending retained (some ref) more drawn
  renew-IsSafe more retained sending pending ref h k s =
      let (a, b) = IsApart-new drawn counter size retained sending ref h s.live in
      let wide = more-IsSafe more retained sending pending (omega (arith, h, k)) s in
      record {
        counted = s.counted;
        allocated = wide.allocated;
        distinct = s.distinct;
        live = wide.live;
        waiting = (k, IsUnused-new drawn size ref s.allocated h, a, b);
      }

  -- The next nonce is drawn for the ratchet in use.
  pub draw-IsSafe :
      (retained sending pending : Option RatchetRef) (ref : RatchetRef)
      → live_of retained sending ≡ some ref
      → IsSafe counter sending retained pending size drawn
      → IsSafe (counter + 1) sending retained pending size ((ref, counter + 1) ∷ drawn)
  draw-IsSafe retained sending pending ref e s =
      let (r, b) = live-IsBelow drawn counter size retained sending ref e s.live in
      record {
        counted = omega (arith, s.counted);
        allocated = (r, s.allocated);
        distinct = (new-IsDistinct drawn counter (counter + 1) ref b (omega arith), s.distinct);
        live = IsSending-draw drawn counter size retained sending ref e s.live;
        waiting =
            IsPending-draw drawn counter size retained sending pending ref (counter + 1) e
              s.waiting;
      }
