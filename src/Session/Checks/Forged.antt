-- ===== src/Session/Checks/Forged.antt =====
-- A frame that no key of the session opens.
pub mod Loop
use dave_go.Base.{
  ℕ, ◌≢◌, ◌⊎◌, ◌/◌, ◌%◌, ◌^◌, ◌∙◌, ap, List, [], ◌∷◌, Option, none, some, Result, ok,
}
use dave_go.Frame.Encrypt
use dave_go.Mediakeys.Nonce.{expand_tentative}
use dave_go.Session.Types.{Session, SessionError, UserId, SenderState, Keys}
use dave_go.Session.World.{World}
use dave_go.Session.Exec.{crash, ◌>>◌}
use dave_go.Session.Exec.Triples.{gets-Triple, catch-Triple}
use dave_go.Session.Ops.{ratchet_get_key}
use dave_go.Session.Media.{unexpired}
use dave_go.Session.Media.Receive.{
  Slot, Attempt, epoch_in, sender_in, open_result, try_sender, try_slots, Next,
}
use dave_go.Session.Checks.Forged.Loop.{Looked, IsOpened, SameEpochs}

-- The keys `k` are `start`, or `start` without the retained epochs that had expired at some time.
pub data IsPruned (start : Keys) : Keys → Type 0 where
  as_before : IsPruned start start
  pruned :
      (time : ℕ)
      → IsPruned start (record start { retained_epoch = unexpired time start.retained_epoch })

module _ (w : World) (user : UserId) (frame : List ℕ) (start : Keys) where
  -- What is known at the end, of a result and of the keys.
  abbrev Done : Session → Type 0
  Done s = (k : Keys) × IsPruned start k × (Looked w k s.keys ⊎ IsOpened w user frame k)

  abbrev Found : Type 0
  Found = (k : Keys) × IsPruned start k × IsOpened w user frame k

-- What a frame with the marker leads to: a key of the user's sender opens it, or it is not returned
-- and no epoch changes, but for those that had expired.
abbrev Authentic :
    World → UserId → List ℕ → Session → Session → Result SessionError (ℕ × List ℕ) → Type 0
Authentic w user frame s s' r =
    (k : Keys) × IsPruned s.keys k
    × (IsOpened w user frame k ⊎ (((n : ℕ × List ℕ) → r ≢ ok n) × SameEpochs k s'.keys))
