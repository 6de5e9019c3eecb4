-- ===== src/Examples/Replays.antt =====
-- The theorems on the anti-replay window, at a new window and a few nonces.
use dave_go.Base.{◌≡◌, ap, [], ◌∷◌, Bool, true, false, refl}
use dave_go.Session.Replay.{AntiReplayWindow, new_window, check_and_mark}
use dave_go.Session.Replay.History.{history_check, Refines}
use dave_go.Session.Replay.History.Refine.{
  check_first, check_and_mark-Refines, new_window-Refines, check_all, no_replay,
}

check_and_mark-Refines_example :
    ((check_and_mark new_window 5000).1 ≡ (history_check [] 5000).1)
    × Refines (check_and_mark new_window 5000).0 (history_check [] 5000).0
check_and_mark-Refines_example = check_and_mark-Refines new_window [] 5000 new_window-Refines

first_accepted : (check_and_mark new_window 5000).1 ≡ true
first_accepted = ap (λ (p : AntiReplayWindow × Bool). p.1) (check_first new_window 5000 refl)

no_replay_example :
    (check_and_mark (check_all (check_and_mark new_window 5000).0 (5001 ∷ 4500 ∷ 9000 ∷ [])) 5000).1
    ≡ false
no_replay_example =
    no_replay new_window [] 5000 (5001 ∷ 4500 ∷ 9000 ∷ []) new_window-Refines first_accepted
