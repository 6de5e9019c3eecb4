-- ===== src/Session/Replay.antt =====
-- session/replay.go: the anti-replay window, a ring of 1024 bits in 16 words of 64. Nonces are
-- uint64s; `nonce-w.highest` is computed only where it does not wrap.
pub mod Ring
pub mod History
use dave_go.Base.{
  ℕ, zero, suc, ◌+◌, ◌-◌, ◌/◌, ◌%◌, ◌^◌, ◌≤◌, ◌<◌, bit_and, bit_or, bit_xor, List, get_or, set,
  replicate, Bool, true, false, not, ltb, leb, ◌==◌, ◌||◌, if◌then◌else◌,
}

abbrev pub replay_window_size : ℕ
replay_window_size = 1024

abbrev pub bits_per_word : ℕ
bits_per_word = 64

pub record AntiReplayWindow : Type 0 where
  pub highest : ℕ
  pub bitmap : List ℕ
  pub seen : Bool

-- The zero value of the struct.
abbrev pub empty_bitmap : List ℕ
empty_bitmap = replicate 16 0

abbrev pub new_window : AntiReplayWindow
new_window = record { highest = 0; bitmap = empty_bitmap; seen = false }

-- The word and the bit of a nonce.
pub slot : ℕ → ℕ × ℕ
slot nonce = let i = nonce % replay_window_size in (i / bits_per_word, 2 ^ (i % bits_per_word))

-- `word &^ bit`, which is `word ^ (word & bit)`.
abbrev pub and_not : ℕ → ℕ → ℕ
and_not word bit = bit_xor word (bit_and word bit)

pub mark : AntiReplayWindow → ℕ → AntiReplayWindow
mark w nonce =
    let (word, bit) = slot nonce in
    record w { bitmap = set w.bitmap word (bit_or (get_or w.bitmap word 0) bit) }

pub marked : AntiReplayWindow → ℕ → Bool
marked w nonce = let (word, bit) = slot nonce in not (bit_and (get_or w.bitmap word 0) bit == 0)

-- The loop of `advance`: `rounds` slots from that of `n` on are cleared.
pub clear_loop : ℕ → ℕ → List ℕ → List ℕ
clear_loop zero n bitmap = bitmap
clear_loop (suc rounds) n bitmap =
    let (word, bit) = slot n in
    clear_loop rounds (n + 1) (set bitmap word (and_not (get_or bitmap word 0) bit))

-- The loop runs while `n < nonce`, from `w.highest + 1` on.
pub advance : AntiReplayWindow → ℕ → AntiReplayWindow
advance w nonce =
    if leb replay_window_size (nonce - w.highest)
    then record w { highest = nonce; bitmap = empty_bitmap }
    else record w {
      highest = nonce;
      bitmap = clear_loop (nonce - (w.highest + 1)) (w.highest + 1) w.bitmap;
    }

-- The new window, and whether the nonce was accepted.
pub check_and_mark : AntiReplayWindow → ℕ → AntiReplayWindow × Bool
check_and_mark w nonce =
    if not w.seen
    then (mark (record w { highest = nonce; seen = true }) nonce, true)
    else if ltb w.highest nonce
    then (mark (advance w nonce) nonce, true)
    else if leb replay_window_size (w.highest - nonce) || marked w nonce
    then (w, false)
    else (mark w nonce, true)

pub reset : AntiReplayWindow → AntiReplayWindow
reset w = record { highest = 0; bitmap = empty_bitmap; seen = false }
