-- ===== src/Mediakeys/Nonce.antt =====
-- mediakeys/nonce.go: the sender's counter, and the receiver's expansion of 32-bit nonces to 64 bits.
pub mod Expand
pub mod Counter
use dave_go.Base.{
  ℕ, ◌+◌, ◌-◌, ◌*◌, ◌/◌, ◌%◌, ◌^◌, bit_or, Bool, true, false, not, ltb, if◌then◌else◌,
}

pub generation_from_truncated_nonce : ℕ → ℕ
generation_from_truncated_nonce nonce = nonce / 2 ^ 24

pub truncated_nonce_from_counter : ℕ → ℕ
truncated_nonce_from_counter counter = counter % 2 ^ 32

-- `NonceCounter` is its one field, a uint64.
pub record NonceCounter : Type 0 where
  pub counter : ℕ

abbrev pub new_nonce_counter : NonceCounter
new_nonce_counter = record { counter = 0 }

-- The full nonce, its low 32 bits and its generation, as `Next` returns them.
unfoldable pub next : NonceCounter → NonceCounter × ℕ × ℕ × ℕ
next c =
    let full = (c.counter + 1) % 2 ^ 64 in
    (record { counter = full }, full, full % 2 ^ 32, full / 2 ^ 24 % 2 ^ 32)

unfoldable pub reset : NonceCounter → NonceCounter
reset c = record { counter = 0 }

pub record NonceExpander : Type 0 where
  pub initialized : Bool
  pub highest_seen : ℕ

abbrev pub new_nonce_expander : NonceExpander
new_nonce_expander = record { initialized = false; highest_seen = 0 }

pub abs_diff : ℕ → ℕ → ℕ
abs_diff a b = if ltb b a then a - b else b - a

-- `(cycle << 32) | uint64(truncated)`
pub in_cycle : ℕ → ℕ → ℕ
in_cycle cycle truncated = bit_or (cycle * 2 ^ 32 % 2 ^ 64) truncated

-- The choice of the cycle in `ExpandTentative`.
pub nearest : ℕ → ℕ → ℕ
nearest highest truncated =
    let base_cycle = highest / 2 ^ 32 in
    let here = in_cycle base_cycle truncated in
    let below = in_cycle (base_cycle - 1) truncated in
    let above = in_cycle ((base_cycle + 1) % 2 ^ 64) truncated in
    let best =
      if ltb 0 base_cycle
      then (if ltb (abs_diff below highest) (abs_diff here highest) then below else here)
      else here in
    if ltb (abs_diff above highest) (abs_diff best highest) then above else best

pub expand_tentative : NonceExpander → ℕ → ℕ
expand_tentative e truncated =
    if not e.initialized then truncated else nearest e.highest_seen truncated

-- The same choice, as `Expand` writes it out for itself.
pub nearest_of_expand : ℕ → ℕ → ℕ
nearest_of_expand highest truncated =
    let base_cycle = highest / 2 ^ 32 in
    let here = in_cycle base_cycle truncated in
    let below = in_cycle (base_cycle - 1) truncated in
    let above = in_cycle ((base_cycle + 1) % 2 ^ 64) truncated in
    let best =
      if ltb 0 base_cycle
      then (if ltb (abs_diff below highest) (abs_diff here highest) then below else here)
      else here in
    if ltb (abs_diff above highest) (abs_diff best highest) then above else best

pub expand : NonceExpander → ℕ → NonceExpander × ℕ
expand e truncated =
    let best = nearest_of_expand e.highest_seen truncated in
    if not e.initialized
    then (record e { initialized = true; highest_seen = truncated }, truncated)
    else if ltb e.highest_seen best
    then (record e { highest_seen = best }, best)
    else (e, best)

pub commit : NonceExpander → ℕ → NonceExpander
commit e nonce =
    if not e.initialized
    then record e { initialized = true; highest_seen = nonce }
    else if ltb e.highest_seen nonce
    then record e { highest_seen = nonce }
    else e
