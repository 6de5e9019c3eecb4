-- ===== src/Session/Nonces.antt =====
-- The nonces that Encrypt draws: when two frames can share a ratchet and a nonce. `drawn` lists, with
-- its ratchet, every nonce drawn.
pub mod Lists
pub mod Parts
pub mod Steps
pub mod Frame
pub mod Encrypts
pub mod Decrypts
pub mod Requests
pub mod Renewals
pub mod Groups
pub mod Activations
pub mod Handling
pub mod Runs
use dave_go.Base.{ℕ, ◌+◌, ◌≤◌, ◌<◌, ◌^◌, ◌≡◌, ◌≢◌, List, [], ◌∷◌, length, All, Option, none, some}
use dave_go.Session.Types.{UserId, RatchetRef, EpochState, Keys}
use dave_go.Session.Media.Receive.{sender_in}
use dave_go.Session.Activation.{ratchet_of_sender}

abbrev pub Draw : Type 0
Draw = RatchetRef × ℕ

-- No draw occurs twice.
abbrev pub IsDistinct : List Draw → Type 0
IsDistinct [] = Unit
IsDistinct (d ∷ ds) = All (λ e. e ≢ d) ds × IsDistinct ds

-- Nothing is drawn for the ratchet.
abbrev pub IsUnused : List Draw → RatchetRef → Type 0
IsUnused drawn ref = All (λ d. d.0 ≢ ref) drawn

-- What is drawn for the ratchet is not above the counter.
abbrev pub IsBelow : List Draw → ℕ → RatchetRef → Type 0
IsBelow drawn counter ref = All (λ d. d.0 ≡ ref → d.1 ≤ counter) drawn

-- Of the retained ratchet and the send ratchet, the first that is set is in use, and the other one
-- is not used yet.
abbrev pub IsSending : List Draw → ℕ → ℕ → Option RatchetRef → Option RatchetRef → Type 0
IsSending drawn counter size none none = Unit
IsSending drawn counter size none (some ref) = (ref < size) × IsBelow drawn counter ref
IsSending drawn counter size (some ref) none = (ref < size) × IsBelow drawn counter ref
IsSending drawn counter size (some ref) (some waiting) =
    (ref < size)
    × IsBelow drawn counter ref
    × (waiting < size)
    × IsUnused drawn waiting
    × (waiting ≢ ref)

abbrev pub IsApart : RatchetRef → Option RatchetRef → Type 0
IsApart ref none = Unit
IsApart ref (some other) = ref ≢ other

-- The session's ratchet in the pending epoch is neither used nor set yet.
abbrev pub IsPending :
    List Draw → ℕ → Option RatchetRef → Option RatchetRef → Option RatchetRef → Type 0
IsPending drawn size retained sending none = Unit
IsPending drawn size retained sending (some ref) =
    (ref < size) × IsUnused drawn ref × IsApart ref retained × IsApart ref sending

-- The invariant, on the parts of the keys that it is about.
pub record IsSafe (counter : ℕ) (sending retained pending : Option RatchetRef) (size : ℕ)
    (drawn : List Draw) : Type 0 where
  pub counted : counter ≤ length drawn
  pub allocated : All (λ d. d.0 < size) drawn
  pub distinct : IsDistinct drawn
  pub live : IsSending drawn counter size retained sending
  pub waiting : IsPending drawn size retained sending pending

-- The ratchet of a user in an epoch.
abbrev pub own_ref : UserId → Option EpochState → Option RatchetRef
own_ref user epoch = ratchet_of_sender (sender_in epoch user)

-- The invariant of the keys, while the counter cannot have wrapped around. The ratchets at `size` and
-- above are new.
abbrev pub IsSafeBelow : UserId → ℕ → Keys → Type 0
IsSafeBelow user size k =
    length k.drawn < 2 ^ 64
    → IsSafe k.send_counter.counter k.send_ratchet k.retained_send_ratchet
        (own_ref user k.pending_epoch) size k.drawn

abbrev pub AreSafe : UserId → Keys → Type 0
AreSafe user k = IsSafeBelow user (length k.ratchets) k
