-- ===== src/Session/Media/Receive.antt =====
-- session/session.go: Decrypt.
use dave_go.Base.{
  ℕ, zero, suc, ◌+◌, ◌/◌, ◌%◌, ◌^◌, List, [], ◌∷◌, length, Option, none, some, Bool, false, not,
  ◌&&◌, ltb, ◌==◌, if◌then◌else◌, Result, ok, err, panic,
}
use dave_go.Base.Bytes.{bytes_equal}
use dave_go.Frame.Types.{Error, buffer_too_small}
use dave_go.Frame.Encrypt
use dave_go.Frame.Encrypt.{looks_like_dave_frame, parse, new_gcm8}
use dave_go.Mediakeys.Nonce
use dave_go.Mediakeys.Nonce.{NonceExpander, expand_tentative}
use dave_go.Session.Replay.{AntiReplayWindow, check_and_mark}
use dave_go.Session.Types.{
  SessionError, decryption_failed, frame_failed, UserId, SenderState, EpochState, Keys,
}
use dave_go.Session.World.{World}
use dave_go.Session.Exec.{pure, fail, crash, lift, gets, on_result, ◌>>=◌, ◌>>◌}
use dave_go.Session.Ops.{Act, on_keys, count, now, find, update, ratchet_get_key, ratchet_commit}
use dave_go.Session.Status.{is_set}
use dave_go.Session.Media.{copy_passthrough, frame_result, is_before, prune_retained_epochs}

unfoldable pub count_decrypt_failure : Act (Unit {0})
count_decrypt_failure = count (λ t. record t { decrypt_failures = t.decrypt_failures + 1 })

-- The clock is read only where the other two tests hold.
unfoldable pub rejects_plaintext : World → Act Bool
rejects_plaintext w = do
  from ←
      gets
        (λ s. if s.protocol.protocol_version == 0 then none else s.protocol.plaintext_rejected_from)
  if is_set from then (do time ← now w; pure (not (is_before time from))) else pure false

unfoldable pub is_silence_packet : List ℕ → Bool
is_silence_packet frame = bytes_equal frame (0xF8 ∷ 0xFF ∷ 0xFE ∷ [])

-- A place where Decrypt looks for an epoch: the active one, the pending one, a retained one.
pub data Slot : Type 0 where
  active_slot : Slot
  pending_slot : Slot
  retained_slot : ℕ → Slot

abbrev nth_epoch : List EpochState → ℕ → Option EpochState
nth_epoch [] n = none
nth_epoch (e ∷ es) zero = some e
nth_epoch (e ∷ es) (suc n) = nth_epoch es n

abbrev pub epoch_in : Slot → Keys → Option EpochState
epoch_in active_slot k = k.active_epoch
epoch_in pending_slot k = k.pending_epoch
epoch_in (retained_slot n) k = nth_epoch k.retained_epoch n

abbrev pub sender_in : Option EpochState → UserId → Option SenderState
sender_in none user = none
sender_in (some e) user = find user e.senders

abbrev pub change_senders : UserId → (SenderState → SenderState) → EpochState → EpochState
change_senders user change e = record e { senders = update user change e.senders }

abbrev pub change_sender_opt :
    UserId → (SenderState → SenderState) → Option EpochState → Option EpochState
change_sender_opt user change none = none
change_sender_opt user change (some e) = some (change_senders user change e)

abbrev change_sender_at :
    UserId → (SenderState → SenderState) → List EpochState → ℕ → List EpochState
change_sender_at user change [] n = []
change_sender_at user change (e ∷ es) zero = change_senders user change e ∷ es
change_sender_at user change (e ∷ es) (suc n) = e ∷ change_sender_at user change es n

-- The sender's state is changed in place.
unfoldable pub write_sender : Slot → UserId → (SenderState → SenderState) → Keys → Keys
write_sender active_slot user change k = record k {
  active_epoch = change_sender_opt user change k.active_epoch;
}
write_sender pending_slot user change k = record k {
  pending_epoch = change_sender_opt user change k.pending_epoch;
}
write_sender (retained_slot n) user change k = record k {
  retained_epoch = change_sender_at user change k.retained_epoch n;
}

-- What an accepted frame changes.
abbrev pub advance_sender : NonceExpander → AntiReplayWindow → SenderState → SenderState
advance_sender expander window sender = record sender { expander = expander; replay = window }

-- What Decrypt is called with, and the frame as parsed.
pub record Attempt : Type 0 where
  pub user : UserId
  pub frame : List ℕ
  pub truncated_nonce : ℕ
  pub dst : List ℕ

-- The rest of the loop, with the last error so far.
abbrev pub Next : Type 0
Next = SessionError → Act (ℕ × List ℕ)

-- Once the frame is authenticated: the expander, the ratchet and the window move on.
unfoldable pub accept_frame :
    World → Attempt → Slot → SenderState → ℕ → ℕ → List ℕ → Next → Act (ℕ × List ℕ)
accept_frame w a slot sender full generation plaintext next_slot = do
  let expander = Nonce.commit sender.expander full
  let (window, fresh) = check_and_mark sender.replay full
  ratchet_commit w sender.ratchet generation
  on_keys (write_sender slot a.user (advance_sender expander window))
  if fresh then copy_passthrough a.dst plaintext else (do
    count (λ t. record t { rejected_replay_frames = t.rejected_replay_frames + 1 })
    next_slot decryption_failed)

unfoldable pub open_result :
    World
    → Attempt
    → Slot
    → SenderState
    → ℕ
    → ℕ
    → Next
    → Result Error (List ℕ × ℕ)
    → Act (ℕ × List ℕ)
open_result w a slot sender full generation next_slot (err e) = next_slot (frame_failed e)
open_result w a slot sender full generation next_slot panic = crash
open_result w a slot sender full generation next_slot (ok (plaintext, nonce)) =
    if ltb (length a.dst) (length plaintext)
    then fail (frame_failed buffer_too_small)
    else accept_frame w a slot sender full generation plaintext next_slot

-- One round of the loop over the epochs. `ExpandTentative` and `GetKey` move nothing.
unfoldable pub try_sender :
    World → Attempt → Slot → Option SenderState → Next → SessionError → Act (ℕ × List ℕ)
try_sender w a slot none next_slot last = next_slot last
try_sender w a slot (some sender) next_slot last = do
  let full = expand_tentative sender.expander a.truncated_nonce
  let generation = full / 2 ^ 24 % 2 ^ 32
  on_result (ratchet_get_key w sender.ratchet generation)
      (λ key.
        open_result w a slot sender full generation next_slot
          (Encrypt.decrypt w.gcm (record { ciphertext = a.frame; key = key })))
      next_slot

unfoldable pub try_slots : World → Attempt → List Slot → SessionError → Act (ℕ × List ℕ)
try_slots w a [] last = do count_decrypt_failure; fail last
try_slots w a (slot ∷ slots) last = do
  sender ← gets (λ s. sender_in (epoch_in slot s.keys) a.user)
  try_sender w a slot sender (λ e. try_slots w a slots e) last

abbrev retained_slots : ℕ → ℕ → List Slot
retained_slots zero n = []
retained_slots (suc rounds) n = retained_slot n ∷ retained_slots rounds (n + 1)

-- Decrypt of a frame that carries the marker.
unfoldable pub decrypt_dave : World → UserId → List ℕ → List ℕ → Act (ℕ × List ℕ)
decrypt_dave w user frame dst = do
  parsed ←
      on_result (lift (frame_result (parse frame))) pure (λ e. do count_decrypt_failure; fail e)
  prune_retained_epochs w
  retained ← gets (λ s. length s.keys.retained_epoch)
  try_slots w
      (record { user = user; frame = frame; truncated_nonce = parsed.truncated_nonce; dst = dst })
      (active_slot ∷ pending_slot ∷ retained_slots retained 0) decryption_failed

-- Decrypt of any other frame.
unfoldable pub decrypt_plain : World → List ℕ → List ℕ → Act (ℕ × List ℕ)
decrypt_plain w frame dst = do
  rejects ← rejects_plaintext w
  if rejects && not (is_silence_packet frame)
      then (do count_decrypt_failure; fail decryption_failed)
      else copy_passthrough dst frame

unfoldable pub decrypt : World → UserId → List ℕ → List ℕ → Act (ℕ × List ℕ)
decrypt w user frame dst =
    if looks_like_dave_frame frame then decrypt_dave w user frame dst else decrypt_plain w frame dst
