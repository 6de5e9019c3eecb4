-- ===== src/Session/Nonces/Decrypts.antt =====
-- Decrypt, the other calls that come from outside the handlers, and the sends during which they come,
-- keep the keys safe.
use dave_go.Base.{
  ℕ, ◌≡◌, refl, arith, subst, List, [], ◌∷◌, length, Option, none, some, Result, ok, err, panic,
}
use dave_go.Frame.Types.{Error}
use dave_go.Mediakeys.Nonce.{NonceExpander}
use dave_go.Session.Replay.{AntiReplayWindow}
use dave_go.Session.Types.{
  SessionError, frame_failed, UserId, SenderState, EpochState, Keys, Message, MediaCall,
  encrypt_frame, decrypt_frame, add_user, remove_user, assign_ssrc, set_channel, close_session,
}
use dave_go.Session.World.{World}
use dave_go.Session.Exec.Keeps.{
  Keeps, on_result-Keeps, pure-Keeps, bind-Keeps, gets-Keeps, if-Keeps, fail-Keeps,
}
use dave_go.Session.Ops.{Act, on_keys, find, update}
use dave_go.Session.Media.{prune_retained_epochs}
use dave_go.Session.Media.Receive.{
  count_decrypt_failure, rejects_plaintext, Slot, active_slot, pending_slot, retained_slot,
  write_sender, advance_sender, change_sender_opt, Attempt, accept_frame, open_result, try_sender,
  try_slots, decrypt_dave, decrypt_plain, decrypt,
}
use dave_go.Session.Media.Concurrent.{
  add_to_users, remove_from_users, assign_ssrc_to_codec, ignore, run_call, run_calls,
}
use dave_go.Session.Gateway.{send_locked}
use dave_go.Session.Activation.{ratchet_of_sender}
use dave_go.Session.Nonces.{AreSafe, IsSafe, own_ref}
use dave_go.Session.Nonces.Frame.{OnKeys, on_keys-Keeps, frame_rules, now-Keeps}
use dave_go.Session.Nonces.Encrypts.{
  copy_passthrough-Keeps, encrypt-Keeps, ratchet_get_key-Keeps, ratchet_commit-Keeps,
}

-- An accepted frame leaves every ratchet where it points.
update-ratchet :
    (user own : UserId) (e : NonceExpander) (r : AntiReplayWindow)
    (senders : List (UserId × SenderState))
    → ratchet_of_sender (find own senders)
      ≡ ratchet_of_sender (find own (update user (advance_sender e r) senders))
update-ratchet user own e r [] = refl
update-ratchet user own e r ((u, a) ∷ rest) =
    let ih = update-ratchet user own e r rest in ground arith

pub prune-Keeps : (w : World) → Keeps (OnKeys AreSafe) (prune_retained_epochs w)
unfolding prune_retained_epochs
prune-Keeps w = bind-Keeps _ _ (now-Keeps w) (λ time. on_keys-Keeps _ (λ user k h. h))

count_decrypt_failure-Keeps : Keeps (OnKeys AreSafe) count_decrypt_failure
unfolding count_decrypt_failure
count_decrypt_failure-Keeps = search (frame_rules)

rejects_plaintext-Keeps : (w : World) → Keeps (OnKeys AreSafe) (rejects_plaintext w)
unfolding rejects_plaintext
rejects_plaintext-Keeps w = search (frame_rules)

-- The session's own ratchet in the pending epoch stays.
advance-ratchet :
    (user own : UserId) (e : NonceExpander) (r : AntiReplayWindow) (epoch : Option EpochState)
    → own_ref own epoch ≡ own_ref own (change_sender_opt user (advance_sender e r) epoch)
advance-ratchet user own e r none = refl
advance-ratchet user own e r (some epoch) = update-ratchet user own e r epoch.senders

write-AreSafe :
    (slot : Slot) (sender : UserId) (e : NonceExpander) (r : AntiReplayWindow) (user : UserId)
    (k : Keys)
    → AreSafe user k
    → AreSafe user (write_sender slot sender (advance_sender e r) k)
unfolding write_sender
write-AreSafe active_slot sender e r user k safe = safe
write-AreSafe pending_slot sender e r user k safe = λ h.
    subst
      (λ own.
        IsSafe k.send_counter.counter k.send_ratchet k.retained_send_ratchet own (length k.ratchets)
          k.drawn)
      (advance-ratchet sender user e r k.pending_epoch) (safe h)
write-AreSafe (retained_slot n) sender e r user k safe = safe

write_sender-Keeps :
    (slot : Slot) (sender : UserId) (e : NonceExpander) (r : AntiReplayWindow)
    → Keeps (OnKeys AreSafe) (on_keys (write_sender slot sender (advance_sender e r)))
write_sender-Keeps slot sender e r = on_keys-Keeps _ (write-AreSafe slot sender e r)

-- What is left of the loop over the epochs.
abbrev Later : Type 0
Later = SessionError → Act (ℕ × List ℕ)

accept_frame-Keeps :
    (w : World) (a : Attempt) (slot : Slot) (sender : SenderState) (full generation : ℕ)
    (plaintext : List ℕ) (next_slot : Later)
    → ((e : SessionError) → Keeps (OnKeys AreSafe) (next_slot e))
    → Keeps (OnKeys AreSafe) (accept_frame w a slot sender full generation plaintext next_slot)
unfolding accept_frame
accept_frame-Keeps w a slot sender full generation plaintext next_slot later =
    search (frame_rules, ratchet_commit-Keeps, write_sender-Keeps, copy_passthrough-Keeps, later)

open_result-Keeps :
    (w : World) (a : Attempt) (slot : Slot) (sender : SenderState) (full generation : ℕ)
    (next_slot : Later)
    → ((e : SessionError) → Keeps (OnKeys AreSafe) (next_slot e))
    → (opened : Result Error (List ℕ × ℕ))
    → Keeps (OnKeys AreSafe) (open_result w a slot sender full generation next_slot opened)
unfolding open_result
open_result-Keeps w a slot sender full generation next_slot later (ok (plaintext, nonce)) =
    if-Keeps _ _ _ (fail-Keeps _)
      (accept_frame-Keeps w a slot sender full generation plaintext next_slot later)
open_result-Keeps w a slot sender full generation next_slot later (err e) = later (frame_failed e)
open_result-Keeps w a slot sender full generation next_slot later panic = search (frame_rules)

try_sender-Keeps :
    (w : World) (a : Attempt) (slot : Slot) (sender : Option SenderState) (next_slot : Later)
    (last : SessionError)
    → ((e : SessionError) → Keeps (OnKeys AreSafe) (next_slot e))
    → Keeps (OnKeys AreSafe) (try_sender w a slot sender next_slot last)
unfolding try_sender
try_sender-Keeps w a slot none next_slot last later = later last
try_sender-Keeps w a slot (some sender) next_slot last later =
    on_result-Keeps _ _ _ (ratchet_get_key-Keeps w _ _)
      (λ key. open_result-Keeps w a slot sender _ _ next_slot later _) later

try_slots-Keeps :
    (w : World) (a : Attempt) (slots : List Slot) (last : SessionError)
    → Keeps (OnKeys AreSafe) (try_slots w a slots last)
unfolding try_slots
try_slots-Keeps w a [] last = search (frame_rules, count_decrypt_failure-Keeps)
try_slots-Keeps w a (slot ∷ slots) last =
    bind-Keeps _ _ (gets-Keeps _)
      (λ sender. try_sender-Keeps w a slot sender _ last (try_slots-Keeps w a slots))

decrypt_dave-Keeps :
    (w : World) (user : UserId) (frame dst : List ℕ)
    → Keeps (OnKeys AreSafe) (decrypt_dave w user frame dst)
unfolding decrypt_dave
decrypt_dave-Keeps w user frame dst =
    search (frame_rules, count_decrypt_failure-Keeps, prune-Keeps, try_slots-Keeps)

decrypt_plain-Keeps :
    (w : World) (frame dst : List ℕ) → Keeps (OnKeys AreSafe) (decrypt_plain w frame dst)
unfolding decrypt_plain
decrypt_plain-Keeps w frame dst =
    search
      (frame_rules, count_decrypt_failure-Keeps, rejects_plaintext-Keeps, copy_passthrough-Keeps)

pub decrypt-Keeps :
    (w : World) (user : UserId) (frame dst : List ℕ)
    → Keeps (OnKeys AreSafe) (decrypt w user frame dst)
unfolding decrypt
decrypt-Keeps w user frame dst =
    if-Keeps _ _ _ (decrypt_dave-Keeps w user frame dst) (decrypt_plain-Keeps w frame dst)

pub ignore-Keeps :
    {A : Type 0} (m : Act A) → Keeps (OnKeys AreSafe) m → Keeps (OnKeys AreSafe) (ignore m)
ignore-Keeps m km = on_result-Keeps m _ _ km (λ a. pure-Keeps tt) (λ e. pure-Keeps tt)

-- A call from outside the handlers keeps the keys safe.
pub run_call-Keeps : (w : World) (call : MediaCall) → Keeps (OnKeys AreSafe) (run_call w call)
unfolding run_call add_to_users remove_from_users assign_ssrc_to_codec
run_call-Keeps w (encrypt_frame ssrc frame size) = ignore-Keeps _ (encrypt-Keeps w ssrc frame _)
run_call-Keeps w (decrypt_frame user frame size) = ignore-Keeps _ (decrypt-Keeps w user frame _)
run_call-Keeps w (add_user user) = search (frame_rules)
run_call-Keeps w (remove_user user) = search (frame_rules)
run_call-Keeps w (assign_ssrc ssrc kind) = search (frame_rules)
run_call-Keeps w (set_channel channel) = search (frame_rules)
run_call-Keeps w close_session = search (frame_rules)

run_calls-Keeps : (w : World) (calls : List MediaCall) → Keeps (OnKeys AreSafe) (run_calls w calls)
unfolding run_calls
run_calls-Keeps w [] = search (frame_rules)
run_calls-Keeps w (c ∷ cs) = search (frame_rules, run_call-Keeps w c, run_calls-Keeps w cs)

pub send_locked-Keeps :
    (w : World) (message : Message) → Keeps (OnKeys AreSafe) (send_locked w message)
unfolding send_locked
send_locked-Keeps w message = search (frame_rules, run_calls-Keeps)
