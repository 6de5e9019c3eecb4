-- ===== src/Session/Activation.antt =====
-- session/mls.go: an epoch becomes the one to send in.
use dave_go.Base.{
  ℕ, zero, suc, ◌+◌, ◌*◌, List, [], ◌∷◌, ◌++◌, length, Option, none, some, Bool, true, false, not,
  ◌&&◌, ◌==◌, if◌then◌else◌, ok,
}
use dave_go.Mediakeys.Nonce
use dave_go.Session.Types.{UserId, RatchetRef, SenderState, EpochState, Keys}
use dave_go.Session.World.{World}
use dave_go.Session.Exec.{pure, gets, on_result, when, ◌>>=◌, ◌>>◌}
use dave_go.Session.Ops.{Act, on_protocol, on_group, on_health, count, now}
use dave_go.Session.Status.{is_set, is_empty, signal_epoch_ready, mark_degraded, mark_recovered}
use dave_go.Session.Media.{prune_retained_epochs}
use dave_go.Session.Media.Receive.{sender_in}
use dave_go.Session.Gateway.{watch_dropped_send}
use dave_go.Session.Epochs.{new_epoch_adds_sender, create_group_with_external_sender}
use dave_go.Session.Commits.{renew_pending, process_and_commit_proposal_batch}

-- 10 seconds.
abbrev epoch_retention : ℕ
epoch_retention = 10 * 1000000000

abbrev pub retained_until : ℕ → Option EpochState → List EpochState
retained_until expires_at none = []
retained_until expires_at (some e) = record e { expires_at = some expires_at } ∷ []

abbrev pub ratchet_of_sender : Option SenderState → Option RatchetRef
ratchet_of_sender none = none
ratchet_of_sender (some sender) = some sender.ratchet

-- The send ratchet so far is retained, unless a member joins; the counter goes on with it.
abbrev pub retain_send_ratchet : Bool → ℕ → Option RatchetRef → Keys → Keys
retain_send_ratchet adds until none k = k
retain_send_ratchet true until (some ref) k = record k {
  send_counter = Nonce.reset k.send_counter;
  retained_send_ratchet = none;
  retained_send_expires_at = none;
}
retain_send_ratchet false until (some ref) k = record k {
  retained_send_ratchet = some ref;
  retained_send_expires_at = some until;
}

-- What activatePendingEpochLocked does to the epochs and the sending side.
unfoldable pub install_epoch : UserId → ℕ → ℕ → EpochState → Keys → Keys
install_epoch user expires_at until epoch k =
    let adds = new_epoch_adds_sender k.active_epoch (some epoch) in
    let sending = retain_send_ratchet adds until k.send_ratchet k in
    record sending {
      active_epoch = some epoch;
      pending_epoch = none;
      retained_epoch = k.retained_epoch ++ retained_until expires_at k.active_epoch;
      send_ratchet = ratchet_of_sender (sender_in (some epoch) user);
    }

-- `time.Now().Add(d)`, where the test holds.
abbrev pub time_after : World → Bool → ℕ → Act ℕ
time_after w false duration = pure 0
time_after w true duration = do time ← now w; pure (time + duration)

unfoldable pub reject_plaintext : World → Act (Unit {0})
reject_plaintext w = do
  p ← gets (λ s. s.protocol)
  grace ← gets (λ s. s.config.plaintext_grace)
  when (not (p.protocol_version == 0) && not (is_set p.plaintext_rejected_from)) (do
    from ← time_after w true grace
    on_protocol (λ q. record q { plaintext_rejected_from = some from }))

-- Whether this session can send in the new epoch.
abbrev pub report_activation : World → Bool → Act (Unit {0})
report_activation w true = do
  on_health (λ h. record h { recovery_attempts = 0 })
  mark_recovered w
  signal_epoch_ready
report_activation w false = mark_degraded w

-- A round of the loop, with the rounds after it. The loop goes on while no epoch is pending.
unfoldable pub drain_next : World → Act (Unit {0}) → Bool → List (List ℕ) → Act (Unit {0})
drain_next w rounds true queue = pure tt
drain_next w rounds false [] = pure tt
drain_next w rounds false (batch ∷ queue) = do
  on_group (λ g. record g { proposal_queue = queue })
  process_and_commit_proposal_batch w batch
  rounds

-- Each round takes one batch off the queue.
unfoldable pub drain_loop : World → ℕ → Act (Unit {0})
drain_loop w zero = pure tt
drain_loop w (suc fuel) = do
  pending ← gets (λ s. is_set s.keys.pending_epoch)
  queue ← gets (λ s. s.group.proposal_queue)
  drain_next w (drain_loop w fuel) pending queue

unfoldable pub drain_proposal_queue : World → Act (Unit {0})
drain_proposal_queue w = do rounds ← gets (λ s. length s.group.proposal_queue); drain_loop w rounds

-- The keys change, for the session's user.
unfoldable pub install : ℕ → ℕ → EpochState → Act (Unit {0})
install expires_at until epoch s =
    (record s { keys = install_epoch s.config.user_id expires_at until epoch s.keys }, ok tt)

-- What follows the change of the keys.
unfoldable pub settle_activation : World → EpochState → Act (Unit {0})
settle_activation w epoch = do
  user ← gets (λ s. s.config.user_id)
  report_activation w (is_set (sender_in (some epoch) user))
  prune_retained_epochs w
  drain_proposal_queue w

-- The send ratchet is retained for a time, unless a member joins.
unfoldable pub retention_time : World → EpochState → Act ℕ
retention_time w epoch = do
  k ← gets (λ s. s.keys)
  ttl ← gets (λ s. s.config.send_retention_ttl)
  let retains = is_set k.send_ratchet && not (new_epoch_adds_sender k.active_epoch (some epoch))
  when retains (count (λ t. record t { transition_windows = t.transition_windows + 1 }))
  time_after w retains ttl

-- The epochs and the sending side change at once, after the last call of the clock that they depend on.
unfoldable pub activate_epoch : World → Option EpochState → Act (Unit {0})
activate_epoch w none = pure tt
activate_epoch w (some epoch) = do
  old ← gets (λ s. s.keys.active_epoch)
  expires_at ← time_after w (is_set old) epoch_retention
  on_protocol (λ p. record p { send_protocol_version = p.protocol_version })
  reject_plaintext w
  on_group (λ g. record g { group_id = g.pending_group_id; pending_group_id = [] })
  until ← retention_time w epoch
  install expires_at until epoch
  settle_activation w epoch

unfoldable pub activate_pending_epoch : World → Act (Unit {0})
activate_pending_epoch w = do pending ← gets (λ s. s.keys.pending_epoch); activate_epoch w pending

-- The session's own group has an epoch of its own.
unfoldable pub rebuild_own : World → Act (Unit {0})
rebuild_own w = do group_id ← gets (λ s. s.group.group_id); renew_pending w group_id

unfoldable pub activate_own_group : World → Act (Unit {0})
activate_own_group w = do
  pending ← gets (λ s. is_set s.keys.pending_epoch)
  if pending
      then activate_pending_epoch w
      else on_result (rebuild_own w) (λ done. activate_pending_epoch w) (λ e. pure tt)

unfoldable pub activate_sole_member_epoch : World → Act (Unit {0})
activate_sole_member_epoch w = do
  g ← gets (λ s. s.group)
  if not (is_empty g.group_id)
      then activate_own_group w
      else when (not (is_empty g.external_sender_package)) (
          on_result (create_group_with_external_sender w) (λ done. activate_own_group w)
            watch_dropped_send)
