-- ===== src/Session/Handlers/Protocol.antt =====
-- session/session.go: the handlers of the opcodes that change the protocol version or the epoch.
use dave_go.Base.{ℕ, [], some, ◌==◌, if◌then◌else◌, not, ◌&&◌, ◌+◌}
use dave_go.Session.Types.{Group, ready_for_transition}
use dave_go.Session.World.{World}
use dave_go.Session.Exec.{pure, gets, on_result, when, ◌>>=◌, ◌>>◌}
use dave_go.Session.Ops.{Act, on_keys, on_protocol, on_group, on_health, count, now}
use dave_go.Session.Status.{is_set, is_empty, reset_epoch_ready, end_degraded}
use dave_go.Session.Gateway.{
  send_locked, ensure_pending_key_package, watch_dropped_send, logged, without_pending,
}
use dave_go.Session.Epochs.{create_group_with_external_sender}
use dave_go.Session.Activation.{activate_pending_epoch, activate_sole_member_epoch}
use dave_go.Session.Handlers.{
  drop_send_keys, set_transport_only, without_epochs, without_group, without_client,
  retain_send_keys,
}

-- `if err := s.ensurePendingKeyPackageLocked(); err != nil { ... }`
unfoldable pub prepare_key_package : World → Act (Unit {0})
prepare_key_package w = on_result (ensure_pending_key_package w) pure watch_dropped_send

unfoldable pub on_select_protocol_ack : World → ℕ → Act (Unit {0})
on_select_protocol_ack w version = do
  on_protocol (λ p. record p { protocol_version = version; send_protocol_version = version })
  set_transport_only (version == 0)
  on_keys without_epochs
  on_group without_group
  on_health (λ h. record h { recovery_attempts = 0 })
  reset_epoch_ready
  end_degraded w
  on_group without_client
  if version == 0 then on_keys drop_send_keys else (do retain_send_keys w; prepare_key_package w)

-- Transition 0 is executed at once.
unfoldable pub initial_transition : World → ℕ → Act (Unit {0})
initial_transition w version = do
  on_protocol (λ p. record p { active_transition_id = 0; send_protocol_version = version })
  activate_sole_member_epoch w
  on_protocol (λ p. record p { pending_transition_id = 0 })

unfoldable pub on_dave_prepare_transition : World → ℕ → ℕ → Act (Unit {0})
on_dave_prepare_transition w transition_id version = do
  active ← gets (λ s. is_set s.keys.active_epoch)
  has_callbacks ← gets (λ s. s.config.has_callbacks)
  when (not (transition_id == 0 && active)) (do
    on_protocol
        (λ p. record p { pending_transition_id = transition_id; protocol_version = version })
    if transition_id == 0
        then initial_transition w version
        else when (version == 0 && has_callbacks)
            (logged (send_locked w (ready_for_transition transition_id))))

-- The downgrade keeps the active epoch, for frames on their way.
abbrev without_pending_group : Group → Group
without_pending_group g = record g {
  pending_group_id = [];
  pending_commit_bytes = [];
  pre_commit_group_state = [];
  group_id = [];
}

unfoldable pub downgrade : Act (Unit {0})
downgrade = do
  count (λ t. record t { downgrade_to_v0 = t.downgrade_to_v0 + 1 })
  on_keys drop_send_keys
  on_keys without_pending
  on_group without_pending_group
  reset_epoch_ready

unfoldable pub execute_prepared : World → ℕ → Act (Unit {0})
execute_prepared w transition_id = do
  on_protocol (λ p. record p {
    active_transition_id = transition_id;
    send_protocol_version = p.protocol_version;
  })
  version ← gets (λ s. s.protocol.protocol_version)
  set_transport_only (version == 0)
  if version == 0
      then downgrade
      else (do activate_pending_epoch w; on_protocol (λ p. record p { pending_transition_id = 0 }))

unfoldable pub on_dave_execute_transition : World → ℕ → Act (Unit {0})
on_dave_execute_transition w transition_id = do
  prepared ← gets (λ s. s.protocol.pending_transition_id)
  when (transition_id == prepared) (execute_prepared w transition_id)

-- The clock of the degraded state starts, unless it runs.
unfoldable pub start_degraded : World → Act (Unit {0})
start_degraded w = do
  s ← gets (λ s. s)
  when
      (is_set s.keys.active_epoch
        && not s.protocol.transport_only
        && not (is_set s.health.degraded_since))
      (do time ← now w; on_health (λ h. record h { degraded_since = some time }))

unfoldable pub reset_epoch : World → ℕ → Act (Unit {0})
reset_epoch w version = do
  set_transport_only (version == 0)
  start_degraded w
  on_keys without_epochs
  on_group without_group
  reset_epoch_ready
  retain_send_keys w
  on_group without_client
  prepare_key_package w

unfoldable pub on_dave_prepare_epoch : World → ℕ → ℕ → Act (Unit {0})
on_dave_prepare_epoch w epoch version = do
  on_protocol (λ p. record p { protocol_version = version })
  when (epoch == 1) (reset_epoch w version)

-- SetChannelID, when no handler is running.
unfoldable pub set_channel_id : World → ℕ → Act (Unit {0})
set_channel_id w channel = do
  s ← gets (λ s. s)
  on_protocol (λ p. record p { channel_id = channel })
  when
      (s.protocol.channel_id == 0
        && not (is_empty s.group.external_sender_package)
        && not (is_empty s.group.pending_key_package))
      (logged (create_group_with_external_sender w))
