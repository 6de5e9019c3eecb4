-- ===== src/Session/Gateway.antt =====
-- session/retry.go: sendLocked; session/close.go: goWatchdog; and the parts of session/mls.go that
-- keep the MLS client, send to the gateway and arm the recovery watchdog.
use dave_go.Base.{
  ℕ, ◌+◌, List, [], ◌∷◌, ◌++◌, length, Option, none, some, Bool, true, false, not, leb,
  if◌then◌else◌,
}
use dave_go.Session.Types.{
  SessionError, send_failed, mls_failed, Group, Keys, Watchdog, Message, key_package,
  ready_for_transition, invalid_commit_welcome,
}
use dave_go.Session.World.{World}
use dave_go.Session.Exec.{pure, fail, crash, lift, gets, on_result, when, ◌>>=◌, ◌>>◌}
use dave_go.Session.Ops.{Act, on_keys, on_group, on_health, on_calls, count}
use dave_go.Session.Status.{is_set, is_empty, reset_epoch_ready, mark_degraded}
use dave_go.Session.Media.Concurrent.{run_calls}
use dave_go.Session.Wire.Identity.{user_id_to_identity_bytes}

-- While the callback runs, other goroutines may call the session.
unfoldable pub send_locked : World → Message → Act (Unit {0})
send_locked w message = do
  place ← gets (λ s. length s.calls.sent)
  on_calls (λ c. record c { sent = c.sent ++ (message ∷ []) })
  run_calls w (w.during place)
  if w.accepts place message then pure tt else fail send_failed

-- errors.Is(err, errSendFailed)
abbrev pub is_send_failed : SessionError → Bool
is_send_failed send_failed = true
is_send_failed e = false

-- An error of mls-go.
abbrev pub or_mls_failed : {A : Type 0} → Option A → Act A
or_mls_failed none = fail mls_failed
or_mls_failed (some a) = pure a

abbrev pub unless_mls_failed : Bool → Act (Unit {0})
unless_mls_failed true = pure tt
unless_mls_failed false = fail mls_failed

-- A nil client is dereferenced.
abbrev pub from_client : Option ℕ → Act ℕ
from_client none = crash
from_client (some client) = pure client

unfoldable pub current_client : Act ℕ
current_client = do client ← gets (λ s. s.group.mls_client); from_client client

-- A call of the client that changes it.
unfoldable pub with_client : {A : Type 0} → (ℕ → ℕ × A) → Act A
with_client call = do
  client ← current_client
  let (changed, answer) = call client
  on_group (λ g. record g { mls_client = some changed })
  pure answer

unfoldable pub install_client : Option ℕ → Act (Unit {0})
install_client client = do
  created ← or_mls_failed client
  on_group (λ g. record g { mls_client = some created })

unfoldable pub ensure_client : World → Option ℕ → Act (Unit {0})
ensure_client w (some client) = pure tt
ensure_client w none = do
  user ← gets (λ s. s.config.user_id)
  identity ← lift (user_id_to_identity_bytes user)
  place ← gets (λ s. s.calls.clients)
  on_calls (λ c. record c { clients = c.clients + 1 })
  install_client (w.mls.new_client place identity)

unfoldable pub ensure_mls_client : World → Act (Unit {0})
ensure_mls_client w = do client ← gets (λ s. s.group.mls_client); ensure_client w client

unfoldable pub fresh_key_package : World → Act (List ℕ)
fresh_key_package w = do
  ensure_mls_client w
  kp ← with_client w.mls.fresh_key_package
  or_mls_failed kp

unfoldable pub send_key_package : World → List ℕ → Act (Unit {0})
send_key_package w kp = do
  pending ← gets (λ s. s.group.pending_key_package)
  has_callbacks ← gets (λ s. s.config.has_callbacks)
  when (is_empty pending) (do
    when has_callbacks (send_locked w (key_package kp))
    on_group (λ g. record g { pending_key_package = kp }))

unfoldable pub ensure_pending_key_package : World → Act (Unit {0})
ensure_pending_key_package w = do
  ensure_mls_client w
  pending ← gets (λ s. s.group.pending_key_package)
  when (is_empty pending) (do kp ← fresh_key_package w; send_key_package w kp)

-- No watchdog starts once the session is closed.
unfoldable pub go_watchdog : Watchdog → Act (Unit {0})
go_watchdog d = on_health (λ h. if h.shutdown then h else record h { watchdogs = d ∷ h.watchdogs })

abbrev pub max_recovery_attempts : ℕ
max_recovery_attempts = 3

unfoldable pub arm_recovery : Bool → Act (Unit {0})
arm_recovery send_dropped = do
  count (λ t. record t { recovery_attempts = t.recovery_attempts + 1 })
  when send_dropped
      (count (λ t. record t { recovery_attempts_transport = t.recovery_attempts_transport + 1 }))
  ready ← gets (λ s. s.health.epoch_ready)
  transition_id ← gets (λ s. s.protocol.pending_transition_id)
  go_watchdog (record { ready = ready; transition_id = transition_id; needs_pending = false })

-- `send_dropped` is what errors.Is says of the error given.
unfoldable pub watch_recovery : Bool → Act (Unit {0})
watch_recovery send_dropped = do
  attempts ← gets (λ s. s.health.recovery_attempts)
  when (not (leb max_recovery_attempts attempts)) (arm_recovery send_dropped)

unfoldable pub watch_dropped_send : SessionError → Act (Unit {0})
watch_dropped_send e = when (is_send_failed e) (do reset_epoch_ready; watch_recovery true)

-- The error is logged only.
abbrev pub logged : Act (Unit {0}) → Act (Unit {0})
logged m = on_result m pure (λ e. pure tt)

unfoldable pub send_invalid_commit_welcome : World → ℕ → Act (Unit {0})
send_invalid_commit_welcome w transition_id = do
  has_callbacks ← gets (λ s. s.config.has_callbacks)
  when has_callbacks (logged (send_locked w (invalid_commit_welcome transition_id)))

unfoldable pub ready_dropped : SessionError → Act (Unit {0})
ready_dropped e = do
  active ← gets (λ s. is_set s.keys.active_epoch)
  when (not active) (watch_dropped_send e)

unfoldable pub send_ready_for_transition : World → ℕ → Act (Unit {0})
send_ready_for_transition w transition_id = do
  has_callbacks ← gets (λ s. s.config.has_callbacks)
  when has_callbacks
      (on_result (send_locked w (ready_for_transition transition_id)) pure ready_dropped)

-- The fields that invalidateMLSStateLocked clears.
abbrev pub without_mls_state : Group → Group
without_mls_state g = record g {
  mls_client = none;
  group_id = [];
  pending_group_id = [];
  pending_commit_bytes = [];
  pre_commit_group_state = [];
  proposal_queue = [];
  pending_key_package = [];
}

abbrev pub without_pending : Keys → Keys
without_pending k = record k { pending_epoch = none }

unfoldable pub invalidate_mls_state : World → Act (Unit {0})
invalidate_mls_state w = do
  on_group without_mls_state
  on_keys without_pending
  mark_degraded w
  reset_epoch_ready

unfoldable pub invalidate_and_resend_key_package : World → Act (Unit {0})
invalidate_and_resend_key_package w = do
  invalidate_mls_state w
  on_result (ensure_pending_key_package w) (λ done. watch_recovery false)
      (λ e. watch_recovery (is_send_failed e))
