-- ===== src/Session/Recovery.antt =====
-- session/retry.go and session/close.go, and recoverAfterTimeout of session/mls.go: the watchdogs, and
-- the end of the session. A watchdog takes the locks several times; what runs in between is given.
use dave_go.Base.{
  ℕ, zero, suc, ◌+◌, ◌-◌, ◌*◌, min, List, length, Option, none, some, Bool, true, false, not, ◌&&◌,
  ◌||◌, ◌==◌, if◌then◌else◌,
}
use dave_go.Session.Types.{Session, SessionError, shut_down, superseded, Watchdog}
use dave_go.Session.World.{World}
use dave_go.Session.Exec.{pure, fail, gets, on_result, when, ◌>>=◌, ◌>>◌}
use dave_go.Session.Ops.{Act, on_health, count, now}
use dave_go.Session.Status.{is_set, is_closed}
use dave_go.Session.Gateway.{
  is_send_failed, send_invalid_commit_welcome, invalidate_mls_state, fresh_key_package,
  send_key_package, watch_recovery,
}

-- Close. Its goroutine only waits.
unfoldable pub close : Act (Unit {0})
close = on_health (λ h. record h { shutdown = true })

-- retryConfig, in nanoseconds.
pub record RetryConfig : Type 0 where
  pub delay : ℕ
  pub max_delay : ℕ
  pub max_attempts : ℕ

abbrev pub default_retry_config : RetryConfig
default_retry_config = record {
  delay = 500 * 1000000;
  max_delay = 5 * 1000000000;
  max_attempts = 6;
}

-- What the other goroutines do to the session during the n-th wait, which takes the time given.
abbrev pub Others : Type 0
Others = ℕ → ℕ → Act (Unit {0})

-- Only the gateway's error has that text; it is that of the last callback.
unfoldable pub is_shard_not_ready : World → SessionError → Act Bool
is_shard_not_ready w e = gets (λ s. is_send_failed e && w.shard_not_ready (length s.calls.sent - 1))

unfoldable pub send_attempt : World → ℕ → List ℕ → Act (Unit {0})
send_attempt w ready kp = do
  h ← gets (λ s. s.health)
  when h.shutdown (fail shut_down)
  when (is_closed ready h) (fail superseded)
  send_key_package w kp

-- The deferred function of retrySend, on the time of the first failure that was retried.
abbrev pub add_retry_time : World → Option ℕ → Act (Unit {0})
add_retry_time w none = pure tt
add_retry_time w (some start) = do
  time ← now w
  count (λ t. record t { transport_retry_duration = t.transport_retry_duration + (time - start) })

abbrev pub retry_start : World → Option ℕ → Act ℕ
retry_start w none = now w
retry_start w (some start) = pure start

unfoldable pub give_up : World → Option ℕ → SessionError → Act (Unit {0})
give_up w start e = do add_retry_time w start; fail e

abbrev pub next_delay : RetryConfig → ℕ → ℕ
next_delay config delay = min (delay * 2) config.max_delay

-- The wait ends early when the channel or the session closes.
unfoldable pub wait : World → Others → ℕ → ℕ → ℕ → ℕ → Act (Unit {0}) → Act (Unit {0})
wait w others ready n delay start rounds = do
  others n delay
  h ← gets (λ s. s.health)
  if is_closed ready h
      then give_up w (some start) superseded
      else (if h.shutdown then give_up w (some start) shut_down else rounds)

unfoldable pub retry_after :
    World → Others → ℕ → ℕ → ℕ → ℕ → Option ℕ → (ℕ → Act (Unit {0})) → SessionError → Act (Unit {0})
retry_after w others ready left n delay start rounds e = do
  transient ← is_shard_not_ready w e
  if not transient || left == 0
      then give_up w start e
      else (do begun ← retry_start w start; wait w others ready n delay begun (rounds begun))

-- The loop of retrySend, from the n-th attempt on, with the attempts left.
unfoldable pub retry_loop :
    World → RetryConfig → Others → ℕ → List ℕ → ℕ → ℕ → ℕ → Option ℕ → Act (Unit {0})
retry_loop w config others ready kp zero n delay start = add_retry_time w start
retry_loop w config others ready kp (suc left) n delay start =
    on_result (send_attempt w ready kp) (λ sent. add_retry_time w start)
      (retry_after w others ready left n delay start (λ begun.
        retry_loop w config others ready kp left (n + 1) (next_delay config delay) (some begun)))

unfoldable pub retry_send : World → RetryConfig → Others → ℕ → List ℕ → Act (Unit {0})
retry_send w config others ready kp =
    retry_loop w config others ready kp config.max_attempts 0 config.delay none

-- Whether the watchdog that timed out is still wanted.
abbrev pub is_wanted : Watchdog → Session → Bool
is_wanted d s = not (
    s.health.shutdown
    || is_closed d.ready s.health
    || (d.needs_pending && not (is_set s.keys.pending_epoch)))

-- The last part of recoverAfterTimeout, with whether the error is of a send.
unfoldable pub recovered : ℕ → Bool → Act (Unit {0})
recovered next dropped = do
  h ← gets (λ s. s.health)
  when (not (h.shutdown || is_closed next h)) (watch_recovery dropped)

-- The parts without the locks on: the send of the key package with its retries.
unfoldable pub resend : World → RetryConfig → Others → ℕ → List ℕ → Act (Unit {0})
resend w config others next kp =
    on_result (retry_send w config others next kp) (λ sent. recovered next false)
      (λ e. recovered next (is_send_failed e))

unfoldable pub recover : World → RetryConfig → Others → Watchdog → Act (Unit {0})
recover w config others d = do
  on_health (λ h. record h { recovery_attempts = h.recovery_attempts + 1 })
  send_invalid_commit_welcome w d.transition_id
  invalidate_mls_state w
  next ← gets (λ s. s.health.epoch_ready)
  on_result (fresh_key_package w) (resend w config others next)
      (λ e. recovered next (is_send_failed e))

unfoldable pub recover_after_timeout : World → RetryConfig → Others → Watchdog → Act (Unit {0})
recover_after_timeout w config others d = do
  wanted ← gets (is_wanted d)
  when wanted (recover w config others d)
