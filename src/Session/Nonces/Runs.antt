-- ===== src/Session/Nonces/Runs.antt =====
-- Whatever happens to a session, no nonce is drawn twice for a ratchet.
use dave_go.Base.{
  ℕ, zero, suc, ◌≤◌, ◌^◌, ◌⊎◌, inl, inr, Bool-cases, ltb, ltb→lt, ltb→le, arith, List, length, Bool,
  false, not, ◌||◌, ◌==◌, Option, none, some,
}
use dave_go.Session.Status.{is_closed}
use dave_go.Session.Types.{SessionError, superseded, shut_down, Config, new_session, Watchdog}
use dave_go.Session.World.{World}
use dave_go.Session.Exec.{after}
use dave_go.Session.Exec.Keeps.{
  Keeps, pure-Keeps, bind-Keeps, if-Keeps, on_result-Keeps, gets-Keeps,
}
use dave_go.Session.Ops.{Act}
use dave_go.Session.Recovery.{
  RetryConfig, Others, is_shard_not_ready, send_attempt, add_retry_time, retry_start, give_up, wait,
  retry_after, retry_loop, retry_send, recovered, resend, recover, recover_after_timeout,
}
use dave_go.Session.Run.{
  Event, select_protocol_ack, prepare_transition, execute_transition, prepare_epoch,
  external_sender, proposals, prepare_commit, welcome, channel, media, timeout, Waits, no_wait,
  wait_for, Events, no_event, then_event, run_event, run_wait, run_events,
}
use dave_go.Session.Nonces.{AreSafe, IsDistinct}
use dave_go.Session.Nonces.Frame.{OnKeys, frame_rules}
use dave_go.Session.Nonces.Decrypts.{run_call-Keeps, ignore-Keeps}
use dave_go.Session.Nonces.Requests.{request_rules}
use dave_go.Session.Nonces.Handling.{
  ack-Keeps, prepare_transition-Keeps, execute_transition-Keeps, prepare_epoch-Keeps,
  set_channel-Keeps, external_sender-Keeps, proposals-Keeps, prepare_commit-Keeps, welcome-Keeps,
}

send_attempt-Keeps :
    (w : World) (ready : ℕ) (kp : List ℕ) → Keeps (OnKeys AreSafe) (send_attempt w ready kp)
unfolding send_attempt
send_attempt-Keeps w ready kp = search (request_rules) depth 9

add_retry_time-Keeps :
    (w : World) (start : Option ℕ) → Keeps (OnKeys AreSafe) (add_retry_time w start)
add_retry_time-Keeps w none = pure-Keeps tt
add_retry_time-Keeps w (some start) = search (frame_rules)

retry_start-Keeps : (w : World) (start : Option ℕ) → Keeps (OnKeys AreSafe) (retry_start w start)
retry_start-Keeps w none = search (frame_rules)
retry_start-Keeps w (some start) = pure-Keeps start

give_up-Keeps :
    (w : World) (start : Option ℕ) (e : SessionError) → Keeps (OnKeys AreSafe) (give_up w start e)
unfolding give_up
give_up-Keeps w start e = search (frame_rules, add_retry_time-Keeps)

module _ (w : World) (config : RetryConfig) (others : Others)
    (kept : (n delay : ℕ) → Keeps (OnKeys AreSafe) (others n delay)) where
  wait-Keeps :
      (ready n delay start : ℕ) (rounds : Act (Unit {0}))
      → Keeps (OnKeys AreSafe) rounds
      → Keeps (OnKeys AreSafe) (wait w others ready n delay start rounds)
  unfolding wait
  wait-Keeps ready n delay start rounds kr = bind-Keeps _ _ (kept n delay) (λ done.
      bind-Keeps _ _ (gets-Keeps _) (λ h.
        if-Keeps (is_closed ready h) _ _ (give_up-Keeps w (some start) superseded)
          (if-Keeps h.shutdown _ _ (give_up-Keeps w (some start) shut_down) kr)))

  retry_after-Keeps :
      (ready left n delay : ℕ) (start : Option ℕ) (rounds : ℕ → Act (Unit {0})) (e : SessionError)
      → ((begun : ℕ) → Keeps (OnKeys AreSafe) (rounds begun))
      → Keeps (OnKeys AreSafe) (retry_after w others ready left n delay start rounds e)
  unfolding retry_after is_shard_not_ready
  retry_after-Keeps ready left n delay start rounds e kr =
      bind-Keeps _ _ (gets-Keeps _) (λ transient.
        if-Keeps (not transient || left == 0) _ _ (give_up-Keeps w start e) (
          bind-Keeps _ _ (retry_start-Keeps w start)
            (λ begun. wait-Keeps ready n delay begun _ (kr begun))))

  retry_loop-Keeps :
      (ready : ℕ) (kp : List ℕ) (left n delay : ℕ) (start : Option ℕ)
      → Keeps (OnKeys AreSafe) (retry_loop w config others ready kp left n delay start)
  unfolding retry_loop
  retry_loop-Keeps ready kp zero n delay start = add_retry_time-Keeps w start
  retry_loop-Keeps ready kp (suc left) n delay start =
      on_result-Keeps _ _ _ (send_attempt-Keeps w ready kp) (λ sent. add_retry_time-Keeps w start)
        (λ e.
          retry_after-Keeps ready left n delay start _ e
            (λ begun. retry_loop-Keeps ready kp left _ _ (some begun)))

  recovered-Keeps : (next : ℕ) (dropped : Bool) → Keeps (OnKeys AreSafe) (recovered next dropped)
  unfolding recovered
  recovered-Keeps next dropped = search (request_rules) depth 9

  resend-Keeps : (next : ℕ) (kp : List ℕ) → Keeps (OnKeys AreSafe) (resend w config others next kp)
  unfolding resend retry_send
  resend-Keeps next kp =
      on_result-Keeps _ _ _ (retry_loop-Keeps next kp _ _ _ _) (λ sent. recovered-Keeps next false)
        (λ e. recovered-Keeps next _)

  recover-Keeps : (d : Watchdog) → Keeps (OnKeys AreSafe) (recover w config others d)
  unfolding recover
  recover-Keeps d = search (request_rules, recovered-Keeps, resend-Keeps) depth 9

  pub recover_after_timeout-Keeps :
      (d : Watchdog) → Keeps (OnKeys AreSafe) (recover_after_timeout w config others d)
  unfolding recover_after_timeout
  recover_after_timeout-Keeps d = search (frame_rules, recover-Keeps)

mutual
  unfolding run_event run_wait run_events

  run_event-Keeps :
      (w : World) (config : RetryConfig) (e : Event) → Keeps (OnKeys AreSafe) (run_event w config e)
  run_event-Keeps w config (select_protocol_ack version) = ack-Keeps w version
  run_event-Keeps w config (prepare_transition id version) = prepare_transition-Keeps w id version
  run_event-Keeps w config (execute_transition id) = execute_transition-Keeps w id
  run_event-Keeps w config (prepare_epoch epoch version) = prepare_epoch-Keeps w epoch version
  run_event-Keeps w config (external_sender sender_package) = external_sender-Keeps w sender_package
  run_event-Keeps w config (proposals batch) = proposals-Keeps w batch
  run_event-Keeps w config (prepare_commit id commit) = prepare_commit-Keeps w id commit
  run_event-Keeps w config (welcome id message) = welcome-Keeps w id message
  run_event-Keeps w config (channel id) = set_channel-Keeps w id
  run_event-Keeps w config (media call) = run_call-Keeps w call
  run_event-Keeps w config (timeout d waits) =
      recover_after_timeout-Keeps w config _ (λ n delay. run_wait-Keeps w config waits n) d

  run_wait-Keeps :
      (w : World) (config : RetryConfig) (waits : Waits) (n : ℕ)
      → Keeps (OnKeys AreSafe) (run_wait w config waits n)
  run_wait-Keeps w config no_wait n = pure-Keeps tt
  run_wait-Keeps w config (wait_for events waits) zero = run_events-Keeps w config events
  run_wait-Keeps w config (wait_for events waits) (suc n) = run_wait-Keeps w config waits n

  run_events-Keeps :
      (w : World) (config : RetryConfig) (es : Events)
      → Keeps (OnKeys AreSafe) (run_events w config es)
  run_events-Keeps w config no_event = pure-Keeps tt
  run_events-Keeps w config (then_event e es) =
      bind-Keeps _ _ (ignore-Keeps _ (run_event-Keeps w config e))
        (λ done. run_events-Keeps w config es)

new_session-AreSafe : (config : Config) → AreSafe config.user_id (new_session config).keys
new_session-AreSafe config h = record {
  counted = omega arith;
  allocated = tt;
  distinct = tt;
  live = tt;
  waiting = tt;
}

-- A session that is created and to which any events then happen, the calls of other goroutines and
-- watchdogs that time out included, has drawn 2^64 nonces or more in all, or it has never drawn a
-- nonce twice for one ratchet.
pub run_events-IsDistinct :
    (w : World) (config : RetryConfig) (settings : Config) (es : Events)
    → (2 ^ 64 ≤ length (after (run_events w config es) (new_session settings)).keys.drawn)
      ⊎ IsDistinct (after (run_events w config es) (new_session settings)).keys.drawn
run_events-IsDistinct w config settings es =
    let k = (after (run_events w config es) (new_session settings)).keys in
    let safe =
      (run_events-Keeps w config es).kept (new_session settings)
        (record { here = new_session-AreSafe settings }) in
    elim (Bool-cases (ltb (length k.drawn) (2 ^ 64))) [
      | inl few ↦ inr (safe.here (ltb→lt _ _ few)).distinct
      | inr many ↦ inl (ltb→le _ _ many)
    ]
