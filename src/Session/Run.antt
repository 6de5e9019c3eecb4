-- ===== src/Session/Run.antt =====
-- What happens to a session: the calls of the voice layer, those of the gateway's handlers, and the
-- watchdogs that time out, one after the other, since the locks keep them apart.
use dave_go.Base.{ℕ, zero, suc, List}
use dave_go.Session.Types.{Watchdog, MediaCall}
use dave_go.Session.World.{World}
use dave_go.Session.Exec.{pure, ◌>>◌}
use dave_go.Session.Ops.{Act}
use dave_go.Session.Media.Concurrent.{ignore, run_call}
use dave_go.Session.Handlers.Protocol.{
  on_select_protocol_ack, on_dave_prepare_transition, on_dave_execute_transition,
  on_dave_prepare_epoch, set_channel_id,
}
use dave_go.Session.Handlers.Groups.{
  on_dave_mls_external_sender_package, on_dave_mls_proposals, on_dave_mls_prepare_commit_transition,
  on_dave_mls_welcome,
}
use dave_go.Session.Recovery.{RetryConfig, recover_after_timeout}

-- Any watchdog may time out at any time, and it waits several times while it retries; the events of
-- each wait come with it.
mutual
  pub data Event : Type 0 where
    select_protocol_ack : ℕ → Event
    prepare_transition : ℕ → ℕ → Event
    execute_transition : ℕ → Event
    prepare_epoch : ℕ → ℕ → Event
    external_sender : List ℕ → Event
    proposals : List ℕ → Event
    prepare_commit : ℕ → List ℕ → Event
    welcome : ℕ → List ℕ → Event
    channel : ℕ → Event
    media : MediaCall → Event
    timeout : Watchdog → Waits → Event

  pub data Waits : Type 0 where
    no_wait : Waits
    wait_for : Events → Waits → Waits

  pub data Events : Type 0 where
    no_event : Events
    then_event : Event → Events → Events

unfoldable mutual
  pub run_event : World → RetryConfig → Event → Act (Unit {0})
  run_event w config (select_protocol_ack version) = on_select_protocol_ack w version
  run_event w config (prepare_transition id version) = on_dave_prepare_transition w id version
  run_event w config (execute_transition id) = on_dave_execute_transition w id
  run_event w config (prepare_epoch epoch version) = on_dave_prepare_epoch w epoch version
  run_event w config (external_sender sender_package) =
      on_dave_mls_external_sender_package w sender_package
  run_event w config (proposals batch) = on_dave_mls_proposals w batch
  run_event w config (prepare_commit id commit) = on_dave_mls_prepare_commit_transition w id commit
  run_event w config (welcome id message) = on_dave_mls_welcome w id message
  run_event w config (channel id) = set_channel_id w id
  run_event w config (media call) = run_call w call
  run_event w config (timeout d waits) =
      recover_after_timeout w config (λ n delay. run_wait w config waits n) d

  -- The events of the n-th wait.
  pub run_wait : World → RetryConfig → Waits → ℕ → Act (Unit {0})
  run_wait w config no_wait n = pure tt
  run_wait w config (wait_for events waits) zero = run_events w config events
  run_wait w config (wait_for events waits) (suc n) = run_wait w config waits n

  pub run_events : World → RetryConfig → Events → Act (Unit {0})
  run_events w config no_event = pure tt
  run_events w config (then_event e es) = do ignore (run_event w config e); run_events w config es
