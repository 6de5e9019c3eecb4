-- ===== src/Session/Nonces/Handling.antt =====
-- The handlers keep the keys safe.
use dave_go.Base.{ℕ, ◌+◌, ◌^◌, ◌<◌, List, length, Bool, Option, none, some}
use dave_go.Session.Types.{SessionError, UserId, RatchetRef, Keys}
use dave_go.Session.World.{World}
use dave_go.Session.Exec.Keeps.{
  Keeps, pure-Keeps, gets-Keeps, when-Keeps, bind-Keeps, on_result-Keeps,
}
use dave_go.Session.Ops.{on_keys}
use dave_go.Session.Handlers.{
  drop_send_keys, set_transport_only, without_epochs, retain_from, retain_until, retain_send_keys,
}
use dave_go.Session.Handlers.Protocol.{
  prepare_key_package, on_select_protocol_ack, initial_transition, on_dave_prepare_transition,
  downgrade, execute_prepared, on_dave_execute_transition, start_degraded, reset_epoch,
  on_dave_prepare_epoch, set_channel_id,
}
use dave_go.Session.Handlers.Groups.{
  creation_failed, on_dave_mls_external_sender_package, on_dave_mls_proposals, finish_transition,
  settle_commit, commit_with_client, on_dave_mls_prepare_commit_transition, welcome_failed,
  welcome_joined, join_with_client, join_welcome, roll_back, on_dave_mls_welcome,
}
use dave_go.Session.Nonces.{AreSafe, IsSafe, own_ref}
use dave_go.Session.Nonces.Steps.{drop-IsSafe, retain-IsSafe, no_pending-IsSafe}
use dave_go.Session.Nonces.Frame.{
  OnKeys, on_keys-Keeps, on_group-Keeps, frame_rules, now-Keeps, count-Keeps, end_degraded-Keeps,
  watch_dropped_send-Keeps,
}
use dave_go.Session.Nonces.Requests.{
  request_rules, ensure_pending_key_package-Keeps, create_group_with_external_sender-Keeps,
}
use dave_go.Session.Nonces.Groups.{
  restore-Keeps, process_and_commit-Keeps, reconcile-Keeps, join_pending_welcome-Keeps,
}
use dave_go.Session.Nonces.Activations.{activate_pending_epoch-Keeps, activate_sole_member-Keeps}

drop-Keeps : Keeps (OnKeys AreSafe) (on_keys drop_send_keys)
drop-Keeps = on_keys-Keeps _ (λ user k safe h.
    drop-IsSafe k.retained_send_ratchet k.send_ratchet (own_ref user k.pending_epoch) (safe h))

without_epochs-Keeps : Keeps (OnKeys AreSafe) (on_keys without_epochs)
without_epochs-Keeps = on_keys-Keeps _ (λ user k safe h.
    no_pending-IsSafe k.retained_send_ratchet k.send_ratchet (own_ref user k.pending_epoch)
      (safe h))

set_transport_only-Keeps : (only : Bool) → Keeps (OnKeys AreSafe) (set_transport_only only)
unfolding set_transport_only
set_transport_only-Keeps only = search (frame_rules)

small :
    (until : ℕ) (k : Keys) (sending : Option RatchetRef)
    → length (retain_from until sending k).drawn < 2 ^ 64
    → length k.drawn < 2 ^ 64
small until k none h = h
small until k (some ref) h = h

retained :
    (until : ℕ) (user : UserId) (k : Keys) (sending : Option RatchetRef)
    → IsSafe k.send_counter.counter sending k.retained_send_ratchet
        (own_ref user k.pending_epoch)
        (length k.ratchets)
        k.drawn
    → AreSafe user (retain_from until sending k)
retained until user k none s = λ h. s
retained until user k (some ref) s =
    λ h. retain-IsSafe k.retained_send_ratchet (own_ref user k.pending_epoch) ref s

retain-AreSafe :
    (until : ℕ) (user : UserId) (k : Keys) → AreSafe user k → AreSafe user (retain_until until k)
unfolding retain_until
retain-AreSafe until user k safe =
    λ h. retained until user k k.send_ratchet (safe (small until k k.send_ratchet h)) h

retain-Keeps : (w : World) → Keeps (OnKeys AreSafe) (retain_send_keys w)
unfolding retain_send_keys
retain-Keeps w = bind-Keeps _ _ (gets-Keeps _) (λ sending. when-Keeps _ _ (
    bind-Keeps _ _ (now-Keeps w) (λ time. bind-Keeps _ _ (gets-Keeps _) (λ ttl.
      bind-Keeps _ _ (on_keys-Keeps _ (retain-AreSafe (time + ttl))) (λ done. count-Keeps _)))))

prepare_key_package-Keeps : (w : World) → Keeps (OnKeys AreSafe) (prepare_key_package w)
unfolding prepare_key_package
prepare_key_package-Keeps w =
    on_result-Keeps _ _ _ (ensure_pending_key_package-Keeps w) (λ done. pure-Keeps done)
      watch_dropped_send-Keeps

pub ack-Keeps :
    (w : World) (version : ℕ) → Keeps (OnKeys AreSafe) (on_select_protocol_ack w version)
unfolding on_select_protocol_ack
ack-Keeps w version =
    search
      (
        request_rules, set_transport_only-Keeps, without_epochs-Keeps, end_degraded-Keeps,
        drop-Keeps, retain-Keeps, prepare_key_package-Keeps,
      )
      depth 16

initial-Keeps : (w : World) (version : ℕ) → Keeps (OnKeys AreSafe) (initial_transition w version)
unfolding initial_transition
initial-Keeps w version = search (request_rules, activate_sole_member-Keeps) depth 9

pub prepare_transition-Keeps :
    (w : World) (transition_id version : ℕ)
    → Keeps (OnKeys AreSafe) (on_dave_prepare_transition w transition_id version)
unfolding on_dave_prepare_transition
prepare_transition-Keeps w transition_id version = search (request_rules, initial-Keeps) depth 14

downgrade-Keeps : Keeps (OnKeys AreSafe) downgrade
unfolding downgrade
downgrade-Keeps = search (request_rules, drop-Keeps) depth 9

execute_prepared-Keeps :
    (w : World) (transition_id : ℕ) → Keeps (OnKeys AreSafe) (execute_prepared w transition_id)
unfolding execute_prepared
execute_prepared-Keeps w transition_id =
    search (request_rules, set_transport_only-Keeps, downgrade-Keeps, activate_pending_epoch-Keeps)
      depth 12

pub execute_transition-Keeps :
    (w : World) (transition_id : ℕ)
    → Keeps (OnKeys AreSafe) (on_dave_execute_transition w transition_id)
unfolding on_dave_execute_transition
execute_transition-Keeps w transition_id = search (request_rules, execute_prepared-Keeps) depth 9

start_degraded-Keeps : (w : World) → Keeps (OnKeys AreSafe) (start_degraded w)
unfolding start_degraded
start_degraded-Keeps w = search (frame_rules) depth 9

reset_epoch-Keeps : (w : World) (version : ℕ) → Keeps (OnKeys AreSafe) (reset_epoch w version)
unfolding reset_epoch
reset_epoch-Keeps w version =
    search
      (
        request_rules, set_transport_only-Keeps, start_degraded-Keeps, without_epochs-Keeps,
        retain-Keeps, prepare_key_package-Keeps,
      )
      depth 14

pub prepare_epoch-Keeps :
    (w : World) (epoch version : ℕ) → Keeps (OnKeys AreSafe) (on_dave_prepare_epoch w epoch version)
unfolding on_dave_prepare_epoch
prepare_epoch-Keeps w epoch version = search (request_rules, reset_epoch-Keeps) depth 9

pub set_channel-Keeps :
    (w : World) (channel : ℕ) → Keeps (OnKeys AreSafe) (set_channel_id w channel)
unfolding set_channel_id
set_channel-Keeps w channel = search (request_rules) depth 9

creation_failed-Keeps : (e : SessionError) → Keeps (OnKeys AreSafe) (creation_failed e)
unfolding creation_failed
creation_failed-Keeps e = when-Keeps _ _ (watch_dropped_send-Keeps e)

pub external_sender-Keeps :
    (w : World) (sender_package : List ℕ)
    → Keeps (OnKeys AreSafe) (on_dave_mls_external_sender_package w sender_package)
unfolding on_dave_mls_external_sender_package
external_sender-Keeps w sender_package = bind-Keeps _ _ (on_group-Keeps _) (λ done.
    on_result-Keeps _ _ _ (create_group_with_external_sender-Keeps w)
      (λ created. pure-Keeps created) creation_failed-Keeps)

pub proposals-Keeps :
    (w : World) (batch : List ℕ) → Keeps (OnKeys AreSafe) (on_dave_mls_proposals w batch)
unfolding on_dave_mls_proposals
proposals-Keeps w batch = search (request_rules, process_and_commit-Keeps) depth 9

finish-Keeps :
    (w : World) (transition_id : ℕ) → Keeps (OnKeys AreSafe) (finish_transition w transition_id)
unfolding finish_transition
finish-Keeps w transition_id = search (request_rules, activate_pending_epoch-Keeps) depth 9

settle_commit-Keeps :
    (w : World) (transition_id : ℕ) (commit : List ℕ)
    → Keeps (OnKeys AreSafe) (settle_commit w transition_id commit)
unfolding settle_commit
settle_commit-Keeps w transition_id commit = search (request_rules, reconcile-Keeps) depth 9

commit_with_client-Keeps :
    (w : World) (transition_id : ℕ) (commit : List ℕ)
    → Keeps (OnKeys AreSafe) (commit_with_client w transition_id commit)
unfolding commit_with_client
commit_with_client-Keeps w transition_id commit =
    search (request_rules, settle_commit-Keeps, finish-Keeps) depth 9

pub prepare_commit-Keeps :
    (w : World) (transition_id : ℕ) (commit : List ℕ)
    → Keeps (OnKeys AreSafe) (on_dave_mls_prepare_commit_transition w transition_id commit)
unfolding on_dave_mls_prepare_commit_transition
prepare_commit-Keeps w transition_id commit =
    search (request_rules, commit_with_client-Keeps) depth 9

welcome_failed-Keeps :
    (w : World) (transition_id : ℕ) (e : SessionError)
    → Keeps (OnKeys AreSafe) (welcome_failed w transition_id e)
unfolding welcome_failed
welcome_failed-Keeps w transition_id e = search (request_rules) depth 9

welcome_joined-Keeps :
    (w : World) (transition_id : ℕ) → Keeps (OnKeys AreSafe) (welcome_joined w transition_id)
unfolding welcome_joined
welcome_joined-Keeps w transition_id = search (request_rules, finish-Keeps) depth 9

join_with_client-Keeps :
    (w : World) (transition_id : ℕ) (message : List ℕ)
    → Keeps (OnKeys AreSafe) (join_with_client w transition_id message)
unfolding join_with_client
join_with_client-Keeps w transition_id message =
    search (request_rules, join_pending_welcome-Keeps, welcome_joined-Keeps, welcome_failed-Keeps)
      depth 9

join_welcome-Keeps :
    (w : World) (transition_id : ℕ) (message : List ℕ)
    → Keeps (OnKeys AreSafe) (join_welcome w transition_id message)
unfolding join_welcome
join_welcome-Keeps w transition_id message = search (request_rules, join_with_client-Keeps) depth 9

roll_back-Keeps :
    (w : World) (transition_id : ℕ) (message : List ℕ)
    → Keeps (OnKeys AreSafe) (roll_back w transition_id message)
unfolding roll_back
roll_back-Keeps w transition_id message =
    search (request_rules, restore-Keeps, join_welcome-Keeps) depth 9

pub welcome-Keeps :
    (w : World) (transition_id : ℕ) (message : List ℕ)
    → Keeps (OnKeys AreSafe) (on_dave_mls_welcome w transition_id message)
unfolding on_dave_mls_welcome
welcome-Keeps w transition_id message =
    search (request_rules, join_welcome-Keeps, roll_back-Keeps) depth 9
