-- ===== src/Session/Commits.antt =====
-- session/mls.go and session/session.go: commits, the session's own and those that the gateway
-- announces.
use dave_go.Base.{
  ℕ, ◌+◌, List, [], ◌∷◌, ◌++◌, Option, none, some, Bool, true, false, not, ◌||◌, ◌==◌,
  if◌then◌else◌, Result, ok, err,
}
use dave_go.Session.Types.{
  SessionError, mls_failed, no_active_group, no_pre_commit_state, inline_proposal_in_commit,
  expected_welcome, Group, EpochState, commit_welcome,
}
use dave_go.Session.World.{World, Mls, MlsMessage, PublicMessage}
use dave_go.Session.Exec.{pure, fail, lift, gets, on_result, when, ◌>>=◌, ◌>>◌}
use dave_go.Session.Ops.{Act, on_keys, on_group, count}
use dave_go.Session.Status.{is_empty, reset_epoch_ready}
use dave_go.Session.Gateway.{
  send_locked, or_mls_failed, unless_mls_failed, current_client, with_client, ensure_mls_client,
  go_watchdog, watch_dropped_send, send_invalid_commit_welcome, invalidate_and_resend_key_package,
  logged, without_pending,
}
use dave_go.Session.Epochs.{rebuild_epoch_state}
use dave_go.Session.Proposals.{process_proposal_batch}

-- `true` stands for a proposal that the commit holds itself.
abbrev pub none_inline : Option (List Bool) → Result SessionError (Unit {0})
none_inline none = err mls_failed
none_inline (some []) = ok tt
none_inline (some (inline ∷ rest)) =
    let others = none_inline (some rest) in if inline then err inline_proposal_in_commit else others

abbrev pub commit_data_refs : Mls → Option (List ℕ) → Result SessionError (Unit {0})
commit_data_refs mls none = err inline_proposal_in_commit
commit_data_refs mls (some []) = err inline_proposal_in_commit
commit_data_refs mls (some (b ∷ bs)) = none_inline (mls.unmarshal_commit (b ∷ bs))

abbrev pub public_refs : Mls → Option PublicMessage → Result SessionError (Unit {0})
public_refs mls none = err inline_proposal_in_commit
public_refs mls (some p) = commit_data_refs mls p.commit_data

abbrev pub message_refs : Mls → Option MlsMessage → Result SessionError (Unit {0})
message_refs mls none = err mls_failed
message_refs mls (some msg) = public_refs mls msg.public

unfoldable pub validate_commit_proposal_refs : Mls → List ℕ → Result SessionError (Unit {0})
validate_commit_proposal_refs mls commit = message_refs mls (mls.unmarshal_message commit)

-- The pending epoch, of the group given.
unfoldable pub set_pending : EpochState → List ℕ → Act (Unit {0})
set_pending epoch group_id = do
  on_keys (λ k. record k { pending_epoch = some epoch })
  on_group (λ g. record g { pending_group_id = group_id })

-- The keys of the group's epoch, pending.
unfoldable pub renew_pending : World → List ℕ → Act (Unit {0})
renew_pending w group_id = do epoch ← rebuild_epoch_state w group_id; set_pending epoch group_id

unfoldable pub process_commit : World → List ℕ → Act (Unit {0})
process_commit w commit = do
  group_id ← gets (λ s. s.group.group_id)
  when (is_empty group_id) (fail no_active_group)
  lift (validate_commit_proposal_refs w.mls commit)
  processed ← with_client (λ client. w.mls.process_commit client group_id commit)
  unless_mls_failed processed
  renew_pending w group_id

abbrev without_commit : Group → Group
without_commit g = record g {
  pending_group_id = [];
  pending_commit_bytes = [];
  pre_commit_group_state = [];
}

unfoldable pub restore_pre_commit_state : World → Act (Unit {0})
restore_pre_commit_state w = do
  g ← gets (λ s. s.group)
  when (is_empty g.pre_commit_group_state) (fail no_pre_commit_state)
  saved ← with_client (λ client. w.mls.save_group_state client g.group_id g.pre_commit_group_state)
  unless_mls_failed saved
  on_keys without_pending
  on_group without_commit

-- The Welcome is sent without the message around it.
abbrev pub with_welcome : List ℕ → Option (List ℕ) → Act (List ℕ)
with_welcome commit none = fail expected_welcome
with_welcome commit (some welcome) = pure (commit ++ welcome)

abbrev pub unwrapped : List ℕ → Option MlsMessage → Act (List ℕ)
unwrapped commit none = fail mls_failed
unwrapped commit (some msg) = with_welcome commit msg.welcome

unfoldable pub commit_payload : World → List ℕ → List ℕ → Act (List ℕ)
commit_payload w commit welcome =
    if is_empty welcome then pure commit else unwrapped commit (w.mls.unmarshal_message welcome)

-- The watchdog that waits for the gateway to confirm the commit.
unfoldable pub await_commit : Act (Unit {0})
await_commit = do
  reset_epoch_ready
  ready ← gets (λ s. s.health.epoch_ready)
  transition_id ← gets (λ s. s.protocol.pending_transition_id)
  go_watchdog (record { ready = ready; transition_id = transition_id; needs_pending = true })

unfoldable pub commit_dropped : World → SessionError → Act (Unit {0})
commit_dropped w e = do logged (restore_pre_commit_state w); watch_dropped_send e

-- The epoch that the commit leads to is pending until the gateway confirms the commit.
unfoldable pub commit_proposals : World → Act (Unit {0})
commit_proposals w = do
  group_id ← gets (λ s. s.group.group_id)
  client ← current_client
  pre_state ← or_mls_failed (w.mls.load_group_state client group_id)
  made ← with_client (λ c. w.mls.commit_pending_proposals c group_id)
  (commit, welcome) ← or_mls_failed made
  on_group (λ g. record g { pending_commit_bytes = commit; pre_commit_group_state = pre_state })
  renew_pending w group_id
  payload ← commit_payload w commit welcome
  has_callbacks ← gets (λ s. s.config.has_callbacks)
  when has_callbacks
      (on_result (send_locked w (commit_welcome payload)) (λ sent. await_commit) (commit_dropped w))

abbrev is_revoke : List ℕ → Bool
is_revoke [] = false
is_revoke (operation ∷ payload) = operation == 1

unfoldable pub commit_accepted : World → List ℕ → Bool → Act (Unit {0})
commit_accepted w proposals accepted = do
  group_id ← gets (λ s. s.group.group_id)
  when (not (is_empty group_id || is_revoke proposals || not accepted))
      (logged (commit_proposals w))

unfoldable pub batch_of_client : World → List ℕ → Act (Unit {0})
batch_of_client w proposals =
    on_result (process_proposal_batch w proposals) (commit_accepted w proposals) (λ e. pure tt)

unfoldable pub process_and_commit_proposal_batch : World → List ℕ → Act (Unit {0})
process_and_commit_proposal_batch w proposals =
    on_result (ensure_mls_client w) (λ done. batch_of_client w proposals) (λ e. pure tt)

-- The winning commit is processed from the state before the session's own.
unfoldable pub commit_failed : World → ℕ → SessionError → Act Bool
commit_failed w transition_id e = do
  count (λ t. record t { commits_failed = t.commits_failed + 1 })
  send_invalid_commit_welcome w transition_id
  invalidate_and_resend_key_package w
  pure false

unfoldable pub commit_processed : Act Bool
commit_processed = do
  count (λ t. record t { commits_processed = t.commits_processed + 1 })
  pure true

unfoldable pub apply_commit : World → ℕ → List ℕ → Act Bool
apply_commit w transition_id commit =
    on_result (process_commit w commit) (λ done. commit_processed) (commit_failed w transition_id)

unfoldable pub restore_failed : World → ℕ → SessionError → Act Bool
restore_failed w transition_id e = do send_invalid_commit_welcome w transition_id; pure false

unfoldable pub reconcile_competing_commit : World → ℕ → List ℕ → Act Bool
reconcile_competing_commit w transition_id commit = do
  own ← gets (λ s. s.group.pending_commit_bytes)
  if is_empty own
      then apply_commit w transition_id commit
      else on_result (restore_pre_commit_state w) (λ done. apply_commit w transition_id commit)
          (restore_failed w transition_id)
