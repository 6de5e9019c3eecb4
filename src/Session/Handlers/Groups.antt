-- ===== src/Session/Handlers/Groups.antt =====
-- session/session.go: the handlers of the opcodes that carry MLS messages.
use dave_go.Base.{ℕ, List, [], ◌∷◌, ◌++◌, Bool, true, false, ◌==◌, if◌then◌else◌, not, ◌&&◌, ◌+◌}
use dave_go.Base.Bytes.{bytes_equal}
use dave_go.Session.Types.{SessionError, no_channel_id}
use dave_go.Session.World.{World}
use dave_go.Session.Exec.{pure, gets, on_result, when, ◌>>=◌, ◌>>◌}
use dave_go.Session.Ops.{Act, on_protocol, on_group, count}
use dave_go.Session.Status.{is_set, is_empty}
use dave_go.Session.Gateway.{
  ensure_mls_client, watch_dropped_send, send_invalid_commit_welcome, send_ready_for_transition,
  invalidate_and_resend_key_package,
}
use dave_go.Session.Epochs.{create_group_with_external_sender}
use dave_go.Session.Commits.{
  restore_pre_commit_state, reconcile_competing_commit, process_and_commit_proposal_batch,
}
use dave_go.Session.Activation.{activate_pending_epoch}
use dave_go.Session.Welcomes.{join_pending_welcome}

-- errors.Is(err, ErrNoChannelID)
abbrev is_no_channel_id : SessionError → Bool
is_no_channel_id no_channel_id = true
is_no_channel_id e = false

unfoldable pub creation_failed : SessionError → Act (Unit {0})
creation_failed e = when (not (is_no_channel_id e)) (watch_dropped_send e)

unfoldable pub on_dave_mls_external_sender_package : World → List ℕ → Act (Unit {0})
on_dave_mls_external_sender_package w sender_package = do
  on_group (λ g. record g { external_sender_package = sender_package })
  on_result (create_group_with_external_sender w) pure creation_failed

-- A batch that comes while an epoch is pending waits for its activation.
unfoldable pub on_dave_mls_proposals : World → List ℕ → Act (Unit {0})
on_dave_mls_proposals w proposals = do
  on_group (λ g. record g { last_proposal_batch = proposals })
  pending ← gets (λ s. is_set s.keys.pending_epoch)
  if pending
      then on_group (λ g. record g { proposal_queue = g.proposal_queue ++ (proposals ∷ []) })
      else process_and_commit_proposal_batch w proposals

-- A transition with a number is acknowledged, and transition 0 is executed at once.
unfoldable pub finish_transition : World → ℕ → Act (Unit {0})
finish_transition w transition_id =
    if not (transition_id == 0) then send_ready_for_transition w transition_id else (do
      on_protocol (λ p. record p { active_transition_id = 0 })
      activate_pending_epoch w
      on_protocol (λ p. record p { pending_transition_id = 0 }))

-- Whether the pending epoch is now that of the commit.
unfoldable pub settle_commit : World → ℕ → List ℕ → Act Bool
settle_commit w transition_id commit = do
  s ← gets (λ s. s)
  if is_set s.keys.pending_epoch && bytes_equal s.group.pending_commit_bytes commit
      then (do
        on_group (λ g. record g { pending_commit_bytes = []; pre_commit_group_state = [] })
        pure true)
      else reconcile_competing_commit w transition_id commit

unfoldable pub commit_with_client : World → ℕ → List ℕ → Act (Unit {0})
commit_with_client w transition_id commit = do
  settled ← settle_commit w transition_id commit
  when settled (finish_transition w transition_id)

unfoldable pub on_dave_mls_prepare_commit_transition : World → ℕ → List ℕ → Act (Unit {0})
on_dave_mls_prepare_commit_transition w transition_id commit = do
  on_protocol (λ p. record p { pending_transition_id = transition_id })
  on_result (ensure_mls_client w) (λ done. commit_with_client w transition_id commit) (λ e. pure tt)

unfoldable pub welcome_failed : World → ℕ → SessionError → Act (Unit {0})
welcome_failed w transition_id e = do
  count (λ t. record t { welcomes_failed = t.welcomes_failed + 1 })
  send_invalid_commit_welcome w transition_id
  invalidate_and_resend_key_package w

unfoldable pub welcome_joined : World → ℕ → Act (Unit {0})
welcome_joined w transition_id = do
  count (λ t. record t { welcomes_joined = t.welcomes_joined + 1 })
  finish_transition w transition_id

unfoldable pub join_with_client : World → ℕ → List ℕ → Act (Unit {0})
join_with_client w transition_id welcome =
    on_result (join_pending_welcome w welcome) (λ done. welcome_joined w transition_id)
      (welcome_failed w transition_id)

unfoldable pub join_welcome : World → ℕ → List ℕ → Act (Unit {0})
join_welcome w transition_id welcome =
    on_result (ensure_mls_client w) (λ done. join_with_client w transition_id welcome)
      (λ e. pure tt)

unfoldable pub roll_back : World → ℕ → List ℕ → Act (Unit {0})
roll_back w transition_id welcome =
    on_result (restore_pre_commit_state w)
      (λ done. do
        on_group (λ g. record g { proposal_queue = [] })
        join_welcome w transition_id welcome)
      (λ e. send_invalid_commit_welcome w transition_id)

unfoldable pub on_dave_mls_welcome : World → ℕ → List ℕ → Act (Unit {0})
on_dave_mls_welcome w transition_id welcome = do
  on_protocol (λ p. record p { pending_transition_id = transition_id })
  own ← gets (λ s. s.group.pending_commit_bytes)
  if is_empty own then join_welcome w transition_id welcome else roll_back w transition_id welcome
