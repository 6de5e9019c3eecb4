-- ===== src/Session/Nonces/Groups.antt =====
-- Proposals, commits and Welcomes keep the keys safe.
use dave_go.Base.{ℕ, zero, suc, List, [], ◌∷◌, Bool, false, Option, none, some}
use dave_go.Session.Types.{SessionError}
use dave_go.Session.World.{
  World, MlsMessage, ExternalSender, Join, joined, not_joined, join_panicked,
}
use dave_go.Session.Exec.Keeps.{Keeps, fail-Keeps, pure-Keeps, if-Keeps}
use dave_go.Session.Proposals.{
  reject, take_proposal, next_message, proposal_loop, revoke_refs, process_revoke_proposals,
  process_append, process_operation, process_proposal_batch,
}
use dave_go.Session.Commits.{
  process_commit, restore_pre_commit_state, unwrapped, with_welcome, commit_payload, await_commit,
  commit_dropped, commit_proposals, commit_accepted, batch_of_client,
  process_and_commit_proposal_batch, commit_failed, commit_processed, apply_commit, restore_failed,
  reconcile_competing_commit,
}
use dave_go.Session.Welcomes.{
  join_result, join_with, join_group, or_invalid_sender, check_senders,
  validate_joined_welcome_external_sender, join_pending_welcome,
}
use dave_go.Session.Nonces.{AreSafe}
use dave_go.Session.Nonces.Frame.{OnKeys, frame_rules, go_watchdog-Keeps}
use dave_go.Session.Nonces.Requests.{request_rules}
use dave_go.Session.Nonces.Renewals.{renew_pending-Keeps}

reject-Keeps : Keeps (OnKeys AreSafe) reject
unfolding reject
reject-Keeps = search (frame_rules)

take_proposal-Keeps :
    (w : World) (msg : MlsMessage) (wire : List ℕ)
    → Keeps (OnKeys AreSafe) (take_proposal w msg wire)
unfolding take_proposal
take_proposal-Keeps w msg wire = search (request_rules, reject-Keeps) depth 9

next_message-Keeps : (w : World) (bytes : List ℕ) → Keeps (OnKeys AreSafe) (next_message w bytes)
unfolding next_message
next_message-Keeps w bytes = search (request_rules) depth 9

proposal_loop-Keeps :
    (w : World) (fuel : ℕ) (bytes : List ℕ) (accepted : Bool)
    → Keeps (OnKeys AreSafe) (proposal_loop w fuel bytes accepted)
unfolding proposal_loop
proposal_loop-Keeps w zero [] accepted = pure-Keeps accepted
proposal_loop-Keeps w (suc fuel) [] accepted = pure-Keeps accepted
proposal_loop-Keeps w zero (b ∷ bs) accepted = pure-Keeps accepted
proposal_loop-Keeps w (suc fuel) (b ∷ bs) accepted =
    search (request_rules, next_message-Keeps, take_proposal-Keeps, proposal_loop-Keeps w fuel)
      depth 9

revoke_refs-Keeps : (w : World) (body : List ℕ) → Keeps (OnKeys AreSafe) (revoke_refs w body)
unfolding revoke_refs
revoke_refs-Keeps w body = search (request_rules) depth 9

process_revoke-Keeps :
    (w : World) (payload : List ℕ) → Keeps (OnKeys AreSafe) (process_revoke_proposals w payload)
unfolding process_revoke_proposals
process_revoke-Keeps w payload = search (request_rules, revoke_refs-Keeps) depth 9

process_append-Keeps :
    (w : World) (payload : List ℕ) → Keeps (OnKeys AreSafe) (process_append w payload)
unfolding process_append
process_append-Keeps w payload = search (request_rules, proposal_loop-Keeps) depth 9

process_operation-Keeps :
    (w : World) (operation : ℕ) (payload : List ℕ)
    → Keeps (OnKeys AreSafe) (process_operation w operation payload)
unfolding process_operation
process_operation-Keeps w operation payload =
    search (request_rules, process_append-Keeps, process_revoke-Keeps) depth 9

process_batch-Keeps :
    (w : World) (proposals : List ℕ) → Keeps (OnKeys AreSafe) (process_proposal_batch w proposals)
unfolding process_proposal_batch
process_batch-Keeps w [] = pure-Keeps false
process_batch-Keeps w (operation ∷ payload) =
    search (request_rules, process_operation-Keeps) depth 9

pub restore-Keeps : (w : World) → Keeps (OnKeys AreSafe) (restore_pre_commit_state w)
unfolding restore_pre_commit_state
restore-Keeps w = search (request_rules) depth 9

process_commit-Keeps :
    (w : World) (commit : List ℕ) → Keeps (OnKeys AreSafe) (process_commit w commit)
unfolding process_commit
process_commit-Keeps w commit = search (request_rules, renew_pending-Keeps) depth 9

with_welcome-Keeps :
    (commit : List ℕ) (welcome : Option (List ℕ))
    → Keeps (OnKeys AreSafe) (with_welcome commit welcome)
with_welcome-Keeps commit none = fail-Keeps _
with_welcome-Keeps commit (some welcome) = pure-Keeps _

unwrapped-Keeps :
    (commit : List ℕ) (msg : Option MlsMessage) → Keeps (OnKeys AreSafe) (unwrapped commit msg)
unwrapped-Keeps commit none = fail-Keeps _
unwrapped-Keeps commit (some msg) = with_welcome-Keeps commit msg.welcome

commit_payload-Keeps :
    (w : World) (commit welcome : List ℕ) → Keeps (OnKeys AreSafe) (commit_payload w commit welcome)
unfolding commit_payload
commit_payload-Keeps w commit welcome = if-Keeps _ _ _ (pure-Keeps _) (unwrapped-Keeps commit _)

await_commit-Keeps : Keeps (OnKeys AreSafe) await_commit
unfolding await_commit
await_commit-Keeps = search (request_rules, go_watchdog-Keeps) depth 9

commit_dropped-Keeps : (w : World) (e : SessionError) → Keeps (OnKeys AreSafe) (commit_dropped w e)
unfolding commit_dropped
commit_dropped-Keeps w e = search (request_rules, restore-Keeps) depth 9

commit_proposals-Keeps : (w : World) → Keeps (OnKeys AreSafe) (commit_proposals w)
unfolding commit_proposals
commit_proposals-Keeps w =
    search
      (
        request_rules, renew_pending-Keeps, commit_payload-Keeps, await_commit-Keeps,
        commit_dropped-Keeps,
      )
      depth 14

commit_accepted-Keeps :
    (w : World) (proposals : List ℕ) (accepted : Bool)
    → Keeps (OnKeys AreSafe) (commit_accepted w proposals accepted)
unfolding commit_accepted
commit_accepted-Keeps w proposals accepted = search (request_rules, commit_proposals-Keeps) depth 9

batch_of_client-Keeps :
    (w : World) (proposals : List ℕ) → Keeps (OnKeys AreSafe) (batch_of_client w proposals)
unfolding batch_of_client
batch_of_client-Keeps w proposals =
    search (request_rules, process_batch-Keeps, commit_accepted-Keeps) depth 9

pub process_and_commit-Keeps :
    (w : World) (proposals : List ℕ)
    → Keeps (OnKeys AreSafe) (process_and_commit_proposal_batch w proposals)
unfolding process_and_commit_proposal_batch
process_and_commit-Keeps w proposals = search (request_rules, batch_of_client-Keeps) depth 9

commit_failed-Keeps :
    (w : World) (transition_id : ℕ) (e : SessionError)
    → Keeps (OnKeys AreSafe) (commit_failed w transition_id e)
unfolding commit_failed
commit_failed-Keeps w transition_id e = search (request_rules) depth 9

commit_processed-Keeps : Keeps (OnKeys AreSafe) commit_processed
unfolding commit_processed
commit_processed-Keeps = search (frame_rules)

apply_commit-Keeps :
    (w : World) (transition_id : ℕ) (commit : List ℕ)
    → Keeps (OnKeys AreSafe) (apply_commit w transition_id commit)
unfolding apply_commit
apply_commit-Keeps w transition_id commit =
    search (request_rules, process_commit-Keeps, commit_processed-Keeps, commit_failed-Keeps) depth
      9

restore_failed-Keeps :
    (w : World) (transition_id : ℕ) (e : SessionError)
    → Keeps (OnKeys AreSafe) (restore_failed w transition_id e)
unfolding restore_failed
restore_failed-Keeps w transition_id e = search (request_rules) depth 9

pub reconcile-Keeps :
    (w : World) (transition_id : ℕ) (commit : List ℕ)
    → Keeps (OnKeys AreSafe) (reconcile_competing_commit w transition_id commit)
unfolding reconcile_competing_commit
reconcile-Keeps w transition_id commit =
    search (request_rules, apply_commit-Keeps, restore-Keeps, restore_failed-Keeps) depth 9

join_result-Keeps : (answer : Join) → Keeps (OnKeys AreSafe) (join_result answer)
unfolding join_result
join_result-Keeps (joined group_id) = pure-Keeps group_id
join_result-Keeps not_joined = fail-Keeps _
join_result-Keeps join_panicked = search (frame_rules)

join_with-Keeps :
    (w : World) (welcome : List ℕ) (client : Option ℕ)
    → Keeps (OnKeys AreSafe) (join_with w welcome client)
unfolding join_with
join_with-Keeps w welcome none = join_result-Keeps join_panicked
join_with-Keeps w welcome (some client) = search (request_rules, join_result-Keeps) depth 9

join_group-Keeps : (w : World) (welcome : List ℕ) → Keeps (OnKeys AreSafe) (join_group w welcome)
unfolding join_group
join_group-Keeps w welcome = search (request_rules, join_with-Keeps) depth 9

or_invalid_sender-Keeps : {A : Type 0} (o : Option A) → Keeps (OnKeys AreSafe) (or_invalid_sender o)
or_invalid_sender-Keeps none = fail-Keeps _
or_invalid_sender-Keeps (some a) = pure-Keeps a

check_senders-Keeps :
    (expected : ExternalSender) (senders : List ExternalSender)
    → Keeps (OnKeys AreSafe) (check_senders expected senders)
check_senders-Keeps expected [] = fail-Keeps _
check_senders-Keeps expected (a ∷ []) = if-Keeps _ _ _ (pure-Keeps tt) (fail-Keeps _)
check_senders-Keeps expected (a ∷ b ∷ more) = fail-Keeps _

validate_welcome-Keeps :
    (w : World) (group_id : List ℕ)
    → Keeps (OnKeys AreSafe) (validate_joined_welcome_external_sender w group_id)
unfolding validate_joined_welcome_external_sender
validate_welcome-Keeps w group_id =
    search (request_rules, or_invalid_sender-Keeps, check_senders-Keeps) depth 14

pub join_pending_welcome-Keeps :
    (w : World) (welcome : List ℕ) → Keeps (OnKeys AreSafe) (join_pending_welcome w welcome)
unfolding join_pending_welcome
join_pending_welcome-Keeps w welcome =
    search (request_rules, join_group-Keeps, validate_welcome-Keeps, renew_pending-Keeps) depth 12
