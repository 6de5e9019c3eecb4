-- ===== src/Session/Proposals.antt =====
-- session/mls.go: a batch of proposals or of revoked proposals, as the gateway sends it.
use dave_go.Base.{
  ℕ, zero, suc, ◌+◌, ◌/◌, ◌%◌, List, [], ◌∷◌, length, take, drop, Option, none, some, Bool, true,
  false, not, ◌&&◌, ltb, ◌==◌, if◌then◌else◌, Result, ok, err, panic,
}
use dave_go.Base.Bytes.{slice}
use dave_go.Session.Types.{
  SessionError, mls_failed, proposal_too_short, empty_proposal, proposals_truncated,
  proposals_too_many, UserId,
}
use dave_go.Session.World.{
  World, Mls, MlsMessage, PublicMessage, Proposal, add_proposal, remove_proposal, other_proposal,
}
use dave_go.Session.Exec.{pure, fail, lift, gets, when, ◌>>=◌, ◌>>◌}
use dave_go.Session.Ops.{Act, count, contains_user}
use dave_go.Session.Status.{is_empty}
use dave_go.Session.Gateway.{or_mls_failed, unless_mls_failed, with_client}
use dave_go.Session.Wire.Identity.{identity_bytes_to_user_id}
use dave_go.Session.Wire.Vectors.{vector_body}

abbrev pub allowed_type : Option Proposal → Result SessionError Bool
allowed_type none = err mls_failed
allowed_type (some (add_proposal identity)) = ok true
allowed_type (some remove_proposal) = ok true
allowed_type (some other_proposal) = ok false

abbrev pub allowed_data : Mls → Option (List ℕ) → Result SessionError Bool
allowed_data mls none = ok false
allowed_data mls (some data_bytes) = allowed_type (mls.unmarshal_proposal data_bytes)

abbrev pub allowed_public : Mls → Option PublicMessage → Result SessionError Bool
allowed_public mls none = ok false
allowed_public mls (some p) =
    if p.sender_is_external && p.is_proposal then allowed_data mls p.proposal_data else ok false

unfoldable pub proposal_allowed_by_dave : Mls → MlsMessage → Result SessionError Bool
proposal_allowed_by_dave mls msg = allowed_public mls msg.public

abbrev pub user_of_identity : Result SessionError (UserId × ℕ) → Result SessionError (Option UserId)
user_of_identity (ok (user, id)) = ok (some user)
user_of_identity (err e) = err e
user_of_identity panic = panic

abbrev pub user_of_type : Option Proposal → Result SessionError (Option UserId)
user_of_type none = err mls_failed
user_of_type (some (add_proposal (some identity))) =
    user_of_identity (identity_bytes_to_user_id identity)
user_of_type (some (add_proposal none)) = ok none
user_of_type (some remove_proposal) = ok none
user_of_type (some other_proposal) = ok none

abbrev pub user_of_data : Mls → Option (List ℕ) → Result SessionError (Option UserId)
user_of_data mls none = ok none
user_of_data mls (some data_bytes) = user_of_type (mls.unmarshal_proposal data_bytes)

abbrev pub user_of_public : Mls → Option PublicMessage → Result SessionError (Option UserId)
user_of_public mls none = ok none
user_of_public mls (some p) = user_of_data mls p.proposal_data

-- The user that an Add adds; `none` for any other proposal.
unfoldable pub add_proposal_user_id : Mls → MlsMessage → Result SessionError (Option UserId)
add_proposal_user_id mls msg = user_of_public mls msg.public

-- Whether the user of an Add is expected.
abbrev pub expects : List UserId → Result SessionError (Option UserId) → Bool
expects users (ok (some user)) = contains_user user users
expects users (ok none) = true
expects users (err e) = false
expects users panic = false

-- What a proposal that failed inspection, or that is not allowed, comes to.
abbrev pub passes : Result SessionError Bool → Bool
passes (ok allowed) = allowed
passes (err e) = false
passes panic = false

-- The three tests that stand before ProcessPublicMessage. A proposal that fails any is rejected.
unfoldable pub inspect : Mls → List UserId → MlsMessage → Bool
inspect mls users msg =
    passes (proposal_allowed_by_dave mls msg) && expects users (add_proposal_user_id mls msg)

unfoldable pub reject : Act (Unit {0})
reject = count (λ t. record t { proposals_rejected = t.proposals_rejected + 1 })

-- Whether the proposal was accepted; `wire` is it as the gateway sent it.
unfoldable pub take_proposal : World → MlsMessage → List ℕ → Act Bool
take_proposal w msg wire = do
  users ← gets (λ s. s.protocol.users)
  group_id ← gets (λ s. s.group.group_id)
  if inspect w.mls users msg
      then (do
        processed ← with_client (λ client. w.mls.process_public_message client group_id wire)
        unless_mls_failed processed
        pure true)
      else (do reject; pure false)

-- The message at the start of the bytes left. That a message can be longer than the bytes it was read
-- from is a panic, at once.
unfoldable pub next_message : World → List ℕ → Act (MlsMessage × List ℕ × List ℕ)
next_message w remaining = do
  when (ltb (length remaining) 4) (fail proposal_too_short)
  msg ← or_mls_failed (w.mls.unmarshal_message remaining)
  when (is_empty msg.wire) (fail empty_proposal)
  wire ← lift (slice remaining 0 (length msg.wire))
  rest ← lift (slice remaining (length msg.wire) (length remaining))
  pure (msg, wire, rest)

-- The loop over the messages, with whether one has been accepted. Every round takes a byte at least.
unfoldable pub proposal_loop : World → ℕ → List ℕ → Bool → Act Bool
proposal_loop w fuel [] accepted = pure accepted
proposal_loop w zero (b ∷ bs) accepted = pure accepted
proposal_loop w (suc fuel) (b ∷ bs) accepted = do
  (msg, wire, rest) ← next_message w (b ∷ bs)
  taken ← take_proposal w msg wire
  proposal_loop w fuel rest (if taken then true else accepted)

abbrev proposal_ref_size : ℕ
proposal_ref_size = 32

abbrev max_revoke_refs : ℕ
max_revoke_refs = 256

abbrev pub split_refs : ℕ → List ℕ → List (List ℕ)
split_refs zero body = []
split_refs (suc n) body = take proposal_ref_size body ∷ split_refs n (drop proposal_ref_size body)

unfoldable pub revoke_refs : World → List ℕ → Act (Unit {0})
revoke_refs w body = do
  when (not (length body % proposal_ref_size == 0)) (fail proposals_truncated)
  let n = length body / proposal_ref_size
  when (ltb max_revoke_refs n) (fail proposals_too_many)
  group_id ← gets (λ s. s.group.group_id)
  revoked ← with_client (λ client. w.mls.revoke_proposals client group_id (split_refs n body))
  unless_mls_failed revoked

unfoldable pub process_revoke_proposals : World → List ℕ → Act (Unit {0})
process_revoke_proposals w payload = do
  body ← lift (vector_body payload)
  when (not (is_empty body)) (revoke_refs w body)

unfoldable pub process_append : World → List ℕ → Act Bool
process_append w payload = do
  body ← lift (vector_body payload)
  proposal_loop w (length body) body false

-- By the operation: 0 is append, 1 is revoke.
unfoldable pub process_operation : World → ℕ → List ℕ → Act Bool
process_operation w operation payload =
    if operation == 0
    then process_append w payload
    else (if operation == 1
        then (process_revoke_proposals w payload >>= λ done. pure false)
        else pure false)

unfoldable pub process_proposal_batch : World → List ℕ → Act Bool
process_proposal_batch w [] = pure false
process_proposal_batch w (operation ∷ payload) = do
  group_id ← gets (λ s. s.group.group_id)
  if is_empty group_id then pure false else process_operation w operation payload
