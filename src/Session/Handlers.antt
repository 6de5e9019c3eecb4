-- ===== src/Session/Handlers.antt =====
-- session/session.go: the handlers that the voice gateway calls, and session/mls.go: the epoch
-- authenticator.
pub mod Protocol
pub mod Groups
use dave_go.Base.{
  ℕ, List, [], Option, none, some, Bool, true, false, ◌==◌, if◌then◌else◌, Result, ok, err, panic,
  not, ◌||◌, ◌+◌,
}
use dave_go.Mediakeys.Displayable.{DisplayableError, displayable_code}
use dave_go.Session.Types.{
  Session, SessionError, no_active_epoch, displayable_failed, RatchetRef, Group, Keys,
}
use dave_go.Session.World.{World}
use dave_go.Session.Exec.{pure, fail, lift, gets, when, ◌>>=◌, ◌>>◌}
use dave_go.Session.Ops.{Act, on_keys, on_protocol, on_group, count, now}
use dave_go.Session.Status.{is_set, is_empty}
use dave_go.Session.Gateway.{or_mls_failed, from_client}

abbrev pub drop_send_keys : Keys → Keys
drop_send_keys k = record k {
  send_ratchet = none;
  retained_send_ratchet = none;
  retained_send_expires_at = none;
  send_cipher_key = [];
}

unfoldable pub set_transport_only : Bool → Act (Unit {0})
set_transport_only only = on_protocol (λ p. record p {
  transport_only = only;
  plaintext_rejected_from = if only then none else p.plaintext_rejected_from;
})

-- What OnSelectProtocolAck and OnDavePrepareEpoch clear of the epochs and of the group.
abbrev pub without_epochs : Keys → Keys
without_epochs k = record k { active_epoch = none; pending_epoch = none; retained_epoch = [] }

abbrev pub without_group : Group → Group
without_group g = record g {
  group_id = [];
  pending_group_id = [];
  pending_commit_bytes = [];
  pre_commit_group_state = [];
  proposal_queue = [];
}

abbrev pub without_client : Group → Group
without_client g = record g { pending_key_package = []; mls_client = none }

-- The send ratchet so far is retained, and there is no other.
abbrev pub retain_from : ℕ → Option RatchetRef → Keys → Keys
retain_from until none k = record k { send_ratchet = none }
retain_from until (some ref) k = record k {
  retained_send_ratchet = some ref;
  retained_send_expires_at = some until;
  send_ratchet = none;
}

unfoldable pub retain_until : ℕ → Keys → Keys
retain_until until k = retain_from until k.send_ratchet k

unfoldable pub retain_send_keys : World → Act (Unit {0})
retain_send_keys w = do
  sending ← gets (λ s. is_set s.keys.send_ratchet)
  when sending (do
    time ← now w
    ttl ← gets (λ s. s.config.send_retention_ttl)
    on_keys (retain_until (time + ttl))
    count (λ t. record t { transition_windows = t.transition_windows + 1 }))

abbrev authenticator : List ℕ → Act (List ℕ)
authenticator secret = if is_empty secret then fail no_active_epoch else pure secret

unfoldable pub epoch_authenticator : World → Act (List ℕ)
epoch_authenticator w = do
  s ← gets (λ s. s)
  when
      (not (is_set s.group.mls_client)
        || is_empty s.group.group_id
        || not (is_set s.keys.active_epoch))
      (fail no_active_epoch)
  client ← from_client s.group.mls_client
  secret ← or_mls_failed (w.mls.epoch_authenticator client s.group.group_id)
  authenticator secret

abbrev displayable_result : {A : Type 0} → Result DisplayableError A → Result SessionError A
displayable_result (ok a) = ok a
displayable_result (err e) = err (displayable_failed e)
displayable_result panic = panic

unfoldable pub epoch_authenticator_code : World → Act (List ℕ)
epoch_authenticator_code w = do
  secret ← epoch_authenticator w
  lift (displayable_result (displayable_code secret 30 5))
