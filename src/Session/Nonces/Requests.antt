-- ===== src/Session/Nonces/Requests.antt =====
-- What the session asks of mls-go and of the gateway keeps the keys safe.
use dave_go.Base.{ℕ, List, Bool, true, false, Option, none, some}
use dave_go.Session.Types.{SessionError, UserId, Keys}
use dave_go.Session.World.{World}
use dave_go.Session.Exec.Keeps.{Keeps, keeps_rules, on_result-Keeps, pure-Keeps}
use dave_go.Session.Ops.{Act, on_keys}
use dave_go.Session.Gateway.{
  or_mls_failed, unless_mls_failed, from_client, current_client, with_client, install_client,
  ensure_client, ensure_mls_client, fresh_key_package, send_key_package, ensure_pending_key_package,
  logged, send_invalid_commit_welcome, ready_dropped, send_ready_for_transition, without_pending,
  invalidate_mls_state, invalidate_and_resend_key_package,
}
use dave_go.Session.Epochs.{create_group, create_group_with_external_sender}
use dave_go.Session.Nonces.{AreSafe, own_ref}
use dave_go.Session.Nonces.Steps.{no_pending-IsSafe}
use dave_go.Session.Nonces.Frame.{
  OnKeys, on_keys-Keeps, frame_rules, reset_epoch_ready-Keeps, mark_degraded-Keeps,
  watch_recovery-Keeps, watch_dropped_send-Keeps,
}
use dave_go.Session.Nonces.Decrypts.{send_locked-Keeps}

module _ {K : UserId → Keys → Type 0} where
  pub or_mls_failed-Keeps : {A : Type 0} (o : Option A) → Keeps (OnKeys K) (or_mls_failed o)
  or_mls_failed-Keeps none = search (keeps_rules)
  or_mls_failed-Keeps (some a) = search (keeps_rules)

  pub unless_mls_failed-Keeps : (done : Bool) → Keeps (OnKeys K) (unless_mls_failed done)
  unless_mls_failed-Keeps true = search (keeps_rules)
  unless_mls_failed-Keeps false = search (keeps_rules)

  from_client-Keeps : (client : Option ℕ) → Keeps (OnKeys K) (from_client client)
  from_client-Keeps none = search (keeps_rules)
  from_client-Keeps (some client) = search (keeps_rules)

  pub current_client-Keeps : Keeps (OnKeys K) current_client
  unfolding current_client
  current_client-Keeps = search (keeps_rules, from_client-Keeps)

  pub with_client-Keeps : {A : Type 0} (call : ℕ → ℕ × A) → Keeps (OnKeys K) (with_client call)
  unfolding with_client
  with_client-Keeps call = search (frame_rules, current_client-Keeps)

  install_client-Keeps : (client : Option ℕ) → Keeps (OnKeys K) (install_client client)
  unfolding install_client
  install_client-Keeps client = search (frame_rules, or_mls_failed-Keeps)

  ensure_client-Keeps : (w : World) (client : Option ℕ) → Keeps (OnKeys K) (ensure_client w client)
  unfolding ensure_client
  ensure_client-Keeps w none = search (frame_rules, install_client-Keeps)
  ensure_client-Keeps w (some client) = search (frame_rules)

  pub ensure_mls_client-Keeps : (w : World) → Keeps (OnKeys K) (ensure_mls_client w)
  unfolding ensure_mls_client
  ensure_mls_client-Keeps w = search (frame_rules, ensure_client-Keeps)

  pub fresh_key_package-Keeps : (w : World) → Keeps (OnKeys K) (fresh_key_package w)
  unfolding fresh_key_package
  fresh_key_package-Keeps w =
      search (frame_rules, ensure_mls_client-Keeps, with_client-Keeps, or_mls_failed-Keeps)

pub send_key_package-Keeps :
    (w : World) (kp : List ℕ) → Keeps (OnKeys AreSafe) (send_key_package w kp)
unfolding send_key_package
send_key_package-Keeps w kp = search (frame_rules, send_locked-Keeps) depth 9

pub ensure_pending_key_package-Keeps :
    (w : World) → Keeps (OnKeys AreSafe) (ensure_pending_key_package w)
unfolding ensure_pending_key_package
ensure_pending_key_package-Keeps w =
    search (frame_rules, ensure_mls_client-Keeps, fresh_key_package-Keeps, send_key_package-Keeps)

pub logged-Keeps :
    (m : Act (Unit {0})) → Keeps (OnKeys AreSafe) m → Keeps (OnKeys AreSafe) (logged m)
logged-Keeps m km = on_result-Keeps m _ _ km (λ done. pure-Keeps done) (λ e. pure-Keeps tt)

pub send_invalid-Keeps :
    (w : World) (transition_id : ℕ)
    → Keeps (OnKeys AreSafe) (send_invalid_commit_welcome w transition_id)
unfolding send_invalid_commit_welcome
send_invalid-Keeps w transition_id = search (frame_rules, logged-Keeps, send_locked-Keeps)

ready_dropped-Keeps : (e : SessionError) → Keeps (OnKeys AreSafe) (ready_dropped e)
unfolding ready_dropped
ready_dropped-Keeps e = search (frame_rules, watch_dropped_send-Keeps)

pub send_ready-Keeps :
    (w : World) (transition_id : ℕ)
    → Keeps (OnKeys AreSafe) (send_ready_for_transition w transition_id)
unfolding send_ready_for_transition
send_ready-Keeps w transition_id = search (frame_rules, send_locked-Keeps, ready_dropped-Keeps)

pub without_pending-Keeps : Keeps (OnKeys AreSafe) (on_keys without_pending)
without_pending-Keeps = on_keys-Keeps _ (λ user k safe h.
    no_pending-IsSafe k.retained_send_ratchet k.send_ratchet (own_ref user k.pending_epoch)
      (safe h))

pub invalidate_mls_state-Keeps : (w : World) → Keeps (OnKeys AreSafe) (invalidate_mls_state w)
unfolding invalidate_mls_state
invalidate_mls_state-Keeps w =
    search (frame_rules, without_pending-Keeps, mark_degraded-Keeps, reset_epoch_ready-Keeps)

pub invalidate_and_resend-Keeps :
    (w : World) → Keeps (OnKeys AreSafe) (invalidate_and_resend_key_package w)
unfolding invalidate_and_resend_key_package
invalidate_and_resend-Keeps w = search (
  frame_rules, invalidate_mls_state-Keeps, ensure_pending_key_package-Keeps, watch_recovery-Keeps,
)

create_group-Keeps : (w : World) → Keeps (OnKeys AreSafe) (create_group w)
unfolding create_group
create_group-Keeps w =
    search (frame_rules, ensure_pending_key_package-Keeps, with_client-Keeps, or_mls_failed-Keeps)
      depth 9

pub create_group_with_external_sender-Keeps :
    (w : World) → Keeps (OnKeys AreSafe) (create_group_with_external_sender w)
unfolding create_group_with_external_sender
create_group_with_external_sender-Keeps w = search (frame_rules, create_group-Keeps) depth 9

pub ruleset request_rules = (
  frame_rules, current_client-Keeps, with_client-Keeps, or_mls_failed-Keeps,
  unless_mls_failed-Keeps, ensure_mls_client-Keeps, fresh_key_package-Keeps, send_key_package-Keeps,
  ensure_pending_key_package-Keeps, logged-Keeps, send_locked-Keeps, send_invalid-Keeps,
  send_ready-Keeps, without_pending-Keeps, invalidate_mls_state-Keeps, invalidate_and_resend-Keeps,
  create_group_with_external_sender-Keeps, watch_recovery-Keeps, watch_dropped_send-Keeps,
  reset_epoch_ready-Keeps,
)
