-- ===== src/Session/Checks/Passthrough.antt =====
-- Frames that are sent without a key, and what the accessors say then.
use dave_go.Base.{
  ℕ, ◌≡◌, ◌≤◌, ◌<◌, refl, arith, List, ◌++◌, length, drop, Bool, true, false, not, ◌&&◌, ltb, ◌==◌,
  eq→==, ltb→lt, ltb→le, inl, inr, Bool-cases, none, Result, ok, err,
}
use mathlib.Core.Bool.{false≢true, true≢false}
use dave_go.Frame.Types.{buffer_too_small}
use dave_go.Session.Types.{Session, SessionError, missing_key_ratchet, frame_failed}
use dave_go.Session.World.{World}
use dave_go.Session.Exec.{when, after, ◌>>=◌}
use dave_go.Session.Ops.{on_keys, on_protocol, on_group, on_health, count}
use dave_go.Session.Status.{ready, should_hold_frames, reset_epoch_ready}
use dave_go.Session.Media.{copy_passthrough}
use dave_go.Session.Media.Send.{
  count_encrypt_failure, select_from, select_send_ratchet, encrypt_under, encrypt,
}
use dave_go.Session.Handlers.{set_transport_only}
use dave_go.Session.Handlers.Protocol.{downgrade, execute_prepared, on_dave_execute_transition}

-- What Encrypt does without a key, by the length of the buffer and by whether it is to refuse.
data IsUnsealed (frame dst : List ℕ) : Bool → Result SessionError (ℕ × List ℕ) → Type 0 where
  refuses : IsUnsealed frame dst true (err missing_key_ratchet)
  too_small :
      length dst < length frame → IsUnsealed frame dst false (err (frame_failed buffer_too_small))
  copies :
      length frame ≤ length dst
      → IsUnsealed frame dst false (ok (length frame, frame ++ drop (length frame) dst))

unsealed :
    (w : World) (ssrc : ℕ) (frame dst : List ℕ) (s : Session) (strict : Bool)
    → (s.config.strict_encrypt && not (s.protocol.send_protocol_version == 0)) ≡ strict
    → IsUnsealed frame dst strict (encrypt_under w none ssrc frame dst s).1
unfolding encrypt_under ◌>>=◌ copy_passthrough count count_encrypt_failure on_health
unsealed w ssrc frame dst s true e = rw e refuses
unsealed w ssrc frame dst s false e = elim (Bool-cases (ltb (length dst) (length frame))) [
  | inl short ↦ rw (e, short) (too_small (ltb→lt _ _ short))
  | inr fits ↦ rw (e, fits) (copies (ltb→le _ _ fits))
]

-- Without a send ratchet and a retained one, Encrypt refuses every frame under strict encryption once
-- the version to send under is not 0, and else it copies the frame if the buffer is large enough: it
-- never seals it.
encrypt-IsUnsealed :
    (w : World) (ssrc : ℕ) (frame dst : List ℕ) (s : Session)
    → s.keys.retained_send_ratchet ≡ none
    → s.keys.send_ratchet ≡ none
    → IsUnsealed frame dst
        (s.config.strict_encrypt && not (s.protocol.send_protocol_version == 0))
        (encrypt w ssrc frame dst s).1
unfolding encrypt select_send_ratchet select_from ◌>>=◌
encrypt-IsUnsealed w ssrc frame dst s retained sending =
    rw (retained, sending)
      (unsealed w ssrc frame dst
        (record s { keys = record s.keys { send_ratchet = none; retained_send_ratchet = none } }) _
        refl)

-- What a session that sends without encryption has.
record IsDowngraded (s : Session) : Type 0 where
  no_ratchet : s.keys.send_ratchet ≡ none
  no_retained : s.keys.retained_send_ratchet ≡ none
  transport : s.protocol.transport_only ≡ true
  version : s.protocol.protocol_version ≡ 0
  send_version : s.protocol.send_protocol_version ≡ 0

execute_prepared-IsDowngraded :
    (w : World) (id : ℕ) (s : Session)
    → s.protocol.protocol_version ≡ 0
    → IsDowngraded (after (execute_prepared w id) s)
unfolding execute_prepared downgrade set_transport_only reset_epoch_ready ◌>>=◌ count on_keys
    on_protocol on_group on_health
execute_prepared-IsDowngraded w id s version =
    rw (after, eq→== s.protocol.protocol_version 0 version)
      (record {
        no_ratchet = refl;
        no_retained = refl;
        transport = refl;
        version = version;
        send_version = version;
      })

execute-IsDowngraded :
    (w : World) (id : ℕ) (s : Session)
    → id ≡ s.protocol.pending_transition_id
    → s.protocol.protocol_version ≡ 0
    → IsDowngraded (after (on_dave_execute_transition w id) s)
unfolding on_dave_execute_transition when ◌>>=◌
execute-IsDowngraded w id s prepared version =
    rw (after, eq→== id s.protocol.pending_transition_id prepared)
      (execute_prepared-IsDowngraded w id s version)

downgraded-accessors :
    (s : Session) → IsDowngraded s → (ready s ≡ true) × (should_hold_frames s ≡ false)
unfolding ready should_hold_frames
downgraded-accessors s d =
    let a = d.transport in let b = eq→== s.protocol.protocol_version 0 d.version in ground arith

lenient : (strict zero : Bool) → zero ≡ true → (strict && not zero) ≡ false
lenient true true e = refl
lenient false true e = refl
lenient strict false e = absurd (false≢true e)

copied :
    (frame dst : List ℕ) (r : Result SessionError (ℕ × List ℕ)) (strict : Bool)
    → length frame ≤ length dst
    → strict ≡ false
    → IsUnsealed frame dst strict r
    → r ≡ ok (length frame, frame ++ drop (length frame) dst)
copied frame dst _ true fits e refuses = absurd (true≢false e)
copied frame dst _ false fits e (too_small h) = absurd (omega (arith, fits, h))
copied frame dst _ false fits e (copies h) = refl

-- Once a prepared transition to version 0 is executed, the session is ready and holds no frames, and
-- Encrypt copies every frame that fits, also under strict encryption.
pub on_dave_execute_transition-passthrough :
    (w : World) (id ssrc : ℕ) (frame dst : List ℕ) (s : Session)
    → id ≡ s.protocol.pending_transition_id
    → s.protocol.protocol_version ≡ 0
    → length frame ≤ length dst
    → let s' = after (on_dave_execute_transition w id) s in
      (ready s' ≡ true)
      × (should_hold_frames s' ≡ false)
      × ((encrypt w ssrc frame dst s').1 ≡ ok (length frame, frame ++ drop (length frame) dst))
on_dave_execute_transition-passthrough w id ssrc frame dst s prepared version fits =
    let s' = after (on_dave_execute_transition w id) s in
    let d = execute-IsDowngraded w id s prepared version in
    let (r, h) = downgraded-accessors s' d in
    (
      r,
      h,
      copied frame dst _ _ fits (lenient s'.config.strict_encrypt _ (eq→== _ 0 d.send_version))
          (encrypt-IsUnsealed w ssrc frame dst s' d.no_retained d.no_ratchet),
    )
