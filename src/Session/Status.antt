-- ===== src/Session/Status.antt =====
-- The ready channel and the degraded clock of session/session.go and session/mls.go, and the
-- accessors of session/state.go.
use dave_go.Base.{
  ℕ, ◌+◌, ◌-◌, List, [], ◌∷◌, Option, none, some, Bool, true, false, not, ◌&&◌, ◌||◌, ◌==◌, ltb,
  if◌then◌else◌,
}
use dave_go.Session.Types.{Session, EpochState, Health, Stats, State}
use dave_go.Session.World.{World}
use dave_go.Session.Exec.{pure, gets, ◌>>=◌}
use dave_go.Session.Ops.{Act, on_health, now}

abbrev pub is_set : {A : Type 0} → Option A → Bool
is_set none = false
is_set (some a) = true

abbrev pub is_empty : {A : Type 0} → List A → Bool
is_empty [] = true
is_empty (x ∷ xs) = false

-- Whether a channel that `epochReady` is or has been is closed.
unfoldable pub is_closed : ℕ → Health → Bool
is_closed channel h = ltb channel h.epoch_ready || h.epoch_ready_closed

unfoldable pub reset_epoch_ready : Act (Unit {0})
reset_epoch_ready =
    on_health (λ h. record h { epoch_ready = h.epoch_ready + 1; epoch_ready_closed = false })

unfoldable pub signal_epoch_ready : Act (Unit {0})
signal_epoch_ready = on_health (λ h. record h { epoch_ready_closed = true })

-- The clock is read only where the session is not degraded yet.
unfoldable pub mark_degraded : World → Act (Unit {0})
mark_degraded w = do
  degraded ← gets (λ s. is_set s.health.degraded_since)
  if degraded
      then pure tt
      else (do time ← now w; on_health (λ h. record h { degraded_since = some time }))

-- time.Since: the clock does not run backwards.
unfoldable pub end_degraded_from : World → Option ℕ → Act (Unit {0})
end_degraded_from w none = pure tt
end_degraded_from w (some start) = do
  time ← now w
  on_health (λ h. record h {
    degraded_since = none;
    stats = record h.stats { degraded_duration = h.stats.degraded_duration + (time - start) };
  })

unfoldable pub end_degraded : World → Act (Unit {0})
end_degraded w = do since ← gets (λ s. s.health.degraded_since); end_degraded_from w since

unfoldable pub mark_recovered : World → Act (Unit {0})
mark_recovered w = end_degraded w

-- Whether frames are encrypted end to end.
abbrev epoch_id_of : Option EpochState → ℕ
epoch_id_of none = 0
epoch_id_of (some e) = e.id

unfoldable pub state : Session → State
state s = record {
  epoch_id = epoch_id_of s.keys.active_epoch;
  is_ready = is_set s.keys.active_epoch && is_set s.keys.send_ratchet;
  degraded_since = s.health.degraded_since;
  protocol_version = s.protocol.protocol_version;
}

unfoldable pub stats : Session → Stats
stats s = s.health.stats

unfoldable pub ready : Session → Bool
ready s = (is_set s.keys.active_epoch && is_set s.keys.send_ratchet) || s.protocol.transport_only

unfoldable pub should_hold_frames : Session → Bool
should_hold_frames s =
    not (is_set s.keys.active_epoch && is_set s.keys.send_ratchet)
    && not (s.protocol.protocol_version == 0)
