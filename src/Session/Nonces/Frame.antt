-- ===== src/Session/Nonces/Frame.antt =====
-- What the actions that leave the keys alone keep: any property of the keys and of the user.
use dave_go.Base.{ℕ, ◌≡◌, refl, Bool, Option, none, some}
use dave_go.Session.Types.{
  Session, SessionError, UserId, Keys, Protocol, Group, Health, Calls, Stats, Watchdog,
}
use dave_go.Session.World.{World}
use dave_go.Session.Exec.{gets}
use dave_go.Session.Exec.Keeps.{Keeps, keeps_rules}
use dave_go.Session.Exec.Triples.{Triple}
use dave_go.Session.Ops.{on_keys, on_protocol, on_group, on_health, on_calls, count, now}
use dave_go.Session.Status.{
  reset_epoch_ready, signal_epoch_ready, mark_degraded, end_degraded_from, end_degraded,
  mark_recovered,
}
use dave_go.Session.Gateway.{go_watchdog, arm_recovery, watch_recovery, watch_dropped_send}

-- A property of the session's user and of its keys.
pub record OnKeys (K : UserId → Keys → Type 0) (s : Session) : Type 0 where
  pub here : K s.config.user_id s.keys

module _ {K : UserId → Keys → Type 0} where
  pub on_protocol-Keeps : (change : Protocol → Protocol) → Keeps (OnKeys K) (on_protocol change)
  unfolding on_protocol
  on_protocol-Keeps change = record { kept = λ object h. record { here = h.here } }

  pub on_group-Keeps : (change : Group → Group) → Keeps (OnKeys K) (on_group change)
  unfolding on_group
  on_group-Keeps change = record { kept = λ object h. record { here = h.here } }

  pub on_health-Keeps : (change : Health → Health) → Keeps (OnKeys K) (on_health change)
  unfolding on_health
  on_health-Keeps change = record { kept = λ object h. record { here = h.here } }

  pub on_calls-Keeps : (change : Calls → Calls) → Keeps (OnKeys K) (on_calls change)
  unfolding on_calls
  on_calls-Keeps change = record { kept = λ object h. record { here = h.here } }

  pub now-Keeps : (w : World) → Keeps (OnKeys K) (now w)
  unfolding now
  now-Keeps w = record { kept = λ object h. record { here = h.here } }

  pub count-Keeps : (change : Stats → Stats) → Keeps (OnKeys K) (count change)
  unfolding count
  count-Keeps change = on_health-Keeps _

pub ruleset frame_rules = (
  keeps_rules, on_protocol-Keeps, on_group-Keeps, on_health-Keeps, on_calls-Keeps, now-Keeps,
  count-Keeps,
)

module _ {K : UserId → Keys → Type 0} where
  pub reset_epoch_ready-Keeps : Keeps (OnKeys K) reset_epoch_ready
  unfolding reset_epoch_ready
  reset_epoch_ready-Keeps = search (frame_rules)

  pub signal_epoch_ready-Keeps : Keeps (OnKeys K) signal_epoch_ready
  unfolding signal_epoch_ready
  signal_epoch_ready-Keeps = search (frame_rules)

  pub mark_degraded-Keeps : (w : World) → Keeps (OnKeys K) (mark_degraded w)
  unfolding mark_degraded
  mark_degraded-Keeps w = search (frame_rules)

  end_degraded_from-Keeps :
      (w : World) (since : Option ℕ) → Keeps (OnKeys K) (end_degraded_from w since)
  unfolding end_degraded_from
  end_degraded_from-Keeps w none = search (frame_rules)
  end_degraded_from-Keeps w (some start) = search (frame_rules)

  pub end_degraded-Keeps : (w : World) → Keeps (OnKeys K) (end_degraded w)
  unfolding end_degraded
  end_degraded-Keeps w = search (frame_rules, end_degraded_from-Keeps w)

  pub mark_recovered-Keeps : (w : World) → Keeps (OnKeys K) (mark_recovered w)
  unfolding mark_recovered
  mark_recovered-Keeps w = end_degraded-Keeps w

  pub go_watchdog-Keeps : (d : Watchdog) → Keeps (OnKeys K) (go_watchdog d)
  unfolding go_watchdog
  go_watchdog-Keeps d = search (frame_rules)

  arm_recovery-Keeps : (dropped : Bool) → Keeps (OnKeys K) (arm_recovery dropped)
  unfolding arm_recovery
  arm_recovery-Keeps dropped = search (frame_rules, go_watchdog-Keeps)

  pub watch_recovery-Keeps : (dropped : Bool) → Keeps (OnKeys K) (watch_recovery dropped)
  unfolding watch_recovery
  watch_recovery-Keeps dropped = search (frame_rules, arm_recovery-Keeps)

  pub watch_dropped_send-Keeps : (e : SessionError) → Keeps (OnKeys K) (watch_dropped_send e)
  unfolding watch_dropped_send
  watch_dropped_send-Keeps e = search (frame_rules, reset_epoch_ready-Keeps, watch_recovery-Keeps)

module _ {K L : UserId → Keys → Type 0} where
  pub OnKeys-map :
      ((user : UserId) (k : Keys) → K user k → L user k) → (s : Session) → OnKeys K s → OnKeys L s
  OnKeys-map f s h = record { here = f s.config.user_id s.keys h.here }

  pub on_keys-Triple :
      (change : Keys → Keys)
      → ((user : UserId) (k : Keys) → K user k → L user (change k))
      → Triple (OnKeys K) (on_keys change) (λ done. OnKeys L) (OnKeys L)
  unfolding on_keys
  on_keys-Triple change f = record {
    holds = λ object h. record { here = f object.config.user_id object.keys h.here };
  }

  pub keys-Triple :
      {A : Type 0} (read : Keys → A)
      → Triple {E = SessionError}
          (OnKeys K)
          (gets (λ s. read s.keys))
          (λ value. OnKeys (λ user k. K user k × (value ≡ read k)))
          (OnKeys L)
  unfolding gets
  keys-Triple read = record { holds = λ object h. record { here = (h.here, refl) } }

module _ {K : UserId → Keys → Type 0} where
  pub on_keys-Keeps :
      (change : Keys → Keys)
      → ((user : UserId) (k : Keys) → K user k → K user (change k))
      → Keeps (OnKeys K) (on_keys change)
  unfolding on_keys
  on_keys-Keeps change f = record {
    kept = λ object h. record { here = f object.config.user_id object.keys h.here };
  }
