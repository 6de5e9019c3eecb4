-- ===== src/Session/Options.antt =====
-- session/session.go: the options, and New.
use dave_go.Base.{zero, suc, ◌*◌, List, [], ◌∷◌, Bool, true, false}
use dave_go.Session.Types.{
  UserId, Config, Session, new_session, SessionOption, with_recovery_timeout, with_strict_encrypt,
}

-- A duration that is not positive is 0 here, and is ignored.
abbrev apply_option : SessionOption → Config → Config
apply_option (with_recovery_timeout zero) c = c
apply_option (with_recovery_timeout (suc d)) c = record c { recovery_timeout = suc d }
apply_option with_strict_encrypt c = record c { strict_encrypt = true }

abbrev apply_options : List SessionOption → Config → Config
apply_options [] c = c
apply_options (o ∷ os) c = apply_options os (apply_option o c)

-- `has_callbacks` says that the callbacks are not nil.
abbrev pub new : UserId → Bool → List SessionOption → Session
new user has_callbacks options = new_session (
    apply_options options (record {
      user_id = user;
      has_callbacks = has_callbacks;
      send_retention_ttl = 10 * 1000000000;
      plaintext_grace = 10 * 1000000000;
      strict_encrypt = false;
      recovery_timeout = 15 * 1000000000;
    }))
