-- ===== src/Session/Media/Concurrent.antt =====
-- session/session.go: the calls that other goroutines may make while a callback sends.
use dave_go.Base.{ℕ, List, [], ◌∷◌, replicate, true, ◌==◌, if◌then◌else◌}
use dave_go.Base.Bytes.{bytes_equal}
use dave_go.Codecs.Types.{Kind, codec_unknown, codec_opus}
use dave_go.Session.Types.{
  UserId, MediaCall, encrypt_frame, decrypt_frame, add_user, remove_user, assign_ssrc, set_channel,
  close_session,
}
use dave_go.Session.World.{World}
use dave_go.Session.Exec.{pure, on_result, ◌>>◌}
use dave_go.Session.Ops.{Act, on_protocol, on_health, contains_user}
use dave_go.Session.Media.Send.{encrypt}
use dave_go.Session.Media.Receive.{decrypt}

unfoldable pub add_to_users : UserId → Act (Unit {0})
add_to_users user =
    on_protocol
      (λ p. record p { users = if contains_user user p.users then p.users else user ∷ p.users })

abbrev without_user : UserId → List UserId → List UserId
without_user user [] = []
without_user user (u ∷ us) =
    let rest = without_user user us in if bytes_equal u user then rest else u ∷ rest

unfoldable pub remove_from_users : UserId → Act (Unit {0})
remove_from_users user = on_protocol (λ p. record p { users = without_user user p.users })

abbrev without_ssrc : ℕ → List (ℕ × Kind) → List (ℕ × Kind)
without_ssrc ssrc [] = []
without_ssrc ssrc ((n, kind) ∷ rest) =
    let others = without_ssrc ssrc rest in if n == ssrc then others else (n, kind) ∷ others

-- The codec is a kind of package codecs; `toCodecKind` makes every other one unknown.
abbrev pub to_codec_kind : Kind → Kind
to_codec_kind codec_opus = codec_opus
to_codec_kind kind = codec_unknown

unfoldable pub assign_ssrc_to_codec : ℕ → Kind → Act (Unit {0})
assign_ssrc_to_codec ssrc kind =
    on_protocol
      (λ p. record p { ssrc_codecs = (ssrc, to_codec_kind kind) ∷ without_ssrc ssrc p.ssrc_codecs })

abbrev pub ignore : {A : Type 0} → Act A → Act (Unit {0})
ignore m = on_result m (λ a. pure tt) (λ e. pure tt)

-- SetChannelID finds the lock of the handlers taken, and leaves the group alone.
unfoldable pub run_call : World → MediaCall → Act (Unit {0})
run_call w (encrypt_frame ssrc frame size) = ignore (encrypt w ssrc frame (replicate size 0))
run_call w (decrypt_frame user frame size) = ignore (decrypt w user frame (replicate size 0))
run_call w (add_user user) = add_to_users user
run_call w (remove_user user) = remove_from_users user
run_call w (assign_ssrc ssrc kind) = assign_ssrc_to_codec ssrc kind
run_call w (set_channel channel) = on_protocol (λ p. record p { channel_id = channel })
run_call w close_session = on_health (λ h. record h { shutdown = true })

unfoldable pub run_calls : World → List MediaCall → Act (Unit {0})
run_calls w [] = pure tt
run_calls w (c ∷ cs) = do run_call w c; run_calls w cs
