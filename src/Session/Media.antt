-- ===== src/Session/Media.antt =====
-- What Encrypt and Decrypt of session/session.go share, and the accessors that other goroutines may
-- call at any time.
pub mod Send
pub mod Receive
pub mod Concurrent
use dave_go.Base.{
  ℕ, zero, suc, ◌+◌, ◌-◌, ◌*◌, ◌/◌, ◌%◌, ◌^◌, List, [], ◌∷◌, ◌++◌, length, get_or, set, drop,
  replicate, Option, none, some, Bool, true, false, not, ◌&&◌, ◌||◌, ltb, leb, ◌==◌, if◌then◌else◌,
  Result, ok, err, panic,
}
use dave_go.Base.Bytes.{bytes_equal}
use dave_go.Frame.Types.{Error, buffer_too_small, ParsedFrame}
use dave_go.Frame.Encrypt
use dave_go.Frame.Encrypt.{looks_like_dave_frame, parse, new_gcm8}
use dave_go.Codecs.Types.{Kind, codec_unknown, codec_opus, codec_h264, codec_h265, CodecError}
use dave_go.Codecs.Dispatch
use dave_go.Mediakeys.Nonce
use dave_go.Mediakeys.Nonce.{next, expand_tentative}
use dave_go.Session.Replay.{check_and_mark}
use dave_go.Session.Types.{
  Session, SessionError, decryption_failed, missing_key_ratchet, frame_failed, codec_failed, UserId,
  RatchetRef, SenderState, EpochState, Keys, Protocol, Stats, MediaCall, encrypt_frame,
  decrypt_frame, add_user, remove_user, assign_ssrc, set_channel, close_session,
}
use dave_go.Session.World.{World}
use dave_go.Session.Exec.{pure, fail, crash, lift, gets, on_result, when, after, ◌>>=◌, ◌>>◌}
use dave_go.Session.Ops.{
  Act, on_keys, on_protocol, on_health, count, now, find, update, contains_user, ratchet_get_key,
  ratchet_commit,
}
use dave_go.Session.Status.{is_set}

-- `copy` of a frame that fits: the number of bytes, and the buffer.
unfoldable pub copy_passthrough : List ℕ → List ℕ → Act (ℕ × List ℕ)
copy_passthrough dst frame =
    if ltb (length dst) (length frame)
    then fail (frame_failed buffer_too_small)
    else pure (length frame, frame ++ drop (length frame) dst)

abbrev pub frame_result : {A : Type 0} → Result Error A → Result SessionError A
frame_result (ok a) = ok a
frame_result (err e) = err (frame_failed e)
frame_result panic = panic

-- `t.Before(deadline)`, where the zero time is before every other.
abbrev pub is_before : ℕ → Option ℕ → Bool
is_before time none = false
is_before time (some deadline) = ltb time deadline

-- `epoch.expiresAt.After(now)`
unfoldable pub unexpired : ℕ → List EpochState → List EpochState
unexpired time [] = []
unexpired time (e ∷ es) =
    let rest = unexpired time es in if is_before time e.expires_at then e ∷ rest else rest

unfoldable pub prune_retained_epochs : World → Act (Unit {0})
prune_retained_epochs w = do
  time ← now w
  on_keys (λ k. record k { retained_epoch = unexpired time k.retained_epoch })
