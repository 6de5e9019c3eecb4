-- ===== src/Session/Media/Send.antt =====
-- session/session.go: Encrypt.
use dave_go.Base.{
  ℕ, ◌+◌, List, [], ◌∷◌, Option, none, some, Bool, true, false, not, ◌&&◌, ◌==◌, if◌then◌else◌,
  Result, ok, err, panic,
}
use dave_go.Base.Bytes.{bytes_equal}
use dave_go.Frame.Encrypt.{new_gcm8}
use dave_go.Codecs.Types.{Kind, codec_unknown, codec_opus, codec_h264, codec_h265, CodecError}
use dave_go.Codecs.Dispatch
use dave_go.Mediakeys.Nonce
use dave_go.Mediakeys.Nonce.{next, expand_tentative}
use dave_go.Session.Types.{SessionError, missing_key_ratchet, codec_failed, RatchetRef, Keys}
use dave_go.Session.World.{World}
use dave_go.Session.Exec.{pure, fail, lift, gets, on_result, when, ◌>>=◌, ◌>>◌}
use dave_go.Session.Ops.{Act, on_keys, count, now, ratchet_get_key, ratchet_commit}
use dave_go.Session.Status.{is_set}
use dave_go.Session.Media.{copy_passthrough, frame_result, is_before}

unfoldable pub count_encrypt_failure : Act (Unit {0})
count_encrypt_failure = count (λ t. record t { encrypt_failures = t.encrypt_failures + 1 })

-- `if err != nil { s.stats.EncryptFailures++; return 0, err }`
unfoldable pub or_encrypt_failure : {A : Type 0} → Act A → Act A
or_encrypt_failure m = on_result m pure (λ e. do count_encrypt_failure; fail e)

-- What selectSendRatchetLocked does once a retained ratchet has expired.
unfoldable pub expire_retained : Keys → Keys
expire_retained k = record k {
  send_counter = Nonce.reset k.send_counter;
  retained_send_ratchet = none;
  retained_send_expires_at = none;
}

unfoldable pub select_from : World → Option RatchetRef → Act (Option RatchetRef)
select_from w none = gets (λ s. s.keys.send_ratchet)
select_from w (some retained) = do
  time ← now w
  expires_at ← gets (λ s. s.keys.retained_send_expires_at)
  if is_before time expires_at
      then pure (some retained)
      else (do on_keys expire_retained; gets (λ s. s.keys.send_ratchet))

unfoldable pub select_send_ratchet : World → Act (Option RatchetRef)
select_send_ratchet w = do
  retained ← gets (λ s. s.keys.retained_send_ratchet)
  select_from w retained

abbrev codec_in : ℕ → List (ℕ × Kind) → Kind
codec_in ssrc [] = codec_opus
codec_in ssrc ((n, kind) ∷ rest) =
    if n == ssrc
    then (elim kind [ codec_unknown ↦ codec_opus | other ↦ other ])
    else codec_in ssrc rest

abbrev is_h26x : Kind → Bool
is_h26x codec_h264 = true
is_h26x codec_h265 = true
is_h26x kind = false

abbrev codec_result : {A : Type 0} → Result CodecError A → Result SessionError A
codec_result (ok a) = ok a
codec_result (err e) = err (codec_failed e)
codec_result panic = panic

-- `s.sendCounter.Next()`, for the ratchet that is to seal the frame.
unfoldable pub draw : RatchetRef → Keys → Keys
draw ref k =
    let (counter, full, truncated, generation) = next k.send_counter in
    record k { send_counter = counter; drawn = (ref, full) ∷ k.drawn }

-- The truncated nonce and the generation.
unfoldable pub draw_nonce : RatchetRef → Act (ℕ × ℕ)
draw_nonce ref s =
    let (counter, full, truncated, generation) = next s.keys.send_counter in
    (record s { keys = draw ref s.keys }, ok (truncated, generation))

-- The cipher is made anew when the key has changed.
unfoldable pub refresh_cipher : World → List ℕ → Act (Unit {0})
refresh_cipher w key = do
  cached ← gets (λ s. s.keys.send_cipher_key)
  if bytes_equal cached key then pure tt else (do
    or_encrypt_failure (lift (frame_result (new_gcm8 w.gcm key)))
    on_keys (λ k. record k { send_cipher_key = key }))

unfoldable pub seal_frame : World → Kind → List ℕ → List ℕ → List ℕ → ℕ → Act (ℕ × List ℕ)
seal_frame w kind dst frame key truncated = do
  cipher_key ← gets (λ s. s.keys.send_cipher_key)
  or_encrypt_failure (
      lift (
        codec_result (
          if is_h26x kind
          then Dispatch.encrypt_into w.gcm kind dst frame key truncated
          else Dispatch.encrypt_with_cipher_into w.gcm cipher_key kind dst frame truncated)))

-- Encrypt under the ratchet that was selected.
unfoldable pub encrypt_under : World → Option RatchetRef → ℕ → List ℕ → List ℕ → Act (ℕ × List ℕ)
encrypt_under w none ssrc frame dst = do
  refuse ← gets (λ s. s.config.strict_encrypt && not (s.protocol.send_protocol_version == 0))
  if refuse then (do count_encrypt_failure; fail missing_key_ratchet) else (do
    count (λ t. record t { passthrough_frames = t.passthrough_frames + 1 })
    copy_passthrough dst frame)
encrypt_under w (some ref) ssrc frame dst = do
  retained ← gets (λ s. is_set s.keys.retained_send_ratchet)
  when retained (count (λ t. record t { transition_frames = t.transition_frames + 1 }))
  kind ← gets (λ s. codec_in ssrc s.protocol.ssrc_codecs)
  (truncated, generation) ← draw_nonce ref
  key ← or_encrypt_failure (ratchet_get_key w ref generation)
  ratchet_commit w ref generation
  refresh_cipher w key
  seal_frame w kind dst frame key truncated

unfoldable pub encrypt : World → ℕ → List ℕ → List ℕ → Act (ℕ × List ℕ)
encrypt w ssrc frame dst = do
  ratchet ← select_send_ratchet w
  encrypt_under w ratchet ssrc frame dst
