-- ===== src/Codecs/Types.antt =====
-- codecs/codecs.go and codecs/errors.go: the kinds of codec and the errors of package codecs.
use dave_go.Base.{ℕ, Result, ok, err, panic}
use dave_go.Frame.Types.{Error}

-- `Kind` is a uint8; `codec_other` is one of its values that the constants do not name.
pub data Kind : Type 0 where
  codec_unknown : Kind
  codec_opus : Kind
  codec_vp8 : Kind
  codec_vp9 : Kind
  codec_h264 : Kind
  codec_h265 : Kind
  codec_av1 : Kind
  codec_other : ℕ → Kind

-- `frame_error` is an error of package frame, returned as it is.
pub data CodecError : Type 0 where
  codec_not_supported : CodecError
  frame_error : Error → CodecError

-- A call of package frame.
abbrev pub lift {ℓ} : {A : Type ℓ} → Result Error A → Result CodecError A
lift (ok a) = ok a
lift (err e) = err (frame_error e)
lift panic = panic
