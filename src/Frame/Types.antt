-- ===== src/Frame/Types.antt =====
-- frame/frame.go and frame/errors.go: the records and the error values of package frame.
use dave_go.Base.{ℕ, List}

-- The sentinel errors of errors.go. The text that wraps one is not modelled.
pub data Error : Type 0 where
  frame_too_short : Error
  invalid_magic_marker : Error
  invalid_supplemental_size : Error
  invalid_uleb128 : Error
  invalid_ranges : Error
  invalid_key_length : Error
  auth_tag_mismatch : Error
  buffer_too_small : Error

-- Offset and Length are 64-bit ints in two's complement: from 2^63 on a number stands for a negative
-- int. ValidateRanges refuses those; the other functions run on ranges that it accepted.
pub record Range : Type 0 where
  pub offset : ℕ
  pub len : ℕ

pub record EncryptParams : Type 0 where
  pub plaintext : List ℕ
  pub key : List ℕ
  pub truncated_nonce : ℕ
  pub unencrypted_ranges : List Range

pub record DecryptParams : Type 0 where
  pub ciphertext : List ℕ
  pub key : List ℕ

pub record ParsedFrame : Type 0 where
  pub interleaved_frame : List ℕ
  pub tag : List ℕ
  pub truncated_nonce : ℕ
  pub unencrypted_ranges : List Range
  pub supplemental_size : ℕ
