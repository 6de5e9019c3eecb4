-- ===== src/Session/Wire/Identity.antt =====
-- session/mls.go: userIDToIdentityBytes and identityBytesToUserID.
use dave_go.Base.{
  ℕ, ◌+◌, ◌-◌, ◌*◌, ◌^◌, List, [], ◌∷◌, length, ◌&&◌, ltb, leb, ◌==◌, if◌then◌else◌, Result, ok,
  err, ◌>>=◌,
}
use dave_go.Base.Bytes.{put_be}
use dave_go.Mediakeys.Displayable.{decimal}
use dave_go.Session.Types.{UserId, SessionError, invalid_user_id, invalid_credential_identity}

-- The loop of strconv.ParseUint in base 10, with a bit size of 64.
unfoldable pub parse_digits : UserId → ℕ → Result SessionError ℕ
parse_digits [] value = ok value
parse_digits (c ∷ cs) value =
    let rest = parse_digits cs (value * 10 + (c - 48)) in
    if leb 48 c && leb c 57 && ltb (value * 10 + (c - 48)) (2 ^ 64)
    then rest
    else err invalid_user_id

-- strconv.ParseUint
abbrev pub parse_uint : UserId → Result SessionError ℕ
parse_uint [] = err invalid_user_id
parse_uint (c ∷ cs) = parse_digits (c ∷ cs) 0

unfoldable pub user_id_to_identity_bytes : UserId → Result SessionError (List ℕ)
user_id_to_identity_bytes user = do n ← parse_uint user; ok (put_be 8 n)

-- binary.BigEndian.Uint64, with the value of the bytes before.
unfoldable pub get_be : List ℕ → ℕ → ℕ
get_be [] value = value
get_be (b ∷ bs) value = get_be bs (value * 256 + b)

-- strconv.FormatUint in base 10: 20 digits at most.
abbrev pub format_uint : ℕ → UserId
format_uint n = decimal 19 n

unfoldable pub identity_bytes_to_user_id : List ℕ → Result SessionError (UserId × ℕ)
identity_bytes_to_user_id identity =
    if length identity == 8
    then ok (format_uint (get_be identity 0), get_be identity 0)
    else err invalid_credential_identity
