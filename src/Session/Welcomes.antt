-- ===== src/Session/Welcomes.antt =====
-- session/mls.go: joining the group of a Welcome.
use dave_go.Base.{
  ℕ, List, [], ◌∷◌, Option, none, some, Bool, false, not, ◌&&◌, ◌==◌, if◌then◌else◌, ◌+◌,
}
use dave_go.Base.Bytes.{bytes_equal}
use dave_go.Session.Types.{
  mls_failed, unsupported_cipher_suite, welcome_panic, no_external_sender, invalid_external_sender,
}
use dave_go.Session.World.{
  World, Mls, MlsMessage, ExternalSender, Join, joined, not_joined, join_panicked,
}
use dave_go.Session.Exec.{pure, fail, gets, when, ◌>>=◌, ◌>>◌}
use dave_go.Session.Ops.{Act, on_group, count}
use dave_go.Session.Status.{is_empty}
use dave_go.Session.Gateway.{or_mls_failed, current_client, with_client}
use dave_go.Session.Commits.{renew_pending}

-- ciphersuite.MLS128DHKEMP256
abbrev mls_128_dhkem_p256 : ℕ
mls_128_dhkem_p256 = 2

-- The Welcome in an MLSMessage, or the bytes themselves. A message without one gives nil.
abbrev bare_welcome : List ℕ → Option MlsMessage → List ℕ
bare_welcome welcome none = welcome
bare_welcome welcome (some msg) = elim msg.welcome [ none ↦ [] | some inner ↦ inner ]

unfoldable pub welcome_cipher_suite : Mls → List ℕ → Option ℕ
welcome_cipher_suite mls welcome =
    mls.unmarshal_welcome (bare_welcome welcome (mls.unmarshal_message welcome))

-- A panic inside mls-go is a failed join.
unfoldable pub join_result : Join → Act (List ℕ)
join_result (joined group_id) = pure group_id
join_result not_joined = fail mls_failed
join_result join_panicked = do
  count (λ t. record t { welcome_panics = t.welcome_panics + 1 })
  fail welcome_panic

unfoldable pub join_with : World → List ℕ → Option ℕ → Act (List ℕ)
join_with w welcome none = join_result join_panicked
join_with w welcome (some client) = do
  answer ← with_client (λ c. w.mls.join_group c welcome)
  join_result answer

unfoldable pub join_group : World → List ℕ → Act (List ℕ)
join_group w welcome = do client ← gets (λ s. s.group.mls_client); join_with w welcome client

abbrev pub same_bytes : Option (List ℕ) → Option (List ℕ) → Bool
same_bytes none b = false
same_bytes (some a) none = false
same_bytes (some a) (some b) = bytes_equal a b

abbrev pub same_key : Option (Option (List ℕ)) → Option (Option (List ℕ)) → Bool
same_key none b = false
same_key (some a) none = false
same_key (some a) (some b) = same_bytes a b

-- Both have a key and a credential, and these are the same.
unfoldable pub external_sender_matches : ExternalSender → ExternalSender → Bool
external_sender_matches expected actual =
    same_key expected.public_key actual.public_key
    && same_bytes expected.credential actual.credential

-- The first extension of type external_senders.
abbrev external_senders_type : ℕ
external_senders_type = 5

abbrev find_external_senders : List (ℕ × List ℕ) → Option (List ℕ)
find_external_senders [] = none
find_external_senders ((kind, data_bytes) ∷ rest) =
    let others = find_external_senders rest in
    if kind == external_senders_type then some data_bytes else others

abbrev pub or_invalid_sender : {A : Type 0} → Option A → Act A
or_invalid_sender none = fail invalid_external_sender
or_invalid_sender (some a) = pure a

abbrev pub check_senders : ExternalSender → List ExternalSender → Act (Unit {0})
check_senders expected [] = fail invalid_external_sender
check_senders expected (actual ∷ []) =
    if external_sender_matches expected actual then pure tt else fail invalid_external_sender
check_senders expected (actual ∷ other ∷ more) = fail invalid_external_sender

unfoldable pub validate_joined_welcome_external_sender : World → List ℕ → Act (Unit {0})
validate_joined_welcome_external_sender w group_id = do
  own_package ← gets (λ s. s.group.external_sender_package)
  when (is_empty own_package) (fail no_external_sender)
  expected ← or_mls_failed (w.mls.parse_external_sender own_package)
  client ← current_client
  info ← or_mls_failed (w.mls.group_info client group_id)
  extensions ← or_mls_failed (w.mls.unmarshal_group_info info)
  extension ← or_invalid_sender (find_external_senders extensions)
  senders ← or_mls_failed (w.mls.unmarshal_external_senders extension)
  check_senders expected senders

unfoldable pub join_pending_welcome : World → List ℕ → Act (Unit {0})
join_pending_welcome w welcome = do
  suite ← or_mls_failed (welcome_cipher_suite w.mls welcome)
  when (not (suite == mls_128_dhkem_p256)) (fail unsupported_cipher_suite)
  group_id ← join_group w welcome
  validate_joined_welcome_external_sender w group_id
  on_group (λ g. record g { group_id = group_id; pending_group_id = group_id })
  renew_pending w group_id
