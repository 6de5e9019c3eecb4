-- ===== src/Session/Epochs.antt =====
-- session/mls.go: the keys of an epoch, and the session's own group.
use dave_go.Base.{
  ℕ, List, [], ◌∷◌, length, Option, none, some, Bool, true, false, not, ◌||◌, ◌==◌, Result, ok, err,
  panic,
}
use dave_go.Base.Bytes.{put_be}
use dave_go.Mediakeys.Nonce.{new_nonce_expander}
use dave_go.Mediakeys.Ratchet.{new_key_ratchet}
use dave_go.Mediakeys.Export.{
  ExportError, Exporter, derive_sender_base_secret, export_with_mls_exporter_secret,
}
use dave_go.Session.Replay.{empty_bitmap}
use dave_go.Session.Types.{
  SessionError, duplicate_group_identity, no_external_sender, no_channel_id, export_failed, UserId,
  SenderState, EpochState,
}
use dave_go.Session.World.{World}
use dave_go.Session.Exec.{pure, fail, lift, gets, when, ◌>>=◌, ◌>>◌}
use dave_go.Session.Ops.{Act, on_group, contains_user, find, ratchet_result, allocate}
use dave_go.Session.Status.{is_set, is_empty}
use dave_go.Session.Gateway.{or_mls_failed, current_client, with_client, ensure_pending_key_package}
use dave_go.Session.Wire.Identity.{identity_bytes_to_user_id}

abbrev export_result : {A : Type 0} → Result ExportError A → Result SessionError A
export_result (ok a) = ok a
export_result (err e) = err (export_failed e)
export_result panic = panic

abbrev exported : Result ExportError (List ℕ) → Option (List ℕ)
exported (ok secret) = some secret
exported (err e) = none
exported panic = none

-- What exporterAdapter exports from a group state as stored, with its exporter secret or nil.
abbrev export_from : World → Option (Option (List ℕ)) → List ℕ → List ℕ → ℕ → Option (List ℕ)
export_from w none label context len = none
export_from w (some none) label context len = none
export_from w (some (some secret)) label context len =
    exported (export_with_mls_exporter_secret w.mls.secrets (some secret) label context len)

abbrev stored_secret : World → Option (List ℕ) → Option (Option (List ℕ))
stored_secret w none = none
stored_secret w (some group_state) = w.mls.exporter_secret group_state

-- exporterAdapter.Export
unfoldable pub exporter : World → ℕ → List ℕ → Exporter
exporter w client group_id label context len =
    export_from w (stored_secret w (w.mls.load_group_state client group_id)) label context len

-- The keys of a member.
unfoldable pub new_sender : World → Exporter → ℕ → Act SenderState
new_sender w export sender_id = do
  base_secret ← lift (export_result (derive_sender_base_secret (some export) sender_id))
  place ← gets (λ s. length s.keys.ratchets)
  ratchet ← lift (ratchet_result (new_key_ratchet (w.ratchet_clock place) base_secret []))
  ref ← allocate ratchet
  pure (record {
    ratchet = ref;
    expander = new_nonce_expander;
    replay = record { highest = 0; bitmap = empty_bitmap; seen = false };
  })

abbrev pub with_sender :
    Bool → UserId → SenderState → List (UserId × SenderState) → List (UserId × SenderState)
with_sender true user sender senders = senders
with_sender false user sender senders = (user, sender) ∷ senders

-- A write to the map of senders, given what the later writes made of it: a later one to the same user
-- takes its place.
abbrev pub write_before :
    UserId → SenderState → List (UserId × SenderState) → List (UserId × SenderState)
write_before user sender senders = with_sender (is_set (find user senders)) user sender senders

-- The loop over the members, with the users seen.
unfoldable pub senders_of :
    World → Exporter → List (List ℕ) → List UserId → Act (List (UserId × SenderState))
senders_of w export [] seen = pure []
senders_of w export (identity ∷ identities) seen = do
  (user, sender_id) ← lift (identity_bytes_to_user_id identity)
  when (contains_user user seen) (fail duplicate_group_identity)
  sender ← new_sender w export sender_id
  senders ← senders_of w export identities (user ∷ seen)
  pure (write_before user sender senders)

unfoldable pub rebuild_epoch_state : World → List ℕ → Act EpochState
rebuild_epoch_state w group_id = do
  client ← current_client
  members ← or_mls_failed (w.mls.list_members client group_id)
  epoch ← or_mls_failed (w.mls.epoch client group_id)
  senders ← senders_of w (exporter w client group_id) members []
  pure (record { id = epoch; group_id = group_id; senders = senders; expires_at = none })

abbrev adds_to : List (UserId × SenderState) → List (UserId × SenderState) → Bool
adds_to old [] = false
adds_to old ((user, sender) ∷ senders) =
    let others = adds_to old senders in not (is_set (find user old)) || others

unfoldable pub new_epoch_adds_sender : Option EpochState → Option EpochState → Bool
new_epoch_adds_sender none new = true
new_epoch_adds_sender (some old) none = true
new_epoch_adds_sender (some old) (some new) = adds_to old.senders new.senders

-- The group's id is the channel's, in 8 bytes.
unfoldable pub create_group : World → Act (Unit {0})
create_group w = do
  ensure_pending_key_package w
  channel ← gets (λ s. s.protocol.channel_id)
  kp ← gets (λ s. s.group.pending_key_package)
  external_sender ← gets (λ s. s.group.external_sender_package)
  created ← with_client (λ client. w.mls.create_group client (put_be 8 channel) kp external_sender)
  group_id ← or_mls_failed created
  on_group (λ g. record g { group_id = group_id })

unfoldable pub create_group_with_external_sender : World → Act (Unit {0})
create_group_with_external_sender w = do
  s ← gets (λ s. s)
  when (is_empty s.group.group_id) (do
    when (is_empty s.group.external_sender_package) (fail no_external_sender)
    when (s.protocol.channel_id == 0) (fail no_channel_id)
    create_group w)
