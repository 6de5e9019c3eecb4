-- ===== src/Examples/Sessions.antt =====
-- A world in which the calls of mls-go and of the gateway succeed, a session in it, and the theorems
-- on package session at them.
use dave_go.Base.{
  ℕ, ◌+◌, ◌^◌, ◌≤◌, ◌≡◌, ◌⊎◌, refl, arith, List, [], ◌∷◌, ◌++◌, length, take, replicate, All, ◌↔◌,
  true, false, ◌==◌, none, some, ok,
}
use dave_go.Base.Bytes.{IsByte, put_be}
use dave_go.Frame.Gcm8.{Gcm, xor_bytes}
use dave_go.Mediakeys.Ratchet.{Kdf, KeyRatchet}
use dave_go.Mediakeys.Nonce.{new_nonce_expander}
use dave_go.Session.Types.{Session, Config, EpochState, new_session, encrypt_frame, UserId}
use dave_go.Session.World.{World, Mls, MlsMessage, remove_proposal, ExternalSender, joined}
use dave_go.Session.Exec.{after}
use dave_go.Session.Recovery.{default_retry_config}
use dave_go.Session.Run.{
  Events, no_event, then_event, select_protocol_ack, external_sender, prepare_transition, media,
  channel, run_events,
}
use dave_go.Session.Wire.Identity.{
  parse_uint, user_id_to_identity_bytes, identity_bytes_to_user_id, format_uint,
}
use dave_go.Session.Wire.Vectors.{vector_body}
use dave_go.Session.Proposals.{
  proposal_allowed_by_dave, add_proposal_user_id, inspect, proposal_loop, split_refs,
}
use dave_go.Session.Commits.{process_commit}
use dave_go.Session.Welcomes.{external_sender_matches}
use dave_go.Session.Epochs.{rebuild_epoch_state}
use dave_go.Session.Status.{state, ready, should_hold_frames}
use dave_go.Session.Media.Send.{encrypt}
use dave_go.Session.Handlers.Protocol.{on_dave_execute_transition}
use dave_go.Session.Nonces.{IsDistinct}
use dave_go.Session.Nonces.Runs.{run_events-IsDistinct}
use dave_go.Session.Checks.Ids.{user_id-roundtrip, user_id_to_identity_bytes-IsByte}
use dave_go.Session.Checks.Wires.{IsBody, vector_body-IsBody}
use dave_go.Session.Checks.Inspection.{IsAllowed, inspect-IsAllowed}
use dave_go.Session.Checks.Batches.{proposal_loop-enough, concat, split_refs-concat}
use dave_go.Session.Checks.Members.{IsRebuilt, rebuild_epoch_state-IsRebuilt}
use dave_go.Session.Checks.Refs.{HasOnlyRefs, process_commit-checked}
use dave_go.Session.Checks.Senders.{AreSame, external_sender_matches_iff}
use dave_go.Session.Checks.Passthrough.{on_dave_execute_transition-passthrough}

-- The key stream repeats one byte, and the tag is constant.
abbrev a_gcm : Gcm
a_gcm = record {
  accepts = λ k. length k == 16;
  seal = λ k n p a. xor_bytes p (replicate (length p) 90) ++ replicate 16 7;
}

abbrev a_kdf : Kdf
a_kdf = record { expand_label = λ secret label context n. some (replicate n 0) }

abbrev some_bytes : List ℕ
some_bytes = 1 ∷ 2 ∷ []

-- The user with the number 7.
abbrev a_user : UserId
a_user = 55 ∷ []

abbrev an_mls : Mls
an_mls = record {
  unmarshal_message = λ bytes. some (record {
    wire = take 4 bytes;
    welcome = some some_bytes;
    public = some (record {
      sender_is_external = true;
      is_proposal = true;
      proposal_data = some some_bytes;
      commit_data = some some_bytes;
    });
  });
  unmarshal_welcome = λ bytes. some 2;
  unmarshal_commit = λ bytes. some (false ∷ false ∷ []);
  unmarshal_proposal = λ bytes. some remove_proposal;
  unmarshal_group_info = λ bytes. some ((5, some_bytes) ∷ []);
  parse_external_sender =
      λ bytes. some (record { public_key = some (some some_bytes); credential = some some_bytes });
  unmarshal_external_senders = λ bytes.
      some (record { public_key = some (some some_bytes); credential = some some_bytes } ∷ []);
  exporter_secret = λ bytes. some (some some_bytes);
  secrets = record {
    derive_secret = λ secret label. some some_bytes;
    hash = λ bytes. some some_bytes;
    kdf_expand_label = λ secret label context n. some (replicate n 3);
  };
  new_client = λ n identity. some n;
  fresh_key_package = λ client. (client + 1, some some_bytes);
  join_group = λ client welcome. (client + 1, joined some_bytes);
  group_info = λ client group_id. some some_bytes;
  process_commit = λ client group_id commit. (client + 1, true);
  process_public_message = λ client group_id message. (client + 1, true);
  revoke_proposals = λ client group_id refs. (client + 1, true);
  commit_pending_proposals = λ client group_id. (client + 1, some (some_bytes, []));
  create_group = λ client group_id kp sender. (client + 1, some group_id);
  list_members = λ client group_id. some (put_be 8 7 ∷ []);
  epoch = λ client group_id. some 1;
  epoch_authenticator = λ client group_id. some some_bytes;
  load_group_state = λ client group_id. some some_bytes;
  save_group_state = λ client group_id state. (client + 1, true);
}

abbrev a_world : World
a_world = record {
  clock = λ n. n;
  ratchet_clock = λ r n. n;
  accepts = λ n message. true;
  shard_not_ready = λ n. false;
  during = λ n. [];
  gcm = a_gcm;
  kdf = a_kdf;
  mls = an_mls;
}

abbrev a_config : Config
a_config = record {
  user_id = a_user;
  has_callbacks = true;
  send_retention_ttl = 10;
  plaintext_grace = 10;
  strict_encrypt = true;
  recovery_timeout = 15;
}

abbrev a_session : Session
a_session = new_session a_config

-- The session joins a channel alone, and sends two frames.
abbrev some_events : Events
some_events = then_event (channel 4) (
    then_event (select_protocol_ack 1) (
      then_event (external_sender some_bytes) (
        then_event (prepare_transition 0 1) (
          then_event (media (encrypt_frame 1 some_bytes 100))
            (then_event (media (encrypt_frame 1 some_bytes 100)) no_event)))))

abbrev drawn_by_events : List (ℕ × ℕ)
drawn_by_events = (after (run_events a_world default_retry_config some_events) a_session).keys.drawn

run_events-IsDistinct_example :
    (2 ^ 64
      ≤ length
          (after
            (run_events a_world default_retry_config some_events)
            (new_session a_config)).keys.drawn)
    ⊎ IsDistinct
        (after
          (run_events a_world default_retry_config some_events)
          (new_session a_config)).keys.drawn
run_events-IsDistinct_example =
    run_events-IsDistinct a_world default_retry_config a_config some_events

user_id-roundtrip_example :
    (user_id_to_identity_bytes (format_uint 1234567) ≡ ok (put_be 8 1234567))
    × (identity_bytes_to_user_id (put_be 8 1234567) ≡ ok (format_uint 1234567, 1234567))
user_id-roundtrip_example = user_id-roundtrip 1234567 (omega arith)

user_id_to_identity_bytes-IsByte_example :
    (n : ℕ) × (parse_uint (format_uint 1234567) ≡ ok n)
    × (length (put_be 8 1234567) ≡ 8)
    × All IsByte (put_be 8 1234567)
    × (identity_bytes_to_user_id (put_be 8 1234567) ≡ ok (format_uint n, n))
user_id_to_identity_bytes-IsByte_example =
    user_id_to_identity_bytes-IsByte (format_uint 1234567) (put_be 8 1234567)
      user_id-roundtrip_example.0

abbrev some_vector : List ℕ
some_vector = 64 ∷ 3 ∷ 9 ∷ 8 ∷ 7 ∷ 6 ∷ []

vector_body-IsBody_example : IsBody some_vector (vector_body some_vector)
vector_body-IsBody_example =
    vector_body-IsBody some_vector
      (omega arith, (omega arith, (omega arith, (omega arith, (omega arith, (omega arith, tt))))))

abbrev a_message : MlsMessage
a_message = record {
  wire = some_bytes;
  welcome = none;
  public = some (record {
    sender_is_external = true;
    is_proposal = true;
    proposal_data = some some_bytes;
    commit_data = none;
  });
}

a_message-passes : inspect an_mls [] a_message ≡ true
unfolding inspect proposal_allowed_by_dave add_proposal_user_id
a_message-passes = refl

inspect-IsAllowed_example : IsAllowed an_mls [] a_message.public
inspect-IsAllowed_example = inspect-IsAllowed an_mls [] a_message a_message-passes

proposal_loop-enough_example :
    proposal_loop a_world 6 some_vector false a_session
    ≡ proposal_loop a_world 9 some_vector false a_session
proposal_loop-enough_example =
    proposal_loop-enough a_world 6 9 some_vector false a_session (omega arith) (omega arith)

split_refs-concat_example :
    (concat (split_refs 2 (replicate 64 5)) ≡ replicate 64 5)
    × (length (split_refs 2 (replicate 64 5)) ≡ 2)
    × All (λ ref. length ref ≡ 32) (split_refs 2 (replicate 64 5))
split_refs-concat_example = split_refs-concat 2 (replicate 64 5) refl

-- A session with a client, in a group.
abbrev joined_session : Session
joined_session = record a_session {
  group = record a_session.group { mls_client = some 3; group_id = some_bytes };
}

rebuild_epoch_state-IsRebuilt_example :
    IsRebuilt a_world joined_session.group.mls_client some_bytes
      (rebuild_epoch_state a_world some_bytes joined_session).1
rebuild_epoch_state-IsRebuilt_example =
    rebuild_epoch_state-IsRebuilt a_world some_bytes joined_session

process_commit-checked_example :
    HasOnlyRefs an_mls (an_mls.unmarshal_message some_bytes)
    ⊎ ((process_commit a_world some_bytes joined_session).0 ≡ joined_session)
process_commit-checked_example = process_commit-checked a_world some_bytes joined_session

abbrev a_sender : ExternalSender
a_sender = record { public_key = some (some some_bytes); credential = some some_bytes }

external_sender_matches_iff_example :
    (external_sender_matches a_sender a_sender ≡ true) ↔ AreSame a_sender a_sender
external_sender_matches_iff_example = external_sender_matches_iff a_sender a_sender

-- The transition 0 to version 0 is prepared.
on_dave_execute_transition-passthrough_example :
    (ready (after (on_dave_execute_transition a_world 0) a_session) ≡ true)
    × (should_hold_frames (after (on_dave_execute_transition a_world 0) a_session) ≡ false)
    × ((encrypt a_world 1 some_bytes
          (replicate 9 0)
          (after (on_dave_execute_transition a_world 0) a_session)).1
        ≡ ok (2, some_bytes ++ replicate 7 0))
on_dave_execute_transition-passthrough_example =
    on_dave_execute_transition-passthrough a_world 0 1 some_bytes (replicate 9 0) a_session refl
      refl (omega arith)

abbrev a_frame : List ℕ
a_frame = 1 ∷ 2 ∷ 3 ∷ 0 ∷ 0 ∷ 0 ∷ 0 ∷ 0 ∷ 0 ∷ 0 ∷ 0 ∷ 5 ∷ 12 ∷ 0xFA ∷ 0xFA ∷ []

-- The frame's sender is in the active epoch.
abbrev an_epoch : EpochState
an_epoch = record {
  id = 1;
  group_id = some_bytes;
  senders =
      (
        a_user,
        record {
          ratchet = 0;
          expander = new_nonce_expander;
          replay = record { highest = 0; bitmap = []; seen = false };
        },
      )
      ∷ [];
  expires_at = none;
}

abbrev a_ratchet : KeyRatchet
a_ratchet = record {
  retention_ttl = 10;
  max_generation_gap = 256;
  now = λ n. n;
  calls = 0;
  base_secret = replicate 16 1;
  base_generation = 0;
  cache = [];
}

abbrev active_session : Session
active_session = record a_session {
  keys = record a_session.keys { active_epoch = some an_epoch; ratchets = a_ratchet ∷ [] };
}
