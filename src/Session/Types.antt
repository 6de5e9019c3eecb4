-- ===== src/Session/Types.antt =====
-- The structs of session/session.go and session/state.go, and the errors of session/errors.go. The
-- fields of `Session` are grouped into records by what changes them together.
use dave_go.Base.{ℕ, List, [], Option, none, Bool, false}
use dave_go.Frame.Types.{Error}
use dave_go.Codecs.Types.{Kind, CodecError}
use dave_go.Mediakeys.Nonce.{NonceCounter, NonceExpander, new_nonce_counter}
use dave_go.Mediakeys.Ratchet.{KeyRatchet, RatchetError}
use dave_go.Mediakeys.Displayable.{DisplayableError}
use dave_go.Mediakeys.Export.{ExportError}
use dave_go.Session.Replay.{AntiReplayWindow}

-- A user's snowflake in decimal, as the bytes of a string.
abbrev pub UserId : Type 0
UserId = List ℕ

-- A pointer to a ratchet: its place in `ratchets`. `sendRatchet` points to the ratchet of the
-- session's own sender.
abbrev pub RatchetRef : Type 0
RatchetRef = ℕ

pub record SenderState : Type 0 where
  pub ratchet : RatchetRef
  pub expander : NonceExpander
  pub replay : AntiReplayWindow

-- A zero `time.Time` is `none`.
pub record EpochState : Type 0 where
  pub id : ℕ
  pub group_id : List ℕ
  pub senders : List (UserId × SenderState)
  pub expires_at : Option ℕ

-- The errors, without the text and the cause that some of them wrap. `mls_failed` is an error of
-- mls-go.
pub data SessionError : Type 0 where
  decryption_failed nil_exporter_store exporter_secret_unavailable invalid_credential_identity :
      SessionError
  no_active_group invalid_vector_length proposals_too_short proposals_truncated : SessionError
  proposal_too_short empty_proposal invalid_external_sender no_external_sender : SessionError
  no_channel_id no_pre_commit_state expected_welcome proposals_too_many : SessionError
  no_active_epoch inline_proposal_in_commit duplicate_group_identity missing_key_ratchet :
      SessionError
  send_failed superseded unsupported_cipher_suite welcome_panic : SessionError
  invalid_user_id shut_down mls_failed : SessionError
  frame_failed : Error → SessionError
  codec_failed : CodecError → SessionError
  ratchet_failed : RatchetError → SessionError
  export_failed : ExportError → SessionError
  displayable_failed : DisplayableError → SessionError

-- The counters of `Stats`; durations are in nanoseconds.
pub record Stats : Type 0 where
  pub commits_processed : ℕ
  pub commits_failed : ℕ
  pub welcomes_joined : ℕ
  pub welcomes_failed : ℕ
  pub welcome_panics : ℕ
  pub recovery_attempts : ℕ
  pub recovery_attempts_transport : ℕ
  pub encrypt_failures : ℕ
  pub decrypt_failures : ℕ
  pub passthrough_frames : ℕ
  pub transition_frames : ℕ
  pub transition_windows : ℕ
  pub degraded_duration : ℕ
  pub transport_retry_duration : ℕ
  pub rejected_replay_frames : ℕ
  pub proposals_rejected : ℕ
  pub downgrade_to_v0 : ℕ

-- Fixed when the session is created.
pub record Config : Type 0 where
  pub user_id : UserId
  pub has_callbacks : Bool
  pub send_retention_ttl : ℕ
  pub plaintext_grace : ℕ
  pub strict_encrypt : Bool
  pub recovery_timeout : ℕ

-- The epochs and the sending side. `sendCipher` is the cipher of `send_cipher_key`. `drawn` is no
-- field of the source: it lists every nonce that Encrypt has drawn, with the ratchet it is for.
pub record Keys : Type 0 where
  pub send_counter : NonceCounter
  pub send_ratchet : Option RatchetRef
  pub retained_send_ratchet : Option RatchetRef
  pub retained_send_expires_at : Option ℕ
  pub send_cipher_key : List ℕ
  pub active_epoch : Option EpochState
  pub pending_epoch : Option EpochState
  pub retained_epoch : List EpochState
  pub ratchets : List KeyRatchet
  pub drawn : List (RatchetRef × ℕ)

pub record Protocol : Type 0 where
  pub channel_id : ℕ
  pub protocol_version : ℕ
  pub send_protocol_version : ℕ
  pub transport_only : Bool
  pub plaintext_rejected_from : Option ℕ
  pub ssrc_codecs : List (ℕ × Kind)
  pub users : List UserId
  pub active_transition_id : ℕ
  pub pending_transition_id : ℕ

-- The MLS group. A nil slice is an empty list, since the code tests lengths only. A state of the
-- MLS client with its store is a number that stands for it.
pub record Group : Type 0 where
  pub mls_client : Option ℕ
  pub group_id : List ℕ
  pub pending_group_id : List ℕ
  pub external_sender_package : List ℕ
  pub pending_key_package : List ℕ
  pub last_proposal_batch : List ℕ
  pub proposal_queue : List (List ℕ)
  pub pending_commit_bytes : List ℕ
  pub pre_commit_group_state : List ℕ

-- A goroutine that waits on a channel and recovers when it times out.
pub record Watchdog : Type 0 where
  pub ready : ℕ
  pub transition_id : ℕ
  pub needs_pending : Bool

-- `epoch_ready` numbers the channels that `epochReady` has been; all but the last are closed.
pub record Health : Type 0 where
  pub epoch_ready : ℕ
  pub epoch_ready_closed : Bool
  pub recovery_attempts : ℕ
  pub degraded_since : Option ℕ
  pub stats : Stats
  pub shutdown : Bool
  pub watchdogs : List Watchdog

-- What the session asked of the gateway: the calls of its callbacks.
pub data Message : Type 0 where
  key_package : List ℕ → Message
  ready_for_transition : ℕ → Message
  invalid_commit_welcome : ℕ → Message
  commit_welcome : List ℕ → Message

-- The calls made so far: of the clock, of the callbacks with their arguments, of mls.NewClient.
pub record Calls : Type 0 where
  pub clock : ℕ
  pub sent : List Message
  pub clients : ℕ

pub record Session : Type 0 where
  pub config : Config
  pub keys : Keys
  pub protocol : Protocol
  pub group : Group
  pub health : Health
  pub calls : Calls

-- A call that another goroutine may make while a callback sends.
pub data MediaCall : Type 0 where
  encrypt_frame : ℕ → List ℕ → ℕ → MediaCall
  decrypt_frame : UserId → List ℕ → ℕ → MediaCall
  add_user : UserId → MediaCall
  remove_user : UserId → MediaCall
  assign_ssrc : ℕ → Kind → MediaCall
  set_channel : ℕ → MediaCall
  close_session : MediaCall

-- The snapshot that State returns.
pub record State : Type 0 where
  pub epoch_id : ℕ
  pub is_ready : Bool
  pub degraded_since : Option ℕ
  pub protocol_version : ℕ

abbrev pub no_stats : Stats
no_stats = record {
  commits_processed = 0;
  commits_failed = 0;
  welcomes_joined = 0;
  welcomes_failed = 0;
  welcome_panics = 0;
  recovery_attempts = 0;
  recovery_attempts_transport = 0;
  encrypt_failures = 0;
  decrypt_failures = 0;
  passthrough_frames = 0;
  transition_frames = 0;
  transition_windows = 0;
  degraded_duration = 0;
  transport_retry_duration = 0;
  rejected_replay_frames = 0;
  proposals_rejected = 0;
  downgrade_to_v0 = 0;
}

-- `New`, without the logger and the hook.
abbrev pub new_session : Config → Session
new_session config = record {
  config = config;
  keys = record {
    send_counter = new_nonce_counter;
    send_ratchet = none;
    retained_send_ratchet = none;
    retained_send_expires_at = none;
    send_cipher_key = [];
    active_epoch = none;
    pending_epoch = none;
    retained_epoch = [];
    ratchets = [];
    drawn = [];
  };
  protocol = record {
    channel_id = 0;
    protocol_version = 0;
    send_protocol_version = 0;
    transport_only = false;
    plaintext_rejected_from = none;
    ssrc_codecs = [];
    users = [];
    active_transition_id = 0;
    pending_transition_id = 0;
  };
  group = record {
    mls_client = none;
    group_id = [];
    pending_group_id = [];
    external_sender_package = [];
    pending_key_package = [];
    last_proposal_batch = [];
    proposal_queue = [];
    pending_commit_bytes = [];
    pre_commit_group_state = [];
  };
  health = record {
    epoch_ready = 0;
    epoch_ready_closed = false;
    recovery_attempts = 0;
    degraded_since = none;
    stats = no_stats;
    shutdown = false;
    watchdogs = [];
  };
  calls = record { clock = 0; sent = []; clients = 0 };
}

-- The fields of `config` that the options set.
pub data SessionOption : Type 0 where
  with_recovery_timeout : ℕ → SessionOption
  with_strict_encrypt : SessionOption
