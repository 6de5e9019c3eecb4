-- ===== src/Session/World.antt =====
-- What the session is given: the clock, the callbacks, the cipher, the derivation, and the parts of
-- mls-go that session/mls.go calls. A client with its store is an opaque number.
use dave_go.Base.{ℕ, List, Option, Bool}
use dave_go.Frame.Gcm8.{Gcm}
use dave_go.Mediakeys.Ratchet.{Kdf}
use dave_go.Mediakeys.Export.{MlsSecrets}
use dave_go.Session.Types.{Message, MediaCall}

-- framing.MLSMessage, by what the session reads of it. `public` is `AsPublic`.
pub record PublicMessage : Type 0 where
  pub sender_is_external : Bool
  pub is_proposal : Bool
  pub proposal_data : Option (List ℕ)
  pub commit_data : Option (List ℕ)

pub record MlsMessage : Type 0 where
  pub wire : List ℕ
  pub welcome : Option (List ℕ)
  pub public : Option PublicMessage

-- group.Proposal. `add_identity` is the identity in the key package of an Add, `none` when a part
-- on the way to it is nil.
pub data Proposal : Type 0 where
  add_proposal : Option (List ℕ) → Proposal
  remove_proposal : Proposal
  other_proposal : Proposal

-- mlsext.ExternalSender. The two fields are nil in `none`, and `ECDH` fails in `some none`.
pub record ExternalSender : Type 0 where
  pub public_key : Option (Option (List ℕ))
  pub credential : Option (List ℕ)

pub data Join : Type 0 where
  joined : List ℕ → Join
  not_joined : Join
  join_panicked : Join

pub record Mls : Type 0 where
  -- The packages framing, group and extensions.
  pub unmarshal_message : List ℕ → Option MlsMessage
  pub unmarshal_welcome : List ℕ → Option ℕ
  pub unmarshal_commit : List ℕ → Option (List Bool)
  pub unmarshal_proposal : List ℕ → Option Proposal
  pub unmarshal_group_info : List ℕ → Option (List (ℕ × List ℕ))
  pub parse_external_sender : List ℕ → Option ExternalSender
  pub unmarshal_external_senders : List ℕ → Option (List ExternalSender)
  pub exporter_secret : List ℕ → Option (Option (List ℕ))
  pub secrets : MlsSecrets
  -- mls.NewClient, its methods and its store.
  pub new_client : ℕ → List ℕ → Option ℕ
  pub fresh_key_package : ℕ → ℕ × Option (List ℕ)
  pub join_group : ℕ → List ℕ → ℕ × Join
  pub group_info : ℕ → List ℕ → Option (List ℕ)
  pub process_commit : ℕ → List ℕ → List ℕ → ℕ × Bool
  pub process_public_message : ℕ → List ℕ → List ℕ → ℕ × Bool
  pub revoke_proposals : ℕ → List ℕ → List (List ℕ) → ℕ × Bool
  pub commit_pending_proposals : ℕ → List ℕ → ℕ × Option (List ℕ × List ℕ)
  pub create_group : ℕ → List ℕ → List ℕ → List ℕ → ℕ × Option (List ℕ)
  pub list_members : ℕ → List ℕ → Option (List (List ℕ))
  pub epoch : ℕ → List ℕ → Option ℕ
  pub epoch_authenticator : ℕ → List ℕ → Option (List ℕ)
  pub load_group_state : ℕ → List ℕ → Option (List ℕ)
  pub save_group_state : ℕ → List ℕ → List ℕ → ℕ × Bool

-- `ratchet_clock r n` is the time of the n-th call of the clock of the ratchet at `r`. `clock n` is the time of the n-th call of time.Now, in nanoseconds. `accepts n m` says whether the
-- n-th callback returns nil, `shard_not_ready n` whether its error has the text that isShardNotReady
-- looks for, and `during n` lists the calls that other goroutines make meanwhile,
-- when the session's lock is released.
pub record World : Type 0 where
  pub clock : ℕ → ℕ
  pub ratchet_clock : ℕ → ℕ → ℕ
  pub accepts : ℕ → Message → Bool
  pub shard_not_ready : ℕ → Bool
  pub during : ℕ → List MediaCall
  pub gcm : Gcm
  pub kdf : Kdf
  pub mls : Mls
