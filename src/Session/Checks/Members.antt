-- ===== src/Session/Checks/Members.antt =====
-- The members of a rebuilt epoch.
use dave_go.Base.{
  ℕ, ◌≡◌, refl, subst, List, [], ◌∷◌, Bool, true, false, Option, none, some, Result, ok, err, panic,
  Bool-cases, inl, inr,
}
use dave_go.Base.Bytes.{bytes_equal, bytes_equal→eq, bytes_equal_refl}
use dave_go.Mediakeys.Export.{Exporter}
use dave_go.Session.Types.{
  Session, SessionError, UserId, SenderState, EpochState, duplicate_group_identity,
}
use dave_go.Session.World.{World}
use dave_go.Session.Exec.{pure, fail, crash, lift, gets, when}
use dave_go.Session.Exec.Keeps.{Keeps}
use dave_go.Session.Exec.Triples.{Outcome, Triple, bind-Triple, pure-Triple, then-Triple}
use dave_go.Session.Ops.{Act, contains_user, find}
use dave_go.Session.Status.{is_set}
use dave_go.Session.Gateway.{or_mls_failed, from_client, current_client}
use dave_go.Session.Wire.Identity.{identity_bytes_to_user_id}
use dave_go.Session.Epochs.{write_before, senders_of, rebuild_epoch_state}

-- Anything.
abbrev pub Any : Session → Type 0
Any s = Unit

pub Any-Keeps : {A : Type 0} (m : Act A) → Keeps Any m
Any-Keeps m = record { kept = λ s h. tt }

-- The senders' users, in order, are apart from those seen and from each other.
pub IsApart : List UserId → List (UserId × SenderState) → Type 0
IsApart seen [] = Unit
IsApart seen ((user, sender) ∷ senders) =
    (contains_user user seen ≡ false) × IsApart (user ∷ seen) senders

-- Where the test fails, what follows knows.
pub unless-Triple :
    (test : Bool) (e : SessionError) → Triple Any (when test (fail e)) (λ done s. test ≡ false) Any
unfolding when fail pure
unless-Triple true e = record { holds = λ s h. tt }
unless-Triple false e = record { holds = λ s h. refl }

pub given-Triple :
    {A : Type 0} (fact : Type 0) (m : Act A) (Q : A → Session → Type 0)
    → (fact → Triple Any m Q Any)
    → Triple (λ s. fact) m Q Any
given-Triple fact m Q t = record { holds = λ s h. (t h).holds s tt }

-- One sender for each member, under the user id that its identity holds.
pub data AreOf : List (List ℕ) → List (UserId × SenderState) → Type 0 where
  no_members : AreOf [] []
  member :
      (identity : List ℕ) (user : UserId) (n : ℕ) (sender : SenderState)
      (identities : List (List ℕ)) (senders : List (UserId × SenderState))
      → identity_bytes_to_user_id identity ≡ ok (user, n)
      → AreOf identities senders
      → AreOf (identity ∷ identities) ((user, sender) ∷ senders)

abbrev AreMembers : List (List ℕ) → List UserId → List (UserId × SenderState) → Type 0
AreMembers identities seen senders = AreOf identities senders × IsApart seen senders

-- A user that has been seen has no sender among those apart from the seen.
absent :
    (user : UserId) (seen : List UserId) (senders : List (UserId × SenderState))
    → contains_user user seen ≡ true
    → IsApart seen senders
    → is_set (find user senders) ≡ false
unfolding IsApart
absent user seen [] h apart = refl
absent user seen ((u, sender) ∷ senders) h apart = elim (Bool-cases (bytes_equal u user)) [
  | inl same ↦
      let wrong : contains_user user seen ≡ false =
        subst (λ x. contains_user x seen ≡ false) (bytes_equal→eq u user same) apart.0 in
      cc
  | inr other ↦ rw other (absent user (u ∷ seen) senders (rw other h) apart.1)
]

contains_user_self : (user : UserId) (seen : List UserId) → contains_user user (user ∷ seen) ≡ true
contains_user_self user seen = rw (bytes_equal_refl user) refl

-- The senders with one more, for a user that has not been seen.
written-AreMembers :
    (identity : List ℕ) (user : UserId) (n : ℕ) (sender : SenderState) (identities : List (List ℕ))
    (seen : List UserId) (senders : List (UserId × SenderState))
    → identity_bytes_to_user_id identity ≡ ok (user, n)
    → contains_user user seen ≡ false
    → AreMembers identities (user ∷ seen) senders
    → AreMembers (identity ∷ identities) seen (write_before user sender senders)
unfolding IsApart
written-AreMembers identity user n sender identities seen senders e new (all, apart) =
    rw (absent user (user ∷ seen) senders (contains_user_self user seen) apart)
      (member identity user n sender identities senders e all, (new, apart))

lift-Triple :
    {A : Type 0} (r : Result SessionError A) → Triple Any (lift r) (λ value s. r ≡ ok value) Any
unfolding lift
lift-Triple (ok value) = record { holds = λ s h. refl }
lift-Triple (err e) = record { holds = λ s h. tt }
lift-Triple panic = record { holds = λ s h. tt }

senders_of-AreMembers :
    (w : World) (export : Exporter) (identities : List (List ℕ)) (seen : List UserId)
    → Triple Any
        (senders_of w export identities seen)
        (λ senders s. AreMembers identities seen senders)
        Any
unfolding senders_of IsApart
senders_of-AreMembers w export [] seen = pure-Triple _ _ _ (λ s h. (no_members, tt))
senders_of-AreMembers w export (identity ∷ identities) seen =
    bind-Triple _ _ _ _ _ (lift-Triple _) (λ (user, sender_id). given-Triple _ _ _ (λ read.
      bind-Triple _ _ _ _ _ (unless-Triple (contains_user user seen) duplicate_group_identity)
        (λ done. given-Triple _ _ _ (λ new.
          then-Triple _ _ _ (λ s h. tt) (Any-Keeps _)
            (λ sender.
              bind-Triple _ _ _ _ _ (senders_of-AreMembers w export identities (user ∷ seen))
                (λ senders. pure-Triple _ _ _ (λ s h.
                  written-AreMembers identity user sender_id sender identities seen senders read new
                    h)))))))

-- The members that the client lists have one sender each, and no two of them are of one user.
Listed : World → Option ℕ → List ℕ → EpochState → Type 0
Listed w client group_id epoch =
    (c : ℕ) × (members : List (List ℕ)) × (client ≡ some c)
    × (w.mls.list_members c group_id ≡ some members)
    × AreOf members epoch.senders
    × IsApart [] epoch.senders

or_mls_failed-Triple :
    {A : Type 0} (answer : Option A)
    → Triple Any (or_mls_failed answer) (λ value s. answer ≡ some value) Any
unfolding fail pure
or_mls_failed-Triple none = record { holds = λ s h. tt }
or_mls_failed-Triple (some a) = record { holds = λ s h. refl }

from_client-Triple :
    (client : Option ℕ) → Triple Any (from_client client) (λ c s. client ≡ some c) Any
unfolding crash pure
from_client-Triple none = record { holds = λ s h. tt }
from_client-Triple (some c) = record { holds = λ s h. refl }

current_client-Triple :
    (client : Option ℕ)
    → Triple (λ s. s.group.mls_client ≡ client) current_client (λ c s. client ≡ some c) Any
unfolding current_client gets
current_client-Triple client =
    bind-Triple _ _ (λ found s. found ≡ client) _ _ (record { holds = λ s h. h })
      (λ found. given-Triple _ _ _ (λ same.
        subst (λ o. Triple Any (from_client found) (λ c s. o ≡ some c) Any) same
          (from_client-Triple found)))

rebuild-Triple :
    (w : World) (client : Option ℕ) (group_id : List ℕ)
    → Triple
        (λ s. s.group.mls_client ≡ client)
        (rebuild_epoch_state w group_id)
        (λ epoch s. Listed w client group_id epoch)
        Any
unfolding rebuild_epoch_state Listed
rebuild-Triple w client group_id = bind-Triple _ _ _ _ _ (current_client-Triple client) (λ c.
    given-Triple _ _ _ (λ is_client.
      bind-Triple _ _ _ _ _ (or_mls_failed-Triple (w.mls.list_members c group_id)) (λ members.
        given-Triple _ _ _ (λ listed.
          then-Triple _ _ _ (λ s h. tt) (Any-Keeps _)
            (λ epoch.
              bind-Triple _ _ _ _ _ (senders_of-AreMembers w _ members []) (λ senders.
                pure-Triple _ _ _ (λ s h. (c, members, is_client, listed, h.0, h.1))))))))

-- An epoch whose senders are those of the members that the client lists; or no epoch.
pub data IsRebuilt (w : World) (client : Option ℕ) (group_id : List ℕ)
    : Result SessionError EpochState → Type 0 where
  rebuilt :
      (epoch : EpochState) (c : ℕ) (members : List (List ℕ))
      → client ≡ some c
      → w.mls.list_members c group_id ≡ some members
      → AreOf members epoch.senders
      → IsApart [] epoch.senders
      → IsRebuilt w client group_id (ok epoch)
  refused : (e : SessionError) → IsRebuilt w client group_id (err e)
  panicked : IsRebuilt w client group_id panic

Outcome-IsRebuilt :
    (w : World) (client : Option ℕ) (group_id : List ℕ) (s : Session)
    (r : Result SessionError EpochState)
    → Outcome (λ epoch o. Listed w client group_id epoch) Any s r
    → IsRebuilt w client group_id r
unfolding Listed
Outcome-IsRebuilt w client group_id s (ok epoch) (c, members, is, listed, all, apart) =
    rebuilt epoch c members is listed all apart
Outcome-IsRebuilt w client group_id s (err e) h = refused e
Outcome-IsRebuilt w client group_id s panic h = panicked

-- An epoch that is rebuilt has one sender for each member that the client lists, in their order and
-- under the user ids that their identities hold, and no two of these are the same: two members with
-- one user id make an error. Else there is an error or a panic, and no epoch.
pub rebuild_epoch_state-IsRebuilt :
    (w : World) (group_id : List ℕ) (s : Session)
    → IsRebuilt w s.group.mls_client group_id (rebuild_epoch_state w group_id s).1
rebuild_epoch_state-IsRebuilt w group_id s =
    Outcome-IsRebuilt w s.group.mls_client group_id (rebuild_epoch_state w group_id s).0
      (rebuild_epoch_state w group_id s).1
      ((rebuild-Triple w s.group.mls_client group_id).holds s refl)
