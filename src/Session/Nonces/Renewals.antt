-- ===== src/Session/Nonces/Renewals.antt =====
-- A rebuilt epoch has new ratchets: none is in use, retained or drawn for.
use dave_go.Base.{
  Bool, true, false, ℕ, suc, ◌≤◌, ◌<◌, inl, inr, Bool-cases, arith, List, [], ◌∷◌, length,
  length-append, All, Option, none, some,
}
use dave_go.Base.Bytes.{bytes_equal}
use dave_go.Mediakeys.Ratchet.{KeyRatchet}
use dave_go.Mediakeys.Export.{Exporter}
use dave_go.Session.Types.{Session, UserId, RatchetRef, SenderState, EpochState, Keys}
use dave_go.Session.World.{World}
use dave_go.Session.Exec.Keeps.{Keeps, gets-Keeps, lift-Keeps, when-Keeps, fail-Keeps}
use dave_go.Session.Exec.Triples.{
  Triple, bind-Triple, pure-Triple, then-Triple, last-Triple, Triple-result,
}
use dave_go.Session.Ops.{Act, find, allocate}
use dave_go.Session.Epochs.{with_sender, new_sender, senders_of, rebuild_epoch_state}
use dave_go.Session.Commits.{set_pending, renew_pending}
use dave_go.Session.Activation.{ratchet_of_sender}
use dave_go.Session.Nonces.{AreSafe, IsSafe, IsSafeBelow, own_ref, Draw}
use dave_go.Session.Nonces.Steps.{renew-IsSafe, more-IsSafe, no_pending-IsSafe}
use dave_go.Session.Nonces.Frame.{OnKeys, OnKeys-map, on_keys-Triple, on_group-Keeps}
use dave_go.Session.Nonces.Requests.{or_mls_failed-Keeps, current_client-Keeps}

-- The keys are safe, without the ratchets from `size` on, of which those below `low` are there.
abbrev IsRoomy : ℕ → ℕ → UserId → Keys → Type 0
IsRoomy size low user k = IsSafeBelow user size k × (size ≤ low) × (low ≤ length k.ratchets)

Roomy-AreSafe : (size low : ℕ) (user : UserId) (k : Keys) → IsRoomy size low user k → AreSafe user k
Roomy-AreSafe size low user k (safe, a, b) h =
    more-IsSafe (length k.ratchets) k.retained_send_ratchet k.send_ratchet
      (own_ref user k.pending_epoch) (omega (arith, a, b)) (safe h)

-- The ratchet made is the last of those that are there.
allocate-Triple :
    (size low : ℕ) (r : KeyRatchet)
    → Triple
        (OnKeys (IsRoomy size low))
        (allocate r)
        (λ ref. OnKeys (λ user k. IsRoomy size (suc ref) user k × (low ≤ ref)))
        (OnKeys AreSafe)
unfolding allocate
allocate-Triple size low r = record {
  holds = λ s h. record {
    here = (
      (
        h.here.0,
        omega (arith, h.here.1, h.here.2),
        omega (arith, length-append s.keys.ratchets (r ∷ [])),
      ),
      h.here.2,
    );
  };
}

-- Room, with the ratchet of a new sender just below `low`.
abbrev HasSender : ℕ → ℕ → SenderState → UserId → Keys → Type 0
HasSender size low sender user k = IsRoomy size (suc sender.ratchet) user k × (low ≤ sender.ratchet)

new_sender-Triple :
    (w : World) (export : Exporter) (sender_id size low : ℕ)
    → Triple
        (OnKeys (IsRoomy size low))
        (new_sender w export sender_id)
        (λ sender. OnKeys (HasSender size low sender))
        (OnKeys AreSafe)
unfolding new_sender
new_sender-Triple w export sender_id size low =
    then-Triple _ _ _ (OnKeys-map (Roomy-AreSafe size low)) (lift-Keeps _) (λ base_secret.
      then-Triple _ _ _ (OnKeys-map (Roomy-AreSafe size low)) (gets-Keeps _) (λ place.
        then-Triple _ _ _ (OnKeys-map (Roomy-AreSafe size low)) (lift-Keeps _) (λ ratchet.
          bind-Triple _ _ _ _ _ (allocate-Triple size low ratchet)
            (λ ref. pure-Triple _ _ _ (λ s h. h)))))

-- The ratchets of the senders are there, and not below `size`.
AreNew : ℕ → List (UserId × SenderState) → UserId → Keys → Type 0
AreNew size senders user k =
    All (λ s. (size ≤ s.1.ratchet) × (s.1.ratchet < length k.ratchets)) senders

-- Of senders that are all new, the session's own is, where there is one.
IsNew : ℕ → ℕ → Option RatchetRef → Type 0
IsNew size more none = Unit
IsNew size more (some ref) = (size ≤ ref) × (ref < more)

find-IsNew :
    (user : UserId) (size more : ℕ) (senders : List (UserId × SenderState))
    → All (λ s. (size ≤ s.1.ratchet) × (s.1.ratchet < more)) senders
    → IsNew size more (ratchet_of_sender (find user senders))
unfolding IsNew
find-IsNew user size more [] h = tt
find-IsNew user size more ((u, s) ∷ rest) (hd, hs) =
    let others = find-IsNew user size more rest hs in
    elim (Bool-cases (bytes_equal u user)) [ inl same ↦ rw same hd | inr other ↦ rw other others ]

abbrev HaveSenders : ℕ → ℕ → List (UserId × SenderState) → UserId → Keys → Type 0
HaveSenders size low senders user k = IsRoomy size low user k × AreNew size senders user k

more_senders :
    (size low : ℕ) (name own : UserId) (sender : SenderState)
    (senders : List (UserId × SenderState)) (k : Keys)
    → size ≤ low
    → low ≤ sender.ratchet
    → HaveSenders size (suc sender.ratchet) senders own k
    → HaveSenders size low ((name, sender) ∷ senders) own k
unfolding AreNew
more_senders size low name own sender senders k c d ((safe, a, b), new) =
    ((safe, c, omega (arith, b, d)), ((omega (arith, c, d), omega (arith, b)), new))

with_more_senders :
    (test : Bool) (size low : ℕ) (name own : UserId) (sender : SenderState)
    (senders : List (UserId × SenderState)) (k : Keys)
    → size ≤ low
    → low ≤ sender.ratchet
    → HaveSenders size (suc sender.ratchet) senders own k
    → HaveSenders size low (with_sender test name sender senders) own k
with_more_senders true size low name own sender senders k c d ((safe, a, b), new) =
    ((safe, c, omega (arith, b, d)), new)
with_more_senders false size low name own sender senders k c d h =
    more_senders size low name own sender senders k c d h

Triple-given :
    {A : Type 0} {K : UserId → Keys → Type 0} {fact : Type 0} (m : Act A) (Q : A → Session → Type 0)
    (F : Session → Type 0)
    → (fact → Triple (OnKeys K) m Q F)
    → Triple (OnKeys (λ user k. K user k × fact)) m Q F
Triple-given m Q F t = record { holds = λ s h. (t h.here.1).holds s (record { here = h.here.0 }) }

senders_of-Triple :
    (w : World) (export : Exporter) (identities : List (List ℕ)) (seen : List UserId) (size low : ℕ)
    → size ≤ low
    → Triple
        (OnKeys (IsRoomy size low))
        (senders_of w export identities seen)
        (λ senders. OnKeys (HaveSenders size low senders))
        (OnKeys AreSafe)
unfolding senders_of AreNew
senders_of-Triple w export [] seen size low c =
    pure-Triple _ _ _ (λ s h. record { here = (h.here, tt) })
senders_of-Triple w export (identity ∷ identities) seen size low c =
    then-Triple _ _ _ (OnKeys-map (Roomy-AreSafe size low)) (lift-Keeps _) (λ (user, sender_id).
      then-Triple _ _ _ (OnKeys-map (Roomy-AreSafe size low)) (when-Keeps _ _ (fail-Keeps _))
        (λ done. bind-Triple _ _ _ _ _ (new_sender-Triple w export sender_id size low) (λ sender.
          Triple-given _ _ _ (λ d.
            bind-Triple _ _ _ _ _
              (senders_of-Triple w export identities (user ∷ seen) size (suc sender.ratchet)
                (omega (arith, c, d)))
              (λ senders. pure-Triple _ _ _ (λ s h. record {
                here =
                    with_more_senders _ size low user s.config.user_id sender senders s.keys c d
                      h.here;
              }))))))

rebuild-Triple :
    (w : World) (group_id : List ℕ) (size : ℕ)
    → Triple
        (OnKeys (IsRoomy size size))
        (rebuild_epoch_state w group_id)
        (λ epoch. OnKeys (HaveSenders size size epoch.senders))
        (OnKeys AreSafe)
unfolding rebuild_epoch_state
rebuild-Triple w group_id size =
    then-Triple _ _ _ (OnKeys-map (Roomy-AreSafe size size)) current_client-Keeps (λ client.
      then-Triple _ _ _ (OnKeys-map (Roomy-AreSafe size size)) (or_mls_failed-Keeps _) (λ members.
        then-Triple _ _ _ (OnKeys-map (Roomy-AreSafe size size)) (or_mls_failed-Keeps _) (λ epoch.
          bind-Triple _ _ _ _ _ (senders_of-Triple w _ members [] size size (omega arith))
            (λ senders. pure-Triple _ _ _ (λ s h. h)))))

-- A new ratchet of the session may be the pending one.
pending-IsSafe :
    {counter size more : ℕ} {drawn : List Draw} (retained sending pending own : Option RatchetRef)
    → size ≤ more
    → IsNew size more own
    → IsSafe counter sending retained pending size drawn
    → IsSafe counter sending retained own more drawn
unfolding IsNew
pending-IsSafe {more = more} retained sending pending none h new s =
    no_pending-IsSafe retained sending pending (more-IsSafe more retained sending pending h s)
pending-IsSafe {more = more} retained sending pending (some ref) h (a, b) s =
    renew-IsSafe more retained sending pending ref a b s

pending-AreSafe :
    (size low : ℕ) (epoch : EpochState) (user : UserId) (k : Keys)
    → HaveSenders size low epoch.senders user k
    → AreSafe user (record k { pending_epoch = some epoch })
unfolding AreNew
pending-AreSafe size low epoch user k ((safe, a, b), new) h =
    pending-IsSafe k.retained_send_ratchet k.send_ratchet (own_ref user k.pending_epoch)
      (own_ref user (some epoch)) (omega (arith, a, b))
      (find-IsNew user size (length k.ratchets) epoch.senders new) (safe h)

set_pending-Triple :
    (epoch : EpochState) (group_id : List ℕ) (size low : ℕ)
    → Triple
        (OnKeys (HaveSenders size low epoch.senders))
        (set_pending epoch group_id)
        (λ done. OnKeys AreSafe)
        (OnKeys AreSafe)
unfolding set_pending
set_pending-Triple epoch group_id size low =
    last-Triple _ _ (on_keys-Triple _ (pending-AreSafe size low epoch)) (λ done. on_group-Keeps _)

renew-Triple :
    (w : World) (group_id : List ℕ) (size : ℕ)
    → Triple
        (OnKeys (IsRoomy size size))
        (renew_pending w group_id)
        (λ done. OnKeys AreSafe)
        (OnKeys AreSafe)
unfolding renew_pending
renew-Triple w group_id size =
    bind-Triple _ _ _ _ _ (rebuild-Triple w group_id size)
      (λ epoch. set_pending-Triple epoch group_id size size)

-- Renewing the pending epoch keeps the keys safe.
pub renew_pending-Keeps :
    (w : World) (group_id : List ℕ) → Keeps (OnKeys AreSafe) (renew_pending w group_id)
renew_pending-Keeps w group_id = record {
  kept = λ s h.
      Triple-result (renew-Triple w group_id (length s.keys.ratchets)) s
        (record { here = (h.here, omega arith, omega arith) });
}
