-- ===== src/Session/Nonces/Activations.antt =====
-- The activation of the pending epoch keeps the keys safe.
use dave_go.Base.{
  ℕ, zero, suc, ◌≡◌, ◌^◌, ◌<◌, refl, sym, subst, List, [], ◌∷◌, length, Bool, true, false, Option,
  none, some,
}
use dave_go.Session.Types.{UserId, RatchetRef, EpochState, Keys}
use dave_go.Session.World.{World}
use dave_go.Session.Exec.Keeps.{Keeps, pure-Keeps, gets-Keeps, bind-Keeps}
use dave_go.Session.Exec.Triples.{
  Triple, bind-Triple, then-Triple, last-Triple, Keeps-Triple, Triple-from, Triple-Keeps,
}
use dave_go.Session.Ops.{Act}
use dave_go.Session.Activation.{
  retain_send_ratchet, install_epoch, time_after, reject_plaintext, report_activation, drain_next,
  drain_loop, drain_proposal_queue, install, settle_activation, retention_time, activate_epoch,
  activate_pending_epoch, rebuild_own, activate_own_group, activate_sole_member_epoch,
}
use dave_go.Session.Epochs.{new_epoch_adds_sender}
use dave_go.Mediakeys.Nonce.{reset}
use dave_go.Session.Nonces.{AreSafe, IsSafe, own_ref}
use dave_go.Session.Nonces.Steps.{join-IsSafe, retain-IsSafe, first-IsSafe}
use dave_go.Session.Nonces.Frame.{
  OnKeys, OnKeys-map, keys-Triple, frame_rules, on_protocol-Keeps, on_group-Keeps,
  signal_epoch_ready-Keeps, mark_degraded-Keeps, mark_recovered-Keeps,
}
use dave_go.Session.Nonces.Decrypts.{prune-Keeps}
use dave_go.Session.Nonces.Requests.{request_rules}
use dave_go.Session.Nonces.Renewals.{renew_pending-Keeps}
use dave_go.Session.Nonces.Groups.{process_and_commit-Keeps}

-- The pending epoch's ratchet is installed, and the send ratchet is retained or dropped.
install-IsSafe :
    (adds : Bool) (until : ℕ) (k : Keys) (sending own : Option RatchetRef)
    → IsSafe k.send_counter.counter sending k.retained_send_ratchet own (length k.ratchets) k.drawn
    → let kept = retain_send_ratchet adds until sending k in
      IsSafe kept.send_counter.counter own kept.retained_send_ratchet none
        (length k.ratchets)
        kept.drawn
unfolding reset
install-IsSafe adds until k none own s = first-IsSafe k.retained_send_ratchet own s
install-IsSafe true until k (some ref) own s = join-IsSafe k.retained_send_ratchet (some ref) own s
install-IsSafe false until k (some ref) own s =
    first-IsSafe (some ref) own (retain-IsSafe k.retained_send_ratchet own ref s)

retain-ratchets :
    (adds : Bool) (until : ℕ) (k : Keys) (sending : Option RatchetRef)
    → (retain_send_ratchet adds until sending k).ratchets ≡ k.ratchets
retain-ratchets adds until k none = refl
retain-ratchets true until k (some ref) = refl
retain-ratchets false until k (some ref) = refl

retain-drawn :
    (adds : Bool) (until : ℕ) (k : Keys) (sending : Option RatchetRef)
    → (retain_send_ratchet adds until sending k).drawn ≡ k.drawn
retain-drawn adds until k none = refl
retain-drawn true until k (some ref) = refl
retain-drawn false until k (some ref) = refl

-- The keys are safe, and the pending epoch is as given.
abbrev HasPending : Option EpochState → UserId → Keys → Type 0
HasPending epoch user k = AreSafe user k × (epoch ≡ k.pending_epoch)

install-AreSafe :
    (expires_at until : ℕ) (epoch : EpochState) (user : UserId) (k : Keys)
    → HasPending (some epoch) user k
    → AreSafe user (install_epoch user expires_at until epoch k)
unfolding install_epoch
install-AreSafe expires_at until epoch user k (safe, e) h =
    let adds = new_epoch_adds_sender k.active_epoch (some epoch) in
    let small : length k.drawn < 2 ^ 64 =
      subst (λ d. length d < 2 ^ 64) (retain-drawn adds until k k.send_ratchet) h in
    let own =
      subst
        (λ p.
          IsSafe k.send_counter.counter k.send_ratchet k.retained_send_ratchet (own_ref user p)
            (length k.ratchets) k.drawn)
        (sym e) (safe small) in
    let kept = retain_send_ratchet adds until k.send_ratchet k in
    subst
      (λ r.
        IsSafe kept.send_counter.counter (own_ref user (some epoch)) kept.retained_send_ratchet none
          (length r) kept.drawn)
      (sym (retain-ratchets adds until k k.send_ratchet))
      (install-IsSafe adds until k k.send_ratchet (own_ref user (some epoch)) own)

module _ {K : UserId → Keys → Type 0} where
  time_after-Keeps : (w : World) (test : Bool) (d : ℕ) → Keeps (OnKeys K) (time_after w test d)
  time_after-Keeps w true d = search (frame_rules)
  time_after-Keeps w false d = search (frame_rules)

  reject_plaintext-Keeps : (w : World) → Keeps (OnKeys K) (reject_plaintext w)
  unfolding reject_plaintext
  reject_plaintext-Keeps w = search (frame_rules, time_after-Keeps) depth 9

module _ {K : UserId → Keys → Type 0} where
  retention_time-Keeps :
      (w : World) (epoch : EpochState) → Keeps (OnKeys K) (retention_time w epoch)
  unfolding retention_time
  retention_time-Keeps w epoch = search (frame_rules, time_after-Keeps) depth 9

report-Keeps : (w : World) (sending : Bool) → Keeps (OnKeys AreSafe) (report_activation w sending)
report-Keeps w true = search (frame_rules, mark_recovered-Keeps, signal_epoch_ready-Keeps) depth 9
report-Keeps w false = mark_degraded-Keeps w

drain_next-Keeps :
    (w : World) (rounds : Act (Unit {0})) (pending : Bool) (queue : List (List ℕ))
    → Keeps (OnKeys AreSafe) rounds
    → Keeps (OnKeys AreSafe) (drain_next w rounds pending queue)
unfolding drain_next
drain_next-Keeps w rounds true queue kr = pure-Keeps tt
drain_next-Keeps w rounds false [] kr = pure-Keeps tt
drain_next-Keeps w rounds false (batch ∷ queue) kr =
    bind-Keeps _ _ (on_group-Keeps _)
      (λ taken. bind-Keeps _ _ (process_and_commit-Keeps w batch) (λ done. kr))

drain_loop-Keeps : (w : World) (fuel : ℕ) → Keeps (OnKeys AreSafe) (drain_loop w fuel)
unfolding drain_loop
drain_loop-Keeps w zero = pure-Keeps tt
drain_loop-Keeps w (suc fuel) =
    let rounds = drain_loop-Keeps w fuel in
    bind-Keeps _ _ (gets-Keeps _) (λ pending.
      bind-Keeps _ _ (gets-Keeps _) (λ queue. drain_next-Keeps w _ pending queue rounds))

drain-Keeps : (w : World) → Keeps (OnKeys AreSafe) (drain_proposal_queue w)
unfolding drain_proposal_queue
drain-Keeps w = search (request_rules, drain_loop-Keeps)

settle-Keeps : (w : World) (epoch : EpochState) → Keeps (OnKeys AreSafe) (settle_activation w epoch)
unfolding settle_activation
settle-Keeps w epoch = search (frame_rules, report-Keeps, prune-Keeps, drain-Keeps) depth 9

install-Triple :
    (expires_at until : ℕ) (epoch : EpochState)
    → Triple
        (OnKeys (HasPending (some epoch)))
        (install expires_at until epoch)
        (λ done. OnKeys AreSafe)
        (OnKeys AreSafe)
unfolding install
install-Triple expires_at until epoch = record {
  holds = λ s h. record {
    here = install-AreSafe expires_at until epoch s.config.user_id s.keys h.here;
  };
}

-- The steps before the keys change leave them alone.
activate_epoch-Triple :
    (w : World) (epoch : Option EpochState)
    → Triple
        (OnKeys (HasPending epoch))
        (activate_epoch w epoch)
        (λ done. OnKeys AreSafe)
        (OnKeys AreSafe)
unfolding activate_epoch
activate_epoch-Triple w none =
    Triple-from _ _ _ (OnKeys-map (λ user k h. h.0)) (Keeps-Triple _ _ (λ s p. p) (pure-Keeps tt))
activate_epoch-Triple w (some epoch) =
    then-Triple _ _ _ (OnKeys-map (λ user k h. h.0)) (gets-Keeps _) (λ old.
      then-Triple _ _ _ (OnKeys-map (λ user k h. h.0)) (time_after-Keeps w _ _) (λ expires_at.
        then-Triple _ _ _ (OnKeys-map (λ user k h. h.0)) (on_protocol-Keeps _) (λ versioned.
          then-Triple _ _ _ (OnKeys-map (λ user k h. h.0)) (reject_plaintext-Keeps w) (λ rejecting.
            then-Triple _ _ _ (OnKeys-map (λ user k h. h.0)) (on_group-Keeps _) (λ grouped.
              then-Triple _ _ _ (OnKeys-map (λ user k h. h.0)) (retention_time-Keeps w epoch)
                (λ until.
                  last-Triple _ _ (install-Triple expires_at until epoch)
                    (λ done. settle-Keeps w epoch)))))))

pub activate_pending_epoch-Keeps : (w : World) → Keeps (OnKeys AreSafe) (activate_pending_epoch w)
unfolding activate_pending_epoch
activate_pending_epoch-Keeps w =
    Triple-Keeps _ _ (λ done s h. h)
      (bind-Triple _ _ _ _ _ (keys-Triple (λ k. k.pending_epoch)) (activate_epoch-Triple w))

rebuild_own-Keeps : (w : World) → Keeps (OnKeys AreSafe) (rebuild_own w)
unfolding rebuild_own
rebuild_own-Keeps w = search (request_rules, renew_pending-Keeps) depth 9

activate_own_group-Keeps : (w : World) → Keeps (OnKeys AreSafe) (activate_own_group w)
unfolding activate_own_group
activate_own_group-Keeps w =
    search (request_rules, rebuild_own-Keeps, activate_pending_epoch-Keeps) depth 9

pub activate_sole_member-Keeps : (w : World) → Keeps (OnKeys AreSafe) (activate_sole_member_epoch w)
unfolding activate_sole_member_epoch
activate_sole_member-Keeps w = search (request_rules, activate_own_group-Keeps) depth 9
