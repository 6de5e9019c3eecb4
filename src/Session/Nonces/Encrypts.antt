-- ===== src/Session/Nonces/Encrypts.antt =====
-- Encrypt draws the next nonce for the ratchet in use.
use dave_go.Base.{
  ℕ, ◌+◌, ◌%◌, ◌^◌, ◌<◌, ◌≡◌, refl, sym, ap, subst, arith, List, ◌∷◌, length, length-set, Option,
  none, some,
}
use native.Mathlib.Nat.{mod-eq_of_lt}
use dave_go.Mediakeys.Nonce.{next, reset}
use dave_go.Codecs.Types.{Kind}
use dave_go.Session.Types.{SessionError, UserId, RatchetRef, Keys}
use dave_go.Session.World.{World}
use dave_go.Session.Exec.{pure, gets}
use dave_go.Session.Exec.Keeps.{
  Keeps, on_result-Keeps, pure-Keeps, gets-Keeps, lift-Keeps, when-Keeps, if-Keeps, bind-Keeps,
}
use dave_go.Session.Exec.Triples.{
  Triple, bind-Triple, Keeps-Triple, pure-Triple, then-Triple, last-Triple, if-Triple, Triple-fail,
  Triple-from, Triple-Keeps,
}
use dave_go.Session.Ops.{Act, ratchet_get_key, ratchet_commit}
use dave_go.Session.Media.{copy_passthrough}
use dave_go.Session.Media.Send.{
  count_encrypt_failure, or_encrypt_failure, expire_retained, select_from, select_send_ratchet,
  draw, draw_nonce, refresh_cipher, seal_frame, encrypt_under, encrypt,
}
use dave_go.Session.Nonces.{AreSafe, IsSafe, own_ref}
use dave_go.Session.Nonces.Parts.{live_of}
use dave_go.Session.Nonces.Steps.{expire-IsSafe, draw-IsSafe}
use dave_go.Session.Nonces.Frame.{
  OnKeys, OnKeys-map, on_keys-Triple, on_keys-Keeps, keys-Triple, frame_rules, now-Keeps,
  count-Keeps,
}

-- The keys are safe, and `ref` is the ratchet in use.
abbrev IsReady : Option RatchetRef → UserId → Keys → Type 0
IsReady ref user k = AreSafe user k × (live_of k.retained_send_ratchet k.send_ratchet ≡ ref)

-- The keys are safe, and the retained ratchet is as given.
abbrev IsRetaining : Option RatchetRef → UserId → Keys → Type 0
IsRetaining ref user k = AreSafe user k × (ref ≡ k.retained_send_ratchet)

-- The ratchets stay where they are.
resize :
    (user : UserId) (k : Keys) (size : ℕ)
    → size ≡ length k.ratchets
    → AreSafe user k
    → length k.drawn < 2 ^ 64
    → IsSafe k.send_counter.counter k.send_ratchet k.retained_send_ratchet
        (own_ref user k.pending_epoch)
        size
        k.drawn
resize user k size e safe h =
    subst
      (λ n.
        IsSafe k.send_counter.counter k.send_ratchet k.retained_send_ratchet
          (own_ref user k.pending_epoch) n k.drawn)
      (sym e) (safe h)

pub ratchet_get_key-Keeps :
    (w : World) (ref : RatchetRef) (generation : ℕ)
    → Keeps (OnKeys AreSafe) (ratchet_get_key w ref generation)
unfolding ratchet_get_key
ratchet_get_key-Keeps w ref generation = record {
  kept = λ s p. record {
    here = λ h. resize s.config.user_id s.keys _ (length-set s.keys.ratchets ref _) p.here h;
  };
}

pub ratchet_commit-Keeps :
    (w : World) (ref : RatchetRef) (generation : ℕ)
    → Keeps (OnKeys AreSafe) (ratchet_commit w ref generation)
unfolding ratchet_commit
ratchet_commit-Keeps w ref generation = record {
  kept = λ s p. record {
    here = λ h. resize s.config.user_id s.keys _ (length-set s.keys.ratchets ref _) p.here h;
  };
}

expire-live :
    (user : UserId) (k : Keys) (ref : RatchetRef)
    → IsRetaining (some ref) user k
    → IsRetaining none user (expire_retained k)
unfolding expire_retained reset
expire-live user k ref (safe, e) = (
  (λ h. expire-IsSafe ref k.send_ratchet (own_ref user k.pending_epoch) (
      subst
        (λ r.
          IsSafe k.send_counter.counter k.send_ratchet r (own_ref user k.pending_epoch)
            (length k.ratchets) k.drawn)
        (sym e) (safe h))),
  refl,
)

-- Where no ratchet is retained, the send ratchet is in use.
send_ratchet-Triple :
    Triple {E = SessionError}
      (OnKeys (IsRetaining none))
      (gets (λ s. s.keys.send_ratchet))
      (λ ref. OnKeys (IsReady ref))
      (OnKeys AreSafe)
unfolding gets
send_ratchet-Triple = record {
  holds =
      λ s h. record { here = (h.here.0, ap (λ r. live_of r s.keys.send_ratchet) (sym h.here.1)) };
}

select_from-Triple :
    (w : World) (retained : Option RatchetRef)
    → Triple
        (OnKeys (IsRetaining retained))
        (select_from w retained)
        (λ ref. OnKeys (IsReady ref))
        (OnKeys AreSafe)
unfolding select_from
select_from-Triple w none = send_ratchet-Triple
select_from-Triple w (some retained) =
    then-Triple _ _ _ (OnKeys-map (λ user k h. h.0)) (now-Keeps w) (λ time.
      then-Triple _ _ _ (OnKeys-map (λ user k h. h.0)) (gets-Keeps _) (λ expires_at.
        if-Triple _ _ _ _ _
          (pure-Triple _ _ _ (λ s h. record {
            here = (h.here.0, ap (λ r. live_of r s.keys.send_ratchet) (sym h.here.1));
          }))
          (bind-Triple _ _ _ _ _
            (Triple-fail _ _ _ (OnKeys-map (λ user k h. h.0))
              (on_keys-Triple expire_retained (λ user k. expire-live user k retained)))
            (λ done. send_ratchet-Triple))))

select_send_ratchet-Triple :
    (w : World)
    → Triple (OnKeys AreSafe) (select_send_ratchet w) (λ ref. OnKeys (IsReady ref)) (OnKeys AreSafe)
unfolding select_send_ratchet
select_send_ratchet-Triple w =
    bind-Triple _ _ _ _ _ (keys-Triple (λ k. k.retained_send_ratchet)) (select_from-Triple w)

-- The counter does not wrap around.
draw-AreSafe :
    (ref : RatchetRef) (user : UserId) (k : Keys)
    → IsReady (some ref) user k
    → AreSafe user (draw ref k)
unfolding draw next
draw-AreSafe ref user k (safe, live) h =
    let s = safe (omega (arith, h)) in
    let small : k.send_counter.counter + 1 < 2 ^ 64 = omega (arith, h, s.counted) in
    let e : (k.send_counter.counter + 1) % 2 ^ 64 ≡ k.send_counter.counter + 1 =
      mod-eq_of_lt small in
    subst
      (λ n.
        IsSafe n k.send_ratchet k.retained_send_ratchet (own_ref user k.pending_epoch)
          (length k.ratchets) ((ref, n) ∷ k.drawn))
      (sym e)
      (draw-IsSafe k.retained_send_ratchet k.send_ratchet (own_ref user k.pending_epoch) ref live s)

draw_nonce-Triple :
    (ref : RatchetRef)
    → Triple
        (OnKeys (IsReady (some ref)))
        (draw_nonce ref)
        (λ drawn. OnKeys AreSafe)
        (OnKeys AreSafe)
unfolding draw_nonce
draw_nonce-Triple ref = record {
  holds = λ s h. record { here = draw-AreSafe ref s.config.user_id s.keys h.here };
}

pub count_encrypt_failure-Keeps : Keeps (OnKeys AreSafe) count_encrypt_failure
unfolding count_encrypt_failure
count_encrypt_failure-Keeps = search (frame_rules)

pub or_encrypt_failure-Keeps :
    {A : Type 0} (m : Act A)
    → Keeps (OnKeys AreSafe) m
    → Keeps (OnKeys AreSafe) (or_encrypt_failure m)
unfolding or_encrypt_failure
or_encrypt_failure-Keeps m km =
    on_result-Keeps m pure _ km (λ a. pure-Keeps a)
      (λ e. search (frame_rules, count_encrypt_failure-Keeps))

pub refresh_cipher-Keeps :
    (w : World) (key : List ℕ) → Keeps (OnKeys AreSafe) (refresh_cipher w key)
unfolding refresh_cipher
refresh_cipher-Keeps w key = bind-Keeps _ _ (gets-Keeps _) (λ cached.
    if-Keeps _ _ _ (pure-Keeps tt) (
      bind-Keeps _ _ (or_encrypt_failure-Keeps _ (lift-Keeps _))
        (λ made. on_keys-Keeps _ (λ user k h. h))))

pub seal_frame-Keeps :
    (w : World) (kind : Kind) (dst frame key : List ℕ) (truncated : ℕ)
    → Keeps (OnKeys AreSafe) (seal_frame w kind dst frame key truncated)
unfolding seal_frame
seal_frame-Keeps w kind dst frame key truncated = search (frame_rules, or_encrypt_failure-Keeps)

pub copy_passthrough-Keeps :
    (dst frame : List ℕ) → Keeps (OnKeys AreSafe) (copy_passthrough dst frame)
unfolding copy_passthrough
copy_passthrough-Keeps dst frame = search (frame_rules)

pub ruleset seal_rules = (
  frame_rules, ratchet_get_key-Keeps, ratchet_commit-Keeps, copy_passthrough-Keeps,
  count_encrypt_failure-Keeps, or_encrypt_failure-Keeps, refresh_cipher-Keeps, seal_frame-Keeps,
)

encrypt_under-Triple :
    (w : World) (ref : Option RatchetRef) (ssrc : ℕ) (frame dst : List ℕ)
    → Triple
        (OnKeys (IsReady ref))
        (encrypt_under w ref ssrc frame dst)
        (λ n. OnKeys AreSafe)
        (OnKeys AreSafe)
unfolding encrypt_under
encrypt_under-Triple w none ssrc frame dst =
    Triple-from _ _ _ (OnKeys-map (λ user k h. h.0))
      (Keeps-Triple _ _ (λ s p. p) (search (seal_rules)))
encrypt_under-Triple w (some ref) ssrc frame dst =
    then-Triple _ _ _ (OnKeys-map (λ user k h. h.0)) (gets-Keeps _) (λ retained.
      then-Triple _ _ _ (OnKeys-map (λ user k h. h.0)) (when-Keeps _ _ (count-Keeps _)) (λ done.
        then-Triple _ _ _ (OnKeys-map (λ user k h. h.0)) (gets-Keeps _)
          (λ kind. last-Triple _ _ (draw_nonce-Triple ref) (λ drawn. search (seal_rules)))))

pub encrypt-Keeps :
    (w : World) (ssrc : ℕ) (frame dst : List ℕ) → Keeps (OnKeys AreSafe) (encrypt w ssrc frame dst)
unfolding encrypt
encrypt-Keeps w ssrc frame dst =
    Triple-Keeps _ _ (λ n s h. h)
      (bind-Triple _ _ _ _ _ (select_send_ratchet-Triple w)
        (λ ref. encrypt_under-Triple w ref ssrc frame dst))
