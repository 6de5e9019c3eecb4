-- ===== src/Session/Checks/Refs.antt =====
-- A commit that the session processes refers to every proposal, and holds none.
use dave_go.Base.{
  ℕ, ◌≡◌, ◌⊎◌, inl, inr, refl, List, [], ◌∷◌, All, Bool, true, false, Bool-cases, Option, none,
  some, Result, ok, err, panic,
}
use dave_go.Session.Types.{Session, SessionError}
use dave_go.Session.World.{World, Mls, MlsMessage, PublicMessage}
use dave_go.Session.Exec.{pure, fail, lift, gets, when, ◌>>=◌}
use dave_go.Session.Status.{is_empty}
use dave_go.Session.Commits.{
  none_inline, commit_data_refs, public_refs, message_refs, validate_commit_proposal_refs,
  process_commit,
}

-- A public message with a commit in which no proposal is inline.
pub record HasOnlyRefs (mls : Mls) (msg : Option MlsMessage) : Type 0 where
  pub message : MlsMessage
  pub public : PublicMessage
  pub content : List ℕ
  pub inline : List Bool
  pub is_message : msg ≡ some message
  pub is_public : message.public ≡ some public
  pub has_content : public.commit_data ≡ some content
  pub is_parsed : mls.unmarshal_commit content ≡ some inline
  pub only_refs : All (λ i. i ≡ false) inline

inline-refs : (inline : List Bool) → none_inline (some inline) ≡ ok tt → All (λ i. i ≡ false) inline
inline-refs [] h = tt
inline-refs (true ∷ rest) h = absurd (cc)
inline-refs (false ∷ rest) h = (refl, inline-refs rest h)

parsed-refs :
    (q : Option (List Bool))
    → none_inline q ≡ ok tt
    → (i : List Bool) × (q ≡ some i) × All (λ x. x ≡ false) i
parsed-refs none h = absurd (cc)
parsed-refs (some i) h = (i, refl, inline-refs i h)

module _ (mls : Mls) where
  data-refs :
      (d : Option (List ℕ))
      → commit_data_refs mls d ≡ ok tt
      → (c : List ℕ) × (d ≡ some c)
        × (i : List Bool) × (mls.unmarshal_commit c ≡ some i)
        × All (λ x. x ≡ false) i
  data-refs none h = absurd (cc)
  data-refs (some []) h = absurd (cc)
  data-refs (some (b ∷ bs)) h =
      let (i, parsed, refs) = parsed-refs (mls.unmarshal_commit (b ∷ bs)) h in
      (b ∷ bs, refl, i, parsed, refs)

  public-refs :
      (msg : Option PublicMessage)
      → public_refs mls msg ≡ ok tt
      → (p : PublicMessage) × (msg ≡ some p)
        × (c : List ℕ) × (p.commit_data ≡ some c)
        × (i : List Bool) × (mls.unmarshal_commit c ≡ some i)
        × All (λ x. x ≡ false) i
  public-refs none h = absurd (cc)
  public-refs (some p) h =
      let (c, has, i, parsed, refs) = data-refs p.commit_data h in
      (p, refl, c, has, i, parsed, refs)

  message-refs : (msg : Option MlsMessage) → message_refs mls msg ≡ ok tt → HasOnlyRefs mls msg
  message-refs none h = absurd (cc)
  message-refs (some m) h =
      let (p, is_public, c, has, i, parsed, refs) = public-refs m.public h in
      record {
        message = m;
        public = p;
        content = c;
        inline = i;
        is_message = refl;
        is_public = is_public;
        has_content = has;
        is_parsed = parsed;
        only_refs = refs;
      }

-- The commit is refused before the client sees it.
unprocessed :
    (w : World) (commit : List ℕ) (s : Session) (e : SessionError)
    → validate_commit_proposal_refs w.mls commit ≡ err e
    → (process_commit w commit s).0 ≡ s
unfolding process_commit ◌>>=◌ when fail lift gets pure
unprocessed w commit s e h = elim (Bool-cases (is_empty s.group.group_id)) [
  | inl empty ↦ rw empty refl
  | inr full ↦ rw (full, h) refl
]

unprocessed_panic :
    (w : World) (commit : List ℕ) (s : Session)
    → validate_commit_proposal_refs w.mls commit ≡ panic
    → (process_commit w commit s).0 ≡ s
unfolding process_commit ◌>>=◌ when fail lift gets pure
unprocessed_panic w commit s h = elim (Bool-cases (is_empty s.group.group_id)) [
  | inl empty ↦ rw empty refl
  | inr full ↦ rw (full, h) refl
]

checked :
    (w : World) (commit : List ℕ) (s : Session) (r : Result SessionError (Unit {0}))
    → validate_commit_proposal_refs w.mls commit ≡ r
    → HasOnlyRefs w.mls (w.mls.unmarshal_message commit) ⊎ ((process_commit w commit s).0 ≡ s)
unfolding validate_commit_proposal_refs
checked w commit s (ok tt) e = inl (message-refs w.mls (w.mls.unmarshal_message commit) e)
checked w commit s (err x) e = inr (unprocessed w commit s x e)
checked w commit s panic e = inr (unprocessed_panic w commit s e)

-- A commit is a public message that refers to every one of its proposals, or processing it leaves the
-- session, its MLS client and its keys exactly as they were.
pub process_commit-checked :
    (w : World) (commit : List ℕ) (s : Session)
    → HasOnlyRefs w.mls (w.mls.unmarshal_message commit) ⊎ ((process_commit w commit s).0 ≡ s)
process_commit-checked w commit s =
    checked w commit s (validate_commit_proposal_refs w.mls commit) refl
