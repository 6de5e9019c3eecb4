-- ===== src/Session/Checks/Inspection.antt =====
-- Proposals and commits that pass the checks.
use dave_go.Base.{
  ℕ, ◌≡◌, refl, List, Bool, true, false, ◌&&◌, Option, none, some, if◌then◌else◌, Result, ok, err,
  panic,
}
use mathlib.Core.Bool.{false≢true}
use dave_go.Session.Types.{SessionError, UserId}
use dave_go.Session.World.{
  Mls, MlsMessage, PublicMessage, Proposal, add_proposal, remove_proposal, other_proposal,
}
use dave_go.Session.Ops.{contains_user}
use dave_go.Session.Proposals.{
  allowed_type, allowed_data, allowed_public, user_of_identity, user_of_type, user_of_data,
  user_of_public, proposal_allowed_by_dave, add_proposal_user_id, expects, passes, inspect,
}
use dave_go.Session.Wire.Identity.{identity_bytes_to_user_id}

-- A Remove, or an Add of an expected user. The identity of an Add may be missing.
pub data IsExpected (users : List UserId) : Proposal → Type 0 where
  removes : IsExpected users remove_proposal
  adds_unnamed : IsExpected users (add_proposal none)
  adds_user :
      (identity : List ℕ) (user : UserId) (id : ℕ)
      → identity_bytes_to_user_id identity ≡ ok (user, id)
      → contains_user user users ≡ true
      → IsExpected users (add_proposal (some identity))

-- A public message from an external sender with a proposal that is expected.
pub record IsAllowed (mls : Mls) (users : List UserId) (msg : Option PublicMessage) : Type 0 where
  pub message : PublicMessage
  pub content : List ℕ
  pub proposal : Proposal
  pub is_public : msg ≡ some message
  pub is_external : message.sender_is_external ≡ true
  pub is_proposal : message.is_proposal ≡ true
  pub has_content : message.proposal_data ≡ some content
  pub is_parsed : mls.unmarshal_proposal content ≡ some proposal
  pub is_expected : IsExpected users proposal

module _ (mls : Mls) (users : List UserId) where
  identity-IsExpected :
      (identity : List ℕ) (r : Result SessionError (UserId × ℕ))
      → identity_bytes_to_user_id identity ≡ r
      → expects users (user_of_identity r) ≡ true
      → IsExpected users (add_proposal (some identity))
  identity-IsExpected identity (ok (user, id)) e h = adds_user identity user id e h
  identity-IsExpected identity (err x) e h = absurd (false≢true h)
  identity-IsExpected identity panic e h = absurd (false≢true h)

  type-IsExpected :
      (q : Option Proposal)
      → (passes (allowed_type q) && expects users (user_of_type q)) ≡ true
      → (p : Proposal) × (q ≡ some p) × IsExpected users p
  type-IsExpected none h = absurd (false≢true h)
  type-IsExpected (some (add_proposal none)) h = (add_proposal none, refl, adds_unnamed)
  type-IsExpected (some (add_proposal (some identity))) h =
      (add_proposal (some identity), refl, identity-IsExpected identity _ refl h)
  type-IsExpected (some remove_proposal) h = (remove_proposal, refl, removes)
  type-IsExpected (some other_proposal) h = absurd (false≢true h)

  data-IsExpected :
      (d : Option (List ℕ))
      → (passes (allowed_data mls d) && expects users (user_of_data mls d)) ≡ true
      → (c : List ℕ) × (d ≡ some c)
        × (p : Proposal) × (mls.unmarshal_proposal c ≡ some p)
        × IsExpected users p
  data-IsExpected none h = absurd (false≢true h)
  data-IsExpected (some c) h =
      let (p, parsed, expected) = type-IsExpected (mls.unmarshal_proposal c) h in
      (c, refl, p, parsed, expected)

  given :
      (test : Bool) (r : Result SessionError Bool) (other : Bool)
      → (passes (if test then r else ok false) && other) ≡ true
      → (test ≡ true) × ((passes r && other) ≡ true)
  given true r other h = (refl, h)
  given false r other h = absurd (false≢true h)

  both : (a b : Bool) → (a && b) ≡ true → (a ≡ true) × (b ≡ true)
  both true b h = (refl, h)
  both false b h = absurd (false≢true h)

  public-IsAllowed :
      (msg : Option PublicMessage)
      → (passes (allowed_public mls msg) && expects users (user_of_public mls msg)) ≡ true
      → IsAllowed mls users msg
  public-IsAllowed none h = absurd (false≢true h)
  public-IsAllowed (some p) h =
      let (tested, rest) =
        given (p.sender_is_external && p.is_proposal) (allowed_data mls p.proposal_data)
          (expects users (user_of_data mls p.proposal_data)) h in
      let (external, proposing) = both p.sender_is_external p.is_proposal tested in
      let (c, has, q, parsed, expected) = data-IsExpected p.proposal_data rest in
      record {
        message = p;
        content = c;
        proposal = q;
        is_public = refl;
        is_external = external;
        is_proposal = proposing;
        has_content = has;
        is_parsed = parsed;
        is_expected = expected;
      }

-- A message that passes the inspection of a batch is a public message from an external sender, with a
-- proposal that could be read, and this is a Remove, an Add of an expected user, or an Add in which a
-- part on the way to the identity is missing.
pub inspect-IsAllowed :
    (mls : Mls) (users : List UserId) (msg : MlsMessage)
    → inspect mls users msg ≡ true
    → IsAllowed mls users msg.public
unfolding inspect proposal_allowed_by_dave add_proposal_user_id
inspect-IsAllowed mls users msg h = public-IsAllowed mls users msg.public h
