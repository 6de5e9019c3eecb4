-- ===== src/Session/Checks/Senders.antt =====
-- The external sender of a group that is joined.
use dave_go.Base.{ℕ, ◌≡◌, ◌↔◌, refl, ap, List, Bool, true, false, ◌&&◌, Option, none, some}
use mathlib.Core.Bool.{false≢true}
use dave_go.Base.Bytes.{bytes_equal→eq, bytes_equal_refl}
use dave_go.Session.World.{ExternalSender}
use dave_go.Session.Welcomes.{same_bytes, same_key, external_sender_matches}

-- Both have a public key that can be read and a credential, and these have the same bytes.
pub record AreSame (expected actual : ExternalSender) : Type 0 where
  pub key : List ℕ
  pub credential : List ℕ
  pub expected_key : expected.public_key ≡ some (some key)
  pub actual_key : actual.public_key ≡ some (some key)
  pub expected_credential : expected.credential ≡ some credential
  pub actual_credential : actual.credential ≡ some credential

same-bytes :
    (a b : Option (List ℕ)) → same_bytes a b ≡ true → (xs : List ℕ) × (a ≡ some xs) × (b ≡ some xs)
same-bytes none b h = absurd (false≢true h)
same-bytes (some a) none h = absurd (false≢true h)
same-bytes (some a) (some b) h = (b, ap some (bytes_equal→eq a b h), refl)

same-key :
    (a b : Option (Option (List ℕ)))
    → same_key a b ≡ true
    → (xs : List ℕ) × (a ≡ some (some xs)) × (b ≡ some (some xs))
same-key none b h = absurd (false≢true h)
same-key (some a) none h = absurd (false≢true h)
same-key (some a) (some b) h = let (xs, l, r) = same-bytes a b h in (xs, ap some l, ap some r)

both : (a b : Bool) → (a && b) ≡ true → (a ≡ true) × (b ≡ true)
both true b h = (refl, h)
both false b h = absurd (false≢true h)

matches-AreSame :
    (expected actual : ExternalSender)
    → external_sender_matches expected actual ≡ true
    → AreSame expected actual
unfolding external_sender_matches
matches-AreSame expected actual h =
    let (keys, credentials) = both (same_key expected.public_key actual.public_key) _ h in
    let (k, ek, ak) = same-key expected.public_key actual.public_key keys in
    let (c, ec, ac) = same-bytes expected.credential actual.credential credentials in
    record {
      key = k;
      credential = c;
      expected_key = ek;
      actual_key = ak;
      expected_credential = ec;
      actual_credential = ac;
    }

AreSame-matches :
    (expected actual : ExternalSender)
    → AreSame expected actual
    → external_sender_matches expected actual ≡ true
unfolding external_sender_matches
AreSame-matches expected actual s =
    rw
      (
        s.expected_key,
        s.actual_key,
        s.expected_credential,
        s.actual_credential,
        bytes_equal_refl s.key,
        bytes_equal_refl s.credential,
      )
      refl

-- The external sender of a joined group matches the one the gateway announced exactly where both have
-- a readable public key and a credential, and the bytes of both are the same.
pub external_sender_matches_iff :
    (expected actual : ExternalSender)
    → (external_sender_matches expected actual ≡ true) ↔ AreSame expected actual
external_sender_matches_iff expected actual =
    (matches-AreSame expected actual, AreSame-matches expected actual)
