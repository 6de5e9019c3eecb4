-- ===== src/Session/Ops.antt =====
-- Reading and changing the groups of fields of a session, and its ratchets.
use dave_go.Base.{
  ℕ, ◌+◌, List, [], ◌∷◌, ◌++◌, length, get_or, set, Option, none, some, Bool, true, false, Result,
  ok, err, panic,
}
use dave_go.Base.Bytes.{bytes_equal}
use dave_go.Base.{if◌then◌else◌}
use dave_go.Mediakeys.Ratchet
use dave_go.Mediakeys.Ratchet.{KeyRatchet, RatchetError, Kdf}
use dave_go.Session.Types.{
  Session, SessionError, ratchet_failed, Keys, Protocol, Group, Health, Calls, Stats, UserId,
  RatchetRef,
}
use dave_go.Session.World.{World}
use dave_go.Session.Exec.{Exec}

abbrev pub Act : Type 0 → Type 0
Act A = Exec Session SessionError A

unfoldable pub on_keys : (Keys → Keys) → Act (Unit {0})
on_keys change s = (record s { keys = change s.keys }, ok tt)

unfoldable pub on_protocol : (Protocol → Protocol) → Act (Unit {0})
on_protocol change s = (record s { protocol = change s.protocol }, ok tt)

unfoldable pub on_group : (Group → Group) → Act (Unit {0})
on_group change s = (record s { group = change s.group }, ok tt)

unfoldable pub on_health : (Health → Health) → Act (Unit {0})
on_health change s = (record s { health = change s.health }, ok tt)

unfoldable pub on_calls : (Calls → Calls) → Act (Unit {0})
on_calls change s = (record s { calls = change s.calls }, ok tt)

unfoldable pub count : (Stats → Stats) → Act (Unit {0})
count change = on_health (λ h. record h { stats = change h.stats })

-- time.Now
unfoldable pub now : World → Act ℕ
now w s =
    (record s { calls = record s.calls { clock = s.calls.clock + 1 } }, ok (w.clock s.calls.clock))

-- A map with users as keys.
module _ {A : Type 0} where
  abbrev pub find : UserId → List (UserId × A) → Option A
  find user [] = none
  find user ((u, a) ∷ rest) = if bytes_equal u user then some a else find user rest

  abbrev pub update : UserId → (A → A) → List (UserId × A) → List (UserId × A)
  update user change [] = []
  update user change ((u, a) ∷ rest) =
      let others = update user change rest in
      if bytes_equal u user then (u, change a) ∷ rest else (u, a) ∷ others

abbrev pub contains_user : UserId → List UserId → Bool
contains_user user [] = false
contains_user user (u ∷ us) = if bytes_equal u user then true else contains_user user us

-- A ratchet that no pointer points to.
abbrev no_ratchet : KeyRatchet
no_ratchet = record {
  retention_ttl = 0;
  max_generation_gap = 0;
  now = λ n. 0;
  calls = 0;
  base_secret = [];
  base_generation = 0;
  cache = [];
}

abbrev pub ratchet_of : Keys → RatchetRef → KeyRatchet
ratchet_of k ref = get_or k.ratchets ref no_ratchet

abbrev with_ratchet : Keys → RatchetRef → KeyRatchet → Keys
with_ratchet k ref r = record k { ratchets = set k.ratchets ref r }

abbrev pub ratchet_result : {A : Type 0} → Result RatchetError A → Result SessionError A
ratchet_result (ok a) = ok a
ratchet_result (err e) = err (ratchet_failed e)
ratchet_result panic = panic

-- `ratchet.GetKey` and `ratchet.Commit` on the ratchet pointed to.
unfoldable pub ratchet_get_key : World → RatchetRef → ℕ → Act (List ℕ)
ratchet_get_key w ref generation s =
    let (r, key) = Ratchet.get_key w.kdf (ratchet_of s.keys ref) generation in
    (record s { keys = with_ratchet s.keys ref r }, ratchet_result key)

unfoldable pub ratchet_commit : World → RatchetRef → ℕ → Act (Unit {0})
ratchet_commit w ref generation s =
    let r = Ratchet.commit w.kdf (ratchet_of s.keys ref) generation in
    (record s { keys = with_ratchet s.keys ref r }, ok tt)

-- A new ratchet, which nothing points to yet.
unfoldable pub allocate : KeyRatchet → Act RatchetRef
allocate r s = (
  record s { keys = record s.keys { ratchets = s.keys.ratchets ++ (r ∷ []) } },
  ok (length s.keys.ratchets),
)
