-- ===== src/Session/Checks/Forged/Loop.antt =====
-- The loop of Decrypt over the epochs: what holds until a key opens the frame.
use dave_go.Base.{
  ℕ, ◌≡◌, ◌⊎◌, inl, inr, ◌/◌, ◌%◌, ◌^◌, ◌∙◌, refl, sym, ap, List, [], ◌∷◌, Option, none, some,
  Result, ok, err, panic,
}
use dave_go.Frame.Types.{Error, ParsedFrame}
use dave_go.Frame.Encrypt
use dave_go.Frame.Encrypt.{looks_like_dave_frame, parse}
use dave_go.Mediakeys.Nonce.{expand_tentative}
use dave_go.Session.Types.{Session, SessionError, UserId, SenderState, Keys}
use dave_go.Session.World.{World}
use dave_go.Session.Exec.{fail, crash, ◌>>=◌}
use dave_go.Session.Exec.Triples.{Outcome, Triple, bind-Triple, gets-Triple, catch-Triple}
use dave_go.Session.Ops.{Act, ratchet_get_key, on_health, count}
use dave_go.Session.Media.Receive.{
  count_decrypt_failure, Slot, Attempt, epoch_in, sender_in, open_result, try_sender, try_slots,
  Next,
}

-- The keys `k` are those of `start` after calls of GetKey, which may move ratchets and nothing else.
pub data Looked (w : World) (start : Keys) : Keys → Type 0 where
  not_yet : Looked w start start
  asked :
      (t : Session) (ref generation : ℕ)
      → Looked w start t.keys
      → Looked w start (ratchet_get_key w ref generation t).0.keys

-- The generation that a sender's expander makes of a truncated nonce.
abbrev pub generation_for : SenderState → ℕ → ℕ
generation_for sender truncated = expand_tentative sender.expander truncated / 2 ^ 24 % 2 ^ 32

-- The frame parses, the user has a sender in the active epoch, the pending one or a retained one, the
-- sender's ratchet gives a key for the generation of the frame's nonce, and this key opens the frame.
pub data IsOpened (w : World) (user : UserId) (frame : List ℕ) (k : Keys) : Type 0 where
  opened :
      (parsed : ParsedFrame) (slot : Slot) (sender : SenderState) (t : Session)
      (key plaintext : List ℕ) (nonce : ℕ)
      → parse frame ≡ ok parsed
      → sender_in (epoch_in slot k) user ≡ some sender
      → Looked w k t.keys
      → (ratchet_get_key w sender.ratchet (generation_for sender parsed.truncated_nonce) t).1
        ≡ ok key
      → Encrypt.decrypt w.gcm (record { ciphertext = frame; key = key }) ≡ ok (plaintext, nonce)
      → IsOpened w user frame k

pub record SameEpochs (k k' : Keys) : Type 0 where
  pub active : k'.active_epoch ≡ k.active_epoch
  pub pending : k'.pending_epoch ≡ k.pending_epoch
  pub retained : k'.retained_epoch ≡ k.retained_epoch

pub Looked-SameEpochs : (w : World) (k k' : Keys) → Looked w k k' → SameEpochs k k'
unfolding ratchet_get_key
Looked-SameEpochs w k _ not_yet = record { active = refl; pending = refl; retained = refl }
Looked-SameEpochs w k _ (asked t ref generation l) =
    let same = Looked-SameEpochs w k t.keys l in
    record { active = same.active; pending = same.pending; retained = same.retained }

epoch_in-SameEpochs :
    (slot : Slot) (k k' : Keys) → SameEpochs k k' → epoch_in slot k' ≡ epoch_in slot k
epoch_in-SameEpochs Slot.active_slot k k' s = s.active
epoch_in-SameEpochs Slot.pending_slot k k' s = s.pending
epoch_in-SameEpochs (Slot.retained_slot n) k k' s = rw s.retained refl

module _ (w : World) (user : UserId) (frame : List ℕ) (k : Keys) where
  -- No key has opened the frame yet, and no sender has moved; or a key opens it.
  abbrev pub Holds : Session → Type 0
  Holds s = Looked w k s.keys ⊎ IsOpened w user frame k

  unfoldable pub IsGuarded : {A : Type 0} → (Session → Type 0) → Act A → Type 0
  IsGuarded P m = Triple P m (λ value s. IsOpened w user frame k) Holds

  -- Once a key opens it, nothing is left to show.
  done :
      {A : Type 0} (s : Session) (r : Result SessionError A)
      → IsOpened w user frame k
      → Outcome (λ value s. IsOpened w user frame k) Holds s r
  done s (ok value) o = o
  done s (err e) o = inr o
  done s panic o = inr o

  opened-IsGuarded :
      {A : Type 0} (P : Session → Type 0) (m : Act A) → IsOpened w user frame k → IsGuarded P m
  unfolding IsGuarded
  opened-IsGuarded P m o = record { holds = λ s h. done (m s).0 (m s).1 o }

  -- What is known of a key that a ratchet gave for the frame.
  abbrev Given : ParsedFrame → Slot → SenderState → List ℕ → Type 0
  Given parsed slot sender key =
      (t : Session) × (parse frame ≡ ok parsed)
      × (sender_in (epoch_in slot k) user ≡ some sender)
      × Looked w k t.keys
      × ((ratchet_get_key w sender.ratchet (generation_for sender parsed.truncated_nonce) t).1
          ≡ ok key)

  open-IsGuarded :
      (a : Attempt) (parsed : ParsedFrame) (slot : Slot) (sender : SenderState)
      (full generation : ℕ) (next_slot : Next) (key : List ℕ)
      → ((e : SessionError) → IsGuarded Holds (next_slot e))
      → Given parsed slot sender key
      → (r : Result Error (List ℕ × ℕ))
      → Encrypt.decrypt w.gcm (record { ciphertext = frame; key = key }) ≡ r
      → IsGuarded Holds (open_result w a slot sender full generation next_slot r)
  unfolding open_result IsGuarded crash
  open-IsGuarded a parsed slot sender full generation next_slot key later given (err e) eq = later _
  open-IsGuarded a parsed slot sender full generation next_slot key later given panic eq = record {
    holds = λ s h. h;
  }
  open-IsGuarded a parsed slot sender full generation next_slot key later
        (t, parses, there, looked, gave) (ok (plaintext, nonce)) eq =
      opened-IsGuarded Holds _
        (opened parsed slot sender t key plaintext nonce parses there looked gave eq)

  -- What is known once GetKey has given a key.
  abbrev Known : ParsedFrame → Slot → SenderState → List ℕ → Session → Type 0
  Known parsed slot sender key s =
      Holds s × (Given parsed slot sender key ⊎ IsOpened w user frame k)

  key-Outcome :
      (parsed : ParsedFrame) (slot : Slot) (sender : SenderState) (s : Session)
      → parse frame ≡ ok parsed
      → sender_in (epoch_in slot s.keys) user ≡ some sender
      → Holds s
      → (r : Result SessionError (List ℕ))
      → (ratchet_get_key w sender.ratchet (generation_for sender parsed.truncated_nonce) s).1 ≡ r
      → Outcome
          (Known parsed slot sender)
          Holds
          (ratchet_get_key w sender.ratchet (generation_for sender parsed.truncated_nonce) s).0
          r
  key-Outcome parsed slot sender s parses there (inr o) (ok key) eq = (inr o, inr o)
  key-Outcome parsed slot sender s parses there (inr o) (err e) eq = inr o
  key-Outcome parsed slot sender s parses there (inr o) panic eq = inr o
  key-Outcome parsed slot sender s parses there (inl looked) (ok key) eq = (
    inl (asked s _ _ looked),
    inl (
      s,
      parses,
      ap (λ e. sender_in e user)
            (sym (epoch_in-SameEpochs slot k s.keys (Looked-SameEpochs w k s.keys looked)))
          ∙ there,
      looked,
      eq,
    ),
  )
  key-Outcome parsed slot sender s parses there (inl looked) (err e) eq = inl (asked s _ _ looked)
  key-Outcome parsed slot sender s parses there (inl looked) panic eq = inl (asked s _ _ looked)

  known-IsGuarded :
      (a : Attempt) (parsed : ParsedFrame) (slot : Slot) (sender : SenderState)
      (full generation : ℕ) (next_slot : Next) (key : List ℕ)
      → ((e : SessionError) → IsGuarded Holds (next_slot e))
      → Given parsed slot sender key ⊎ IsOpened w user frame k
      → IsGuarded Holds (
          open_result w a slot sender full generation next_slot
            (Encrypt.decrypt w.gcm (record { ciphertext = frame; key = key })))
  known-IsGuarded a parsed slot sender full generation next_slot key later (inl given) =
      open-IsGuarded a parsed slot sender full generation next_slot key later given _ refl
  known-IsGuarded a parsed slot sender full generation next_slot key later (inr o) =
      opened-IsGuarded Holds _ o

  Triple-knowing :
      {A : Type 0} {fact : Type 0} (m : Act A)
      → (fact → IsGuarded Holds m)
      → IsGuarded (λ s. Holds s × fact) m
  unfolding IsGuarded
  Triple-knowing m t = record { holds = λ s h. (t h.1).holds s h.0 }

  abbrev attempt : ParsedFrame → List ℕ → Attempt
  attempt parsed dst = record {
    user = user;
    frame = frame;
    truncated_nonce = parsed.truncated_nonce;
    dst = dst;
  }

  try_sender-IsGuarded :
      (parsed : ParsedFrame) (dst : List ℕ) (slot : Slot) (found : Option SenderState)
      (next_slot : Next) (last : SessionError)
      → parse frame ≡ ok parsed
      → ((e : SessionError) → IsGuarded Holds (next_slot e))
      → IsGuarded
          (λ s. Holds s × (found ≡ sender_in (epoch_in slot s.keys) user))
          (try_sender w (attempt parsed dst) slot found next_slot last)
  unfolding try_sender IsGuarded
  try_sender-IsGuarded parsed dst slot none next_slot last parses later = record {
    holds = λ s h. (later last).holds s h.0;
  }
  try_sender-IsGuarded parsed dst slot (some sender) next_slot last parses later =
      catch-Triple _ _ _ (Known parsed slot sender) _ _
        (record { holds = λ s h. key-Outcome parsed slot sender s parses (sym h.1) h.0 _ refl })
        (λ key. Triple-knowing _ (λ known.
          known-IsGuarded (attempt parsed dst) parsed slot sender _ _ next_slot key later known))
        later

  pub try_slots-IsGuarded :
      (parsed : ParsedFrame) (dst : List ℕ) (slots : List Slot) (last : SessionError)
      → parse frame ≡ ok parsed
      → IsGuarded Holds (try_slots w (attempt parsed dst) slots last)
  unfolding try_slots IsGuarded count_decrypt_failure count on_health fail ◌>>=◌
  try_slots-IsGuarded parsed dst [] last parses = record { holds = λ s h. h }
  try_slots-IsGuarded parsed dst (slot ∷ slots) last parses =
      bind-Triple _ _ (λ sender s. Holds s × (sender ≡ sender_in (epoch_in slot s.keys) user)) _ _
        (gets-Triple _ _)
        (λ sender.
          try_sender-IsGuarded parsed dst slot sender _ last parses
            (λ e. try_slots-IsGuarded parsed dst slots e parses))
