-- ===== src/Linux/Sandbox/Lock/Exclusion.antt =====
-- Calls of `spawn_async` do not mix what they send.
use mathlib.Core.List.{Perm}
use mathlib.Core.List.Perm
use porkg.Base.{
  ℕ, ◌≡◌, ◌⊎◌, inl, inr, refl, sym, ap, ◌∙◌, Bool, true, false, List, [], ◌∷◌, ◌++◌, map,
  append_assoc, append-nil, Option, none, some, get_elem?, set,
}
use porkg.Socket.{Packet}
use porkg.Linux.Sandbox.Lock.{
  Caller, waits, sends, returned, Controller, caller_turned, callers_play,
}
use porkg.Linux.Sandbox.Lock.Gather.{set-get}
use porkg.Linux.Sandbox.Lock.Callers.{
  waiting, sending, waiting-gets, waiting-keeps, not_none, sending-gets, sending-only,
}

abbrev pub joined : List (List Packet) → List Packet
joined [] = []
joined (ps ∷ pss) = ps ++ joined pss

module _ {X : Type 0} (packets : X → List Packet) where
  joined-map :
      (xs ys : List X)
      → joined (map packets (xs ++ ys)) ≡ joined (map packets xs) ++ joined (map packets ys)
  joined-map [] ys = refl
  joined-map (x ∷ xs) ys =
      ap (◌++◌ (packets x)) (joined-map xs ys)
      ∙ sym (append_assoc (packets x) (joined (map packets xs)) (joined (map packets ys)))

  -- What the calls that have had the lock have sent, with what is left of the one that has it, is all
  -- that they are to send, one after the other.
  pub record IsExclusive (calls order : List X) (s : Controller packets) : Type 0 where
    pub lines : Perm calls (order ++ waiting s.1)
    pub whole : s.2 ++ joined (sending s.1) ≡ joined (map packets order)
    pub lock :
        ((s.0 ≡ false) × (sending s.1 ≡ []))
        ⊎ ((s.0 ≡ true) × ((qs : List Packet) × (sending s.1 ≡ qs ∷ [])))

  gets-IsExclusive :
      (calls order : List X) (cs : List (Caller X)) (wire : List Packet) (j : ℕ) (x : X)
      → get_elem? cs j ≡ some (waits x)
      → sending cs ≡ []
      → IsExclusive calls order (false, cs, wire)
      → IsExclusive calls (order ++ x ∷ []) (true, set cs j (sends (packets x)), wire)
  gets-IsExclusive calls order cs wire j x there none_sends h =
      let next = sending-gets cs j x (sends (packets x)) there none_sends in
      record {
        lines = rw append_assoc (
            Perm.trans h.lines
              (Perm.append_left order (waiting-gets cs j x (sends (packets x)) there refl)));
        whole =
            ap (λ q. wire ++ joined q) next
            ∙ ap (λ w. w ++ (packets x ++ []))
                (sym (append-nil wire) ∙ ap (λ q. wire ++ joined q) (sym none_sends) ∙ h.whole)
            ∙ sym (joined-map order (x ∷ []));
        lock = inr (refl, (packets x, next));
      }

  -- One that has nothing left gives the lock back.
  leaves-IsExclusive :
      (calls order : List X) (locked : Bool) (cs : List (Caller X)) (wire qs : List Packet) (j : ℕ)
      → get_elem? cs j ≡ some (sends [])
      → sending cs ≡ qs ∷ []
      → IsExclusive calls order (locked, cs, wire)
      → IsExclusive calls order (false, set cs j returned, wire)
  leaves-IsExclusive calls order locked cs wire qs j there one h =
      let (same, gone) = sending-only cs j [] qs returned there one in
      record {
        lines = rw (waiting-keeps cs j (sends []) returned there refl) h.lines;
        whole =
            ap (λ q. wire ++ joined q) gone
            ∙ ap (λ q. wire ++ (q ++ [])) same
            ∙ sym (ap (λ q. wire ++ joined q) one)
            ∙ h.whole;
        lock = inl (refl, gone);
      }

  sends-IsExclusive :
      (calls order : List X) (cs : List (Caller X)) (wire qs : List Packet) (j : ℕ) (p : Packet)
      (ps : List Packet)
      → get_elem? cs j ≡ some (sends (p ∷ ps))
      → sending cs ≡ qs ∷ []
      → IsExclusive calls order (true, cs, wire)
      → IsExclusive calls order (true, set cs j (sends ps), wire ++ p ∷ [])
  sends-IsExclusive calls order cs wire qs j p ps there one h =
      let (same, next) = sending-only cs j (p ∷ ps) qs (sends ps) there one in
      record {
        lines = rw (waiting-keeps cs j (sends (p ∷ ps)) (sends ps) there refl) h.lines;
        whole =
            ap (λ q. (wire ++ p ∷ []) ++ joined q) next
            ∙ append_assoc wire (p ∷ []) (ps ++ [])
            ∙ ap (λ q. wire ++ (q ++ [])) same
            ∙ sym (ap (λ q. wire ++ joined q) one)
            ∙ h.whole;
        lock = inr (refl, (ps, next));
      }

  stays-IsExclusive :
      (calls order : List X) (locked : Bool) (cs : List (Caller X)) (wire : List Packet) (j : ℕ)
      (c : Caller X)
      → get_elem? cs j ≡ some c
      → IsExclusive calls order (locked, cs, wire)
      → IsExclusive calls (order ++ []) (locked, set cs j c, wire)
  stays-IsExclusive calls order locked cs wire j c there h =
      rw (append-nil order, set-get cs j c there) h

  step-IsExclusive :
      (calls order : List X) (locked : Bool) (cs : List (Caller X)) (wire : List Packet) (j : ℕ)
      (c : Caller X)
      → get_elem? cs j ≡ some c
      → IsExclusive calls order (locked, cs, wire)
      → let r = caller_turned packets j (locked, cs, wire) (some c) in
        IsExclusive calls (order ++ r.1) r.0
  step-IsExclusive calls order false cs wire j (waits x) there h = elim h.lock [
    | inl (_, none_sends) ↦ gets-IsExclusive calls order cs wire j x there none_sends h
    | inr (held, _) ↦ absurd (cc)
  ]
  step-IsExclusive calls order true cs wire j (waits x) there h =
      stays-IsExclusive calls order true cs wire j (waits x) there h
  step-IsExclusive calls order locked cs wire j (sends []) there h = elim h.lock [
    | inl (_, none_sends) ↦ absurd (not_none cs j [] there none_sends)
    | inr (_, (qs, one)) ↦
        rw (append-nil order) (leaves-IsExclusive calls order locked cs wire qs j there one h)
  ]
  step-IsExclusive calls order false cs wire j (sends (p ∷ ps)) there h = elim h.lock [
    | inl (_, none_sends) ↦ absurd (not_none cs j (p ∷ ps) there none_sends)
    | inr (held, _) ↦ absurd (cc)
  ]
  step-IsExclusive calls order true cs wire j (sends (p ∷ ps)) there h = elim h.lock [
    | inl (unlocked, _) ↦ absurd (cc)
    | inr (_, (qs, one)) ↦
        rw (append-nil order) (sends-IsExclusive calls order cs wire qs j p ps there one h)
  ]
  step-IsExclusive calls order locked cs wire j returned there h =
      stays-IsExclusive calls order locked cs wire j returned there h

  pub turned-IsExclusive :
      (calls order : List X) (s : Controller packets) (j : ℕ) (o : Option (Caller X))
      → get_elem? s.1 j ≡ o
      → IsExclusive calls order s
      → let r = caller_turned packets j s o in IsExclusive calls (order ++ r.1) r.0
  turned-IsExclusive calls order s j none there h = rw (append-nil order) h
  turned-IsExclusive calls order (locked, cs, wire) j (some c) there h =
      step-IsExclusive calls order locked cs wire j c there h

  pub play-IsExclusive :
      (calls order : List X) (js : List ℕ) (s : Controller packets)
      → IsExclusive calls order s
      → let r = callers_play packets js s in IsExclusive calls (order ++ r.1) r.0
  unfolding callers_play
  play-IsExclusive calls order [] s h = rw (append-nil order) h
  play-IsExclusive calls order (j ∷ js) s h =
      let r = caller_turned packets j s (get_elem? s.1 j) in
      let rest = callers_play packets js r.0 in
      rw (sym (append_assoc order r.1 rest.1))
        (play-IsExclusive calls (order ++ r.1) js r.0 (turned-IsExclusive calls order s j _ refl h))

  waiting-all : (calls : List X) → waiting (map waits calls) ≡ calls
  waiting-all [] = refl
  waiting-all (x ∷ calls) = ap (◌∷◌ x) (waiting-all calls)

  sending-none : (calls : List X) → sending (map waits calls) ≡ []
  sending-none [] = refl
  sending-none (x ∷ calls) = sending-none calls

  -- At first all wait.
  pub waits-IsExclusive : (calls : List X) → IsExclusive calls [] (false, map waits calls, [])
  waits-IsExclusive calls = record {
    lines = rw (waiting-all calls) (Perm.refl _);
    whole = ap joined (sending-none calls);
    lock = inl (refl, sending-none calls);
  }
