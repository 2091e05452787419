-- ===== src/Linux/Sandbox/Lock/Callers.antt =====
-- Who of the callers waits for the lock and who has it, and what a move changes in that.
use mathlib.Core.List.{Perm, perm_middle}
use porkg.Base.{ℕ, ◌≡◌, refl, sym, ◌∙◌, List, [], ◌∷◌, append-nil, some, get_elem?, set}
use porkg.Socket.{Packet}
use porkg.Linux.Sandbox.Lock.{Caller, waits, sends, returned}
use porkg.Linux.Sandbox.Lock.Gather.{alone, empty, gather, gather-get}

module _ {X : Type 0} where
  abbrev pub waits_for : Caller X → List X
  waits_for (waits x) = x ∷ []
  waits_for (sends ps) = []
  waits_for returned = []

  -- What a caller that has the lock has still to send.
  abbrev pub has_left : Caller X → List (List Packet)
  has_left (waits x) = []
  has_left (sends ps) = ps ∷ []
  has_left returned = []

  abbrev pub waiting : List (Caller X) → List X
  waiting = gather waits_for

  abbrev pub sending : List (Caller X) → List (List Packet)
  sending = gather has_left

  pub waiting-gets :
      (cs : List (Caller X)) (j : ℕ) (x : X) (c : Caller X)
      → get_elem? cs j ≡ some (waits x)
      → waits_for c ≡ []
      → Perm (waiting cs) (x ∷ waiting (set cs j c))
  waiting-gets cs j x c there other =
      let (pre, (post, now, next)) = gather-get waits_for cs j (waits x) there in
      rw (now, next c, other) (perm_middle pre post)

  pub waiting-keeps :
      (cs : List (Caller X)) (j : ℕ) (c d : Caller X)
      → get_elem? cs j ≡ some c
      → waits_for d ≡ waits_for c
      → waiting (set cs j d) ≡ waiting cs
  waiting-keeps cs j c d there same =
      let (pre, (post, now, next)) = gather-get waits_for cs j c there in
      rw (now, next d, same) refl

  pub not_none :
      (cs : List (Caller X)) (j : ℕ) (ps : List Packet)
      → get_elem? cs j ≡ some (sends ps)
      → sending cs ≡ []
      → ⊥
  not_none cs j ps there none_sends =
      let (pre, (post, now, next)) = gather-get has_left cs j (sends ps) there in
      let clash = (empty pre (ps ∷ post) (sym now ∙ none_sends)).1 in cc

  pub sending-gets :
      (cs : List (Caller X)) (j : ℕ) (x : X) (c : Caller X)
      → get_elem? cs j ≡ some (waits x)
      → sending cs ≡ []
      → sending (set cs j c) ≡ has_left c
  sending-gets cs j x c there none_sends =
      let (pre, (post, now, next)) = gather-get has_left cs j (waits x) there in
      let (left, right) = empty pre post (sym now ∙ none_sends) in
      next c ∙ rw (left, right) (append-nil (has_left c))

  -- The only one with the lock moves.
  pub sending-only :
      (cs : List (Caller X)) (j : ℕ) (ps qs : List Packet) (c : Caller X)
      → get_elem? cs j ≡ some (sends ps)
      → sending cs ≡ qs ∷ []
      → (ps ≡ qs) × (sending (set cs j c) ≡ has_left c)
  sending-only cs j ps qs c there one =
      let (pre, (post, now, next)) = gather-get has_left cs j (sends ps) there in
      let (same, left, right) = alone pre post ps qs (sym now ∙ one) in
      (same, next c ∙ rw (left, right) (append-nil (has_left c)))
