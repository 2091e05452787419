-- ===== src/Linux/Sandbox/Lock/Progress.antt =====
-- The controller's lock is never in the way for good.
use porkg.Base.{
  ℕ, zero, suc, ◌+◌, ◌≡◌, ◌≤◌, ◌<◌, ◌⊎◌, inl, inr, refl, sym, ap, subst, true, false, List, [], ◌∷◌,
  ◌++◌, map, some, get_elem?, set, length, arith,
}
use porkg.Linux.Sandbox.Lock.{
  Caller, waits, sends, returned, Controller, caller_turned, callers_play,
}
use porkg.Linux.Sandbox.Lock.Callers.{waiting, sending}
use porkg.Linux.Sandbox.Lock.Exclusion.{
  IsExclusive, waits-IsExclusive, turned-IsExclusive, play-IsExclusive,
}
use porkg.Socket.{Packet}

module _ {X : Type 0} (packets : X → List Packet) where
  -- How many moves a caller has still to make.
  abbrev pub moves_left : Caller X → ℕ
  moves_left (waits x) = 2 + length (packets x)
  moves_left (sends ps) = 1 + length ps
  moves_left returned = 0

  abbrev pub work : List (Caller X) → ℕ
  work [] = 0
  work (c ∷ cs) = moves_left c + work cs

  work-set :
      (cs : List (Caller X)) (j : ℕ) (c d : Caller X)
      → get_elem? cs j ≡ some c
      → work (set cs j d) + moves_left c ≡ work cs + moves_left d
  work-set [] j c d there = absurd (cc)
  work-set (x ∷ cs) zero c d there = let same : x ≡ c = cc in rw same (omega arith)
  work-set (x ∷ cs) (suc j) c d there = omega (arith, work-set cs j c d there)

  sending-somewhere :
      (cs : List (Caller X)) (qs : List Packet) (more : List (List Packet))
      → sending cs ≡ qs ∷ more
      → (j : ℕ) × (get_elem? cs j ≡ some (sends qs))
  sending-somewhere [] qs more one = absurd (cc)
  sending-somewhere (waits x ∷ cs) qs more one =
      let (j, there) = sending-somewhere cs qs more one in (suc j, there)
  sending-somewhere (sends ps ∷ cs) qs more one =
      let same : ps ≡ qs = cc in (0, ap (λ q. some (sends q)) same)
  sending-somewhere (returned ∷ cs) qs more one =
      let (j, there) = sending-somewhere cs qs more one in (suc j, there)

  waiting-somewhere :
      (cs : List (Caller X))
      → (waiting cs ≡ []) ⊎ ((j : ℕ) × ((x : X) × (get_elem? cs j ≡ some (waits x))))
  waiting-somewhere [] = inl refl
  waiting-somewhere (waits x ∷ cs) = inr (0, (x, refl))
  waiting-somewhere (sends ps ∷ cs) = elim (waiting-somewhere cs) [
    | inl nobody ↦ inl nobody
    | inr (j, (x, there)) ↦ inr (suc j, (x, there))
  ]
  waiting-somewhere (returned ∷ cs) = elim (waiting-somewhere cs) [
    | inl nobody ↦ inl nobody
    | inr (j, (x, there)) ↦ inr (suc j, (x, there))
  ]

  -- The lock is free, and nobody has anything left to send or waits for the lock.
  abbrev pub IsOver : Controller packets → Type 0
  IsOver s = (s.0 ≡ false) × (waiting s.1 ≡ []) × (sending s.1 ≡ [])

  -- Somebody can move, and then has less to do.
  abbrev Moves : Controller packets → Type 0
  Moves s = (j : ℕ) × (work (caller_turned packets j s (get_elem? s.1 j)).0.1 < work s.1)

  sends-Moves :
      (cs : List (Caller X)) (wire : List Packet) (j : ℕ) (ps : List Packet)
      → get_elem? cs j ≡ some (sends ps)
      → Moves (true, cs, wire)
  sends-Moves cs wire j [] there =
      (j, rw there (omega (arith, work-set cs j (sends []) returned there)))
  sends-Moves cs wire j (p ∷ ps) there =
      (j, rw there (omega (arith, work-set cs j (sends (p ∷ ps)) (sends ps) there)))

  IsExclusive-Moves :
      (calls order : List X) (s : Controller packets)
      → IsExclusive packets calls order s
      → IsOver s ⊎ Moves s
  IsExclusive-Moves calls order (false, cs, wire) h = elim (waiting-somewhere cs) [
    | inl nobody ↦ elim h.lock [
      | inl (_, none_sends) ↦ inl (refl, nobody, none_sends)
      | inr (held, _) ↦ absurd (cc)
    ]
    | inr (j, (x, there)) ↦
        inr (j, rw there (omega (arith, work-set cs j (waits x) (sends (packets x)) there)))
  ]
  IsExclusive-Moves calls order (true, cs, wire) h = elim h.lock [
    | inl (unlocked, _) ↦ absurd (cc)
    | inr (_, (qs, one)) ↦
        let (j, there) = sending-somewhere cs qs [] one in inr (sends-Moves cs wire j qs there)
  ]

  can_end :
      (n : ℕ) (calls order : List X) (s : Controller packets)
      → IsExclusive packets calls order s
      → work s.1 ≤ n
      → (js : List ℕ) × IsOver (callers_play packets js s).0
  unfolding callers_play
  can_end zero calls order s h few = elim (IsExclusive-Moves calls order s h) [
    | inl over ↦ ([], over)
    | inr (j, less) ↦ absurd (omega arith)
  ]
  can_end (suc n) calls order s h few = elim (IsExclusive-Moves calls order s h) [
    | inl over ↦ ([], over)
    | inr (j, less) ↦
        let r = caller_turned packets j s (get_elem? s.1 j) in
        let (js, over) =
          can_end n calls (order ++ r.1) r.0 (turned-IsExclusive packets calls order s j _ refl h)
            (omega arith) in
        (j ∷ js, over)
  ]

  play-append :
      (js js' : List ℕ) (s : Controller packets)
      → (callers_play packets (js ++ js') s).0
        ≡ (callers_play packets js' (callers_play packets js s).0).0
  unfolding callers_play
  play-append [] js' s = refl
  play-append (j ∷ js) js' s = play-append js js' (caller_turned packets j s (get_elem? s.1 j)).0

  abbrev at_first : List X → Controller packets
  at_first calls = (false, map waits calls, [])

  -- However many calls of `spawn_async` run at once, and whatever moves they have made: they can all
  -- come to their end. There are moves after which all have returned, the lock is free, and nobody
  -- waits for it.
  pub callers_play-ends :
      (calls : List X) (js : List ℕ)
      → (js' : List ℕ) × IsOver (callers_play packets (js ++ js') (false, map waits calls, [])).0
  callers_play-ends calls js =
      let start = at_first calls in
      let h = play-IsExclusive packets calls [] js start (waits-IsExclusive packets calls) in
      let r = callers_play packets js start in
      let (js', over) = can_end (work r.0.1) calls r.1 r.0 h (omega arith) in
      (js', subst IsOver (sym (play-append js js' start)) over)
