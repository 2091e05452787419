-- ===== src/Pool/Bag.antt =====
-- What a pool of crates/porkg-private/src/mem.rs promises: "no ordering guarantees", that is a bag,
-- of at most as many values as its capacity.
use mathlib.Core.List.{Perm, Permᴰ}
use mathlib.Core.Logic.{∥∥₁_elim}
use native.Mathlib.Nat.{ℕ_set}
use mathlib.Core.Quot.{sound}
use mathlib.Mathlib.Data.Multiset.Defs.{Multiset, of_list}
use mathlib.Mathlib.Data.Multiset.ZeroCons.{cons}
use porkg.Base.{
  ℕ, suc, ◌≡◌, ◌∙◌, ◌≤◌, ◌<◌, sym, ap, subst, refl, inl, inr, List, [], ◌∷◌, none, some, length,
  arith,
}
use porkg.Pool.Channels.{Flume, IsQueue}
use porkg.Pool.{PoolBuilder, PoolState, on_take, on_return, new, take}
use porkg.Pool.Contents.{contents, IsBounded, total_limit, Keeps, length-contents-le}
use porkg.Pool.Calls.{
  Call, takes, returns, Took, Put, take-Took, return_value-Put, Put-Keeps, step, run,
}
use porkg.Pool.New.{new-total_limit, new-IsBounded}

length-Permᴰ : {A : Type 0} {xs ys : List A} → Permᴰ xs ys → length xs ≡ length ys
length-Permᴰ Permᴰ.nil = refl
length-Permᴰ (Permᴰ.cons e p) = ap suc (length-Permᴰ p)
length-Permᴰ (Permᴰ.swap e e') = refl
length-Permᴰ (Permᴰ.trans p q) = length-Permᴰ p ∙ length-Permᴰ q

length-perm : {A : Type 0} {xs ys : List A} → Perm xs ys → length xs ≡ length ys
length-perm p = ∥∥₁_elim p (ℕ_set _ _) length-Permᴰ

-- The state of the hooks and of the factory, and the bag.
abbrev pub Bag : Type 0 → Type 0 → Type 0
Bag G T = G × Multiset T

module _ {G T : Type 0} (flume : Flume T) (queue : IsQueue flume) (config : PoolBuilder G T)
    (create : G → T × G) where
  -- A bag with room for one value more.
  abbrev pub HasRoom : Multiset T → Type 0
  HasRoom bag = (xs : List T) × (bag ≡ of_list xs) × (length xs < config.capacity)

  -- A call of `take` finds any value of the bag or makes one, and a call of `return_value` adds what
  -- the hook makes of its value, if there is room, or drops it.
  pub data BagStep (g : G) (bag : Multiset T) : Call flume queue config → Bag G T → Type 0 where
    found :
        (tid : ℕ) (x : T) (rest : Multiset T)
        → bag ≡ cons x rest
        → BagStep g bag (takes tid) ((on_take config.take_hook x g).1, rest)
    made : (tid : ℕ) → BagStep g bag (takes tid) ((create g).1, bag)
    kept :
        (tid : ℕ) (v x : T) (g' : G)
        → on_return config.return_hook v g ≡ (some x, g')
        → HasRoom bag
        → BagStep g bag (returns tid v) (g', cons x bag)
    lost :
        (tid : ℕ) (v x : T) (g' : G)
        → on_return config.return_hook v g ≡ (some x, g')
        → BagStep g bag (returns tid v) (g', bag)
    refused :
        (tid : ℕ) (v : T) (g' : G)
        → on_return config.return_hook v g ≡ (none, g')
        → BagStep g bag (returns tid v) (g', bag)

  pub data BagRun : Bag G T → List (Call flume queue config) → Bag G T → Type 0 where
    ended : (w : Bag G T) → BagRun w [] w
    called :
        (g : G) (bag : Multiset T) (c : Call flume queue config)
        (cs : List (Call flume queue config)) (w w' : Bag G T)
        → BagStep g bag c w
        → BagRun w cs w'
        → BagRun (g, bag) (c ∷ cs) w'

  -- The order of values, and the channels that they are in, are forgotten.
  abbrev pub view : G × PoolState flume → Bag G T
  view (g, s) = (g, of_list (contents flume queue s.entries))

  take-BagStep :
      (tid : ℕ) (g : G) (s : PoolState flume) (r : T × G × PoolState flume)
      → Took flume queue config create g s r
      → BagStep g (of_list (contents flume queue s.entries)) (takes tid) (view (r.1, r.2))
  take-BagStep tid g s (v, g', s') (inl (x, perm, e), k) =
      let after = ap (λ (p : T × G). p.1) e in
      subst
        (λ h.
          BagStep g (of_list (contents flume queue s.entries)) (takes tid)
            (h, of_list (contents flume queue s'.entries)))
        (sym after) (found tid x _ (sound perm))
  take-BagStep tid g s (v, g', s') (inr (same, e), k) =
      let after = ap (λ (p : T × G). p.1) e in rw (after, same) (made tid)

  return_value-BagStep :
      (tid : ℕ) (v : T) (g : G) (s : PoolState flume) (r : G × PoolState flume)
      → length (contents flume queue r.1.entries) ≤ config.capacity
      → Put flume queue config s (on_return config.return_hook v g) r
      → BagStep g (of_list (contents flume queue s.entries)) (returns tid v) (view r)
  return_value-BagStep tid v g s (g', s') small (inl (x, e, (inl same, k))) =
      rw same (lost tid v x g' e)
  return_value-BagStep tid v g s (g', s') small (inl (x, e, (inr perm, k))) =
      subst (λ bag. BagStep g (of_list (contents flume queue s.entries)) (returns tid v) (g', bag))
        (sym (sound perm))
        (kept tid v x g' e
          (contents flume queue s.entries, refl, omega (arith, length-perm perm, small)))
  return_value-BagStep tid v g s (g', s') small (inr (e, same)) = rw same (refused tid v g' e)

  -- Every channel is within its limit, and the limits add up to the capacity.
  record IsSound (s : PoolState flume) : Type 0 where
    bounded : IsBounded flume queue s.entries
    whole : total_limit flume queue s.entries ≡ config.capacity

  Keeps-IsSound :
      (s s' : PoolState flume) → Keeps flume queue s.entries s'.entries → IsSound s → IsSound s'
  Keeps-IsSound s s' k sound = record {
    bounded = k.bounded sound.bounded;
    whole = k.same_limit ∙ sound.whole;
  }

  length-IsSound :
      (s : PoolState flume) → IsSound s → length (contents flume queue s.entries) ≤ config.capacity
  length-IsSound s sound =
      omega (arith, length-contents-le flume queue s.entries sound.bounded, sound.whole)

  step-BagStep :
      (c : Call flume queue config) (g : G) (s : PoolState flume)
      → IsSound s
      → let w = step flume queue config create c (g, s) in
        BagStep g (of_list (contents flume queue s.entries)) c (view w) × IsSound w.1
  unfolding step
  step-BagStep (takes tid) g s sound =
      let took = take-Took flume queue config create tid g s in
      let r = take flume config create tid g s in
      (take-BagStep tid g s r took, Keeps-IsSound s r.2 took.1 sound)
  step-BagStep (returns tid v) g s sound =
      let put = return_value-Put flume queue config tid g s v in
      let after = Keeps-IsSound s _ (Put-Keeps flume queue config s _ _ put) sound in
      (return_value-BagStep tid v g s _ (length-IsSound _ after) put, after)

  run-IsSound-BagRun :
      (cs : List (Call flume queue config)) (g : G) (s : PoolState flume)
      → IsSound s
      → BagRun (view (g, s)) cs (view (run flume queue config create cs (g, s)))
  unfolding run
  run-IsSound-BagRun [] g s sound = ended (view (g, s))
  run-IsSound-BagRun (c ∷ cs) g s sound =
      let (one, after) = step-BagStep c g s sound in
      let w = step flume queue config create c (g, s) in
      called g _ c cs (view w) _ one (run-IsSound-BagRun cs w.0 w.1 after)

  -- A new pool over channels that keep the crate's laws is a bag: whatever calls are made, by any
  -- threads one after the other, the values that it stores, their order and their channels
  -- forgotten, follow a run of the bag, which starts empty, loses one value or none to a `take`, and
  -- gains a value by a `return_value` at most, and only while it has fewer than the pool's capacity.
  pub run-BagRun :
      (default : ℕ) (cs : List (Call flume queue config)) (g : G)
      → BagRun
          (g, of_list [])
          cs
          (view (run flume queue config create cs (g, new flume config default)))
  run-BagRun default cs g =
      let start = new flume config default in
      let (whole, empty) = new-total_limit flume queue config default in
      subst (λ xs. BagRun (g, of_list xs) cs (view (run flume queue config create cs (g, start))))
        empty
        (run-IsSound-BagRun cs g start
          (record { bounded = new-IsBounded flume queue config default; whole = whole }))
