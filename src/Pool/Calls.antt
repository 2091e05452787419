-- ===== src/Pool/Calls.antt =====
-- `take` and `return_value` as moves of one value, and any sequence of them.
use mathlib.Core.List.{Perm}
use porkg.Base.{ℕ, ◌+◌, ◌≡◌, ◌⊎◌, inl, inr, refl, All, List, [], ◌∷◌, Option, none, some}
use porkg.Pool.Channels.{Flume, IsQueue}
use porkg.Pool.{
  PoolBuilder, PoolState, take, taken, on_take, on_return, return_value, stored, next_id,
}
use porkg.Pool.Contents.{
  contents, Keeps, Keeps-refl, Keeps-trans, Received, take_loop-Received, Sent, send_loop-Sent,
  IsFull, send_loop_full,
}

module _ {G T : Type 0} (flume : Flume T) (queue : IsQueue flume) (config : PoolBuilder G T) where
  open flume use {Channel}

  abbrev pub Took : (G → T × G) → G → PoolState flume → T × G × PoolState flume → Type 0
  Took create g s r =
      (((x : T) × Perm (contents flume queue s.entries) (x ∷ contents flume queue r.2.entries)
          × ((r.0, r.1) ≡ on_take config.take_hook x g))
        ⊎ ((r.2.entries ≡ s.entries) × ((r.0, r.1) ≡ create g)))
      × Keeps flume queue s.entries r.2.entries

  taken-Took :
      (create : G → T × G) (g : G) (s : PoolState flume) (o : Option (T × List Channel))
      → Received flume queue s.entries o
      → Took create g s (taken flume config create g s o)
  taken-Took create g s none h = (inr (refl, refl), Keeps-refl flume queue s.entries)
  taken-Took create g s (some (x, entries)) (perm, keeps) = (inl (x, perm, refl), keeps)

  -- Over channels that keep the crate's laws, `take` either removes one stored value and gives
  -- it through the take hook, or leaves what is stored and creates a value; it changes no
  -- channel's limit and overfills none.
  pub take-Took :
      (create : G → T × G) (tid : ℕ) (g : G) (s : PoolState flume)
      → Took create g s (take flume config create tid g s)
  unfolding take
  take-Took create tid g s =
      taken-Took create g (next_id flume tid s).1 _
        (take_loop-Received flume queue (config.max_loop + 1) 0 s.skip s.entries)

  -- `hooked` is the return hook's answer.
  abbrev pub Put : PoolState flume → Option T × G → G × PoolState flume → Type 0
  Put s hooked r =
      ((x : T) × (hooked ≡ (some x, r.0)) × Sent flume queue s.entries x r.1.entries)
      ⊎ ((hooked ≡ (none, r.0)) × (r.1 ≡ s))

  stored-Put :
      (tid : ℕ) (s : PoolState flume) (hooked : Option T × G)
      → Put s hooked (stored flume config tid s hooked)
  unfolding next_id
  stored-Put tid s (none, g) = inr (refl, refl)
  stored-Put tid s (some x, g) =
      inl (x, refl, send_loop-Sent flume queue (config.max_loop + 1) 0 s.skip s.entries x)

  -- Over channels that keep the crate's laws, `return_value` stores what the return hook makes
  -- of the value, or drops it, and overfills no channel; a value that the hook refuses leaves
  -- the pool as it was.
  pub return_value-Put :
      (tid : ℕ) (g : G) (s : PoolState flume) (v : T)
      → Put s (on_return config.return_hook v g) (return_value flume config tid g s v)
  unfolding return_value
  return_value-Put tid g s v = stored-Put tid s (on_return config.return_hook v g)

  -- A value that the hook lets through finds no room.
  pub return_value_full :
      (tid : ℕ) (g g' : G) (s : PoolState flume) (v x : T)
      → All (IsFull flume queue) s.entries
      → on_return config.return_hook v g ≡ (some x, g')
      → let r = return_value flume config tid g s v in (r.1.entries ≡ s.entries) × (r.0 ≡ g')
  unfolding return_value next_id
  return_value_full tid g g' s v x full e =
      rw (e, stored)
        (send_loop_full flume queue (config.max_loop + 1) 0 s.skip s.entries x full, refl)

  pub Put-Keeps :
      (s : PoolState flume) (hooked : Option T × G) (r : G × PoolState flume)
      → Put s hooked r
      → Keeps flume queue s.entries r.1.entries
  Put-Keeps s hooked r (inl (x, e, sent)) = sent.1
  Put-Keeps s hooked r (inr (e, same)) = rw same (Keeps-refl flume queue s.entries)

  -- A call by a thread of the given id.
  pub data Call : Type 0 where
    takes : ℕ → Call
    returns : ℕ → T → Call

  unfoldable pub step : (G → T × G) → Call → G × PoolState flume → G × PoolState flume
  step create (takes tid) (g, s) = let (v, g', s') = take flume config create tid g s in (g', s')
  step create (returns tid v) (g, s) = return_value flume config tid g s v

  unfoldable pub run : (G → T × G) → List Call → G × PoolState flume → G × PoolState flume
  unfolding step
  run create [] w = w
  run create (c ∷ cs) w = run create cs (step create c w)

  step-Keeps :
      (create : G → T × G) (c : Call) (w : G × PoolState flume)
      → Keeps flume queue w.1.entries (step create c w).1.entries
  unfolding step
  step-Keeps create (takes tid) (g, s) = (take-Took create tid g s).1
  step-Keeps create (returns tid v) (g, s) =
      Put-Keeps s (on_return config.return_hook v g) _ (return_value-Put tid g s v)

  pub run-Keeps :
      (create : G → T × G) (cs : List Call) (w : G × PoolState flume)
      → Keeps flume queue w.1.entries (run create cs w).1.entries
  unfolding run
  run-Keeps create [] w = Keeps-refl flume queue w.1.entries
  run-Keeps create (c ∷ cs) w =
      Keeps-trans flume queue (step-Keeps create c w) (run-Keeps create cs (step create c w))
