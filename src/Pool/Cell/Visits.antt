-- ===== src/Pool/Cell/Visits.antt =====
-- Items that are taken from a pool, changed and dropped, again and again.
use porkg.Base.{ℕ, ◌≡◌, ◌≤◌, refl, ◌∙◌, ap, subst, List, [], ◌∷◌, Option, none, some, length, arith}
use porkg.Pool.Channels.{Flume, IsQueue}
use porkg.Pool
use porkg.Pool.{PoolBuilder, PoolState, return_value, on_return}
use porkg.Pool.Contents.{contents, total_limit, IsBounded, Keeps, length-contents-le}
use porkg.Pool.Calls.{take-Took, return_value-Put, Put-Keeps}
use porkg.Pool.New.{new-total_limit, new-IsBounded}
use porkg.Pool.Items
use porkg.Pool.Items.{Pooled}
use porkg.Pool.Cell.{Cell, build, state_or, state, pool_capacity, take, give_back}

-- A visit: the ids of the threads that take and that drop the item, and the change to its value.
pub record Visit (T : Type 0) : Type 0 where
  pub taker : ℕ
  pub dropper : ℕ
  pub change : T → T

module _ {G T : Type 0} (flume : Flume T) (queue : IsQueue flume) (config : PoolBuilder G T)
    (create : G → T × G) (default : ℕ) where
  -- `none` is the panic of an item without a value.
  abbrev pub changed : ℕ → Option (Pooled T) → G × Cell flume → Option (G × Cell flume)
  changed tid none w = none
  changed tid (some item) w = some (Items.drop (give_back flume config tid) item w)

  abbrev pub visited : Visit T → Pooled T × G × Cell flume → Option (G × Cell flume)
  visited v (item, g, cell) = changed v.dropper (Items.get_mut item v.change) (g, cell)

  abbrev pub visit : Visit T → G × Cell flume → Option (G × Cell flume)
  visit v (g, cell) = visited v (take flume config create default v.taker g cell)

  abbrev pub IsSound : PoolState flume → Type 0
  IsSound s =
      IsBounded flume queue s.entries
      × (total_limit flume queue s.entries ≡ pool_capacity flume config)

  abbrev pub IsSoundCell : Cell flume → Type 0
  IsSoundCell cell = (s : PoolState flume) → cell.state ≡ some s → IsSound s

  Keeps-IsSound :
      (s s' : PoolState flume) → Keeps flume queue s.entries s'.entries → IsSound s → IsSound s'
  Keeps-IsSound s s' keeps (bounded, limit) = (keeps.bounded bounded, keeps.same_limit ∙ limit)

  state-IsSound :
      (o : Option (PoolState flume))
      → ((s : PoolState flume) → o ≡ some s → IsSound s)
      → IsSound (state_or flume config default o)
  unfolding pool_capacity
  state-IsSound none h =
      (new-IsBounded flume queue config default, (new-total_limit flume queue config default).0)
  state-IsSound (some s) h = h s refl

  visit-IsSound :
      (v : Visit T) (g : G) (cell : Cell flume)
      → IsSoundCell cell
      → (w : G × Cell flume) × (visit v (g, cell) ≡ some w) × IsSoundCell w.1
  unfolding take state give_back Items.new Items.get_mut Items.drop
  visit-IsSound v g cell h =
      let s = state_or flume config default cell.state in
      let taken = Pool.take flume config create v.taker g s in
      let back = return_value flume config v.dropper taken.1 taken.2 (v.change taken.0) in
      let sound =
        Keeps-IsSound s taken.2 (take-Took flume queue config create v.taker g s).1
          (state-IsSound cell.state h) in
      let after =
        Keeps-IsSound taken.2 back.1
          (Put-Keeps flume queue config taken.2
            (on_return config.return_hook (v.change taken.0) taken.1) back
            (return_value-Put flume queue config v.dropper taken.1 taken.2 (v.change taken.0)))
          sound in
      (
        (back.0, record { state = some back.1 }),
        refl,
        λ s' e. let same : back.1 ≡ s' = cc in subst IsSound same after,
      )

  abbrev pub followed :
      Option (G × Cell flume) → (G × Cell flume → Option (G × Cell flume)) → Option (G × Cell flume)
  followed none next = none
  followed (some w) next = next w

  unfoldable pub visits : List (Visit T) → G × Cell flume → Option (G × Cell flume)
  unfolding take give_back Items.get_mut Items.drop
  visits [] w = some w
  visits (v ∷ vs) w = followed (visit v w) (λ w. visits vs w)

  visits-IsSound :
      (vs : List (Visit T)) (g : G) (cell : Cell flume)
      → IsSoundCell cell
      → (w : G × Cell flume) × (visits vs (g, cell) ≡ some w) × IsSoundCell w.1
  unfolding visits
  visits-IsSound [] g cell h = ((g, cell), refl, h)
  visits-IsSound (v ∷ vs) g cell h =
      let (w1, one, sound) = visit-IsSound v g cell h in
      let (w, rest, sound') = visits-IsSound vs w1.0 w1.1 sound in
      (w, ap (λ o. followed o (λ w. visits vs w)) one ∙ rest, sound')

  -- From a pool that has just been built, any number of items can be taken, changed and dropped, each
  -- by any threads, over channels that keep the crate's laws: no item is found without its value, so
  -- that nothing panics, and the pool that is made at the first use never stores more
  -- values than its capacity.
  visits-capacity :
      (vs : List (Visit T)) (g : G)
      → (w : G × Cell flume) × (visits vs (g, build flume) ≡ some w)
        × ((s : PoolState flume)
            → w.1.state ≡ some s
            → length (contents flume queue s.entries) ≤ pool_capacity flume config)
  visits-capacity vs g =
      let (w, done, sound) = visits-IsSound vs g (build flume) (λ s e. cc) in
      (
        w,
        done,
        λ s e.
            let (bounded, limit) = sound s e in
            omega (arith, length-contents-le flume queue s.entries bounded, limit),
      )
