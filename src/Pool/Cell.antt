-- ===== src/Pool/Cell.antt =====
-- crates/porkg-private/src/mem.rs: `Pool`, whose state is made at the first use, and items that are
-- taken from it, changed and dropped.
pub mod Visits
use porkg.Base.{ℕ, Option, none, some}
use porkg.Pool.Channels.{Flume}
use porkg.Pool
use porkg.Pool.{PoolBuilder, PoolState, return_value}
use porkg.Pool.Items
use porkg.Pool.Items.{Pooled}

module _ {T : Type 0} (flume : Flume T) where
  -- The `OnceCell`.
  pub record Cell : Type 0 where
    pub state : Option (PoolState flume)

  abbrev pub build : Cell
  build = record { state = none }

module _ {G T : Type 0} (flume : Flume T) (config : PoolBuilder G T) where
  -- `get_or_init`.
  abbrev pub state_or : ℕ → Option (PoolState flume) → PoolState flume
  state_or default none = Pool.new flume config default
  state_or default (some s) = s

  -- `Pool::state`, with the default number of buckets.
  unfoldable pub state : ℕ → Cell flume → PoolState flume
  state default cell = state_or default cell.state

  unfoldable pub pool_capacity : ℕ
  pool_capacity = config.capacity

  abbrev pub pooled : T × G × PoolState flume → Pooled T × G × Cell flume
  pooled (v, g, s) = (Items.new v, g, record { state = some s })

  -- `Pool::take`.
  unfoldable pub take : (G → T × G) → ℕ → ℕ → G → Cell flume → Pooled T × G × Cell flume
  unfolding state
  take create default tid g cell = pooled (Pool.take flume config create tid g (state default cell))

  abbrev pub stored_back : G × PoolState flume → G × Cell flume
  stored_back (g, s) = (g, record { state = some s })

  -- What the drop of an item calls; an item stands for a state that is there.
  abbrev pub given_back : ℕ → T → G → Option (PoolState flume) → G × Cell flume
  given_back tid v g none = (g, build flume)
  given_back tid v g (some s) = stored_back (return_value flume config tid g s v)

  unfoldable pub give_back : ℕ → T → G × Cell flume → G × Cell flume
  give_back tid v (g, cell) = given_back tid v g cell.state
