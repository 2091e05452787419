-- ===== src/Pool/Threads/Turns.antt =====
-- Schedules of threads that use a pool of crates/porkg-private/src/mem.rs: any thread may move next.
use porkg.Base.{ℕ, List, [], ◌∷◌, Option, none, some, get_elem?, set}
use porkg.Pool.Channels.{Flume}
use porkg.Pool.{PoolBuilder}
use porkg.Pool.Threads.{
  Thread, idle, holding, Change, moved, created, dropped, changed, Shared, Moved, advance,
}

-- A thread by its index makes an operation, with the id that it has; or its holder of a value
-- changes it or forgets it; or an idle thread comes by a value of its own.
pub data Turn (T : Type 0) : Type 0 where
  runs : ℕ → ℕ → Turn T
  edits : ℕ → T → Turn T
  forgets : ℕ → Turn T
  brings : ℕ → T → Turn T

module _ {G T : Type 0} (flume : Flume T) (config : PoolBuilder G T) (create : G → T × G) where
  abbrev pub System : Type 0
  System = Shared flume config create × List (Thread T)

  -- What a turn does to one thread.
  abbrev pub step : Turn T → Shared flume config create → Thread T → Moved flume config create
  unfolding advance
  step (runs tid j) shared t = advance flume config create tid shared t
  step (edits j w) shared (holding v) = (shared, holding w, changed v w)
  step (edits j w) shared t = (shared, t, moved)
  step (forgets j) shared (holding v) = (shared, idle, dropped v)
  step (forgets j) shared t = (shared, t, moved)
  step (brings j v) shared idle = (shared, holding v, created v)
  step (brings j v) shared t = (shared, t, moved)

  abbrev pub thread_of : Turn T → ℕ
  thread_of (runs tid j) = j
  thread_of (edits j w) = j
  thread_of (forgets j) = j
  thread_of (brings j v) = j

  abbrev pub placed : List (Thread T) → ℕ → Moved flume config create → System × Change T
  placed threads j (shared, t, c) = ((shared, set threads j t), c)

  abbrev pub turned : Turn T → System → Option (Thread T) → System × Change T
  turned u s none = (s, moved)
  turned u (shared, threads) (some t) = placed threads (thread_of u) (step u shared t)

  unfoldable pub turn : Turn T → System → System × Change T
  unfolding advance
  turn u (shared, threads) = turned u (shared, threads) (get_elem? threads (thread_of u))

  -- A whole schedule, with what became of the values.
  unfoldable pub play : List (Turn T) → System → System × List (Change T)
  unfolding turn
  play [] s = (s, [])
  play (u ∷ us) s = let (s', c) = turn u s in let (s'', cs) = play us s' in (s'', c ∷ cs)
