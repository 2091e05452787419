-- ===== src/Pool/Threads/Tests.antt =====
-- Two threads, one channel with room for one value.
use porkg.Base.{ℕ, ◌+◌, ◌≡◌, ◌≤◌, refl, List, [], ◌∷◌, none, some, length, get_elem?, take, arith}
use porkg.Pool.{PoolBuilder, PoolState, new}
use porkg.Pool.Sample.{sample, sample-IsQueue, Bounded}
use porkg.Pool.Contents.{contents}
use porkg.Pool.Threads.{Thread, idle, taking, holding}
use porkg.Pool.Threads.Turns.{Turn, runs, System, play}
use porkg.Pool.Threads.Counting.{all_added, all_removed}
use porkg.Pool.Threads.Settling.{Settled, play-Settled, play-capacity}
use porkg.Pool.Threads.Steps.{left, call_ends}

abbrev config : PoolBuilder ℕ ℕ
config = record { return_hook = none; take_hook = none; max_loop = 1; buckets = 1; capacity = 1 }

abbrev create : ℕ → ℕ × ℕ
create g = (g, g + 1)

abbrev channel : List ℕ → Bounded ℕ
channel items = record { items = items; bound = 1 }

abbrev pool : PoolState (sample {T = ℕ})
pool = record { skip = 0; entries = channel (7 ∷ []) ∷ [] }

abbrev start : System sample config create
start = ((pool, 50), idle ∷ idle ∷ [])

-- Both threads start to take before either looks; the second looks first and gets the value.
abbrev schedule : List (Turn ℕ)
schedule = runs 3 0 ∷ runs 4 1 ∷ runs 4 1 ∷ runs 3 0 ∷ runs 4 1 ∷ runs 3 0 ∷ runs 3 0 ∷ []

race : (play sample config create schedule start).0.1 ≡ holding 50 ∷ holding 7 ∷ []
unfolding play
race = refl

play-Settled_example :
    Settled sample sample-IsQueue config create start
      (all_added (play sample config create schedule start).1)
      (play sample config create schedule start).0
      (all_removed (play sample config create schedule start).1)
play-Settled_example = play-Settled sample sample-IsQueue config create schedule start

play-capacity_example :
    length (
      contents sample sample-IsQueue
        (play sample config create schedule
          ((new sample config 1, 50), idle ∷ idle ∷ [])).0.0.0.entries)
    ≤ 1
play-capacity_example =
    play-capacity sample sample-IsQueue config create 1 50 (idle ∷ idle ∷ []) schedule

abbrev busy : System sample config create
busy = ((pool, 50), taking 0 0 2 ∷ idle ∷ [])

call_ends_example :
    (n : ℕ) × ((t' : Thread ℕ) × (get_elem? (play sample config create (take n schedule) busy).0.1 0
        ≡ some t')
      × (left sample config create t' ≡ 0))
call_ends_example = call_ends sample config create schedule busy 0 (taking 0 0 2) refl (omega arith)
