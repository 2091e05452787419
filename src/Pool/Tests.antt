-- ===== src/Pool/Tests.antt =====
-- The theorems on the pool at concrete calls.
use porkg.Base.{ℕ, ok, ◌*◌, ◌+◌, ◌≡◌, refl, List, [], ◌∷◌, none, some, map, arith}
use porkg.Pool.{PoolBuilder, PoolState, new}
use porkg.Pool.Sample.{sample, sample-IsQueue, Bounded}
use porkg.Pool.Calls.{takes, returns, Call, run}
use mathlib.Mathlib.Data.Multiset.Defs.{of_list}
use porkg.Pool.Bag.{BagRun, view, run-BagRun}
use porkg.Pool.New.{new-limits}
use porkg.Pool.Items
use porkg.Pool.Items.Lifetimes.{Use, mutates, applies, clones, drops, live, outcome, live_settles}
use porkg.Pool.Buffers.{BytesMut, drop_buffer, is_refused, gets, drops, use_buffers}
use porkg.Pool.Buffers.Accounting.{
  total_size, IsAccounted, use_buffers-IsAccounted, drop_buffer_leak,
}

abbrev config : PoolBuilder ℕ ℕ
config = record { return_hook = none; take_hook = none; max_loop = 2; buckets = 3; capacity = 2 }

abbrev channel : List ℕ → ℕ → Bounded ℕ
channel items bound = record { items = items; bound = bound }

abbrev pool : PoolState (sample {T = ℕ})
pool = record { skip = 1; entries = channel (7 ∷ []) 1 ∷ channel [] 1 ∷ [] }

abbrev create : ℕ → ℕ × ℕ
create g = (g, g + 1)

abbrev calls : List (Call sample sample-IsQueue config)
calls = returns 1 8 ∷ returns 2 9 ∷ takes 3 ∷ returns 3 10 ∷ []

-- There is room for the first two values and again for the last.
run-BagRun_example :
    BagRun sample sample-IsQueue config create
      (5, of_list [])
      calls
      (view sample sample-IsQueue config create
        (run sample sample-IsQueue config create calls (5, new sample config 4)))
run-BagRun_example = run-BagRun sample sample-IsQueue config create 4 calls 5

new-limits_example :
    map (sample-IsQueue {T = ℕ}).limit (new sample config 4).entries ≡ 0 ∷ 0 ∷ 2 ∷ []
new-limits_example = new-limits sample sample-IsQueue config 4 (omega arith)

-- A buffer is its capacity here.
abbrev bytes : BytesMut
bytes = record { Buffer = ℕ; with_capacity = λ n. n; capacity = λ v. v; clear = λ v. v }

abbrev buffers : PoolState (sample {T = ℕ})
buffers = record { skip = 0; entries = channel (100 ∷ []) 1 ∷ [] }

buffers-IsAccounted : IsAccounted bytes sample sample-IsQueue (λ v. refl) 150 buffers
buffers-IsAccounted = record { covers = unfold total_size in omega arith; within = omega arith }

-- The returned buffer finds no room.
use_buffers-IsAccounted_example :
    let r = use_buffers bytes sample (drops 4 60 ∷ gets 3 ∷ drops 3 70 ∷ []) (150, buffers) in
    IsAccounted bytes sample sample-IsQueue (λ v. refl) r.0 r.1
use_buffers-IsAccounted_example =
    use_buffers-IsAccounted bytes sample sample-IsQueue (λ v. refl)
      (drops 4 60 ∷ gets 3 ∷ drops 3 70 ∷ []) 150 buffers buffers-IsAccounted

drop_buffer_leak_example :
    let r = drop_buffer bytes sample 3 150 buffers 60 in
    (r.1.entries ≡ buffers.entries) × (r.0 ≡ 210)
drop_buffer_leak_example =
    drop_buffer_leak bytes sample sample-IsQueue 3 150 buffers 60 (omega arith, tt)
      (unfold is_refused in refl)

-- A pool that lists what it is given back.
abbrev keep : ℕ → List ℕ → List ℕ
keep v p = v ∷ p

abbrev uses : List (Use ℕ ℕ)
uses = mutates (λ v. v + 1) ∷ clones ∷ applies (λ v. ok (v * 2)) ∷ []

live_settles_example : live keep uses drops (Items.new 3) (5 ∷ []) ≡ some (ok none, 8 ∷ 5 ∷ [])
unfolding outcome
live_settles_example = live_settles keep uses drops 3 (5 ∷ [])
