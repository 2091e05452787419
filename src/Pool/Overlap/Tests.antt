-- ===== src/Pool/Overlap/Tests.antt =====
-- Nine threads return buffers of the largest size, and all pass the test before any adds.
use porkg.Base.{ℕ, ◌+◌, ◌*◌, ◌≡◌, ◌≤◌, refl, List, [], ◌∷◌, ◌++◌, replicate, map, arith}
use porkg.Pool.{new}
use porkg.Pool.Sample.{sample, sample-IsQueue}
use porkg.Pool.Contents.{contents}
use porkg.Pool.Buffers.{BytesMut, buffer_pool, max_total_buffers, max_single_buffer}
use porkg.Pool.Threads.{idle}
use porkg.Pool.Threads.Counting.{weigh}
use porkg.Pool.Threads.Turns.{Turn, runs, brings}
use porkg.Pool.Overlap.{Slot, plain, Sizes, slot_play}
use porkg.Pool.Overlap.Moves.{counted}
use porkg.Pool.Overlap.SoftLimit.{slot_play-soft_limit}

abbrev bytes : BytesMut
bytes = record { Buffer = ℕ; with_capacity = λ n. n; capacity = λ v. v; clear = λ v. v }

abbrev largest : List ℕ → List (Turn ℕ)
largest = map (λ j. brings j 2097152)

abbrev runs_of : List ℕ → List (Turn ℕ)
runs_of = map (λ j. runs j j)

abbrev nine : List ℕ
nine = 0 ∷ 1 ∷ 2 ∷ 3 ∷ 4 ∷ 5 ∷ 6 ∷ 7 ∷ 8 ∷ []

-- All nine bring a buffer, all load, all add.
abbrev schedule : List (Turn ℕ)
schedule = largest nine ++ runs_of nine ++ runs_of nine

abbrev start : Sizes bytes sample × List (Slot ℕ)
start = ((new sample (buffer_pool bytes) 2, 0), replicate 9 (plain idle))

-- The counter is beyond `MAX_TOTAL_BUFFERS`.
beyond : (slot_play bytes sample schedule start).0.1 ≡ max_total_buffers + max_single_buffer
unfolding slot_play new buffer_pool
beyond = refl

-- One thread after the other: the ninth is refused.
in_turn :
    (slot_play bytes sample
      (largest nine
        ++ runs_of (0 ∷ 0 ∷ 1 ∷ 1 ∷ 2 ∷ 2 ∷ 3 ∷ 3 ∷ 4 ∷ 4 ∷ 5 ∷ 5 ∷ 6 ∷ 6 ∷ 7 ∷ 7 ∷ 8 ∷ 8 ∷ []))
      start).0.1
    ≡ max_total_buffers
unfolding slot_play new buffer_pool
in_turn = refl

slot_play-soft_limit_example :
    let r = slot_play bytes sample schedule start in
    (weigh (λ v. v) (contents sample sample-IsQueue r.0.0.entries) + weigh (counted bytes) r.1
      ≤ r.0.1)
    × (r.0.1 ≤ max_total_buffers + max_single_buffer * 8)
slot_play-soft_limit_example =
    slot_play-soft_limit bytes sample sample-IsQueue (λ v. refl) 9 (omega arith) 2 schedule
