-- ===== src/Pool/Overlap/Moves.antt =====
-- What a move of one thread does to `CURRENT_SIZE` and to what it should cover.
use porkg.Base.{
  ℕ, zero, suc, ◌+◌, ◌-◌, ◌%◌, ◌≡◌, ◌≤◌, ◌<◌, ◌⊎◌, inl, inr, refl, Bool-cases, List, Option, none,
  some, arith,
}
use porkg.Pool.Channels.{Flume, IsQueue, TrySend, sent, full, disconnected}
use porkg.Pool.{PoolState, usize_mod}
use porkg.Pool.Contents.{contents}
use porkg.Pool.Buffers.Accounting.{KeepsCapacity}
use porkg.Pool.Buffers.{
  BytesMut, max_total_buffers, max_single_buffer, take_hook, is_refused, buffer_pool, create_buffer,
}
use porkg.Pool.Threads.{
  idle, taking, has_found, holding, accepted, sending, looked, attempted, attempt, advance,
}
use porkg.Pool.Threads.Counting.{weigh}
use porkg.Pool.Threads.Turns.{Turn, runs, edits, forgets, brings}
use porkg.Pool.Threads.Ledger.{Fair, advance-Fair}
use porkg.Pool.Overlap.{
  Slot, plain, checked, Sizes, of_move, load_size, add_size, slot_advance, slot_step,
}

module _ (bytes : BytesMut) where
  open bytes use {Buffer, capacity, clear}

  -- What a thread has counted in `CURRENT_SIZE`, and what it is about to count.
  abbrev pub counted : Slot Buffer → ℕ
  counted (checked v) = 0
  counted (plain idle) = 0
  counted (plain (taking id i n)) = 0
  counted (plain (has_found v)) = capacity v
  counted (plain (holding v)) = 0
  counted (plain (accepted v)) = capacity v
  counted (plain (sending id i n v)) = capacity v

  abbrev pub due : Slot Buffer → ℕ
  due (checked v) = capacity v
  due (plain t) = 0

  module _ (flume : Flume Buffer) (queue : IsQueue flume) (keeps : KeepsCapacity bytes) where
    abbrev pub stored : PoolState flume → ℕ
    stored s = weigh capacity (contents flume queue s.entries)

    -- The move uncovers nothing, and what the thread is about to count is within the limits.
    abbrev pub Moves : PoolState flume → ℕ → Slot Buffer → Sizes bytes flume × Slot Buffer → Type 0
    Moves s current t ((s', current'), t') =
        (stored s' + counted t' + current ≤ stored s + counted t + current')
        × ((current' + due t' ≤ current + due t)
            ⊎ ((due t ≡ 0) × (current' + due t' ≤ max_total_buffers)))
        × (due t' ≤ max_single_buffer)

    module _ (s : PoolState flume) (current : ℕ) where
      looked-Moves :
          (id id' i i' n n' : ℕ) (o : Option (Buffer × List (flume.Channel)))
          → Fair flume queue (buffer_pool bytes) (create_buffer bytes) s.entries (taking id i n) (
              looked flume
                (buffer_pool bytes)
                (create_buffer bytes)
                (s, current)
                (taking id' i' n')
                o)
          → Moves s current (plain (taking id i n)) (
              of_move bytes flume (
                looked flume
                  (buffer_pool bytes)
                  (create_buffer bytes)
                  (s, current)
                  (taking id' i' n')
                  o))
      looked-Moves id id' i i' n n' none fair = (omega arith, inl (omega arith), omega arith)
      looked-Moves id id' i i' n n' (some (v, entries)) (books, _) =
          (omega (arith, books capacity), inl (omega arith), omega arith)

      attempted-Moves :
          (j id id' i i' n n' : ℕ) (v : Buffer) (r : TrySend Buffer × flume.Channel)
          → Fair flume queue
              (buffer_pool bytes)
              (create_buffer bytes)
              s.entries
              (sending id i n v)
              (attempted flume
                (buffer_pool bytes)
                (create_buffer bytes)
                (s, current)
                j
                v
                (sending id' i' n')
                r)
          → Moves s current (plain (sending id i n v)) (
              of_move bytes flume (
                attempted flume
                  (buffer_pool bytes)
                  (create_buffer bytes)
                  (s, current)
                  j
                  v
                  (sending id' i' n')
                  r))
      attempted-Moves j id id' i i' n n' v (sent, c) (books, _) =
          (omega (arith, books capacity), inl (omega arith), omega arith)
      attempted-Moves j id id' i i' n n' v (disconnected w, c) (books, _) =
          (omega (arith, books capacity), inl (omega arith), omega arith)
      attempted-Moves j id id' i i' n n' v (full w, c) (books, _) =
          (omega (arith, books capacity), inl (omega arith), omega arith)

      attempt-Moves :
          (j id id' i i' n n' : ℕ) (v : Buffer) (o : Option (flume.Channel))
          → Fair flume queue
              (buffer_pool bytes)
              (create_buffer bytes)
              s.entries
              (sending id i n v)
              (attempt flume
                (buffer_pool bytes)
                (create_buffer bytes)
                (s, current)
                j
                v
                (sending id' i' n')
                o)
          → Moves s current (plain (sending id i n v)) (
              of_move bytes flume (
                attempt flume
                  (buffer_pool bytes)
                  (create_buffer bytes)
                  (s, current)
                  j
                  v
                  (sending id' i' n')
                  o))
      attempt-Moves j id id' i i' n n' v none fair = (omega arith, inl (omega arith), omega arith)
      attempt-Moves j id id' i i' n n' v (some c) fair =
          attempted-Moves j id id' i i' n n' v (flume.try_send c v) fair

      load-Moves :
          (v : Buffer)
          → current + max_single_buffer < usize_mod
          → Moves s current (plain (holding v)) (load_size bytes flume (s, current) v)
      unfolding is_refused
      load-Moves v room = elim (Bool-cases (is_refused bytes v current)) [
        | inl refused ↦ rw refused (omega arith, inl (omega arith), omega arith)
        | inr fits ↦
            let single : capacity v ≤ max_single_buffer = ground arith in
            let total : (current + capacity v) % usize_mod ≤ max_total_buffers = ground arith in
            let whole : (current + capacity v) % usize_mod ≡ current + capacity v = omega arith in
            rw fits (omega arith, inr (refl, omega arith), single)
      ]

      add-Moves :
          (v : Buffer)
          → current + capacity v < usize_mod
          → due (checked v) ≤ max_single_buffer
          → Moves s current (checked v) (add_size bytes flume (s, current) v)
      add-Moves v small single = let kept = keeps v in (omega arith, inl (omega arith), omega arith)

      taken-Moves :
          (v : Buffer)
          → capacity v ≤ current
          → current < usize_mod
          → Moves s current
              (plain (has_found v))
              ((s, (current + usize_mod - capacity v % usize_mod) % usize_mod), plain (holding v))
      taken-Moves v covered small = (omega arith, inl (omega arith), omega arith)

      -- The counter covers what the thread has counted, and has room for a buffer.
      abbrev pub Ready : Slot Buffer → Type 0
      Ready t =
          (counted t ≤ current)
          × (current + max_single_buffer < usize_mod)
          × (due t ≤ max_single_buffer)

      pub slot_advance-Moves :
          (tid : ℕ) (t : Slot Buffer)
          → Ready t
          → Moves s current t (slot_advance bytes flume tid (s, current) t)
      unfolding slot_advance advance buffer_pool create_buffer take_hook
      slot_advance-Moves tid (checked v) (covered, room, single) = add-Moves v (omega arith) single
      slot_advance-Moves tid (plain idle) ready = (omega arith, inl (omega arith), omega arith)
      slot_advance-Moves tid (plain (taking id i zero)) ready =
          (omega arith, inl (omega arith), omega arith)
      slot_advance-Moves tid (plain (taking id i (suc n))) ready =
          looked-Moves id id i (i + 1) (suc n) n _ (
            advance-Fair flume queue (buffer_pool bytes) (create_buffer bytes) tid s current
              (taking id i (suc n)))
      slot_advance-Moves tid (plain (has_found v)) (covered, room, single) =
          taken-Moves v covered (omega arith)
      slot_advance-Moves tid (plain (holding v)) (_, room, _) = load-Moves v room
      slot_advance-Moves tid (plain (accepted v)) ready =
          (omega arith, inl (omega arith), omega arith)
      slot_advance-Moves tid (plain (sending id i zero v)) ready =
          (omega arith, inl (omega arith), omega arith)
      slot_advance-Moves tid (plain (sending id i (suc n) v)) ready =
          attempt-Moves _ id id i (i + 1) (suc n) n v _ (
            advance-Fair flume queue (buffer_pool bytes) (create_buffer bytes) tid s current
              (sending id i (suc n) v))

      still-Moves :
          (t : Slot Buffer) → due t ≤ max_single_buffer → Moves s current t ((s, current), t)
      still-Moves t single = (omega arith, inl (omega arith), single)

      pub slot_step-Moves :
          (u : Turn Buffer) (t : Slot Buffer)
          → Ready t
          → Moves s current t (slot_step bytes flume u (s, current) t)
      unfolding slot_advance advance
      slot_step-Moves (runs tid j) t ready = slot_advance-Moves tid t ready
      slot_step-Moves (edits j w) (checked v) ready = still-Moves (checked v) ready.2
      slot_step-Moves (forgets j) (checked v) ready = still-Moves (checked v) ready.2
      slot_step-Moves (brings j w) (checked v) ready = still-Moves (checked v) ready.2
      slot_step-Moves (edits j w) (plain (holding v)) ready =
          (omega arith, inl (omega arith), omega arith)
      slot_step-Moves (edits j w) (plain idle) ready = still-Moves (plain idle) ready.2
      slot_step-Moves (edits j w) (plain (taking id i n)) ready =
          still-Moves (plain (taking id i n)) ready.2
      slot_step-Moves (edits j w) (plain (has_found v)) ready =
          still-Moves (plain (has_found v)) ready.2
      slot_step-Moves (edits j w) (plain (accepted v)) ready =
          still-Moves (plain (accepted v)) ready.2
      slot_step-Moves (edits j w) (plain (sending id i n v)) ready =
          still-Moves (plain (sending id i n v)) ready.2
      slot_step-Moves (forgets j) (plain (holding v)) ready =
          (omega arith, inl (omega arith), omega arith)
      slot_step-Moves (forgets j) (plain idle) ready = still-Moves (plain idle) ready.2
      slot_step-Moves (forgets j) (plain (taking id i n)) ready =
          still-Moves (plain (taking id i n)) ready.2
      slot_step-Moves (forgets j) (plain (has_found v)) ready =
          still-Moves (plain (has_found v)) ready.2
      slot_step-Moves (forgets j) (plain (accepted v)) ready =
          still-Moves (plain (accepted v)) ready.2
      slot_step-Moves (forgets j) (plain (sending id i n v)) ready =
          still-Moves (plain (sending id i n v)) ready.2
      slot_step-Moves (brings j w) (plain idle) ready =
          (omega arith, inl (omega arith), omega arith)
      slot_step-Moves (brings j w) (plain (holding v)) ready =
          still-Moves (plain (holding v)) ready.2
      slot_step-Moves (brings j w) (plain (taking id i n)) ready =
          still-Moves (plain (taking id i n)) ready.2
      slot_step-Moves (brings j w) (plain (has_found v)) ready =
          still-Moves (plain (has_found v)) ready.2
      slot_step-Moves (brings j w) (plain (accepted v)) ready =
          still-Moves (plain (accepted v)) ready.2
      slot_step-Moves (brings j w) (plain (sending id i n v)) ready =
          still-Moves (plain (sending id i n v)) ready.2
