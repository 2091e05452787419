-- ===== src/Pool/Overlap.antt =====
-- crates/porkg-private/src/mem.rs: `BUFFER_POOL` used by many threads. Its return hook loads
-- `CURRENT_SIZE` and adds to it later, and other threads may move in between; the take hook and the
-- pool's own operations are single moves, those of Threads.
pub mod Moves
pub mod SoftLimit
mod Tests
use porkg.Base.{ℕ, ◌+◌, ◌%◌, List, [], ◌∷◌, Option, none, some, get_elem?, set, if◌then◌else◌}
use porkg.Pool.Channels.{Flume}
use porkg.Pool.{PoolState, usize_mod}
use porkg.Pool.Buffers.{BytesMut, is_refused, buffer_pool, create_buffer}
use porkg.Pool.Threads.{Thread, idle, holding, accepted, Moved, advance}
use porkg.Pool.Threads.Turns.{Turn, runs, edits, forgets, brings, step, thread_of}

-- A thread, which may stand between the two halves of the hook.
pub data Slot (T : Type 0) : Type 0 where
  plain : Thread T → Slot T
  checked : T → Slot T

module _ (bytes : BytesMut) (flume : Flume (bytes.Buffer)) where
  open bytes use {Buffer, capacity, clear}

  -- The pool and `CURRENT_SIZE`.
  abbrev pub Sizes : Type 0
  Sizes = PoolState flume × ℕ

  abbrev pub of_move : Moved flume (buffer_pool bytes) (create_buffer bytes) → Sizes × Slot Buffer
  of_move (shared, t, c) = (shared, plain t)

  -- The load, with the two tests, and the addition.
  abbrev pub load_size : Sizes → Buffer → Sizes × Slot Buffer
  load_size (s, current) v =
      if is_refused bytes v current then ((s, current), plain idle) else ((s, current), checked v)

  abbrev pub add_size : Sizes → Buffer → Sizes × Slot Buffer
  add_size (s, current) v = ((s, (current + capacity v) % usize_mod), plain (accepted (clear v)))

  unfoldable pub slot_advance : ℕ → Sizes → Slot Buffer → Sizes × Slot Buffer
  unfolding advance is_refused
  slot_advance tid shared (checked v) = add_size shared v
  slot_advance tid shared (plain (holding v)) = load_size shared v
  slot_advance tid shared (plain t) =
      of_move (advance flume (buffer_pool bytes) (create_buffer bytes) tid shared t)

  -- A turn of a thread or of a holder.
  abbrev pub slot_step : Turn Buffer → Sizes → Slot Buffer → Sizes × Slot Buffer
  slot_step (runs tid j) shared t = slot_advance tid shared t
  slot_step u shared (checked v) = (shared, checked v)
  slot_step u shared (plain t) =
      of_move (step flume (buffer_pool bytes) (create_buffer bytes) u shared t)

  abbrev pub slot_of : Turn Buffer → ℕ
  slot_of = thread_of flume (buffer_pool bytes) (create_buffer bytes)

  abbrev pub slot_placed : List (Slot Buffer) → ℕ → Sizes × Slot Buffer → Sizes × List (Slot Buffer)
  slot_placed slots j (shared, t) = (shared, set slots j t)

  abbrev pub slot_turned :
      Turn Buffer → Sizes × List (Slot Buffer) → Option (Slot Buffer) → Sizes × List (Slot Buffer)
  slot_turned u s none = s
  slot_turned u (shared, slots) (some t) = slot_placed slots (slot_of u) (slot_step u shared t)

  unfoldable pub slot_play :
      List (Turn Buffer) → Sizes × List (Slot Buffer) → Sizes × List (Slot Buffer)
  unfolding slot_advance
  slot_play [] s = s
  slot_play (u ∷ us) s = slot_play us (slot_turned u s (get_elem? s.1 (slot_of u)))
