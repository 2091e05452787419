-- ===== src/Pool/Threads.antt =====
-- crates/porkg-private/src/mem.rs: calls of the pool that overlap. Each thread makes the atomic
-- operations of `take` and `return_value` one at a time: the counter's `fetch_add`, an attempt at one
-- channel, a hook, the factory. A schedule says who moves; between two calls the value is its
-- holder's, who may change it, forget it, or bring one of its own.
pub mod Turns
pub mod Steps
pub mod Counting
pub mod Ledger
pub mod Settling
mod Tests
use porkg.Base.{ℕ, zero, suc, ◌+◌, ◌%◌, List, [], ◌∷◌, ◌++◌, Option, none, some, get_elem?, set}
use porkg.Pool.Channels.{Flume, TrySend, sent, full, disconnected}
use porkg.Pool.{PoolBuilder, PoolState, next_id, slot, receive_at, on_take, on_return}

-- Where a thread is. The numbers of `taking` and `sending` are those of the loop: the counter's
-- value, the index, and the rounds left.
pub data Thread (T : Type 0) : Type 0 where
  idle : Thread T
  taking : ℕ → ℕ → ℕ → Thread T
  has_found : T → Thread T
  holding : T → Thread T
  accepted : T → Thread T
  sending : ℕ → ℕ → ℕ → T → Thread T

-- What becomes of the values in a move.
pub data Change (T : Type 0) : Type 0 where
  moved : Change T
  created : T → Change T
  dropped : T → Change T
  changed : T → T → Change T

module _ {G T : Type 0} (flume : Flume T) (config : PoolBuilder G T) (create : G → T × G) where
  open flume use {Channel, try_send}

  -- What the threads share: the pool, and the state of the hooks and of the factory.
  abbrev pub Shared : Type 0
  Shared = PoolState flume × G

  abbrev pub Moved : Type 0
  Moved = Shared × Thread T × Change T

  abbrev pub started : (ℕ → Thread T) → G → ℕ × PoolState flume → Moved
  started thread g (id, s) = ((s, g), thread id, moved)

  abbrev pub made : PoolState flume → T × G → Moved
  made s (v, g) = ((s, g), holding v, created v)

  abbrev pub hooked : PoolState flume → T → T × G → Moved
  hooked s v (w, g) = ((s, g), holding w, changed v w)

  abbrev pub filtered : PoolState flume → T → Option T × G → Moved
  filtered s v (none, g) = ((s, g), idle, dropped v)
  filtered s v (some w, g) = ((s, g), accepted w, changed v w)

  -- A round of the loop of `take`, with what is next if the channel is empty.
  abbrev pub looked : Shared → Thread T → Option (T × List Channel) → Moved
  looked shared next none = (shared, next, moved)
  looked (s, g) next (some (v, entries)) = ((record s { entries = entries }, g), has_found v, moved)

  -- A round of the loop of `return_value`, with what is next if the channel is full.
  abbrev pub attempted : Shared → ℕ → T → (T → Thread T) → TrySend T × Channel → Moved
  attempted (s, g) j v next (sent, c) = ((record s { entries = set s.entries j c }, g), idle, moved)
  attempted (s, g) j v next (disconnected w, c) =
      ((record s { entries = set s.entries j c }, g), idle, dropped v)
  attempted shared j v next (full w, c) = (shared, next w, moved)

  abbrev pub attempt : Shared → ℕ → T → (T → Thread T) → Option Channel → Moved
  attempt shared j v next none = (shared, next v, moved)
  attempt shared j v next (some c) = attempted shared j v next (try_send c v)

  -- A thread's next operation. An idle thread calls `take`, and one that holds a value returns it.
  unfoldable pub advance : ℕ → Shared → Thread T → Moved
  unfolding next_id slot
  advance tid (s, g) idle =
      started (λ id. taking id 0 (config.max_loop + 1)) g (next_id flume tid s)
  advance tid (s, g) (taking id i zero) = made s (create g)
  advance tid (s, g) (taking id i (suc rounds)) =
      let j = slot flume i id s.entries in
      looked (s, g) (taking id (i + 1) rounds)
        (receive_at flume s.entries j (get_elem? s.entries j) none)
  advance tid (s, g) (has_found v) = hooked s v (on_take config.take_hook v g)
  advance tid (s, g) (holding v) = filtered s v (on_return config.return_hook v g)
  advance tid (s, g) (accepted v) =
      started (λ id. sending id 0 (config.max_loop + 1) v) g (next_id flume tid s)
  advance tid shared (sending id i zero v) = (shared, idle, dropped v)
  advance tid (s, g) (sending id i (suc rounds) v) =
      let j = slot flume i id s.entries in
      attempt (s, g) j v (sending id (i + 1) rounds) (get_elem? s.entries j)
