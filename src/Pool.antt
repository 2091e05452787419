-- ===== src/Pool.antt =====
-- crates/porkg-private/src/mem.rs: the object pool, over the crate `flume`, whose bounded channels
-- are a parameter. A call runs as a whole here; the state of the hooks and of the factory is passed
-- on as a value `g`.
pub mod Channels
pub mod Contents
pub mod Calls
pub mod Bag
pub mod New
pub mod Sample
mod Tests
pub mod Buffers
pub mod Items
pub mod OwnedItems
pub mod Threads
pub mod Cell
pub mod Overlap
use porkg.Base.{
  ℕ, zero, suc, ◌+◌, ◌-◌, ◌*◌, ◌/◌, ◌%◌, ◌^◌, max, List, [], ◌∷◌, ◌++◌, Option, none, some, length,
  get_elem?, set, replicate, ◌==◌, if◌then◌else◌,
}
use Channels.{Flume, TrySend, sent, full, disconnected}

-- `PoolBuilder`, with the hooks that it may have.
pub record PoolBuilder (G T : Type 0) : Type 0 where
  pub return_hook : Option (T → G → Option T × G)
  pub take_hook : Option (T → G → T × G)
  pub max_loop : ℕ
  pub buckets : ℕ
  pub capacity : ℕ

module _ {G T : Type 0} where
  -- `PoolBuilder::new`; its assertion is the caller's `0 < capacity`.
  unfoldable pub builder : ℕ → PoolBuilder G T
  builder capacity = record {
    return_hook = none;
    take_hook = none;
    max_loop = capacity;
    buckets = 0;
    capacity = capacity;
  }

  unfoldable pub with_buckets : PoolBuilder G T → ℕ → PoolBuilder G T
  with_buckets b n = record b { buckets = n }

  unfoldable pub with_return_hook : PoolBuilder G T → (T → G → Option T × G) → PoolBuilder G T
  with_return_hook b hook = record b { return_hook = some hook }

  unfoldable pub with_take_hook : PoolBuilder G T → (T → G → T × G) → PoolBuilder G T
  with_take_hook b hook = record b { take_hook = some hook }

  unfoldable pub with_max_search : PoolBuilder G T → ℕ → PoolBuilder G T
  with_max_search b n = record b { max_loop = n }

  abbrev pub on_take : Option (T → G → T × G) → T → G → T × G
  on_take none v g = (v, g)
  on_take (some hook) v g = hook v g

  abbrev pub on_return : Option (T → G → Option T × G) → T → G → Option T × G
  on_return none v g = (some v, g)
  on_return (some hook) v g = hook v g

-- `DEFAULT_BUCKETS`: the parsed `PORKG_MEM_BUCKETS`, else the count of cores, else 16.
unfoldable pub default_buckets : Option ℕ → Option ℕ → ℕ
default_buckets none none = 16
default_buckets none (some cores) = cores
default_buckets (some zero) none = 16
default_buckets (some zero) (some cores) = cores
default_buckets (some (suc n)) _ = suc n

abbrev pub usize_mod : ℕ
usize_mod = 2 ^ 64

module _ {T : Type 0} (flume : Flume T) where
  open flume use {Channel, bounded, try_send, try_recv}

  -- `PoolState`; an entry's sender and receiver are one channel.
  pub record PoolState : Type 0 where
    pub skip : ℕ
    pub entries : List Channel

  -- The thread's id is the amount; `fetch_add` gives the old value and wraps.
  unfoldable pub next_id : ℕ → PoolState → ℕ × PoolState
  next_id tid s = (s.skip, record s { skip = (s.skip + tid) % usize_mod })

  -- `i.wrapping_add(id).wrapping_rem(self.entries.len())`.
  unfoldable pub slot : ℕ → ℕ → List Channel → ℕ
  slot i id entries = (i + id) % usize_mod % length entries

  -- An empty channel sends the loop on to `rest`.
  abbrev pub received :
      List Channel
      → ℕ
      → Option (T × Channel)
      → Option (T × List Channel)
      → Option (T × List Channel)
  received entries j none rest = rest
  received entries j (some (v, c)) rest = some (v, set entries j c)

  abbrev pub receive_at :
      List Channel → ℕ → Option Channel → Option (T × List Channel) → Option (T × List Channel)
  receive_at entries j none rest = none
  receive_at entries j (some c) rest = received entries j (try_recv c) rest

  -- The loop of `take`, with the rounds left and the counter; no entry at `j` would be a panic.
  unfoldable pub take_loop : ℕ → ℕ → ℕ → List Channel → Option (T × List Channel)
  unfolding slot
  take_loop zero i id entries = none
  take_loop (suc rounds) i id entries =
      let j = slot i id entries in
      receive_at entries j (get_elem? entries j) (take_loop rounds (i + 1) id entries)

  -- A full channel hands the value back to the loop; a disconnected one ends it.
  abbrev pub send_result :
      List Channel → ℕ → TrySend T × Channel → (T → List Channel) → List Channel
  send_result entries j (sent, c) rest = set entries j c
  send_result entries j (disconnected v, c) rest = set entries j c
  send_result entries j (full v, c) rest = rest v

  abbrev pub send_at : List Channel → ℕ → T → Option Channel → (T → List Channel) → List Channel
  send_at entries j v none rest = entries
  send_at entries j v (some c) rest = send_result entries j (try_send c v) rest

  -- The loop of `return_value`. A value that no channel takes is dropped.
  unfoldable pub send_loop : ℕ → ℕ → ℕ → List Channel → T → List Channel
  unfolding slot
  send_loop zero i id entries v = entries
  send_loop (suc rounds) i id entries v =
      let j = slot i id entries in
      send_at entries j v (get_elem? entries j) (send_loop rounds (i + 1) id entries)

module _ {G T : Type 0} (flume : Flume T) (config : PoolBuilder G T) where
  open flume use {Channel, bounded}

  -- The count of buckets that `PoolState::new` settles on.
  unfoldable pub bucket_count : ℕ → ℕ
  bucket_count default =
      let buckets = if config.buckets == 0 then default else config.buckets in
      max buckets config.capacity

  unfoldable pub new : ℕ → PoolState flume
  unfolding bucket_count
  new default =
      let buckets = bucket_count default in
      let per_bucket = config.capacity / buckets in
      let entries = replicate (buckets - 1) (bounded per_bucket) in
      let last = bounded (config.capacity - per_bucket * length entries) in
      record { skip = 0; entries = entries ++ last ∷ [] }

  -- A stored value goes through the hook; without one a value is created.
  abbrev pub taken :
      (G → T × G) → G → PoolState flume → Option (T × List Channel) → T × G × PoolState flume
  taken create g s none = let (v, g') = create g in (v, g', s)
  taken create g s (some (v, entries)) =
      let (v', g') = on_take config.take_hook v g in (v', g', record s { entries = entries })

  unfoldable pub take : (G → T × G) → ℕ → G → PoolState flume → T × G × PoolState flume
  unfolding next_id take_loop
  take create tid g s =
      let (id, s') = next_id flume tid s in
      taken create g s' (take_loop flume (config.max_loop + 1) 0 id s'.entries)

  -- What is left to do once the hook has run.
  abbrev pub stored : ℕ → PoolState flume → Option T × G → G × PoolState flume
  stored tid s (none, g) = (g, s)
  stored tid s (some v, g) =
      let (id, s') = next_id flume tid s in
      (g, record s' { entries = send_loop flume (config.max_loop + 1) 0 id s'.entries v })

  unfoldable pub return_value : ℕ → G → PoolState flume → T → G × PoolState flume
  unfolding next_id send_loop
  return_value tid g s v = stored tid s (on_return config.return_hook v g)
