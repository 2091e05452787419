-- ===== src/Pool/Buffers.antt =====
-- The buffer pool `BUFFER_POOL` of mem.rs. The crate `bytes` is a parameter; `CURRENT_SIZE` is the
-- state of the hooks.
pub mod Accounting
use porkg.Base.{
  ℕ, ◌+◌, ◌-◌, ◌*◌, ◌%◌, ◌<◌, ◌≡◌, Bool, true, false, ◌||◌, Option, none, some, ltb, if◌then◌else◌,
  List, [], ◌∷◌,
}
use porkg.Pool.Channels.{Flume}
use porkg.Pool.{
  PoolBuilder, PoolState, usize_mod, builder, with_max_search, with_take_hook, with_return_hook,
  take, return_value,
}

-- `BytesMut`, as far as the pool uses it.
pub record BytesMut : Type 1 where
  pub Buffer : Type 0
  pub with_capacity : ℕ → Buffer
  pub capacity : Buffer → ℕ
  pub clear : Buffer → Buffer

abbrev pub mb : ℕ
mb = 131072

abbrev pub max_total_buffers : ℕ
max_total_buffers = 128 * mb

abbrev pub max_single_buffer : ℕ
max_single_buffer = 16 * mb

abbrev pub default_buffer_len : ℕ
default_buffer_len = 16384

-- A thread gets a buffer, or drops one.
pub data BufferUse (B : Type 0) : Type 0 where
  gets : ℕ → BufferUse B
  drops : ℕ → B → BufferUse B

module _ (bytes : BytesMut) where
  open bytes use {Buffer, with_capacity, capacity, clear}

  -- `fetch_sub` wraps.
  unfoldable pub take_hook : Buffer → ℕ → Buffer × ℕ
  take_hook v current = (v, (current + usize_mod - capacity v % usize_mod) % usize_mod)

  unfoldable pub is_refused : Buffer → ℕ → Bool
  is_refused v current =
      ltb max_single_buffer (capacity v)
      || ltb max_total_buffers ((current + capacity v) % usize_mod)

  unfoldable pub return_hook : Buffer → ℕ → Option Buffer × ℕ
  unfolding is_refused
  return_hook v current =
      if is_refused v current
      then (none, current)
      else (some (clear v), (current + capacity v) % usize_mod)

  unfoldable pub buffer_pool : PoolBuilder ℕ Buffer
  unfolding builder with_max_search with_take_hook with_return_hook take_hook return_hook
  buffer_pool =
      with_return_hook (with_take_hook (with_max_search (builder 16) 8) take_hook) return_hook

  unfoldable pub create_buffer : ℕ → Buffer × ℕ
  create_buffer current = (with_capacity default_buffer_len, current)

  -- `get_buffer`, by the thread `tid`, and what the drop of its result does.
  module _ (flume : Flume Buffer) where
    unfoldable pub get_buffer : ℕ → ℕ → PoolState flume → Buffer × ℕ × PoolState flume
    get_buffer tid current s = take flume buffer_pool create_buffer tid current s

    unfoldable pub drop_buffer : ℕ → ℕ → PoolState flume → Buffer → ℕ × PoolState flume
    drop_buffer tid current s v = return_value flume buffer_pool tid current s v

    unfoldable pub use_buffers : List (BufferUse Buffer) → ℕ × PoolState flume → ℕ × PoolState flume
    use_buffers [] r = r
    use_buffers (gets tid ∷ us) (current, s) =
        let r = get_buffer tid current s in use_buffers us (r.1, r.2)
    use_buffers (drops tid v ∷ us) (current, s) = use_buffers us (drop_buffer tid current s v)
