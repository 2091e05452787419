-- ===== src/Pool/New.antt =====
-- The channels of a new pool, and what it can ever hold.
use native.Mathlib.Nat.{div-mul-le_self, div-eq_of_lt, div-eq_of_lt-le}
use porkg.Base.{
  ℕ, zero, suc, ◌+◌, ◌-◌, ◌*◌, ◌/◌, ◌≡◌, ◌≤◌, ◌<◌, ◌∙◌, inl, inr, Bool-cases, List, [], ◌∷◌, ◌++◌,
  length, length-replicate, replicate, map, ltb, ltb→lt, ◌==◌, if◌then◌else◌, arith,
}
use porkg.Pool.Channels.{Flume, IsQueue}
use porkg.Pool.{PoolBuilder, bucket_count, new}
use porkg.Pool.Contents.{contents, total_limit, IsBounded, length-contents-le}
use porkg.Pool.Calls.{Call, run, run-Keeps}

share_le : (cap b q : ℕ) → q * suc b ≤ cap → b * q + (cap - q * b) ≡ cap
share_le cap b q h = grind arith

share-sum : (cap b : ℕ) → (b - 1) * (cap / b) + (cap - cap / b * (b - 1)) ≡ cap
share-sum cap zero = omega arith
share-sum cap (suc b) =
    let one_less : suc b - 1 ≡ b = omega arith in
    rw one_less (share_le cap b (cap / suc b) (div-mul-le_self cap (suc b)))

module _ {T : Type 0} (flume : Flume T) (queue : IsQueue flume) where
  open flume use {Channel, bounded}
  open queue use {queued, limit, queued-bounded, limit-bounded}

  limits-replicate :
      (n k last : ℕ)
      → map limit (replicate n (bounded k) ++ bounded last ∷ []) ≡ replicate n k ++ last ∷ []
  limits-replicate zero k last = rw (limit-bounded last)
  limits-replicate (suc n) k last = rw (limit-bounded k, limits-replicate n k last)

  total_limit-replicate :
      (n k last : ℕ)
      → total_limit flume queue (replicate n (bounded k) ++ bounded last ∷ []) ≡ n * k + last
  total_limit-replicate zero k last = omega (arith, limit-bounded last)
  total_limit-replicate (suc n) k last =
      omega (arith, limit-bounded k, total_limit-replicate n k last)

  contents-replicate :
      (n k last : ℕ) → contents flume queue (replicate n (bounded k) ++ bounded last ∷ []) ≡ []
  contents-replicate zero k last = rw (queued-bounded last)
  contents-replicate (suc n) k last = rw (queued-bounded k) (contents-replicate n k last)

  IsBounded-replicate :
      (n k last : ℕ) → IsBounded flume queue (replicate n (bounded k) ++ bounded last ∷ [])
  IsBounded-replicate zero k last = (rw (queued-bounded last) (omega arith), tt)
  IsBounded-replicate (suc n) k last =
      (rw (queued-bounded k) (omega arith), IsBounded-replicate n k last)

module _ {G T : Type 0} (flume : Flume T) (queue : IsQueue flume) (config : PoolBuilder G T) where
  -- A new pool is empty, and its channels' limits add up to its capacity, for any number of
  -- buckets.
  pub new-total_limit :
      (default : ℕ)
      → (total_limit flume queue (new flume config default).entries ≡ config.capacity)
        × (contents flume queue (new flume config default).entries ≡ [])
  unfolding new
  new-total_limit default =
      let b = bucket_count flume config default in
      let k = config.capacity / b in
      let e = length-replicate (b - 1) (flume.bounded k) in
      let last = config.capacity - k * length (replicate (b - 1) (flume.bounded k)) in
      (
        total_limit-replicate flume queue (b - 1) k last ∙ rw e (share-sum config.capacity b),
        contents-replicate flume queue (b - 1) k last,
      )

  pub new-IsBounded : (default : ℕ) → IsBounded flume queue (new flume config default).entries
  unfolding new
  new-IsBounded default = IsBounded-replicate flume queue _ _ _

  -- After any calls of `take` and `return_value`, by any threads, one after the other, a new
  -- pool over channels that keep the crate's laws holds no more values than its capacity.
  pub run-capacity :
      (create : G → T × G) (default : ℕ) (g : G) (cs : List (Call flume queue config))
      → length (
          contents flume queue
            (run flume queue config create cs (g, new flume config default)).1.entries)
        ≤ config.capacity
  run-capacity create default g cs =
      let keeps = run-Keeps flume queue config create cs (g, new flume config default) in
      let bounded = keeps.bounded (new-IsBounded default) in
      omega (
        arith,
        length-contents-le flume queue _ bounded,
        keeps.same_limit,
        (new-total_limit default).0,
      )

  -- The number of buckets asked for, or the default.
  abbrev pub wanted : ℕ → ℕ
  wanted default = if config.buckets == 0 then default else config.buckets

  -- For a pool of positive capacity: with more buckets than values all but the last channel hold
  -- nothing, and the last has room for everything; otherwise there is one channel for each
  -- value, whatever number was asked for.
  pub new-limits :
      (default : ℕ)
      → 0 < config.capacity
      → map queue.limit (new flume config default).entries ≡ (
          if ltb config.capacity (wanted default)
          then replicate (wanted default - 1) 0 ++ config.capacity ∷ []
          else replicate (config.capacity - 1) 1 ++ 1 ∷ [])
  unfolding new
  new-limits default positive =
      let b = bucket_count flume config default in
      let k = config.capacity / b in
      let e = length-replicate (b - 1) (flume.bounded k) in
      let last = config.capacity - k * length (replicate (b - 1) (flume.bounded k)) in
      limits-replicate flume queue (b - 1) k last
      ∙ elim (Bool-cases (ltb config.capacity (wanted default))) [
        | inl more ↦
            let count : b ≡ wanted default = unfold bucket_count in ground arith in
            let none_each : k ≡ 0 = rw count (div-eq_of_lt (ltb→lt _ _ more)) in
            let all_last : last ≡ config.capacity = rw (e, none_each) (omega arith) in
            rw (more, all_last, none_each, count)
        | inr fewer ↦
            let count : b ≡ config.capacity = unfold bucket_count in ground arith in
            let one_each : k ≡ 1 =
              rw count (div-eq_of_lt-le config.capacity (omega arith) (omega arith)) in
            let one_last : last ≡ 1 = rw (e, one_each, count) (omega arith) in
            rw (fewer, one_last, one_each, count)
      ]
