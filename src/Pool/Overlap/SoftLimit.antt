-- ===== src/Pool/Overlap/SoftLimit.antt =====
-- `CURRENT_SIZE` of crates/porkg-private/src/mem.rs under any schedule of any threads.
use porkg.Base.{
  ℕ, zero, suc, ◌+◌, ◌-◌, ◌*◌, ◌≡◌, ◌≤◌, ◌∙◌, inl, inr, refl, ap, List, [], ◌∷◌, Option, none, some,
  length, length-set, get_elem?, set, replicate, length-replicate, arith, All, All-replicate,
  All-set, get-All,
}
use porkg.Pool.Channels.{Flume, IsQueue}
use porkg.Pool.{PoolState, new}
use porkg.Pool.Contents.{contents}
use porkg.Pool.New.{new-total_limit}
use porkg.Pool.Buffers.Accounting.{KeepsCapacity}
use porkg.Pool.Buffers.{BytesMut, max_total_buffers, max_single_buffer, buffer_pool}
use porkg.Pool.Threads.{idle}
use porkg.Pool.Threads.Counting.{weigh}
use porkg.Pool.Threads.Turns.{Turn}
use porkg.Pool.Overlap.{Slot, plain, Sizes, slot_step, slot_of, slot_turned, slot_play}
use porkg.Pool.Overlap.Moves.{counted, due, stored, Moves, Ready, slot_step-Moves}

module _ {A : Type 0} (f : A → ℕ) where
  weigh-set :
      (xs : List A) (j : ℕ) (x y : A)
      → get_elem? xs j ≡ some x
      → weigh f (set xs j y) + f x ≡ weigh f xs + f y
  weigh-set [] j x y there = absurd (cc)
  weigh-set (z ∷ zs) zero x y there = let same : z ≡ x = cc in rw same (omega arith)
  weigh-set (z ∷ zs) (suc j) x y there = omega (arith, weigh-set zs j x y there)

  weigh-get : (xs : List A) (j : ℕ) (x : A) → get_elem? xs j ≡ some x → f x ≤ weigh f xs
  weigh-get [] j x there = absurd (cc)
  weigh-get (z ∷ zs) zero x there = let same : z ≡ x = cc in rw same (omega arith)
  weigh-get (z ∷ zs) (suc j) x there = omega (arith, weigh-get zs j x there)

  weigh-replicate : (n : ℕ) (x : A) → f x ≡ 0 → weigh f (replicate n x) ≡ 0
  weigh-replicate zero x light = refl
  weigh-replicate (suc n) x light = omega (arith, weigh-replicate n x light)

-- The capacity that all threads are about to count.
module _ (bytes : BytesMut) where
  open bytes use {Buffer, capacity, clear}

  AreSingle : List (Slot Buffer) → Type 0
  AreSingle slots = All (λ t. due bytes t ≤ max_single_buffer) slots

  weigh-AreSingle :
      (slots : List (Slot Buffer))
      → AreSingle slots
      → weigh (due bytes) slots ≤ max_single_buffer * length slots
  unfolding AreSingle
  weigh-AreSingle [] all = omega arith
  weigh-AreSingle (t ∷ ts) (one, all) = omega (arith, weigh-AreSingle ts all)

  weigh-others :
      (slots : List (Slot Buffer)) (j : ℕ) (t : Slot Buffer)
      → get_elem? slots j ≡ some t
      → AreSingle slots
      → weigh (due bytes) slots + max_single_buffer ≤ max_single_buffer * length slots + due bytes t
  unfolding AreSingle
  weigh-others [] j t there all = absurd (cc)
  weigh-others (x ∷ xs) zero t there (one, all) =
      let same : x ≡ t = cc in rw same (omega (arith, weigh-AreSingle xs all))
  weigh-others (x ∷ xs) (suc j) t there (one, all) = omega (arith, weigh-others xs j t there all)

  module _ (flume : Flume Buffer) (queue : IsQueue flume) (keeps : KeepsCapacity bytes) where
    -- The counter covers what is stored and what the threads have counted, and is beyond the limit
    -- by less than one buffer for each of the other threads.
    record IsSoft (n : ℕ) (s : PoolState flume) (current : ℕ) (slots : List (Slot Buffer))
        : Type 0 where
      covers : stored bytes flume queue keeps s + weigh (counted bytes) slots ≤ current
      limited : current + weigh (due bytes) slots ≤ max_total_buffers + max_single_buffer * (n - 1)
      single : AreSingle slots
      count : length slots ≡ n

    module _ (n : ℕ) (few : n ≤ 4294967296) where
      IsSoft-Ready :
          (s : PoolState flume) (current : ℕ) (slots : List (Slot Buffer)) (j : ℕ) (t : Slot Buffer)
          → IsSoft n s current slots
          → get_elem? slots j ≡ some t
          → Ready bytes flume queue keeps s current t
      unfolding AreSingle
      IsSoft-Ready s current slots j t soft there = (
        omega (arith, weigh-get (counted bytes) slots j t there, soft.covers),
        omega (arith, weigh-get (due bytes) slots j t there, soft.limited),
        get-All (λ t. due bytes t ≤ max_single_buffer) slots j t there soft.single,
      )

      placed-IsSoft :
          (s : PoolState flume) (current : ℕ) (slots : List (Slot Buffer)) (j : ℕ) (t : Slot Buffer)
          (r : Sizes bytes flume × Slot Buffer)
          → IsSoft n s current slots
          → get_elem? slots j ≡ some t
          → Moves bytes flume queue keeps s current t r
          → IsSoft n r.0.0 r.0.1 (set slots j r.1)
      unfolding AreSingle
      placed-IsSoft s current slots j t r soft there (books, limits, one) = record {
        covers = omega (arith, soft.covers, weigh-set (counted bytes) slots j t r.1 there);
        limited = elim limits [
          | inl less ↦ omega (arith, soft.limited, weigh-set (due bytes) slots j t r.1 there)
          | inr (none_due, fits) ↦ omega (
            arith,
            soft.count,
            weigh-set (due bytes) slots j t r.1 there,
            weigh-others slots j t there soft.single,
          )
        ];
        single = All-set (λ t. due bytes t ≤ max_single_buffer) slots j r.1 one soft.single;
        count = length-set slots j r.1 ∙ soft.count;
      }

      turned-IsSoft :
          (u : Turn Buffer) (s : PoolState flume) (current : ℕ) (slots : List (Slot Buffer))
          (o : Option (Slot Buffer))
          → get_elem? slots (slot_of bytes flume u) ≡ o
          → IsSoft n s current slots
          → let r = slot_turned bytes flume u ((s, current), slots) o in IsSoft n r.0.0 r.0.1 r.1
      turned-IsSoft u s current slots none there soft = soft
      turned-IsSoft u s current slots (some t) there soft =
          placed-IsSoft s current slots (slot_of bytes flume u) t
            (slot_step bytes flume u (s, current) t) soft there
            (slot_step-Moves bytes flume queue keeps s current u t
              (IsSoft-Ready s current slots (slot_of bytes flume u) t soft there))

      slot_play-IsSoft :
          (us : List (Turn Buffer)) (s : PoolState flume) (current : ℕ) (slots : List (Slot Buffer))
          → IsSoft n s current slots
          → let r = slot_play bytes flume us ((s, current), slots) in IsSoft n r.0.0 r.0.1 r.1
      unfolding slot_play
      slot_play-IsSoft [] s current slots soft = soft
      slot_play-IsSoft (u ∷ us) s current slots soft =
          let r =
            slot_turned bytes flume u ((s, current), slots)
              (get_elem? slots (slot_of bytes flume u)) in
          slot_play-IsSoft us r.0.0 r.0.1 r.1 (turned-IsSoft u s current slots _ refl soft)

      idle-IsSoft :
          (default : ℕ)
          → IsSoft n (new flume (buffer_pool bytes) default) 0 (replicate n (plain idle))
      unfolding AreSingle
      idle-IsSoft default = record {
        covers = omega (
          arith,
          ap (weigh capacity) (new-total_limit flume queue (buffer_pool bytes) default).1,
          weigh-replicate (counted bytes) n (plain idle) refl,
        );
        limited = omega (arith, weigh-replicate (due bytes) n (plain idle) refl);
        single = All-replicate (λ t. due bytes t ≤ max_single_buffer) n (plain idle) (omega arith);
        count = length-replicate n (plain idle);
      }

      -- The limit is soft: however the calls of any number of threads overlap, and even if all of
      -- them load `CURRENT_SIZE` before any of them adds to it, it is never beyond
      -- `MAX_TOTAL_BUFFERS` by more than `MAX_SINGLE_BUFFER` for each thread but one, and covers
      -- the capacity of all stored buffers, those on their way into a channel and out of one included.
      -- At most 2^32 threads use a pool that was new, its channels keep the crate's laws, and
      -- clearing a buffer keeps its capacity.
      pub slot_play-soft_limit :
          (default : ℕ) (us : List (Turn Buffer))
          → let r =
              slot_play bytes flume us
                ((new flume (buffer_pool bytes) default, 0), replicate n (plain idle)) in
            (weigh capacity (contents flume queue r.0.0.entries) + weigh (counted bytes) r.1
              ≤ r.0.1)
            × (r.0.1 ≤ max_total_buffers + max_single_buffer * (n - 1))
      slot_play-soft_limit default us =
          let soft = slot_play-IsSoft us _ 0 _ (idle-IsSoft default) in
          (soft.covers, omega (arith, soft.limited))
