-- ===== src/Pool/Buffers/Accounting.antt =====
-- `CURRENT_SIZE` against the buffers that the pool really holds.
use mathlib.Core.List.{Perm, Permᴰ}
use mathlib.Core.Logic.{∥∥₁_elim}
use native.Mathlib.Nat.{ℕ_set}
use porkg.Base.{
  ℕ, ◌+◌, ◌%◌, ◌≤◌, ◌≡◌, ◌⊎◌, inl, inr, refl, sym, ap, All, ◌∙◌, Bool-cases, true, false, Option,
  none, some, List, [], ◌∷◌, ◌++◌, arith,
}
use porkg.Pool.Channels.{Flume, IsQueue}
use porkg.Pool.{PoolState, usize_mod}
use porkg.Pool.Contents.{contents, IsFull, Sent}
use porkg.Pool.Calls.{Took, Put, take-Took, return_value_full, return_value-Put}
use porkg.Pool.Buffers.{
  BytesMut, max_total_buffers, max_single_buffer, return_hook, is_refused, buffer_pool,
  create_buffer, get_buffer, drop_buffer, BufferUse, gets, drops, use_buffers,
}

module _ (bytes : BytesMut) where
  open bytes use {Buffer, capacity, clear}

  unfoldable pub total_size : List Buffer → ℕ
  total_size [] = 0
  total_size (v ∷ vs) = capacity v + total_size vs

  total_size-append : (xs ys : List Buffer) → total_size (xs ++ ys) ≡ total_size xs + total_size ys
  unfolding total_size
  total_size-append [] ys = omega arith
  total_size-append (x ∷ xs) ys = omega (arith, total_size-append xs ys)

  total_size-Permᴰ : {xs ys : List Buffer} → Permᴰ xs ys → total_size xs ≡ total_size ys
  unfolding total_size
  total_size-Permᴰ Permᴰ.nil = refl
  total_size-Permᴰ (Permᴰ.cons e p) = omega (arith, ap capacity e, total_size-Permᴰ p)
  total_size-Permᴰ (Permᴰ.swap e e') = omega (arith, ap capacity e, ap capacity e')
  total_size-Permᴰ (Permᴰ.trans p q) = total_size-Permᴰ p ∙ total_size-Permᴰ q

  total_size-perm : {xs ys : List Buffer} → Perm xs ys → total_size xs ≡ total_size ys
  total_size-perm p = ∥∥₁_elim p (ℕ_set _ _) total_size-Permᴰ

  -- The return hook's two answers.
  return_hook-cases :
      (v : Buffer) (current : ℕ)
      → ((is_refused bytes v current ≡ true) × (return_hook bytes v current ≡ (none, current)))
        ⊎ ((is_refused bytes v current ≡ false)
            × (capacity v ≤ max_single_buffer)
            × ((current + capacity v) % usize_mod ≤ max_total_buffers)
            × (return_hook bytes v current ≡ (some (clear v), (current + capacity v) % usize_mod)))
  unfolding return_hook
  return_hook-cases v current = elim (Bool-cases (is_refused bytes v current)) [
    | inl refused ↦ inl (refused, rw refused)
    | inr accepted ↦ inr (accepted, ground arith, ground arith, rw accepted)
  ]

  -- What `BytesMut::clear` documents.
  abbrev pub KeepsCapacity : Type 0
  KeepsCapacity = (v : Buffer) → capacity (clear v) ≡ capacity v

  module _ (flume : Flume Buffer) (queue : IsQueue flume) (keeps : KeepsCapacity) where
    -- `CURRENT_SIZE` covers the stored buffers and respects the limit.
    pub record IsAccounted (current : ℕ) (s : PoolState flume) : Type 0 where
      pub covers : total_size (contents flume queue s.entries) ≤ current
      pub within : current ≤ max_total_buffers

    Took-IsAccounted :
        (current : ℕ) (s : PoolState flume) (r : Buffer × ℕ × PoolState flume)
        → IsAccounted current s
        → Took flume queue (buffer_pool bytes) (create_buffer bytes) current s r
        → IsAccounted r.1 r.2
    unfolding buffer_pool create_buffer total_size
    Took-IsAccounted current s r h (inl (x, perm, e), k) =
        let sizes = total_size-perm perm in
        let next = ap (λ (p : Buffer × ℕ). p.1) e in
        record { covers = omega arith; within = omega arith }
    Took-IsAccounted current s r h (inr (same, e), k) =
        let next = ap (λ (p : Buffer × ℕ). p.1) e in
        let contents_same = ap (λ es. total_size (contents flume queue es)) same in
        record { covers = omega arith; within = omega arith }

    get_buffer-IsAccounted :
        (tid current : ℕ) (s : PoolState flume)
        → IsAccounted current s
        → let r = get_buffer bytes flume tid current s in IsAccounted r.1 r.2
    unfolding get_buffer
    get_buffer-IsAccounted tid current s h =
        Took-IsAccounted current s _ h
          (take-Took flume queue (buffer_pool bytes) (create_buffer bytes) tid current s)

    Sent-total_size :
        (entries entries' : List (flume.Channel)) (x : Buffer)
        → Sent flume queue entries x entries'
        → total_size (contents flume queue entries')
          ≤ capacity x + total_size (contents flume queue entries)
    unfolding total_size
    Sent-total_size entries entries' x (inl same, k) =
        let contents_same = ap (λ es. total_size (contents flume queue es)) same in omega arith
    Sent-total_size entries entries' x (inr perm, k) =
        let sizes = total_size-perm perm in omega arith

    Put-IsAccounted :
        (current : ℕ) (s : PoolState flume) (v : Buffer) (r : ℕ × PoolState flume)
        → IsAccounted current s
        → Put flume queue (buffer_pool bytes) s (return_hook bytes v current) r
        → IsAccounted r.0 r.1
    Put-IsAccounted current s v r h (inl (x, e, sent)) = elim (return_hook-cases v current) [
      | inl (_, refused) ↦
          absurd (let clash = ap (λ (p : Option Buffer × ℕ). p.0) (sym refused ∙ e) in cc)
      | inr (_, single, fits, accepted) ↦
          let limit = h.within in
          let whole : (current + capacity v) % usize_mod ≡ current + capacity v = omega arith in
          let both = sym accepted ∙ e in
          let kept : clear v ≡ x = let first = ap (λ (p : Option Buffer × ℕ). p.0) both in cc in
          let next = ap (λ (p : Option Buffer × ℕ). p.1) both in
          let sizes = Sent-total_size s.entries r.1.entries x sent in
          let size = keeps v ∙ refl in
          let same_size = ap capacity kept in record { covers = omega arith; within = omega arith }
    ]
    Put-IsAccounted current s v r h (inr (e, same)) = elim (return_hook-cases v current) [
      | inl (_, refused) ↦
          let next = ap (λ (p : Option Buffer × ℕ). p.1) (sym refused ∙ e) in
          let stored =
            ap (λ (q : PoolState flume). total_size (contents flume queue q.entries)) same in
          record { covers = omega arith; within = omega arith }
      | inr (_, single, fits, accepted) ↦
          absurd (let clash = ap (λ (p : Option Buffer × ℕ). p.0) (sym accepted ∙ e) in cc)
    ]

    drop_buffer-IsAccounted :
        (tid current : ℕ) (s : PoolState flume) (v : Buffer)
        → IsAccounted current s
        → let r = drop_buffer bytes flume tid current s v in IsAccounted r.0 r.1
    unfolding drop_buffer
    drop_buffer-IsAccounted tid current s v h =
        Put-IsAccounted current s v _ h
          (unfold buffer_pool in return_value-Put flume queue (buffer_pool bytes) tid current s v)

    -- Whatever buffers are taken and returned, one after the other, `CURRENT_SIZE` stays at or above
    -- the capacity of the stored buffers and within `MAX_TOTAL_BUFFERS`, if it was so before, the
    -- channels keep the crate's laws and clearing a buffer keeps its capacity.
    pub use_buffers-IsAccounted :
        (uses : List (BufferUse Buffer)) (current : ℕ) (s : PoolState flume)
        → IsAccounted current s
        → let r = use_buffers bytes flume uses (current, s) in IsAccounted r.0 r.1
    unfolding use_buffers
    use_buffers-IsAccounted [] current s h = h
    use_buffers-IsAccounted (gets tid ∷ us) current s h =
        let r = get_buffer bytes flume tid current s in
        use_buffers-IsAccounted us r.1 r.2 (get_buffer-IsAccounted tid current s h)
    use_buffers-IsAccounted (drops tid v ∷ us) current s h =
        let r = drop_buffer bytes flume tid current s v in
        use_buffers-IsAccounted us r.0 r.1 (drop_buffer-IsAccounted tid current s v h)

  -- A buffer that the hook accepts while every channel is full is dropped, yet `CURRENT_SIZE`
  -- grows by its capacity, as a `usize` does: from then on it counts memory that the pool does not
  -- hold.
  pub drop_buffer_leak :
      (flume : Flume Buffer) (queue : IsQueue flume) (tid current : ℕ) (s : PoolState flume)
      (v : Buffer)
      → All (IsFull flume queue) s.entries
      → is_refused bytes v current ≡ false
      → let r = drop_buffer bytes flume tid current s v in
        (r.1.entries ≡ s.entries) × (r.0 ≡ (current + capacity v) % usize_mod)
  unfolding drop_buffer buffer_pool
  drop_buffer_leak flume queue tid current s v full accepted = elim (return_hook-cases v current) [
    | inl (refused, _) ↦ absurd (let clash = sym refused ∙ accepted in cc)
    | inr (_, _, _, hook) ↦
        return_value_full flume queue (buffer_pool bytes) tid current
          ((current + capacity v) % usize_mod) s v (clear v) full hook
  ]
