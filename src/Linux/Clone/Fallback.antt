-- ===== src/Linux/Clone/Fallback.antt =====
-- The two ways to a new process: `clone3`, and `clone` on a stack of its own.
use porkg.Base.{
  ℕ, zero, suc, ◌+◌, ◌<◌, ◌≡◌, ◌≢◌, ◌⊎◌, ◌↔◌, inl, inr, refl, sym, ap, ◌∙◌, subst, Bool, true,
  false, List, [], ◌∷◌, ◌++◌, append_assoc, append-nil, Option, none, some, Result, ok, err, ◌==◌,
  ==_iff, if◌then◌else◌, arith,
}
use porkg.Linux.{
  Kernel, Call, Errno, CloneFlag, clone3, clone, mmap_stack, protect, Run, system_call,
}
use porkg.Linux.Clone.{
  enosys, is_test_fallback, contains, without, returns, exits, Limits, page_size_of, stack_size_of,
  Callback, Outcome, cloned3, clone3_call, cloned, with_guard, with_stack, with_size,
  clone_fallback, exit_signal_of, or_fallback, clone_process,
}

module _ (kernel : Kernel) (limits : Limits) (flags : List CloneFlag) where
  open kernel use {perform}

  abbrev direct_call : Call
  direct_call = clone3 flags (exit_signal_of flags)

  -- The attempt that the flag for tests leaves out, and the kernel's world after it.
  abbrev tried : List Call
  tried = if contains is_test_fallback flags then [] else direct_call ∷ []

  abbrev world_tried : Run kernel → kernel.World
  world_tried s = if contains is_test_fallback flags then s.0 else (perform direct_call s.0).1

  abbrev stack_size : ℕ
  stack_size = stack_size_of limits.stack_limit

  abbrev mapping : Call
  mapping = mmap_stack stack_size

  -- No one may touch the lowest page of the stack at `address`.
  abbrev guard : ℕ → Call
  guard address = protect address (page_size_of limits.page_size)

  -- A process that starts at the top of that stack.
  abbrev start : ℕ → Call
  start address =
      clone (address + stack_size) (without is_test_fallback flags) (exit_signal_of flags)

  -- `clone3` is the one call, with that answer.
  abbrev Direct : Result ℕ Errno → Run kernel → Run kernel → Type 0
  Direct r s s' =
      (contains is_test_fallback flags ≡ false)
      × (perform direct_call s.0 ≡ (r, s'.0))
      × (s'.1 ≡ s.1 ++ direct_call ∷ [])

  abbrev IsUnavailable : Run kernel → Type 0
  IsUnavailable s =
      (contains is_test_fallback flags ≡ true) ⊎ ((perform direct_call s.0).0 ≡ err enosys)

  -- The mapping of the stack is refused.
  abbrev Unmapped : Errno → Run kernel → Run kernel → Type 0
  Unmapped e s s' =
      (perform mapping (world_tried s) ≡ (err e, s'.0)) × (s'.1 ≡ (s.1 ++ tried) ++ mapping ∷ [])

  -- The stack is mapped, and the protection of its lowest page is refused.
  abbrev Unguarded : Errno → Run kernel → Run kernel → Type 0
  Unguarded e s s' =
      (address : ℕ) × ((w : kernel.World) × (perform mapping (world_tried s) ≡ (ok address, w))
        × (perform (guard address) w ≡ (err e, s'.0))
        × (s'.1 ≡ (s.1 ++ tried) ++ mapping ∷ guard address ∷ []))

  -- The stack is mapped, its lowest page protected, and `clone` called with that answer.
  abbrev Cloned : Result ℕ Errno → Run kernel → Run kernel → Type 0
  Cloned r s s' =
      (address : ℕ) × ((w1 : kernel.World) × ((n : ℕ) × ((w2 : kernel.World) × (perform mapping
                (world_tried s)
              ≡ (ok address, w1))
            × (perform (guard address) w1 ≡ (ok n, w2))
            × (perform (start address) w2 ≡ (r, s'.0))
            × (s'.1 ≡ (s.1 ++ tried) ++ mapping ∷ guard address ∷ start address ∷ []))))

  -- One of the two ways, with the answer that the last call got.
  abbrev Answered : Result ℕ Errno → Run kernel → Run kernel → Type 0
  Answered r s s' = Direct r s s' ⊎ (IsUnavailable s × Cloned r s s')

  -- How the code that makes a process ends.
  abbrev pub Made : Callback kernel → Run kernel → Option (Outcome kernel) → Type 0
  Made cb s none = IsUnavailable s × (stack_size ≡ 0)
  Made cb s (some (exits code, s')) =
      (s1 : Run kernel) × Answered (ok 0) s s1 × (cb s1 ≡ (code, s'))
  Made cb s (some (returns (ok pid), s')) = (0 < pid) × Answered (ok pid) s s'
  Made cb s (some (returns (err e), s')) =
      ((e ≢ enosys) × Direct (err e) s s')
      ⊎ (IsUnavailable s × (Unmapped e s s' ⊎ (Unguarded e s s' ⊎ Cloned (err e) s s')))

  module _ (cb : Callback kernel) (s : Run kernel) where
    cloned-Made :
        (s' : Run kernel) (r : Result ℕ Errno)
        → IsUnavailable s
        → Cloned r s s'
        → Made cb s (some (cloned kernel cb (r, s')))
    cloned-Made s' (err e) missing made = inr (missing, inr (inr made))
    cloned-Made s' (ok zero) missing made = (s', inr (missing, made), refl)
    cloned-Made s' (ok (suc pid)) missing made = (omega arith, inr (missing, made))

    guarded-Made :
        (address : ℕ) (w w' : kernel.World) (calls : List Call) (r : Result ℕ Errno)
        → IsUnavailable s
        → perform mapping (world_tried s) ≡ (ok address, w)
        → perform (guard address) w ≡ (r, w')
        → calls ≡ (s.1 ++ tried) ++ mapping ∷ guard address ∷ []
        → Made cb s (
            some (
              with_guard kernel cb
                (without is_test_fallback flags)
                (exit_signal_of flags)
                (address + stack_size)
                (r, (w', calls))))
    guarded-Made address w w' calls (err e) missing mapped guarded made =
        inr (missing, inr (inl (address, (w, mapped, guarded, made))))
    guarded-Made address w w' calls (ok n) missing mapped guarded made = cloned-Made _ _ missing (
      address,
      (
        w,
        (
          n,
          (
            w',
            mapped,
            guarded,
            refl,
            ap (λ cs. cs ++ start address ∷ []) made ∙ append_assoc (s.1 ++ tried) _ _,
          ),
        ),
      ),
    )

    stacked-Made :
        (w : kernel.World) (calls : List Call) (r : Result ℕ Errno)
        → IsUnavailable s
        → perform mapping (world_tried s) ≡ (r, w)
        → calls ≡ (s.1 ++ tried) ++ mapping ∷ []
        → Made cb s (
            some (
              with_stack kernel cb
                (without is_test_fallback flags)
                (exit_signal_of flags)
                (page_size_of limits.page_size)
                stack_size
                (r, (w, calls))))
    stacked-Made w calls (err e) missing mapped made = inr (missing, inl (mapped, made))
    stacked-Made w calls (ok address) missing mapped made =
        guarded-Made address w _ _ _ missing mapped refl
          (ap (λ cs. cs ++ guard address ∷ []) made ∙ append_assoc (s.1 ++ tried) _ _)

    sized-Made :
        (size : ℕ) (s' : Run kernel)
        → stack_size ≡ size
        → IsUnavailable s
        → s' ≡ (world_tried s, s.1 ++ tried)
        → Made cb s (
            with_size kernel cb
              (without is_test_fallback flags)
              (exit_signal_of flags)
              (page_size_of limits.page_size)
              size
              s')
    sized-Made zero s' same missing made = (missing, same)
    sized-Made (suc size) s' same missing made =
        let run = λ (n : ℕ) (t : Run kernel).
          with_stack kernel cb (without is_test_fallback flags) (exit_signal_of flags)
            (page_size_of limits.page_size) n (system_call kernel (mmap_stack n) t) in
        subst (λ n. Made cb s (some (run n s'))) same
          (subst (λ t. Made cb s (some (run stack_size t))) (sym made)
            (stacked-Made _ _ _ missing refl refl))

    fallback-Made :
        (s' : Run kernel)
        → IsUnavailable s
        → s' ≡ (world_tried s, s.1 ++ tried)
        → Made cb s (
            clone_fallback kernel limits cb
              (without is_test_fallback flags)
              (exit_signal_of flags)
              s')
    unfolding clone_fallback
    fallback-Made s' missing made = sized-Made stack_size s' refl missing made

    -- Where the flag stands decides what has been tried.
    tried_world :
        (b : Bool)
        → contains is_test_fallback flags ≡ b
        → ◌≡◌ {A = Run kernel}
            (
              if b then s.0 else (perform direct_call s.0).1,
              s.1 ++ (if b then [] else direct_call ∷ []),
            )
            (world_tried s, s.1 ++ tried)
    tried_world b h =
        ap
          (λ (c : Bool). (
            if c then s.0 else (perform direct_call s.0).1,
            s.1 ++ (if c then [] else direct_call ∷ []),
          ))
          (sym h)

    refused-Made :
        (w : kernel.World) (e : Errno) (b : Bool)
        → contains is_test_fallback flags ≡ false
        → perform direct_call s.0 ≡ (err e, w)
        → (b ≡ true) ↔ (e ≡ enosys)
        → Made cb s (
            if b
            then clone_fallback kernel limits cb
                (without is_test_fallback flags)
                (exit_signal_of flags)
                (w, s.1 ++ direct_call ∷ [])
            else some (returns (err e), (w, s.1 ++ direct_call ∷ [])))
    refused-Made w e false direct refused h =
        inl (λ same. absurd (let clash = h.1 same in cc), (direct, refused, refl))
    refused-Made w e true direct refused h =
        fallback-Made _ (inr (ap (λ p. p.0) refused ∙ ap err (h.0 refl))) (
          ap (λ (p : Result ℕ Errno × kernel.World). (p.1, s.1 ++ direct_call ∷ [])) (sym refused)
          ∙ tried_world false direct)

    answered-Made :
        (w : kernel.World) (r : Result ℕ Errno)
        → contains is_test_fallback flags ≡ false
        → perform direct_call s.0 ≡ (r, w)
        → Made cb s (
            or_fallback kernel
              (clone_fallback kernel limits cb
                (without is_test_fallback flags)
                (exit_signal_of flags))
              (cloned3 kernel cb (r, (w, s.1 ++ direct_call ∷ []))))
    answered-Made w (ok zero) direct h = ((w, s.1 ++ direct_call ∷ []), inl (direct, h, refl), refl)
    answered-Made w (ok (suc pid)) direct h = (omega arith, inl (direct, h, refl))
    answered-Made w (err e) direct h = refused-Made w e (e == enosys) direct h (==_iff e enosys)

    tried-Made :
        (b : Bool)
        → contains is_test_fallback flags ≡ b
        → Made cb s (
            or_fallback kernel
              (clone_fallback kernel limits cb
                (without is_test_fallback flags)
                (exit_signal_of flags))
              (if b
                then (returns (err enosys), s)
                else cloned3 kernel cb (system_call kernel direct_call s)))
    tried-Made true h =
        fallback-Made s (inl h)
          (ap (λ calls. (s.0, calls)) (sym (append-nil s.1)) ∙ tried_world true h)
    tried-Made false h = answered-Made _ _ h refl

  -- However the kernel answers, a new process is made in one of two ways. Unless the flag for tests
  -- asks for the second way, `clone3` is called, and an answer other than "no such system call"
  -- settles it with that one call. Otherwise a stack as large as the limit says is mapped, the page
  -- at the address that the kernel gave for it is protected, and `clone` is called with the stack's
  -- top, which is that address and the size together, and with the flags less the one for tests; the
  -- first of these calls that fails is the last, and its error the result. An id that the old process
  -- gets is not 0, and is what the last call answered; where that answer is 0, the new process
  -- runs the callback and exits with its code. Only a stack of size 0 makes the code panic.
  pub clone_process-Made :
      (cb : Callback kernel) (s : Run kernel) → Made cb s (clone_process kernel limits cb flags s)
  unfolding clone_process clone3_call
  clone_process-Made cb s = tried-Made cb s (contains is_test_fallback flags) refl
