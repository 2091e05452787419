-- ===== src/Linux/Sandbox/Released.antt =====
-- What a worker does before its task.
use porkg.Base.{
  ℕ, zero, suc, ◌<◌, arith, ◌+◌, ◌≡◌, ◌⊎◌, inl, inr, refl, ap, ◌∙◌, List, [], ◌∷◌, ◌++◌,
  append_assoc, Result, ok, err, take,
}
use porkg.Linux.{
  Kernel, Call, Errno, Fd, read_exact, setresuid, setresgid, Run, done, resume, wrapped,
  mapping_err, system_call, ignore,
}
use porkg.Linux.Script.{Succeed}
use porkg.Linux.Mappings.{set_ids}
use porkg.Linux.Sandbox.{SandboxOptions}
use porkg.Linux.Sandbox.Worker.{
  SandboxTask, WorkerError, worker_io, task_error, set_id, worker_main,
}

-- The calls before the task: the wait for the zygote's byte, and the ids of the options.
abbrev pub entry : SandboxOptions → Fd → List Call
entry options host =
    read_exact host 1
    ∷ setresuid options.sandbox_uid options.sandbox_uid options.sandbox_uid
    ∷ setresgid options.sandbox_gid options.sandbox_gid options.sandbox_gid
    ∷ []

-- The error of a call that fails after so many of these calls.
abbrev pub entry_error : {X : Type 0} → ℕ → Errno → WorkerError X
entry_error zero e = worker_io e
entry_error (suc k) e = set_id e

module _ (kernel : Kernel) {T : Type 0} (sandbox : SandboxTask kernel T) where
  open sandbox use {ExecuteError, execute}

  -- One of the calls before the task fails, is the last, and its error is the result; or all of them
  -- succeed, and the rest is the task's.
  abbrev pub Worked :
      T
      → List Fd
      → SandboxOptions
      → Fd
      → Run kernel
      → Result (Unit {0}) (WorkerError ExecuteError) × Run kernel
      → Type 0
  Worked task fds options host s (r, s') =
      ((k : ℕ) × ((e : Errno) × ((w : kernel.World) × (k < 3)
            × Succeed kernel (take k (entry options host)) s.0 w
            × (r ≡ err (entry_error k e))
            × (s'.1 ≡ s.1 ++ take (k + 1) (entry options host)))))
      ⊎ ((s1 : Run kernel) × Succeed kernel (entry options host) s.0 s1.0
          × (s1.1 ≡ s.1 ++ entry options host)
          × ((r, s') ≡ mapping_err kernel task_error (execute task fds) s1))

  module _ (task : T) (fds : List Fd) (options : SandboxOptions) (host : Fd) (s : Run kernel) where
    abbrev wait_call : Call
    wait_call = read_exact host 1

    abbrev set_uid : Call
    set_uid = setresuid options.sandbox_uid options.sandbox_uid options.sandbox_uid

    abbrev set_gid : Call
    set_gid = setresgid options.sandbox_gid options.sandbox_gid options.sandbox_gid

    -- What is left once the calls have been made.
    abbrev after_gid :
        Result ℕ Errno × Run kernel → Result (Unit {0}) (WorkerError ExecuteError) × Run kernel
    after_gid p =
        resume kernel (wrapped kernel set_id (resume kernel p (λ _. done kernel tt)))
          (λ _. mapping_err kernel task_error (execute task fds))

    abbrev after_uid :
        Result ℕ Errno × Run kernel → Result (Unit {0}) (WorkerError ExecuteError) × Run kernel
    after_uid p =
        resume kernel
          (wrapped kernel set_id
            (resume kernel p (λ _. ignore kernel (system_call kernel set_gid))))
          (λ _. mapping_err kernel task_error (execute task fds))

    after_gid-Worked :
        (n m : ℕ) (w1 w2 w3 : kernel.World) (calls : List Call) (r : Result ℕ Errno)
        → kernel.perform wait_call s.0 ≡ (ok n, w1)
        → kernel.perform set_uid w1 ≡ (ok m, w2)
        → kernel.perform set_gid w2 ≡ (r, w3)
        → calls ≡ s.1 ++ entry options host
        → Worked task fds options host s (after_gid (r, (w3, calls)))
    after_gid-Worked n m w1 w2 w3 calls (err e) h1 h2 h3 made =
        inl (2, (e, (w2, omega arith, (n, (w1, h1, (m, (w2, h2, refl)))), refl, made)))
    after_gid-Worked n m w1 w2 w3 calls (ok l) h1 h2 h3 made =
        inr ((w3, calls), (n, (w1, h1, (m, (w2, h2, (l, (w3, h3, refl)))))), made, refl)

    after_uid-Worked :
        (n : ℕ) (w1 w2 : kernel.World) (calls : List Call) (r : Result ℕ Errno)
        → kernel.perform wait_call s.0 ≡ (ok n, w1)
        → kernel.perform set_uid w1 ≡ (r, w2)
        → calls ≡ s.1 ++ wait_call ∷ set_uid ∷ []
        → Worked task fds options host s (after_uid (r, (w2, calls)))
    after_uid-Worked n w1 w2 calls (err e) h1 h2 made =
        inl (1, (e, (w1, omega arith, (n, (w1, h1, refl)), refl, made)))
    after_uid-Worked n w1 w2 calls (ok m) h1 h2 made =
        after_gid-Worked n m w1 w2 _ _ (kernel.perform set_gid w2).0 h1 h2 refl
          (ap (λ cs. cs ++ set_gid ∷ []) made ∙ append_assoc s.1 _ _)

    after_wait-Worked :
        (w1 : kernel.World) (r : Result ℕ Errno)
        → kernel.perform wait_call s.0 ≡ (r, w1)
        → Worked task fds options host s (
            resume kernel
              (wrapped kernel worker_io (r, (w1, s.1 ++ wait_call ∷ [])))
              (λ _ s. after_uid (system_call kernel set_uid s)))
    after_wait-Worked w1 (err e) h1 = inl (0, (e, (s.0, omega arith, refl, refl, refl)))
    after_wait-Worked w1 (ok n) h1 =
        after_uid-Worked n w1 _ _ (kernel.perform set_uid w1).0 h1 refl (append_assoc s.1 _ _)

    -- A worker runs its task only after it has read the byte that releases it and has then set its
    -- user and its group, each three times, to those of the options; what comes after is the task's.
    -- If one of these calls fails it is the last call of the worker, with an error of its own kind.
    pub worker_main-Worked :
        Worked task fds options host s (worker_main kernel sandbox task fds options host s)
    unfolding worker_main set_ids
    worker_main-Worked = after_wait-Worked _ (kernel.perform wait_call s.0).0 refl
