-- ===== src/Linux/Sandbox/Worker.antt =====
-- crates/porkg-linux/src/sandbox.rs: the worker and its start by the zygote. The task is a parameter.
-- The exit codes, of type `i32`, are the numbers of their 32 bits. What the worker drops at its end
-- is not listed: its exit follows at once.
use porkg.Base.{ℕ, ◌-◌, ◌^◌, List, [], ◌∷◌, ◌++◌, Option, none, some, Result, ok, err}
use porkg.Linux.{
  Kernel, Errno, Fd, CloneFlag, newns, newpid, newuser, socketpair, dup, read_exact, write_all, Run,
  Action, resume, wrapped, mapping_err, and_then, system_call, closed, ignore,
}
use porkg.Linux.Mappings.{
  Process, IdMappingTools, WriteMappingsError, set_ids, write_mappings, current_user_to_root,
  current_group_to_root,
}
use porkg.Linux.Clone.{Ended, returns, exits, Limits, Callback, Outcome, clone_process}
use porkg.Linux.Sandbox.{SandboxOptions, drop_all}

pub data WorkerError (X : Type 0) : Type 0 where
  worker_io : Errno → WorkerError X
  task_error : X → WorkerError X
  set_id : Errno → WorkerError X

abbrev pub minus_one : ℕ
minus_one = 2 ^ 32 - 1

-- The contexts of the zygote's errors.
pub data StartWorkerError : Type 0 where
  supervisor_socket : Errno → StartWorkerError
  supervisor_process : Errno → StartWorkerError
  mappings : WriteMappingsError → StartWorkerError
  proceed : Errno → StartWorkerError

abbrev pub start_byte : ℕ
start_byte = 1

abbrev pub namespaces : List CloneFlag
namespaces = newpid ∷ newns ∷ newuser ∷ []

-- `SandboxTask`: what the program asks of a task. `unwound` is the exit code of a process that
-- panics.
pub record SandboxTask (kernel : Kernel) (T : Type 0) : Type 1 where
  pub ExecuteError : Type 0
  pub execute : T → List Fd → Action kernel (Unit {0}) ExecuteError
  pub report : ExecuteError → ℕ
  pub create_sandbox_options : T → SandboxOptions
  pub unwound : ℕ

module _ (kernel : Kernel) {T : Type 0} (sandbox : SandboxTask kernel T) where
  open sandbox use {ExecuteError, execute, report, unwound}

  unfoldable pub worker_main :
      T → List Fd → SandboxOptions → Fd → Action kernel (Unit {0}) (WorkerError ExecuteError)
  unfolding set_ids
  worker_main task fds options host =
      and_then kernel (mapping_err kernel worker_io (system_call kernel (read_exact host 1))) λ _.
        and_then kernel
          (mapping_err kernel set_id (set_ids kernel options.sandbox_uid options.sandbox_gid))
          (λ _. mapping_err kernel task_error (execute task fds))

  -- `impl IntoExitCode` of a result and of `WorkerError`.
  abbrev pub report_worker : Result (Unit {0}) (WorkerError ExecuteError) → ℕ
  report_worker (ok _) = 0
  report_worker (err (task_error x)) = report x
  report_worker (err (worker_io e)) = minus_one
  report_worker (err (set_id e)) = minus_one

  abbrev pub also : Fd → Option (List Fd) × Run kernel → Option (List Fd) × Run kernel
  also fd (none, s) = (none, s)
  also fd (some fds, s) = (some (fd ∷ fds), s)

  -- `clone_fds`; `none` is a panic. The rest is cloned only after a success.
  unfoldable pub clone_fds : List Fd → Run kernel → Option (List Fd) × Run kernel
  clone_fds [] s = (some [], s)
  clone_fds (fd ∷ fds) s = cloned_fd (λ s. clone_fds fds s) (system_call kernel (dup fd) s)
    where
      cloned_fd :
          (Run kernel → Option (List Fd) × Run kernel)
          → Result ℕ Errno × Run kernel
          → Option (List Fd) × Run kernel
      cloned_fd rest (err e, s) = (none, s)
      cloned_fd rest (ok fd, s) = also fd (rest s)

  module _ (task : T) (options : SandboxOptions) where
    abbrev pub reported : Result (Unit {0}) (WorkerError ExecuteError) × Run kernel → ℕ × Run kernel
    reported (r, s) = (report_worker r, s)

    abbrev pub with_host : List Fd → Result ℕ Errno × Run kernel → ℕ × Run kernel
    with_host fds (err e, s) = (unwound, s)
    with_host fds (ok host, s) = reported (worker_main task fds options host s)

    abbrev pub with_fds : Fd → Option (List Fd) × Run kernel → ℕ × Run kernel
    with_fds child (none, s) = (unwound, s)
    with_fds child (some fds, s) = with_host fds (system_call kernel (dup child) s)

    -- The callback of `start_worker`, with its exit code.
    unfoldable pub worker : List Fd → Fd → Callback kernel
    unfolding clone_fds worker_main
    worker fds child s = with_fds child (clone_fds fds s)

  module _ (limits : Limits) (process : Process) (tools : IdMappingTools) where
    abbrev pub Started : Type 0
    Started = Option (Ended (Result (Unit {0}) StartWorkerError) × Run kernel)

    -- The rest of `start_worker` after the clone, with the new process's id.
    unfoldable pub release : Fd → ℕ → Action kernel (Unit {0}) StartWorkerError
    unfolding write_mappings current_user_to_root current_group_to_root
    release host pid =
        and_then kernel
          (mapping_err kernel mappings (
            write_mappings kernel process (some pid) (current_user_to_root process ∷ [])
              (current_group_to_root process ∷ []) tools))
          (λ _.
            ignore kernel
              (mapping_err kernel proceed (system_call kernel (write_all host (start_byte ∷ [])))))

    abbrev pub returned : Result (Unit {0}) StartWorkerError × Run kernel → Started
    returned (r, s) = some (returns r, s)

    -- The callback is dropped with all that it has captured, and `host` at the end.
    abbrev pub worker_cloned : List Fd → Fd → Fd → Option (Outcome kernel) → Started
    worker_cloned fds host child none = none
    worker_cloned fds host child (some (exits code, s)) = some (exits code, s)
    worker_cloned fds host child (some (returns r, s)) = returned (
        closed kernel host (
          resume kernel
            (wrapped kernel supervisor_process (r, drop_all kernel (fds ++ child ∷ []) s))
            (release host)))

    abbrev pub worker_paired : T → List Fd → SandboxOptions → Result ℕ Errno × Run kernel → Started
    worker_paired task fds options (err e, s) =
        some (returns (err (supervisor_socket e)), drop_all kernel fds s)
    worker_paired task fds options (ok n, s) =
        let (host, child) = kernel.pair_of n in
        worker_cloned fds host child
          (clone_process kernel limits (worker task options fds child) namespaces s)

    unfoldable pub start_worker : T → List Fd → SandboxOptions → Run kernel → Started
    unfolding clone_process worker release
    start_worker task fds options s =
        worker_paired task fds options (system_call kernel socketpair s)
