-- ===== src/Linux/Sandbox/Starting.antt =====
-- The start of a worker by the zygote: the two processes that come of it, and the byte between them.
use porkg.Base.{ℕ, ◌<◌, ◌≡◌, List, [], ◌∷◌, ◌++◌, Option, none, some, Result, ok, err}
use porkg.Linux.{Kernel, Call, Fd, write_all, close, Run}
use porkg.Linux.Mappings.{
  Process, IdMappingTools, WriteMappingsError, write_mappings, current_user_to_root,
  current_group_to_root,
}
use porkg.Linux.Clone.{Ended, returns, exits, Limits}
use porkg.Linux.Sandbox.{SandboxOptions}
use porkg.Linux.Sandbox.Worker.{
  SandboxTask, StartWorkerError, supervisor_socket, supervisor_process, mappings, proceed,
  start_byte, worker,
}

module _ (kernel : Kernel) {T : Type 0} (sandbox : SandboxTask kernel T) (limits : Limits)
    (process : Process) (tools : IdMappingTools) where
  -- The mappings of a new process, and what is left of the zygote's calls after them.
  abbrev pub Mapped : Result (Unit {0}) WriteMappingsError → List Call → Run kernel → Type 0
  Mapped r more s =
      (pid : ℕ) × ((s1 : Run kernel) × ((s2 : Run kernel) × (0 < pid)
          × (write_mappings kernel process (some pid) (current_user_to_root process ∷ [])
                (current_group_to_root process ∷ []) tools s1
              ≡ (r, s2))
          × (s.1 ≡ s2.1 ++ more)))

  module _ (task : T) (fds : List Fd) (options : SandboxOptions) where
    -- A start that succeeds has written the mappings of the new process and then the byte; one that
    -- fails to write them has not written the byte after that. The new process is a worker.
    abbrev pub Starts : Option (Ended (Result (Unit {0}) StartWorkerError) × Run kernel) → Type 0
    Starts none = Unit {0}
    Starts (some (exits code, s)) =
        (child : Fd) × ((s1 : Run kernel) × (worker kernel sandbox task options fds child s1
            ≡ (code, s)))
    Starts (some (returns (ok _), s)) =
        (host : Fd) × Mapped (ok tt) (write_all host (start_byte ∷ []) ∷ close host ∷ []) s
    Starts (some (returns (err (mappings e)), s)) = (host : Fd) × Mapped (err e) (close host ∷ []) s
    Starts (some (returns (err (supervisor_socket e)), s)) = Unit {0}
    Starts (some (returns (err (supervisor_process e)), s)) = Unit {0}
    Starts (some (returns (err (proceed e)), s)) = Unit {0}
