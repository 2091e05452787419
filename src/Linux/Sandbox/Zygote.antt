-- ===== src/Linux/Sandbox/Zygote.antt =====
-- crates/porkg-linux/src/sandbox.rs: the loop of the zygote, with the socket of crates/porkg-private.
use porkg.Base.{
  ℕ, zero, suc, Bool, List, [], ◌∷◌, Option, none, some, Bytes, Result, ok, err, length, ◌==◌,
  if◌then◌else◌,
}
use porkg.Linux.{Kernel, Fd, Run}
use porkg.Linux.Mappings.{Process, IdMappingTools}
use porkg.Linux.Clone.{Ended, returns, exits, Limits}
use porkg.Linux.Sandbox.{cmd_start, drop_all}
use porkg.Linux.Sandbox.Worker.{SandboxTask, StartWorkerError, start_worker}
use porkg.Socket.{Incoming, Codec, SocketMessageError, Received, recv_exact, recv_message}

pub data ZygoteError (E S : Type 0) : Type 0 where
  reading_command : E → ZygoteError E S
  reading_task : SocketMessageError E S → ZygoteError E S
  unknown_command : ℕ → ZygoteError E S
  starting : StartWorkerError → ZygoteError E S

-- Where a zygote is: it waits, all of the kernel's answers being used up, it has failed, or this
-- run is a worker's, which has exited.
pub data ZygoteEnd (E S : Type 0) : Type 0 where
  waiting : ZygoteEnd E S
  failed : ZygoteError E S → ZygoteEnd E S
  exited : ℕ → ZygoteEnd E S

-- `cmd_buf[0]`, of a buffer that starts with a 0.
abbrev pub first_byte : Bytes → ℕ
first_byte [] = 0
first_byte (c ∷ _) = c

abbrev pub Command : Type 0 → Type 0
Command E = Option (Result (Bytes × List Fd) E × Incoming E)

-- `none` is a panic.
abbrev pub ZygoteOutcome : Kernel → Type 0 → Type 0 → Type 0
ZygoteOutcome kernel E S = Option (ZygoteEnd E S × Run kernel)

-- The rest of the loop, from what is to be read.
abbrev pub Rest : Kernel → Type 0 → Type 0 → Type 0
Rest kernel E S = Incoming E → Run kernel → ZygoteOutcome kernel E S

module _ (kernel : Kernel) {T E S : Type 0} (sandbox : SandboxTask kernel T) (limits : Limits)
    (process : Process) (tools : IdMappingTools) (little : Bool) (codec : Codec T S) where
  abbrev pub worker_started :
      Rest kernel E S
      → Incoming E
      → Option (Ended (Result (Unit {0}) StartWorkerError) × Run kernel)
      → ZygoteOutcome kernel E S
  worker_started rest i none = none
  worker_started rest i (some (exits code, s)) = some (exited code, s)
  worker_started rest i (some (returns (err e), s)) = some (failed (starting e), s)
  worker_started rest i (some (returns (ok _), s)) = rest i s

  abbrev pub task_read : Rest kernel E S → Run kernel → Received T E S → ZygoteOutcome kernel E S
  task_read rest s none = some (waiting, s)
  task_read rest s (some (err e, i)) = some (failed (reading_task e), s)
  task_read rest s (some (ok (task, fds), i)) = worker_started rest i (
      start_worker kernel sandbox limits process tools task fds
        (sandbox.create_sandbox_options task) s)

  -- `match cmd_buf[0]`.
  abbrev pub command : Rest kernel E S → Run kernel → ℕ → Incoming E → ZygoteOutcome kernel E S
  command rest s c i =
      if c == cmd_start
      then task_read rest s (recv_message little codec [] i)
      else some (failed (unknown_command c), s)

  -- The descriptors that come with a command are dropped.
  abbrev pub command_read : Rest kernel E S → Run kernel → Command E → ZygoteOutcome kernel E S
  command_read rest s none = some (waiting, s)
  command_read rest s (some (err e, i)) = some (failed (reading_command e), s)
  command_read rest s (some (ok (buffer, fds), i)) =
      command rest (drop_all kernel fds s) (first_byte buffer) i

  -- Each round uses an answer at least.
  unfoldable pub zygote_loop : ℕ → Rest kernel E S
  unfolding start_worker recv_exact recv_message
  zygote_loop zero i s = some (waiting, s)
  zygote_loop (suc fuel) i s = command_read (λ i s. zygote_loop fuel i s) s (recv_exact 1 [] i)

  abbrev pub hello_read : ℕ → Run kernel → Command E → ZygoteOutcome kernel E S
  hello_read fuel s none = some (waiting, s)
  hello_read fuel s (some (err e, i)) = some (failed (reading_command e), s)
  hello_read fuel s (some (ok (buffer, fds), i)) = zygote_loop fuel i (drop_all kernel fds s)

  unfoldable pub zygote_main : Rest kernel E S
  unfolding zygote_loop recv_exact
  zygote_main i s = hello_read (suc (length i.answers)) s (recv_exact 1 [] i)
