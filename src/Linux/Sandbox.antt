-- ===== src/Linux/Sandbox.antt =====
-- crates/porkg-linux/src/sandbox.rs and crates/porkg-private/src/sandbox.rs: the controller's end of
-- the sandbox. A controller tells the zygote, a process that it has cloned, which tasks to run; the
-- zygote clones a worker for each. The log is left out.
pub mod Worker
pub mod Zygote
pub mod Released
pub mod Order
pub mod Joint
pub mod Lock
pub mod Starting
pub mod Sending
pub mod Commands
pub mod Fuel
mod Tests
use porkg.Base.{
  ℕ, zero, suc, Bool, true, false, List, [], ◌∷◌, ◌++◌, Option, none, some, Bytes, Result, ok, err,
}
use porkg.Linux.{Kernel, Errno, Fd, socketpair, close, Run, system_call}
use porkg.Linux.Clone.{Pid, Ended, returns, exits, Limits, Callback, Outcome, clone_process}
use porkg.Socket.{Packet, Codec, SocketMessageError, io, serialize_error, send_all, send_message}

-- `SandboxFlags` has one flag.
pub record SandboxOptions : Type 0 where
  pub network_isolation : Bool
  pub sandbox_uid : ℕ
  pub sandbox_gid : ℕ

unfoldable pub with_network_isolation : Bool → SandboxOptions → SandboxOptions
with_network_isolation isolate options = record {
  network_isolation = isolate;
  sandbox_uid = options.sandbox_uid;
  sandbox_gid = options.sandbox_gid;
}

abbrev pub cmd_hello : ℕ
cmd_hello = 1

abbrev pub cmd_start : ℕ
cmd_start = 2

pub data CreateSandboxError (E S : Type 0) : Type 0 where
  sandbox_io : E → CreateSandboxError E S
  serialization : S → CreateSandboxError E S

-- `impl From<SocketMessageError>`.
abbrev pub from_message : {E S : Type 0} → SocketMessageError E S → CreateSandboxError E S
from_message (io e) = sandbox_io e
from_message (serialize_error e) = serialization e

abbrev pub Sent : Type 0 → Type 0
Sent X = Option (Result (Unit {0}) X × List Packet)

-- `connect`: the socket becomes non-blocking, which may fail, and the first command goes out. The
-- kernel's answers are in a list.
abbrev pub greeted : {E : Type 0} → List (Result ℕ E) → Result (Unit {0}) E → Sent E
greeted answers (err e) = some (err e, [])
greeted answers (ok _) = send_all answers (cmd_hello ∷ []) []

unfoldable pub connect : {E : Type 0} → Result (Unit {0}) E → List (Result ℕ E) → Sent E
unfolding send_all
connect nonblocking answers = greeted answers nonblocking

module _ {T E S : Type 0} (little : Bool) (codec : Codec T S) where
  abbrev pub message_sent :
      List Packet → Sent (SocketMessageError E S) → Sent (CreateSandboxError E S)
  message_sent ps none = none
  message_sent ps (some (err e, qs)) = some (err (from_message e), ps ++ qs)
  message_sent ps (some (ok _, qs)) = some (ok tt, ps ++ qs)

  abbrev pub command_sent : List (Result ℕ E) → T → List Fd → Sent E → Sent (CreateSandboxError E S)
  command_sent answers task fds none = none
  command_sent answers task fds (some (err e, ps)) = some (err (sandbox_io e), ps)
  command_sent answers task fds (some (ok _, ps)) =
      message_sent ps (send_message little codec answers task fds)

  -- The kernel's answers to the sending of the command, and then of the task.
  unfoldable pub spawn_async :
      List (Result ℕ E) → List (Result ℕ E) → T → List Fd → Sent (CreateSandboxError E S)
  unfolding send_all send_message
  spawn_async command_answers answers task fds =
      command_sent answers task fds (send_all command_answers (cmd_start ∷ []) [])

-- `StartControllerProcessError`.
pub data StartProcessError : Type 0 where
  start_io : Errno → StartProcessError
  start_clone : Errno → StartProcessError

abbrev pub dropped : (kernel : Kernel) → Fd → Run kernel → Run kernel
dropped kernel fd s = (system_call kernel (close fd) s).1

abbrev pub drop_all : (kernel : Kernel) → List Fd → Run kernel → Run kernel
drop_all kernel [] s = s
drop_all kernel (fd ∷ fds) s = drop_all kernel fds (dropped kernel fd s)

module _ (kernel : Kernel) (limits : Limits) where
  -- The stream and the process of a `SandboxProcess`.
  abbrev pub SandboxProcess : Type 0
  SandboxProcess = Fd × Pid

  -- The child's end goes with the callback; the other end goes too if there is no process.
  abbrev pub zygote_cloned :
      Fd
      → Fd
      → Option (Outcome kernel)
      → Option (Ended (Result SandboxProcess StartProcessError) × Run kernel)
  zygote_cloned parent child none = none
  zygote_cloned parent child (some (exits code, s)) = some (exits code, s)
  zygote_cloned parent child (some (returns (err e), s)) =
      some (returns (err (start_clone e)), dropped kernel parent (dropped kernel child s))
  zygote_cloned parent child (some (returns (ok pid), s)) =
      some (returns (ok (parent, pid)), dropped kernel child s)

  abbrev pub paired :
      (Fd → Callback kernel)
      → Result ℕ Errno × Run kernel
      → Option (Ended (Result SandboxProcess StartProcessError) × Run kernel)
  paired zygote (err e, s) = some (returns (err (start_io e)), s)
  paired zygote (ok n, s) =
      let (parent, child) = kernel.pair_of n in
      zygote_cloned parent child (clone_process kernel limits (zygote child) [] s)

  -- `SandboxProcess::start`, with what the new process does on its end of the socket.
  unfoldable pub start :
      (Fd → Callback kernel)
      → Run kernel
      → Option (Ended (Result SandboxProcess StartProcessError) × Run kernel)
  unfolding clone_process
  start zygote s = paired zygote (system_call kernel socketpair s)
