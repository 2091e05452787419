-- ===== src/Daemon.antt =====
-- crates/porkg-daemon/src/main.rs: how the end of the daemon's tasks ends the daemon. The channel
-- `exit` is one of the crate flume, with room for one message.
pub mod Failing
pub mod Start
mod Tests
use porkg.Base.{
  ℕ, Bool, true, false, List, [], ◌∷◌, Option, none, some, Result, ok, err, if◌then◌else◌,
}
use porkg.Pool.Channels.{Flume}

-- How a task ends.
pub data TaskEnd (E : Type 0) : Type 0 where
  returned : Result (Unit {0}) E → TaskEnd E
  panicked : TaskEnd E

module _ {E : Type 0} (flume : Flume (Option E)) (panic_error : E) where
  open flume use {Channel, bounded, try_send, try_recv}

  -- `try_send(..).ok()`.
  abbrev pub send_exit : E → Channel → Channel
  send_exit e c = (try_send c (some e)).1

  -- `DropKill`: whether it is armed.
  abbrev pub drop_kill : Bool → Channel → Channel
  drop_kill armed c = if armed then send_exit panic_error c else c

  -- `exit_on_error`: a panic leaves `kill` armed, any other end disarms it.
  unfoldable pub exit_on_error : TaskEnd E → Channel → Channel
  exit_on_error (returned (ok _)) c = drop_kill false c
  exit_on_error (returned (err e)) c = drop_kill false (send_exit e c)
  exit_on_error panicked c = drop_kill true c

  -- The tasks, in the order in which they end.
  unfoldable pub ended : List (TaskEnd E) → Channel → Channel
  unfolding exit_on_error
  ended [] c = c
  ended (t ∷ ts) c = ended ts (exit_on_error t c)

  -- `match result` of `main`, on what was received; nothing yet is a daemon that waits.
  abbrev pub exit_received : Option (Option E × Channel) → Option (Result (Unit {0}) E)
  exit_received none = none
  exit_received (some (some e, c)) = some (err e)
  exit_received (some (none, c)) = some (ok tt)

  -- The result of `main` once its tasks have ended so; `interrupted` says that `select!` has picked
  -- the signal.
  unfoldable pub main_result : Bool → List (TaskEnd E) → Option (Result (Unit {0}) E)
  unfolding ended
  main_result interrupted ts =
      if interrupted then some (ok tt) else exit_received (try_recv (ended ts (bounded 1)))
