-- ===== src/Child.antt =====
-- crates/porkg-private/src/os/proc.rs: a child process that is killed when its handle is dropped. The
-- operating system is a parameter: a world that the calls change, with its clock in milliseconds.
-- A signal that is sent is also written down, in order.
pub mod Waiting
pub mod Dropping
mod Tests
use porkg.Base.{
  ℕ, zero, suc, ◌+◌, ◌<◌, ◌≤◌, ◌≡◌, Bool, true, false, List, [], ◌∷◌, ◌++◌, Option, none, some,
  Result, ok, err, ltb, ◌==◌, if◌then◌else◌,
}

abbrev pub Pid : Type 0
Pid = ℕ

abbrev pub Errno : Type 0
Errno = ℕ

abbrev pub esrch : Errno
esrch = 3

abbrev pub echild : Errno
echild = 10

abbrev pub eagain : Errno
eagain = 11

abbrev pub efault : Errno
efault = 14

pub data Signal : Type 0 where
  sigterm sigkill : Signal

-- `nix::sys::wait::WaitStatus`, without its data.
pub data WaitStatus : Type 0 where
  exited signaled stopped ptrace_event continued still_alive ptrace_syscall : WaitStatus

-- The calls of the system, for one child, and the time that goes by.
pub record Os : Type 1 where
  pub World : Type 0
  pub kill : Signal → World → Result (Unit {0}) Errno × World
  pub waitpid : World → Result WaitStatus Errno × World
  pub sleep : ℕ → World → World
  pub now : World → ℕ

-- The clock goes on, and a sleep takes at least its time.
pub record IsClock (os : Os) : Type 0 where
  pub kill_later : (s : Signal) (w : os.World) → os.now w ≤ os.now (os.kill s w).1
  pub waitpid_later : (w : os.World) → os.now w ≤ os.now (os.waitpid w).1
  pub sleep_later : (n : ℕ) (w : os.World) → os.now w + n ≤ os.now (os.sleep n w)

-- `std::io::Error` as `poll` makes it: of a kind alone, or of an error number.
pub data IoError : Type 0 where
  would_block : IoError
  os_error : Errno → IoError

-- `error.kind() == ErrorKind::WouldBlock`.
abbrev pub is_would_block : IoError → Bool
is_would_block would_block = true
is_would_block (os_error e) = e == eagain

-- `raw_os_error().map(from_raw).unwrap_or(EFAULT)`.
abbrev pub errno_of : IoError → Errno
errno_of would_block = efault
errno_of (os_error e) = e

abbrev pub drop_wait_millis : ℕ
drop_wait_millis = 4500

abbrev pub kill_wait_millis : ℕ
kill_wait_millis = 500

-- `RefCell<Option<Pid>>`.
pub record ChildProcess : Type 0 where
  pub pid : Option Pid

unfoldable pub new : Pid → ChildProcess
new pid = record { pid = some pid }

-- The inner value, and the handle without it.
unfoldable pub take : ChildProcess → Option Pid × ChildProcess
take c = (c.pid, record { pid = none })

-- `none` is the panic of `unwrap`.
unfoldable pub inner : ChildProcess → Option Pid
inner c = c.pid

-- `match result` of `poll`: has the child changed to a state that ends the wait?
abbrev pub polled_status : WaitStatus → Result (Unit {0}) IoError
polled_status exited = ok tt
polled_status signaled = ok tt
polled_status stopped = ok tt
polled_status ptrace_event = err would_block
polled_status continued = err would_block
polled_status still_alive = err would_block
polled_status ptrace_syscall = err would_block

abbrev pub polled : Result WaitStatus Errno → Result (Unit {0}) IoError
polled (ok status) = polled_status status
polled (err e) = if e == echild then ok tt else err (os_error e)

module _ (os : Os) where
  open os use {World, now, sleep, waitpid}

  -- The world, and the signals sent so far.
  abbrev pub Run : Type 0
  Run = World × List Signal

  unfoldable pub poll : World → Result (Unit {0}) IoError × World
  poll w = let (r, w') = waitpid w in (polled r, w')

  -- `match Self::poll(pid)` of `kill`.
  abbrev pub after_kill : Result (Unit {0}) IoError → Result Bool Errno
  after_kill (ok _) = ok true
  after_kill (err e) = if is_would_block e then ok false else err (errno_of e)

  -- `match nix::sys::signal::kill(..)`; `true` says that the child is gone.
  abbrev pub killed : Result (Unit {0}) Errno → Run → Result Bool Errno × Run
  killed (ok _) (w, sent) = let (r, w') = poll w in (after_kill r, (w', sent))
  killed (err e) (w, sent) = (if e == esrch then ok true else err e, (w, sent))

  unfoldable pub kill : Signal → Run → Result Bool Errno × Run
  unfolding poll
  kill signal (w, sent) = let (r, w') = os.kill signal w in killed r (w', sent ++ signal ∷ [])

  -- What a round of a wait makes of the poll's answer: over, with `true` if the child is gone and
  -- `false` at the deadline; or once more, in the world after the sleep.
  pub data WaitRound : Type 0 where
    over : Result Bool Errno → World → WaitRound
    again : World → WaitRound

  abbrev pub wait_round : ℕ → Result (Unit {0}) IoError × World → WaitRound
  wait_round end (ok _, w) = over (ok true) w
  wait_round end (err e, w) =
      if is_would_block e
      then if ltb (now w) end then again (sleep 15 w) else over (ok false) w
      else over (err (errno_of e)) w

  abbrev pub go_on :
      (World → Option (Result Bool Errno × World)) → WaitRound → Option (Result Bool Errno × World)
  go_on more (over r w) = some (r, w)
  go_on more (again w) = more w

  -- The loop that waits for the child until the time `end`, on fuel.
  unfoldable pub wait_until : ℕ → ℕ → World → Option (Result Bool Errno × World)
  unfolding poll
  wait_until zero end w = none
  wait_until (suc fuel) end w = go_on (wait_until fuel end) (wait_round end (poll w))

  -- A round that goes on takes time, so that many rounds are enough.
  unfoldable pub wait : ℕ → World → Option (Result Bool Errno × World)
  unfolding wait_until
  wait millis w = wait_until (suc millis) (now w + millis) w

  abbrev pub Dropped : Type 0
  Dropped = Option (Result (Unit {0}) Errno × Run)

  -- After the second wait the child is given up.
  abbrev pub given_up : List Signal → Option (Result Bool Errno × World) → Dropped
  given_up sent none = none
  given_up sent (some (err e, w)) = some (err e, (w, sent))
  given_up sent (some (ok gone, w)) = some (ok tt, (w, sent))

  -- The answer of `kill` with SIGKILL decides on an error only.
  abbrev pub force_killed : Result Bool Errno × Run → Dropped
  force_killed (err e, s) = some (err e, s)
  force_killed (ok gone, (w, sent)) = given_up sent (wait kill_wait_millis w)

  abbrev pub waited : List Signal → Option (Result Bool Errno × World) → Dropped
  waited sent none = none
  waited sent (some (err e, w)) = some (err e, (w, sent))
  waited sent (some (ok true, w)) = some (ok tt, (w, sent))
  waited sent (some (ok false, w)) = force_killed (kill sigkill (w, sent))

  abbrev pub terminated : Result Bool Errno × Run → Dropped
  terminated (err e, s) = some (err e, s)
  terminated (ok true, s) = some (ok tt, s)
  terminated (ok false, (w, sent)) = waited sent (wait drop_wait_millis w)

  abbrev pub try_drop : Option Pid → Run → Dropped
  try_drop none s = some (ok tt, s)
  try_drop (some pid) s = terminated (kill sigterm s)

  -- `try_drop_impl`; `Drop` logs its error.
  unfoldable pub try_drop_impl : ChildProcess → Run → Dropped
  unfolding kill wait
  try_drop_impl c s = try_drop c.pid s

  -- `forget` consumes the handle, whose drop follows.
  abbrev pub forgotten : Option Pid → Dropped → Option (Pid × Run)
  forgotten none d = none
  forgotten (some pid) none = none
  forgotten (some pid) (some (r, s)) = some (pid, s)

  unfoldable pub forget : ChildProcess → Run → Option (Pid × Run)
  unfolding take try_drop_impl
  forget c s = let (pid, rest) = take c in forgotten pid (try_drop_impl rest s)
