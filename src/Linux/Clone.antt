-- ===== src/Linux/Clone.antt =====
-- crates/porkg-linux/src/clone.rs: a new process that runs a callback. The system call returns twice:
-- with 0 in the new process, which runs the callback and exits with its code, and with the new id in
-- the old one; the kernel's answer decides which of the two this run is. A raw answer of -1 is the
-- error number here; below that no answer is documented.
pub mod Fallback
mod Tests
use porkg.Base.{
  ℕ, zero, suc, ◌+◌, ◌*◌, ◌-◌, ◌^◌, Bool, true, false, ◌||◌, List, [], ◌∷◌, ◌++◌, Option, none,
  some, Result, ok, err, ◌==◌, if◌then◌else◌,
}
use porkg.Linux.{
  Kernel, Call, Errno, CloneFlag, parent, test_fallback, clone3, clone, mmap_stack, protect, Action,
  Run, resume, wrapped, mapping_err, and_then, system_call,
}

abbrev pub Pid : Type 0
Pid = ℕ

abbrev pub enosys : Errno
enosys = 38

abbrev pub sigchld : ℕ
sigchld = 17

abbrev pub is_parent : CloneFlag → Bool
is_parent parent = true
is_parent _ = false

abbrev pub is_test_fallback : CloneFlag → Bool
is_test_fallback test_fallback = true
is_test_fallback _ = false

-- `contains` and `intersects` of a single flag.
abbrev pub contains : (CloneFlag → Bool) → List CloneFlag → Bool
contains p [] = false
contains p (f ∷ fs) = p f || contains p fs

-- `difference` of a single flag.
abbrev pub without : (CloneFlag → Bool) → List CloneFlag → List CloneFlag
without p [] = []
without p (f ∷ fs) = if p f then without p fs else f ∷ without p fs

-- How a run of the code ends: it returns, or the process exits with a code.
pub data Ended (A : Type 0) : Type 0 where
  returns : A → Ended A
  exits : ℕ → Ended A

-- What the system says of pages and of the stack's limit: `sysconf` and `getrlimit`.
pub record Limits : Type 0 where
  pub page_size : Result (Option ℕ) Errno
  pub stack_limit : Result (ℕ × ℕ) Errno

abbrev pub default_stack_size : ℕ
default_stack_size = 8 * 1024 * 1024

abbrev pub default_page_size : ℕ
default_page_size = 4 * 1024

abbrev pub rlim_infinity : ℕ
rlim_infinity = 2 ^ 64 - 1

unfoldable pub interpret_limit : ℕ → Option ℕ
interpret_limit limit = if limit == rlim_infinity then none else some limit

abbrev pub page_size_of : Result (Option ℕ) Errno → ℕ
page_size_of (ok none) = default_page_size
page_size_of (ok (some n)) = n
page_size_of (err e) = default_page_size

abbrev pub size_or_default : Option ℕ → ℕ
size_or_default none = default_stack_size
size_or_default (some n) = n

-- The size of the new stack.
unfoldable pub stack_size_of : Result (ℕ × ℕ) Errno → ℕ
unfolding interpret_limit
stack_size_of (err e) = default_stack_size
stack_size_of (ok (current, max)) = size_or_default (interpret_limit current)

abbrev pub exit_signal_of : List CloneFlag → ℕ
exit_signal_of flags = if contains is_parent flags then 0 else sigchld

module _ (kernel : Kernel) where
  -- The callback in the new process, with its exit code.
  abbrev pub Callback : Type 0
  Callback = Run kernel → ℕ × Run kernel

  abbrev pub Outcome : Type 0
  Outcome = Ended (Result Pid Errno) × Run kernel

  abbrev pub exiting : ℕ × Run kernel → Outcome
  exiting (code, s) = (exits code, s)

  -- `match` on the answer of `clone3`.
  abbrev pub cloned3 : Callback → Result ℕ Errno × Run kernel → Outcome
  cloned3 cb (err e, s) = (returns (err e), s)
  cloned3 cb (ok zero, s) = exiting (cb s)
  cloned3 cb (ok (suc pid), s) = (returns (ok (suc pid)), s)

  unfoldable pub clone3_call : Callback → List CloneFlag → ℕ → Run kernel → Outcome
  clone3_call cb flags exit_signal s =
      if contains is_test_fallback flags
      then (returns (err enosys), s)
      else cloned3 cb (system_call kernel (clone3 flags exit_signal) s)

  -- `match ret` of `clone_fallback`. The new process starts in `clone_main` and never gets here: the
  -- kernel's answer of 0 stands for it.
  abbrev pub cloned : Callback → Result ℕ Errno × Run kernel → Outcome
  cloned cb (err e, s) = (returns (err e), s)
  cloned cb (ok zero, s) = exiting (cb s)
  cloned cb (ok (suc pid), s) = (returns (ok (suc pid)), s)

  abbrev pub with_guard : Callback → List CloneFlag → ℕ → ℕ → Result ℕ Errno × Run kernel → Outcome
  with_guard cb flags exit_signal top (err e, s) = (returns (err e), s)
  with_guard cb flags exit_signal top (ok _, s) =
      cloned cb (system_call kernel (clone top flags exit_signal) s)

  abbrev pub with_stack :
      Callback → List CloneFlag → ℕ → ℕ → ℕ → Result ℕ Errno × Run kernel → Outcome
  with_stack cb flags exit_signal page_size size (err e, s) = (returns (err e), s)
  with_stack cb flags exit_signal page_size size (ok child_stack, s) =
      with_guard cb flags exit_signal (child_stack + size)
        (system_call kernel (protect child_stack page_size) s)

  abbrev pub with_size : Callback → List CloneFlag → ℕ → ℕ → ℕ → Run kernel → Option Outcome
  with_size cb flags exit_signal page_size zero s = none
  with_size cb flags exit_signal page_size (suc size) s = some (
      with_stack cb flags exit_signal page_size (suc size)
        (system_call kernel (mmap_stack (suc size)) s))

  -- `none` is the panic on a stack of size 0.
  unfoldable pub clone_fallback :
      Limits → Callback → List CloneFlag → ℕ → Run kernel → Option Outcome
  unfolding stack_size_of
  clone_fallback limits cb flags exit_signal s =
      with_size cb flags exit_signal (page_size_of limits.page_size)
        (stack_size_of limits.stack_limit) s

  -- `match clone3(..)` of `Syscall::clone`; `CloneError` wraps the error number.
  abbrev pub or_fallback : (Run kernel → Option Outcome) → Outcome → Option Outcome
  or_fallback fallback (exits code, s) = some (exits code, s)
  or_fallback fallback (returns (ok pid), s) = some (returns (ok pid), s)
  or_fallback fallback (returns (err e), s) =
      if e == enosys then fallback s else some (returns (err e), s)

  unfoldable pub clone_process : Limits → Callback → List CloneFlag → Run kernel → Option Outcome
  unfolding clone3_call clone_fallback
  clone_process limits cb flags s =
      or_fallback (clone_fallback limits cb (without is_test_fallback flags) (exit_signal_of flags))
        (clone3_call cb flags (exit_signal_of flags) s)
