-- ===== src/Linux.antt =====
-- crates/porkg-linux: programs of system calls. The kernel is a parameter, a function of the call and
-- of a world that it changes; the model adds the list of the calls made, in order. An action gives
-- its result or its error, and what the kernel and that list are afterwards.
pub mod Script
pub mod Monitor
pub mod Fs
pub mod Mappings
pub mod Clone
pub mod Sandbox
use porkg.Base.{ℕ, List, [], ◌∷◌, ◌++◌, Option, Bytes, Result, ok, err}

abbrev pub Errno : Type 0
Errno = ℕ

abbrev pub Fd : Type 0
Fd = ℕ

-- The flags of `mount(2)` that the program uses.
pub data MsFlag : Type 0 where
  ms_rdonly ms_noatime ms_nodiratime ms_private ms_slave ms_shared ms_relatime ms_strictatime :
      MsFlag
  ms_lazytime ms_remount ms_bind ms_rec : MsFlag

-- The flags of `umount2(2)`.
pub data MntFlag : Type 0 where
  mnt_force mnt_detach mnt_expire umount_nofollow : MntFlag

-- `CloneFlags` of clone.rs; `test_fallback` is no flag of the kernel's.
pub data CloneFlag : Type 0 where
  parent newns newcgroup newuts newipc newuser newpid newnet test_fallback : CloneFlag

-- The system calls, with their arguments. A value of a flags type is the list of its flags. The
-- call `execute` runs a program and waits for its end; its answer is the exit status.
pub data Call : Type 0 where
  mount : Option Bytes → Bytes → Option Bytes → List MsFlag → Option Bytes → Call
  umount2 : Bytes → List MntFlag → Call
  open_directory : Bytes → Call
  open_file : Bytes → Call
  write_all : Fd → Bytes → Call
  fchdir : Fd → Call
  close : Fd → Call
  pivot_root : Bytes → Bytes → Call
  setresuid : ℕ → ℕ → ℕ → Call
  setresgid : ℕ → ℕ → ℕ → Call
  execute : Bytes → List Bytes → Call
  clone3 : List CloneFlag → ℕ → Call
  clone : ℕ → List CloneFlag → ℕ → Call
  mmap_stack : ℕ → Call
  protect : ℕ → ℕ → Call
  socketpair : Call
  dup : Fd → Call
  read_exact : Fd → ℕ → Call

-- A call's answer is a number: a file descriptor, an exit status, a process id, an address, or 0;
-- what a `socketpair` answers stands for two descriptors.
pub record Kernel : Type 1 where
  pub World : Type 0
  pub perform : Call → World → Result ℕ Errno × World
  pub pair_of : ℕ → Fd × Fd

module _ (kernel : Kernel) where
  open kernel use {World, perform}

  abbrev pub Run : Type 0
  Run = World × List Call

  abbrev pub Action : Type 0 → Type 0 → Type 0
  Action A E = Run → Result A E × Run

  abbrev pub done : {A E : Type 0} → A → Action A E
  done a s = (ok a, s)

  abbrev pub fail : {A E : Type 0} → E → Action A E
  fail e s = (err e, s)

  -- `?` in front of the rest of the function.
  abbrev pub resume : {A B E : Type 0} → Result A E × Run → (A → Action B E) → Result B E × Run
  resume (err e, s) next = (err e, s)
  resume (ok a, s) next = next a s

  abbrev pub wrapped : {A E F : Type 0} → (E → F) → Result A E × Run → Result A F × Run
  wrapped f (err e, s) = (err (f e), s)
  wrapped f (ok a, s) = (ok a, s)

  -- `map_err`.
  abbrev pub mapping_err : {A E F : Type 0} → (E → F) → Action A E → Action A F
  mapping_err f m s = wrapped f (m s)

  abbrev pub and_then : {A B E : Type 0} → Action A E → (A → Action B E) → Action B E
  and_then m next s = resume (m s) next

  abbrev pub system_call : Call → Action ℕ Errno
  system_call c (w, calls) = let (r, w') = perform c w in (r, (w', calls ++ c ∷ []))

  -- The descriptor's owner is dropped at the end of the action, whatever its result.
  abbrev pub closed : {A E : Type 0} → Fd → Result A E × Run → Result A E × Run
  closed fd (r, s) = (r, (system_call (close fd) s).1)

  abbrev pub owning : {A E : Type 0} → Fd → Action A E → Action A E
  owning fd m s = closed fd (m s)

  abbrev pub ignore : {A E : Type 0} → Action A E → Action (Unit {0}) E
  ignore m = and_then m (λ _. done tt)
