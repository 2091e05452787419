-- ===== src/Linux/Mappings/Groups.antt =====
-- The group mapping of another process is written only after `setgroups` has been denied to it.
use porkg.Base.{
  ℕ, zero, suc, ◌≡◌, ◌≢◌, ◌⊎◌, inl, inr, refl, Bool, true, false, ◌&&◌, ◌==◌, List, [], ◌∷◌, ◌++◌,
  Option, none, some, Bytes, codes, bytes_eq, bytes_ne, bytes_eq_iff, ==_iff, Result, ok, err,
  if◌then◌else◌,
}
use porkg.Linux.{Kernel, Call, Errno, Fd, open_file, write_all, close, execute, Run, Action, resume}
use porkg.Linux.Monitor.{
  performed, Follows, Adds, done-Adds, call-Adds, wrapped-Adds, resume-Adds, closed-Adds,
}
use porkg.Linux.Mappings.{
  IdMapping, IdMappingTools, WriteMappingsError, io, shadow_utils, no_tools, Process, proc_path,
  to_string, tool_args, write_file, map_direct, map_shadowutils, succeeded, map_with, map_users,
  map_groups, pid_or_this, can_direct, write_mappings,
}

append_left_cancel : (p s t : Bytes) → p ++ s ≡ p ++ t → s ≡ t
append_left_cancel [] s t h = h
append_left_cancel (c ∷ p) s t h = append_left_cancel p s t cc

-- The files of one process are different.
proc_path-injective : (pid : ℕ) (f g : Bytes) → proc_path pid f ≡ proc_path pid g → f ≡ g
unfolding proc_path
proc_path-injective pid f g h =
    let names : 47 ∷ f ≡ 47 ∷ g =
      append_left_cancel (to_string pid) (47 ∷ f) (47 ∷ g)
        (append_left_cancel (codes "/proc/") _ _ h) in
    cc

-- How far the denial is: not begun, with the file at `setgroups` open at a descriptor, or written.
pub data Denial : Type 0 where
  allowing : Denial
  open_at : Fd → Denial
  denied : Denial

module _ (pid : ℕ) where
  -- A file that the kernel has opened.
  abbrev opens : Bytes → Fd → Denial → Denial
  opens path fd denied = denied
  opens path fd m = if bytes_eq path (proc_path pid (codes "setgroups")) then open_at fd else m

  -- A text that the kernel has written whole.
  abbrev writes : Fd → Bytes → Denial → Denial
  writes fd text allowing = allowing
  writes fd text (open_at n) =
      if (fd == n) && bytes_eq text (codes "deny") then denied else open_at n
  writes fd text denied = denied

  abbrev closes : Fd → Denial → Denial
  closes fd allowing = allowing
  closes fd (open_at n) = if fd == n then allowing else open_at n
  closes fd denied = denied

  -- A call that fails changes nothing.
  abbrev denying : Denial → Call → Result ℕ Errno → Denial
  denying m (open_file path) (ok fd) = opens path fd m
  denying m (write_all fd text) (ok n) = writes fd text m
  denying m (close fd) r = closes fd m
  denying m _ r = m

  -- The file at `gid_map` is opened only when the denial is written.
  abbrev MayOpen : Bytes → Denial → Type 0
  MayOpen path allowing = path ≢ proc_path pid (codes "gid_map")
  MayOpen path (open_at n) = path ≢ proc_path pid (codes "gid_map")
  MayOpen path denied = Unit {0}

  abbrev IsAllowed : Denial → Call → Type 0
  IsAllowed m (open_file path) = MayOpen path m
  IsAllowed m _ = Unit {0}

  abbrev pub IsCareful : (kernel : Kernel) → kernel.World → List Call → Type 0
  IsCareful kernel w calls = Follows kernel Denial denying IsAllowed allowing w calls

  other-MayOpen :
      (path : Bytes) (m : Denial) → path ≢ proc_path pid (codes "gid_map") → MayOpen path m
  other-MayOpen path allowing h = h
  other-MayOpen path (open_at n) h = h
  other-MayOpen path denied h = tt

  file-MayOpen :
      (file : Bytes) (m : Denial)
      → bytes_eq file (codes "gid_map") ≡ false
      → MayOpen (proc_path pid file) m
  file-MayOpen file m h =
      other-MayOpen (proc_path pid file) m
        (λ e. bytes_ne file (codes "gid_map") h (proc_path-injective pid _ _ e))

  -- The file at `setgroups` is open at this descriptor, if the denial is not written.
  abbrev IsDenying : Fd → Denial → Type 0
  IsDenying fd m = (m ≡ open_at fd) ⊎ (m ≡ denied)

  opens-IsDenying :
      (fd : Fd) (m : Denial) → IsDenying fd (opens (proc_path pid (codes "setgroups")) fd m)
  opens-IsDenying fd allowing =
      rw ((bytes_eq_iff (proc_path pid (codes "setgroups")) _).1 refl) (inl refl)
  opens-IsDenying fd (open_at n) =
      rw ((bytes_eq_iff (proc_path pid (codes "setgroups")) _).1 refl) (inl refl)
  opens-IsDenying fd denied = inr refl

  writes-denied : (fd : Fd) (m : Denial) → IsDenying fd m → writes fd (codes "deny") m ≡ denied
  writes-denied fd m (inl here) = rw (here, (==_iff fd fd).1 refl) refl
  writes-denied fd m (inr already) = rw already refl

  module _ (kernel : Kernel) where
    -- A program with such calls alone, and what is known where it succeeds.
    abbrev Careful :
        {A E : Type 0} → (Denial → Type 0) → Denial → Run kernel → Result A E × Run kernel → Type 0
    Careful P m s p = Adds kernel Denial denying IsAllowed (λ _. P) m s p

    abbrev Anything : Denial → Type 0
    Anything m = Unit {0}

    joined-Careful :
        {A B E : Type 0} (P Q : Denial → Type 0) (m : Denial) (s : Run kernel)
        (p : Result A E × Run kernel) (next : A → Action kernel B E)
        → Careful P m s p
        → ((a : A) (m' : Denial) → P m' → Careful Q m' p.1 (next a p.1))
        → Careful Q m s (resume kernel p next)
    joined-Careful P Q m s p next h rest =
        resume-Adds kernel Denial denying IsAllowed (λ _. P) (λ _. Q) m s p next h rest

    -- A file is opened, written and closed.
    write_file-Careful :
        (P : Fd → Denial → Type 0) (Q : Denial → Type 0) (m : Denial) (s : Run kernel)
        (path text : Bytes)
        → MayOpen path m
        → ((fd : Fd) → P fd (opens path fd m))
        → ((fd : Fd) (m1 : Denial) → P fd m1 → Q (writes fd text m1))
        → ((fd : Fd) (m2 : Denial) → Q m2 → Q (closes fd m2))
        → Careful Q m s (write_file kernel path text s)
    write_file-Careful P Q m s path text may opened written closed =
        resume-Adds kernel Denial denying IsAllowed P (λ _. Q) m s _ _
          (wrapped-Adds kernel Denial denying IsAllowed P io m s _
            (call-Adds kernel Denial denying IsAllowed P m s (open_file path) may opened))
          (λ fd m1 h.
            closed-Adds kernel Denial denying IsAllowed (λ _. Q) (λ _. Q) m1 _ fd _ (λ _. tt)
              (λ _ m2 _ g. closed fd m2 g)
              (joined-Careful Q Q m1 _ _ _
                (wrapped-Adds kernel Denial denying IsAllowed (λ _. Q) io m1 _ _
                  (call-Adds kernel Denial denying IsAllowed (λ _. Q) m1 _ (write_all fd text) tt
                    (λ _. written fd m1 h)))
                (λ _ m2 g.
                  done-Adds kernel Denial denying IsAllowed {E = WriteMappingsError} (λ _. Q) m2 _
                    (ok tt) g)))

    -- A file that may be opened, of which no more is said.
    plain-Careful :
        (m : Denial) (s : Run kernel) (path text : Bytes)
        → MayOpen path m
        → Careful Anything m s (write_file kernel path text s)
    plain-Careful m s path text may =
        write_file-Careful (λ _. Anything) Anything m s path text may (λ _. tt) (λ _ _ _. tt)
          (λ _ _ _. tt)

    deny-Careful :
        (m : Denial) (s : Run kernel)
        → Careful
            (λ m'. m' ≡ denied)
            m
            s
            (write_file kernel (proc_path pid (codes "setgroups")) (codes "deny") s)
    deny-Careful m s =
        write_file-Careful IsDenying (λ m'. m' ≡ denied) m s _ _
          (file-MayOpen (codes "setgroups") m refl) (λ fd. opens-IsDenying fd m) writes-denied
          (λ fd m2 h. rw h refl)

    succeeded-Careful :
        (m : Denial) (status : ℕ) (s : Run kernel)
        → Careful Anything m s (succeeded kernel status s)
    succeeded-Careful m zero s =
        done-Adds kernel Denial denying IsAllowed {A = Unit {0}} {E = WriteMappingsError}
          (λ _. Anything) m s (ok tt) tt
    succeeded-Careful m (suc n) s =
        done-Adds kernel Denial denying IsAllowed {A = Unit {0}} {E = WriteMappingsError}
          (λ _. Anything) m s (err shadow_utils) tt

    map_with-Careful :
        (m : Denial) (tool : Option Bytes) (ms : List IdMapping) (s : Run kernel)
        → Careful Anything m s (map_with kernel pid tool ms s)
    unfolding map_shadowutils
    map_with-Careful m none ms s =
        done-Adds kernel Denial denying IsAllowed {A = Unit {0}} {E = WriteMappingsError}
          (λ _. Anything) m s (err no_tools) tt
    map_with-Careful m (some tool) ms s =
        joined-Careful Anything Anything m s _ _
          (wrapped-Adds kernel Denial denying IsAllowed (λ _. Anything) (λ _. shadow_utils) m s _
            (call-Adds kernel Denial denying IsAllowed (λ _. Anything) m s
              (execute tool (tool_args pid ms)) tt (λ _. tt)))
          (λ status m' _. succeeded-Careful m' status _)

    map_users-Careful :
        (m : Denial) (direct : Bool) (tool : Option Bytes) (users : List IdMapping) (s : Run kernel)
        → Careful Anything m s (map_users kernel pid direct tool users s)
    unfolding map_direct
    map_users-Careful m true tool users s =
        plain-Careful m s _ _ (file-MayOpen (codes "uid_map") m refl)
    map_users-Careful m false tool users s = map_with-Careful m tool users s

    map_groups-Careful :
        (m : Denial) (direct : Bool) (tool : Option Bytes) (groups : List IdMapping)
        (s : Run kernel)
        → Careful Anything m s (map_groups kernel pid direct tool groups s)
    unfolding map_direct
    map_groups-Careful m false tool groups s = map_with-Careful m tool groups s
    map_groups-Careful m true tool groups s =
        joined-Careful (λ m'. m' ≡ denied) Anything m s _ _ (deny-Careful m s)
          (λ _ m' safe. plain-Careful m' _ _ _ (rw safe tt))

-- The calls that `write_mappings` adds to those made, from any run on.
write_mappings-Careful :
    (kernel : Kernel) (process : Process) (target : Option ℕ) (users groups : List IdMapping)
    (tools : IdMappingTools) (s : Run kernel)
    → Careful
        (pid_or_this kernel process target)
        kernel
        (λ _. Unit {0})
        allowing
        s
        (write_mappings kernel process target users groups tools s)
unfolding write_mappings
write_mappings-Careful kernel process target users groups tools s =
    let pid = pid_or_this kernel process target in
    let us = process.hash_set users in
    let gs = process.hash_set groups in
    let direct = can_direct process.uid process.has_setuid us in
    let direct_groups = can_direct process.gid process.has_setgid gs in
    let first = map_users kernel pid direct tools.uid_map us s in
    joined-Careful pid kernel (λ _. Unit) (λ _. Unit) allowing s first
      (λ _. map_groups kernel pid direct_groups tools.gid_map gs)
      (map_users-Careful pid kernel allowing direct tools.uid_map us s)
      (λ _ m' _. map_groups-Careful pid kernel m' direct_groups tools.gid_map gs first.1)

-- Whatever the kernel answers: its world after `write_mappings` is that after the calls listed, one
-- after the other, and of these the file at `gid_map` of the process's directory in `/proc` is opened
-- only once the kernel has opened the file at `setgroups` there and written "deny" to that descriptor,
-- not closed in between, both with success.
pub write_mappings-IsCareful :
    (kernel : Kernel) (process : Process) (target : Option ℕ) (users groups : List IdMapping)
    (tools : IdMappingTools) (w : kernel.World)
    → let s = (write_mappings kernel process target users groups tools (w, [])).1 in
      (s.0 ≡ performed kernel s.1 w) × IsCareful (pid_or_this kernel process target) kernel w s.1
write_mappings-IsCareful kernel process target users groups tools w =
    let (added, made, world, follows, _) =
      write_mappings-Careful kernel process target users groups tools (w, []) in
    rw made (world, follows)
