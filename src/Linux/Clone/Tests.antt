-- ===== src/Linux/Clone/Tests.antt =====
-- New processes, on a kernel without `clone3` and without a limit on the stack.
use porkg.Base.{ℕ, ◌+◌, ◌≡◌, refl, List, [], ◌∷◌, some, Result, ok, err}
use porkg.Linux.{Kernel, Call, CloneFlag, newpid, newuser, clone3, mmap_stack, clone, protect}
use porkg.Linux.Clone.{Limits, enosys, rlim_infinity, Callback, returns, clone_process}
use porkg.Linux.Clone.Fallback.{Made, clone_process-Made}

abbrev answer : Call → Result ℕ ℕ
answer (clone3 flags sig) = err enosys
answer (mmap_stack size) = ok 4096
answer (clone top flags sig) = ok 7
answer _ = ok 0

abbrev older : Kernel
older = record { World = Unit {0}; perform = λ c w. (answer c, w); pair_of = λ n. (n, n + 1) }

abbrev unlimited : Limits
unlimited = record { page_size = err 22; stack_limit = ok (rlim_infinity, rlim_infinity) }

abbrev flags : List CloneFlag
flags = newpid ∷ newuser ∷ []

abbrev callback : Callback older
callback s = (0, s)

placed :
    clone_process older unlimited callback flags (tt, [])
    ≡ some (
      returns (ok 7),
      (tt, clone3 flags 17 ∷ mmap_stack 8388608 ∷ protect 4096 4096 ∷ clone 8392704 flags 17 ∷ []),
    )
unfolding clone_process
placed = refl

clone_process-Made_example :
    Made older unlimited flags callback
      (tt, [])
      (clone_process older unlimited callback flags (tt, []))
clone_process-Made_example = clone_process-Made older unlimited flags callback (tt, [])
