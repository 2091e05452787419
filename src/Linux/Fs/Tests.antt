-- ===== src/Linux/Fs/Tests.antt =====
-- The file system calls against a kernel that grants everything, and one that refuses a call.
use porkg.Base.{ℕ, ◌+◌, ◌≡◌, refl, true, [], codes, bytes_eq, Result, ok, err}
use porkg.Linux.{Kernel, Call, pivot_root, Run}
use porkg.Linux.Script.{Ran}
use porkg.Linux.Fs.{Procfs, BindFlags, at_path, bind, pivot}
use porkg.Linux.Fs.Bind.{bind_plan, bind-Ran}
use porkg.Linux.Monitor.{performed}
use porkg.Linux.Fs.Detaching.{IsGuarded, pivot-IsGuarded}

-- A world without state; each call is answered 3.
abbrev answer : Call → Result ℕ ℕ
answer (pivot_root a b) = err 22
answer _ = ok 3

abbrev granting : Kernel
granting = record { World = Unit {0}; perform = λ c w. (ok 3, w); pair_of = λ n. (n, n + 1) }

abbrev refusing : Kernel
refusing = record { World = Unit {0}; perform = λ c w. (answer c, w); pair_of = λ n. (n, n + 1) }

abbrev procfs : Procfs
procfs = record { Failure = ℕ; mountinfo = ok (ok []); same_path = bytes_eq }

abbrev start : Run granting
start = (tt, [])

abbrev flags : BindFlags
flags = record { recursive = true; read_only = true }

bind-Ran_example :
    Ran granting
      (at_path (codes "/b"))
      (bind_plan (codes "/a") (codes "/b") flags)
      start
      (bind granting (codes "/a") (codes "/b") flags start)
bind-Ran_example = bind-Ran granting (codes "/a") (codes "/b") flags start

refused : (pivot refusing procfs (codes "/new") (tt, [])).0 ≡ err (at_path (codes "/new") 22)
unfolding pivot
refused = refl

pivot-IsGuarded_example :
    let s = (pivot granting procfs (codes "/new") (tt, [])).1 in
    (s.0 ≡ performed granting s.1 tt) × IsGuarded granting tt s.1
pivot-IsGuarded_example = pivot-IsGuarded granting procfs (codes "/new") tt
