-- ===== src/Linux/Sandbox/Joint/Tests.antt =====
-- A zygote and a worker on a kernel that grants everything; the worker waits until the zygote is done.
use porkg.Base.{
  ℕ, append-nil, ◌≡◌, refl, sym, subst, false, true, List, [], ◌∷◌, ◌++◌, map, none, Bytes, codes,
  ok, err, inl, inr,
}
use porkg.Linux.{
  Kernel, Call, Fd, open_file, write_all, close, read_exact, setresuid, setresgid, Run, done,
}
use porkg.Linux.Mappings.{
  Process, IdMappingTools, write_mappings, current_user_to_root, current_group_to_root,
}
use porkg.Linux.Clone.{Limits}
use porkg.Linux.Sandbox.{SandboxOptions}
use porkg.Linux.Sandbox.Worker.{SandboxTask, worker_main, release}
use porkg.Linux.Sandbox.Order.{Joint, lefts, Writes, Writes-append, LacksWrites}
use porkg.Linux.Sandbox.Joint.{mapped, released_first}

abbrev kernel : Kernel
kernel = record { World = Unit {0}; perform = λ c w. (ok 3, w); pair_of = λ n. (8, 9) }

abbrev process : Process
process = record {
  Failure = ℕ;
  uid = 0;
  gid = 0;
  pid = 42;
  has_setuid = ok true;
  has_setgid = ok true;
  which = λ name. err 2;
  hash_set = λ ms. ms;
}

abbrev tools : IdMappingTools
tools = record { uid_map = none; gid_map = none }

abbrev limits : Limits
limits = record { page_size = ok none; stack_limit = err 1 }

abbrev options : SandboxOptions
options = record { network_isolation = false; sandbox_uid = 500; sandbox_gid = 501 }

abbrev sandbox : SandboxTask kernel ℕ
sandbox = record {
  ExecuteError = ℕ;
  execute = λ task fds. done kernel tt;
  report = λ e. e;
  create_sandbox_options = λ task. options;
  unwound = 101;
}

abbrev start : Run kernel
start = (tt, [])

abbrev file : Bytes → Bytes → List Call
file name text = open_file (codes "/proc/7/" ++ name) ∷ write_all 3 text ∷ close 3 ∷ []

abbrev added : List Call
added =
    file (codes "uid_map") (codes "0 0 1")
    ++ file (codes "setgroups") (codes "deny")
    ++ file (codes "gid_map") (codes "0 0 1")

maps : (mapped kernel sandbox process tools 8 7 start).1.1 ≡ added
unfolding write_mappings current_user_to_root current_group_to_root
maps = refl

-- The worker's wait is over once the zygote has made all its calls.
abbrev told : List Call
told = added ++ write_all 8 (1 ∷ []) ∷ []

abbrev before : Joint
before = map inl told ++ inr (read_exact 9 1) ∷ []

abbrev after : Joint
after = inr (setresgid 501 501 501) ∷ []

written : (fd : Fd) (text : Bytes) (cs : List Call) → Writes fd (cs ++ write_all fd text ∷ [])
written fd text [] = inl (text, refl)
written fd text (c ∷ cs) = inr (written fd text cs)

-- All that the zygote does stands ahead of the worker's calls.
ahead :
    (cs : List Call) (k b b' : Joint) (d : Call)
    → map inl cs ++ k ≡ b ++ inr d ∷ b'
    → (more : List Call) × (lefts b ≡ cs ++ more)
ahead [] k b b' d same = (lefts b, refl)
ahead (c ∷ cs) k [] b' d same = absurd (cc)
ahead (c ∷ cs) k (x ∷ b) b' d same =
    let (more, rest) = ahead cs k b b' d (cc) in
    let first : x ≡ inl c = cc in (more, rw (first, rest))

streamed :
    (n : ℕ) (w : Unit {0}) (b b' : Joint)
    → kernel.perform (read_exact 9 1) tt ≡ (ok n, w)
    → before ++ inr (setresuid 500 500 500) ∷ after ≡ b ++ inr (read_exact 9 1) ∷ b'
    → Writes 8 (lefts b)
streamed n w b b' h same =
    let (more, all) = ahead told _ b b' _ same in
    subst (Writes 8) (sym all) (Writes-append 8 told more (written 8 (1 ∷ []) added))

no_write-file :
    (name text : Bytes) (cs : List Call) → LacksWrites 8 cs → LacksWrites 8 (file name text ++ cs)
no_write-file name text cs h = ((λ (t, e). cc), ((λ (t, e). cc), ((λ (t, e). cc), h)))

elsewhere : LacksWrites 8 added
elsewhere =
    no_write-file (codes "uid_map") (codes "0 0 1")
      (file (codes "setgroups") (codes "deny") ++ file (codes "gid_map") (codes "0 0 1"))
      (no_write-file (codes "setgroups") (codes "deny") (file (codes "gid_map") (codes "0 0 1"))
        (no_write-file (codes "gid_map") (codes "0 0 1") [] tt))

released_first_example :
    ((mapped kernel sandbox process tools 8 7 start).0 ≡ ok tt) × (lefts before ≡ told)
released_first_example =
    released_first kernel sandbox limits process tools 8 9 7 start start 5 [] options before after
      (setresuid 500 500 500) added (λ s. ([], sym (append-nil s.1))) streamed maps elsewhere
      (unfold release in refl) (unfold worker_main in refl) (λ e. cc)
