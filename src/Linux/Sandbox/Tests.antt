-- ===== src/Linux/Sandbox/Tests.antt =====
-- A controller, a zygote and a worker for one task, on a kernel that grants everything.
use porkg.Base.{
  ℕ, ◌+◌, ◌≡◌, refl, true, false, List, [], ◌∷◌, ◌++◌, none, some, Bytes, Result, ok, err, All,
  All-replicate, replicate, arith,
}
use porkg.Linux.{Kernel, Call, Fd, clone3, read_exact, setresuid, setresgid, Run, done}
use porkg.Linux.Mappings.{Process, IdMappingTools}
use porkg.Linux.Clone.{Limits}
use porkg.Linux.Sandbox.{SandboxOptions, serialization, connect, spawn_async, drop_all}
use porkg.Linux.Sandbox.Worker.{SandboxTask, worker_main}
use porkg.Linux.Sandbox.Starting
use porkg.Linux.Sandbox.Zygote.{zygote_main}
use porkg.Linux.Sandbox.Released.{Worked, worker_main-Worked}
use porkg.Linux.Sandbox.Sending.{Commanded}
use porkg.Linux.Sandbox.Commands.{Starts, zygote_main-Starts}
use porkg.Socket.{Packet, Codec, Incoming}
use porkg.Socket.Send.{bytes_of}
use porkg.Socket.Receive.{Answers, IsReady}
use porkg.Socket.Messages.{IsRoundTrip}

abbrev answer : Call → Result ℕ ℕ
answer (clone3 flags sig) = ok 7
answer _ = ok 3

abbrev kernel : Kernel
kernel = record { World = Unit {0}; perform = λ c w. (answer c, w); pair_of = λ n. (n, n + 1) }

abbrev root_process : Process
root_process = record {
  Failure = ℕ;
  uid = 0;
  gid = 0;
  pid = 42;
  has_setuid = ok true;
  has_setgid = ok true;
  which = λ name. err 2;
  hash_set = λ ms. ms;
}

abbrev no_programs : IdMappingTools
no_programs = record { uid_map = none; gid_map = none }

abbrev limits : Limits
limits = record { page_size = ok none; stack_limit = err 1 }

abbrev options : SandboxOptions
options = record { network_isolation = false; sandbox_uid = 500; sandbox_gid = 501 }

-- A task is a number, and does nothing.
abbrev sandbox : SandboxTask kernel ℕ
sandbox = record {
  ExecuteError = ℕ;
  execute = λ task fds. done kernel tt;
  report = λ e. e;
  create_sandbox_options = λ task. options;
  unwound = 101;
}

abbrev start : Run kernel
start = (tt, [])

works :
    worker_main kernel sandbox 7 [] options 4 start
    ≡ (ok tt, (tt, read_exact 4 1 ∷ setresuid 500 500 500 ∷ setresgid 501 501 501 ∷ []))
unfolding worker_main
works = refl

worker_main-Worked_example :
    Worked kernel sandbox 7 [] options 4 start (worker_main kernel sandbox 7 [] options 4 start)
worker_main-Worked_example = worker_main-Worked kernel sandbox 7 [] options 4 start

abbrev first : Bytes → Result ℕ ℕ
first [] = err 0
first (m ∷ _) = ok m

abbrev codec : Codec ℕ ℕ
codec = record { serialize = λ m. ok (m ∷ []); deserialize = first }

codec-IsRoundTrip : IsRoundTrip codec
codec-IsRoundTrip m body h = let same : m ∷ [] ≡ body = cc in rw (← same) (refl, omega arith)

abbrev hello : List Packet
hello = (1 ∷ [], []) ∷ []

greets : connect {E = ℕ} (ok tt) (ok 1 ∷ []) ≡ some (ok tt, hello)
unfolding connect
greets = refl

abbrev spawned : List Packet
spawned = (2 ∷ [], []) ∷ (1 ∷ 0 ∷ 0 ∷ 0 ∷ 0 ∷ 0 ∷ 0 ∷ 0 ∷ 7 ∷ [], 4 ∷ []) ∷ []

spawns : spawn_async {E = ℕ} true codec (ok 1 ∷ []) (ok 9 ∷ []) 7 (4 ∷ []) ≡ some (ok tt, spawned)
unfolding spawn_async
spawns = refl

-- A task that cannot be serialised: the call fails, and the command has been sent.
half_sent :
    spawn_async {E = ℕ} true
      (record { serialize = λ (m : ℕ). err m; deserialize = first })
      (ok 1 ∷ [])
      (ok 9 ∷ [])
      7
      (4 ∷ [])
    ≡ some (err (serialization 7), (2 ∷ [], []) ∷ [])
unfolding spawn_async
half_sent = refl

commanded : Commanded ℕ true codec (7 ∷ []) (bytes_of spawned)
commanded = (ok 1 ∷ [], (ok 9 ∷ [], (4 ∷ [], (spawned, ([], spawns, refl, refl)))))

abbrev ready : Answers ℕ
ready = replicate 20 (ok (3, []))

ready-IsReady : All (IsReady {E = ℕ}) ready
ready-IsReady = All-replicate (IsReady {E = ℕ}) 20 (ok (3, [])) (omega arith)

abbrev incoming : Incoming ℕ
incoming = record { stream = bytes_of hello ++ bytes_of spawned; answers = ready }

zygote_main-Starts_example :
    (extra : List Fd) × Starts kernel {E = ℕ} sandbox limits root_process no_programs true codec
      (7 ∷ [])
      (drop_all kernel extra start)
      (zygote_main kernel sandbox limits root_process no_programs true codec incoming start)
zygote_main-Starts_example =
    zygote_main-Starts kernel sandbox limits root_process no_programs true codec codec-IsRoundTrip
      (ok 1 ∷ []) hello greets (7 ∷ []) (bytes_of spawned) commanded ready ready-IsReady
      (omega arith) start
