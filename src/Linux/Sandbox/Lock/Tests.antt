-- ===== src/Linux/Sandbox/Lock/Tests.antt =====
-- Two calls of `spawn_async` at once.
use mathlib.Core.List.{Perm}
use porkg.Base.{
  ℕ, ◌+◌, All, All-replicate, replicate, none, arith, ◌≡◌, refl, true, false, List, [], ◌∷◌, ◌++◌,
  map, some, Bytes, Result, ok, err,
}
use porkg.Linux.{Kernel, Fd, done}
use porkg.Linux.Mappings.{Process, IdMappingTools}
use porkg.Linux.Clone.{Limits}
use porkg.Linux.Sandbox.{spawn_async, connect, drop_all}
use porkg.Linux.Sandbox.Commands.{Starts}
use porkg.Linux.Sandbox.Worker.{SandboxTask}
use porkg.Linux.Sandbox.Zygote.{zygote_main}
use porkg.Linux.Sandbox.Lock.Progress.{IsOver, callers_play-ends}
use porkg.Linux.Sandbox.Lock.Workers.{callers_play-Starts}
use porkg.Socket.Receive.{Answers, IsReady}
use porkg.Socket.Messages.{IsRoundTrip}
use porkg.Linux.Sandbox.Lock.{waits, Controller, callers_play}
use porkg.Linux.Sandbox.Lock.Commands.{Spawn}
use porkg.Socket.{Packet, Codec}
use porkg.Socket.Send.{bytes_of}

abbrev first : Bytes → Result ℕ ℕ
first [] = err 0
first (m ∷ _) = ok m

abbrev codec : Codec ℕ ℕ
codec = record { serialize = λ m. ok (m ∷ []); deserialize = first }

abbrev message : ℕ → List Packet
message task = (2 ∷ [], []) ∷ (1 ∷ 0 ∷ 0 ∷ 0 ∷ 0 ∷ 0 ∷ 0 ∷ 0 ∷ task ∷ [], 4 ∷ []) ∷ []

sent :
    (task : ℕ)
    → spawn_async {E = ℕ} true codec (ok 1 ∷ []) (ok 9 ∷ []) task (4 ∷ [])
      ≡ some (ok tt, message task)
unfolding spawn_async
sent task = refl

abbrev spawn : ℕ → Spawn ℕ true codec
spawn task = record {
  task = task;
  fds = 4 ∷ [];
  answers = ok 1 ∷ [];
  more_answers = ok 9 ∷ [];
  packets = message task;
  succeeds = sent task;
}

abbrev calls : List (Spawn ℕ true codec)
calls = spawn 7 ∷ spawn 8 ∷ []

-- The second gets the lock, and the first has to wait for it.
abbrev schedule : List ℕ
schedule = 1 ∷ 0 ∷ 1 ∷ 0 ∷ 1 ∷ 1 ∷ 0 ∷ 0 ∷ []

wire :
    (callers_play (λ (x : Spawn ℕ true codec). x.packets) schedule (false, map waits calls, [])).0.2
    ≡ message 8 ++ (2 ∷ [], []) ∷ []
unfolding callers_play
wire = refl

callers_play-ends_example :
    (js : List ℕ) × IsOver
      (λ (x : Spawn ℕ true codec). x.packets)
      (callers_play
        (λ (x : Spawn ℕ true codec). x.packets)
        (schedule ++ js)
        (false, map waits calls, [])).0
callers_play-ends_example = callers_play-ends (λ (x : Spawn ℕ true codec). x.packets) calls schedule

-- All have returned, and the zygote reads what they sent.
abbrev to_the_end : List ℕ
to_the_end = schedule ++ 0 ∷ 0 ∷ 0 ∷ 0 ∷ []

abbrev kernel : Kernel
kernel = record { World = Unit {0}; perform = λ c w. (ok 3, w); pair_of = λ n. (n, n + 1) }

abbrev process : Process
process = record {
  Failure = ℕ;
  uid = 0;
  gid = 0;
  pid = 42;
  has_setuid = ok true;
  has_setgid = ok true;
  which = λ name. err 2;
  hash_set = λ ms. ms;
}

abbrev tools : IdMappingTools
tools = record { uid_map = none; gid_map = none }

abbrev limits : Limits
limits = record { page_size = ok none; stack_limit = err 1 }

abbrev sandbox : SandboxTask kernel ℕ
sandbox = record {
  ExecuteError = ℕ;
  execute = λ task fds. done kernel tt;
  report = λ e. e;
  create_sandbox_options =
      λ task. record { network_isolation = false; sandbox_uid = 500; sandbox_gid = 501 };
  unwound = 101;
}

codec-IsRoundTrip : IsRoundTrip codec
codec-IsRoundTrip m body h = let same : m ∷ [] ≡ body = cc in rw (← same) (refl, omega arith)

abbrev hello : List Packet
hello = (1 ∷ [], []) ∷ []

greets : connect {E = ℕ} (ok tt) (ok 1 ∷ []) ≡ some (ok tt, hello)
unfolding connect
greets = refl

abbrev ready : Answers ℕ
ready = replicate 30 (ok (3, []))

ready-IsReady : All (IsReady {E = ℕ}) ready
ready-IsReady = All-replicate (IsReady {E = ℕ}) 30 (ok (3, [])) (omega arith)

abbrev ended : Controller (λ (x : Spawn ℕ true codec). x.packets)
ended =
    (callers_play (λ (x : Spawn ℕ true codec). x.packets) to_the_end (false, map waits calls, [])).0

-- The calls in the order in which they had the lock.
abbrev lock_order : List (Spawn ℕ true codec)
lock_order =
    (callers_play (λ (x : Spawn ℕ true codec). x.packets) to_the_end (false, map waits calls, [])).1

callers_play-Starts_example :
    Perm calls lock_order
    × ((extra : List Fd) × Starts kernel sandbox limits process tools true codec
          (map (λ (x : Spawn ℕ true codec). x.task) lock_order)
          (drop_all kernel extra (tt, []))
          (zygote_main kernel sandbox limits process tools true codec
            (record { stream = bytes_of hello ++ bytes_of ended.2; answers = ready })
            (tt, [])))
callers_play-Starts_example =
    callers_play-Starts kernel sandbox limits process tools true codec codec-IsRoundTrip (ok 1 ∷ [])
      hello calls to_the_end ready (tt, []) greets (unfold callers_play in refl)
      (unfold callers_play in refl) ready-IsReady (unfold callers_play in omega arith)
