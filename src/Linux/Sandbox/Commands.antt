-- ===== src/Linux/Sandbox/Commands.antt =====
-- What the controller sends, the zygote does.
use porkg.Base.{
  ℕ, zero, suc, ◌+◌, ◌≡◌, ◌≤◌, ◌<◌, refl, sym, ap, ◌∙◌, subst, Bool, List, [], ◌∷◌, ◌++◌, Option,
  none, some, Bytes, Result, ok, err, All, length, length-append, arith,
}
use porkg.Linux.{Kernel, Fd, Run}
use porkg.Linux.Mappings.{Process, IdMappingTools}
use porkg.Linux.Clone.{Ended, returns, exits, Limits}
use porkg.Linux.Sandbox.{cmd_hello, cmd_start, connect, drop_all}
use porkg.Linux.Sandbox.Sending.{Commanded, Commanded-length, spawn-sent, nothing_read}
use porkg.Linux.Sandbox.Worker.{SandboxTask, StartWorkerError, start_worker}
use porkg.Linux.Sandbox.Zygote.{
  waiting, failed, exited, starting, ZygoteOutcome, Rest, worker_started, task_read, command_read,
  hello_read, zygote_loop, zygote_main,
}
use porkg.Socket.{Packet, Incoming, Codec, recv_exact, recv_message}
use porkg.Socket.Send.{bytes_of, send_all-bytes}
use porkg.Socket.Receive.{Answers, IsReady}
use porkg.Socket.Messages.{IsRoundTrip, recv_exact-front, recv_message-send_message}

module _ (kernel : Kernel) {T E S : Type 0} (sandbox : SandboxTask kernel T) (limits : Limits)
    (process : Process) (tools : IdMappingTools) (little : Bool) (codec : Codec T S) where
  -- How the zygote goes on once a worker is started.
  abbrev pub GoesOn :
      (Run kernel → Type 0)
      → Option (Ended (Result (Unit {0}) StartWorkerError) × Run kernel)
      → ZygoteOutcome kernel E S
      → Type 0
  GoesOn next none o = o ≡ none
  GoesOn next (some (exits code, s)) o = o ≡ some (exited code, s)
  GoesOn next (some (returns (err e), s)) o = o ≡ some (failed (starting e), s)
  GoesOn next (some (returns (ok _), s)) o = next s

  -- A worker is started for each task, in order, with the options that it asks for and with the
  -- descriptors of its message, until a start fails; then the zygote waits.
  abbrev pub Starts : List T → Run kernel → ZygoteOutcome kernel E S → Type 0
  Starts [] s o = o ≡ some (waiting, s)
  Starts (task ∷ tasks) s o =
      (extra : List Fd) × ((fds : List Fd) × GoesOn (λ s'. Starts tasks s' o)
          (start_worker kernel sandbox limits process tools task fds
            (sandbox.create_sandbox_options task) (drop_all kernel extra s))
          o)

  worker_started-GoesOn :
      (rest : Rest kernel E S) (next : Run kernel → ZygoteOutcome kernel E S → Type 0)
      (i : Incoming E) (started : Option (Ended (Result (Unit {0}) StartWorkerError) × Run kernel))
      → ((s : Run kernel) → next s (rest i s))
      → let o = worker_started kernel sandbox limits process tools little codec rest i started in
        GoesOn (λ s. next s o) started o
  worker_started-GoesOn rest next i none h = refl
  worker_started-GoesOn rest next i (some (exits code, s)) h = refl
  worker_started-GoesOn rest next i (some (returns (err e), s)) h = refl
  worker_started-GoesOn rest next i (some (returns (ok _), s)) h = h s

  -- The zygote's loop, at the start of a command.
  zygote_loop-step :
      (fuel : ℕ) (i i1 i2 : Incoming E) (s : Run kernel) (task : T) (extra fds : List Fd)
      → recv_exact 1 [] i ≡ some (ok (cmd_start ∷ [], extra), i1)
      → recv_message little codec [] i1 ≡ some (ok (task, fds), i2)
      → zygote_loop kernel sandbox limits process tools little codec (suc fuel) i s
        ≡ worker_started kernel sandbox limits process tools little codec
            (λ i s. zygote_loop kernel sandbox limits process tools little codec fuel i s)
            i2
            (start_worker kernel sandbox limits process tools task fds
              (sandbox.create_sandbox_options task)
              (drop_all kernel extra s))
  unfolding zygote_loop
  zygote_loop-step fuel i i1 i2 s task extra fds first second =
      let rest : Rest kernel E S =
        λ i s. zygote_loop kernel sandbox limits process tools little codec fuel i s in
      ap (command_read kernel sandbox limits process tools little codec rest s) first
      ∙ ap
          (task_read kernel sandbox limits process tools little codec rest
            (drop_all kernel extra s))
          second

  zygote_loop-waits :
      (fuel : ℕ) (i : Incoming E) (s : Run kernel)
      → recv_exact 1 [] i ≡ none
      → zygote_loop kernel sandbox limits process tools little codec (suc fuel) i s
        ≡ some (waiting, s)
  unfolding zygote_loop
  zygote_loop-waits fuel i s h =
      ap
        (command_read kernel sandbox limits process tools little codec
          (λ i s. zygote_loop kernel sandbox limits process tools little codec fuel i s) s)
        h

  module _ (laws : IsRoundTrip codec) where
    zygote_loop-Starts :
        (tasks : List T) (b : Bytes)
        → Commanded E little codec tasks b
        → (answers : Answers E) → All IsReady answers
        → length b ≤ length answers
        → (fuel : ℕ) → length tasks < fuel
        → (s : Run kernel)
        → Starts tasks s (
            zygote_loop kernel sandbox limits process tools little codec fuel
              (record { stream = b; answers = answers })
              s)
    zygote_loop-Starts [] b cmd answers ready many zero enough s = absurd (omega arith)
    zygote_loop-Starts (task ∷ tasks) b cmd answers ready many zero enough s = absurd (omega arith)
    zygote_loop-Starts [] b cmd answers ready many (suc fuel) enough s =
        zygote_loop-waits fuel _ s (
          subst (λ b. recv_exact 1 [] (record { stream = b; answers = answers }) ≡ none) (sym cmd)
            (nothing_read answers ready))
    zygote_loop-Starts (task ∷ tasks) b (calls, (calls', (fds, (ps, (rest, sent, split, cmd)))))
          answers ready many (suc fuel) enough s =
        let (qs, message, text) = spawn-sent little codec calls calls' task fds ps sent in
        let whole : b ≡ cmd_start ∷ bytes_of qs ++ rest = split ∙ ap (λ t. t ++ rest) text in
        let size : length b ≡ suc (length (bytes_of qs) + length rest) =
          ap length whole ∙ ap suc (length-append (bytes_of qs) rest) in
        let (extra, (left1, run1, ready1, count1)) =
          recv_exact-front (cmd_start ∷ []) (bytes_of qs ++ rest) [] answers ready (omega arith) in
        let (fds', (left2, run2, ready2, count2)) =
          recv_message-send_message little codec laws calls' task fds qs message rest left1 ready1
            (omega arith) in
        let start =
          subst
            (λ t.
              recv_exact 1 [] (record { stream = t; answers = answers })
              ≡ some (
                ok (cmd_start ∷ [], extra),
                record { stream = bytes_of qs ++ rest; answers = left1 },
              ))
            (sym whole) run1 in
        let started =
          start_worker kernel sandbox limits process tools task fds'
            (sandbox.create_sandbox_options task) (drop_all kernel extra s) in
        let rest_of : Rest kernel E S =
          λ i s. zygote_loop kernel sandbox limits process tools little codec fuel i s in
        (
          extra,
          (
            fds',
            subst (λ o. GoesOn (λ s'. Starts tasks s' o) started o)
                (sym (zygote_loop-step fuel _ _ _ s task extra fds' start run2))
                (worker_started-GoesOn rest_of (Starts tasks)
                  (record { stream = rest; answers = left2 }) started
                  (zygote_loop-Starts tasks rest cmd left2 ready2 (omega arith) fuel
                    (omega arith))),
          ),
        )

    -- After a successful `connect` and successful calls of `spawn_async`, one for each task, the
    -- zygote starts a worker for each task, in the order of the calls, until a start fails or
    -- panics, and then waits for more; a run in a new process exits there. The task's codec reads
    -- what it wrote, and the kernel of the zygote gives something at each of at least as many calls
    -- as bytes were sent.
    pub zygote_main-Starts :
        (calls : List (Result ℕ E)) (hello : List Packet)
        → connect (ok tt) calls ≡ some (ok tt, hello)
        → (tasks : List T) (b : Bytes) → Commanded E little codec tasks b
        → (answers : Answers E) → All IsReady answers
        → length (bytes_of hello ++ b) ≤ length answers
        → (s : Run kernel)
        → (extra : List Fd) × Starts tasks (drop_all kernel extra s) (
            zygote_main kernel sandbox limits process tools little codec
              (record { stream = bytes_of hello ++ b; answers = answers })
              s)
    unfolding zygote_main connect
    zygote_main-Starts calls hello sent tasks b cmd answers ready many s =
        let text : bytes_of hello ≡ cmd_hello ∷ [] =
          send_all-bytes calls (cmd_hello ∷ []) [] hello sent in
        let size : length (bytes_of hello ++ b) ≡ suc (length b) = ap (λ t. length (t ++ b)) text in
        let (extra, (left, run, ready', count)) =
          recv_exact-front (cmd_hello ∷ []) b [] answers ready (omega arith) in
        let same : recv_exact 1 [] (record { stream = bytes_of hello ++ b; answers = answers })
            ≡ some (ok (cmd_hello ∷ [], extra), record { stream = b; answers = left }) =
          subst
            (λ t.
              recv_exact 1 [] (record { stream = t ++ b; answers = answers })
              ≡ some (ok (cmd_hello ∷ [], extra), record { stream = b; answers = left }))
            (sym text) run in
        (
          extra,
          subst (Starts tasks (drop_all kernel extra s))
              (sym (
                ap
                  (hello_read kernel sandbox limits process tools little codec
                    (suc (length answers)) s)
                  same))
              (zygote_loop-Starts tasks b cmd left ready' (omega arith) (suc (length answers))
                (omega (arith, Commanded-length E little codec tasks b cmd))
                (drop_all kernel extra s)),
        )
