-- ===== src/Linux/Sandbox/Fuel.antt =====
-- The zygote's loop has enough fuel: each round uses an answer of the kernel at least.
use porkg.Base.{
  ℕ, zero, suc, ◌≡◌, ◌≤◌, ◌<◌, refl, ap, if◌then◌else◌, Bool, List, [], ◌∷◌, Option, none, some,
  Bytes, Result, ok, err, length, ◌==◌, arith,
}
use porkg.Linux.{Kernel, Fd, Run}
use porkg.Linux.Mappings.{Process, IdMappingTools}
use porkg.Linux.Clone.{Ended, returns, exits, Limits}
use porkg.Linux.Sandbox.{cmd_start, drop_all}
use porkg.Linux.Sandbox.Worker.{SandboxTask, StartWorkerError}
use porkg.Linux.Sandbox.Zygote.{
  failed, unknown_command, Rest, Command, first_byte, worker_started, task_read, command,
  command_read, hello_read, zygote_loop, zygote_main,
}
use porkg.Socket.{
  Incoming, Codec, Received, recv_loop, recv_exact, recv_message, with_header, with_body, decoded,
  header_size, from_ne_bytes,
}
use porkg.Socket.Receive.{Answers}

-- Fewer answers than so many are left.
abbrev LeavesFewer : {A E : Type 0} → ℕ → Option (A × Incoming E) → Type 0
LeavesFewer n none = Unit {0}
LeavesFewer n (some (r, i)) = length i.answers < n

LeavesFewer-le :
    {A E : Type 0} (m n : ℕ) (o : Option (A × Incoming E))
    → m ≤ n
    → LeavesFewer m o
    → LeavesFewer n o
LeavesFewer-le m n none le h = h
LeavesFewer-le m n (some (r, i)) le h = omega arith

recv_loop-leaves :
    {E : Type 0} (answers : Answers E) (room : ℕ) (stream read : Bytes) (fds : List Fd)
    → LeavesFewer (suc (length answers)) (recv_loop answers room stream read fds)
unfolding recv_loop
recv_loop-leaves answers zero stream read fds = omega arith
recv_loop-leaves [] (suc room) stream read fds = tt
recv_loop-leaves (err e ∷ answers) (suc room) stream read fds = omega arith
recv_loop-leaves (ok (count, new) ∷ answers) (suc room) stream read fds =
    LeavesFewer-le (suc (length answers)) (suc (suc (length answers))) _ (omega arith)
      (recv_loop-leaves answers _ _ _ _)

recv_exact-leaves :
    {E : Type 0} (i : Incoming E) (room : ℕ) (fds : List Fd)
    → LeavesFewer (suc (length i.answers)) (recv_exact room fds i)
unfolding recv_exact
recv_exact-leaves i room fds = recv_loop-leaves i.answers room i.stream [] fds

-- A read of one byte uses an answer.
command_leaves :
    {E : Type 0} (answers : Answers E) (stream : Bytes)
    → LeavesFewer (length answers) (recv_exact 1 [] (record { stream = stream; answers = answers }))
unfolding recv_exact recv_loop
command_leaves [] stream = tt
command_leaves (err e ∷ answers) stream = omega arith
command_leaves (ok (count, new) ∷ answers) stream = (recv_loop-leaves answers _ _ _ _)

module _ {T E S : Type 0} (little : Bool) (codec : Codec T S) where
  decoded-leaves :
      (n : ℕ) (fds : List Fd) (i : Incoming E) (r : Result T S)
      → length i.answers < n
      → LeavesFewer n (decoded little codec fds i r)
  decoded-leaves n fds i (ok m) h = h
  decoded-leaves n fds i (err e) h = h

  with_body-leaves :
      (n : ℕ) (o : Option (Result (Bytes × List Fd) E × Incoming E))
      → LeavesFewer n o
      → LeavesFewer n (with_body little codec o)
  with_body-leaves n none h = tt
  with_body-leaves n (some (err e, i)) h = h
  with_body-leaves n (some (ok (body, fds), i)) h =
      decoded-leaves n fds i (codec.deserialize body) h

  with_header-leaves :
      (n : ℕ) (o : Option (Result (Bytes × List Fd) E × Incoming E))
      → LeavesFewer n o
      → LeavesFewer n (with_header little codec o)
  with_header-leaves n none h = tt
  with_header-leaves n (some (err e, i)) h = h
  with_header-leaves n (some (ok (header, fds), i)) h =
      let size = from_ne_bytes little header in
      with_body-leaves n (recv_exact size fds i) (
        LeavesFewer-le (suc (length i.answers)) n (recv_exact size fds i) h
          (recv_exact-leaves i size fds))

  recv_message-leaves :
      (fds : List Fd) (i : Incoming E)
      → LeavesFewer (suc (length i.answers)) (recv_message little codec fds i)
  unfolding recv_message
  recv_message-leaves fds i = with_header-leaves _ _ (recv_exact-leaves i header_size fds)

module _ (kernel : Kernel) {T E S : Type 0} (sandbox : SandboxTask kernel T) (limits : Limits)
    (process : Process) (tools : IdMappingTools) (little : Bool) (codec : Codec T S) where
  -- Two ways to go on that agree while fewer than so many answers are left.
  abbrev Agree : ℕ → Rest kernel E S → Rest kernel E S → Type 0
  Agree n f g = (i : Incoming E) (s : Run kernel) → length i.answers < n → f i s ≡ g i s

  module _ (n : ℕ) (f g : Rest kernel E S) (agree : Agree n f g) where
    worker_started-agree :
        (i : Incoming E) (o : Option (Ended (Result (Unit {0}) StartWorkerError) × Run kernel))
        → length i.answers < n
        → worker_started kernel sandbox limits process tools little codec f i o
          ≡ worker_started kernel sandbox limits process tools little codec g i o
    worker_started-agree i none h = refl
    worker_started-agree i (some (exits code, s)) h = refl
    worker_started-agree i (some (returns (err e), s)) h = refl
    worker_started-agree i (some (returns (ok _), s)) h = agree i s h

    task_read-agree :
        (s : Run kernel) (o : Received T E S)
        → LeavesFewer n o
        → task_read kernel sandbox limits process tools little codec f s o
          ≡ task_read kernel sandbox limits process tools little codec g s o
    task_read-agree s none h = refl
    task_read-agree s (some (err e, i)) h = refl
    task_read-agree s (some (ok (task, fds), i)) h = worker_started-agree i _ h

    command-agree :
        (s : Run kernel) (c : ℕ) (i : Incoming E)
        → length i.answers < n
        → command kernel sandbox limits process tools little codec f s c i
          ≡ command kernel sandbox limits process tools little codec g s c i
    command-agree s c i h =
        ap (λ o. if c == cmd_start then o else some (failed (unknown_command c), s))
          (task_read-agree s (recv_message little codec [] i) (
            LeavesFewer-le (suc (length i.answers)) n _ (omega arith)
              (recv_message-leaves little codec [] i)))

    command_read-agree :
        (s : Run kernel) (o : Command E)
        → LeavesFewer n o
        → command_read kernel sandbox limits process tools little codec f s o
          ≡ command_read kernel sandbox limits process tools little codec g s o
    command_read-agree s none h = refl
    command_read-agree s (some (err e, i)) h = refl
    command_read-agree s (some (ok (buffer, fds), i)) h =
        command-agree (drop_all kernel fds s) (first_byte buffer) i h

  zygote_loop_enough :
      (m n : ℕ) (i : Incoming E) (s : Run kernel)
      → length i.answers < m
      → length i.answers < n
      → zygote_loop kernel sandbox limits process tools little codec m i s
        ≡ zygote_loop kernel sandbox limits process tools little codec n i s
  unfolding zygote_loop
  zygote_loop_enough zero n i s lt lt' = absurd (omega arith)
  zygote_loop_enough (suc m) zero i s lt lt' = absurd (omega arith)
  zygote_loop_enough (suc m) (suc n) i s lt lt' =
      command_read-agree (length i.answers)
        (λ i s. zygote_loop kernel sandbox limits process tools little codec m i s)
        (λ i s. zygote_loop kernel sandbox limits process tools little codec n i s)
        (λ j s h. zygote_loop_enough m n j s (omega arith) (omega arith)) s (recv_exact 1 [] i)
        (command_leaves i.answers i.stream)

  hello_read_enough :
      (fuel m : ℕ) (s : Run kernel) (o : Command E)
      → LeavesFewer (suc m) o
      → m < fuel
      → hello_read kernel sandbox limits process tools little codec fuel s o
        ≡ hello_read kernel sandbox limits process tools little codec (suc m) s o
  hello_read_enough fuel m s none h lt = refl
  hello_read_enough fuel m s (some (err e, i)) h lt = refl
  hello_read_enough fuel m s (some (ok (buffer, fds), i)) h lt =
      zygote_loop_enough fuel (suc m) i (drop_all kernel fds s) (omega arith) (omega arith)

  -- The zygote's loop never stops for want of fuel: with any more rounds than the kernel has
  -- answers the outcome is the same, so that "waiting" says that the answers are used up.
  zygote_main_fuel :
      (fuel : ℕ) (i : Incoming E) (s : Run kernel)
      → length i.answers < fuel
      → hello_read kernel sandbox limits process tools little codec fuel s (recv_exact 1 [] i)
        ≡ zygote_main kernel sandbox limits process tools little codec i s
  unfolding zygote_main
  zygote_main_fuel fuel i s h =
      hello_read_enough fuel (length i.answers) s (recv_exact 1 [] i) (recv_exact-leaves i 1 []) h
