-- ===== src/Linux/Sandbox/Sending.antt =====
-- What the controller sends.
use porkg.Base.{
  ℕ, zero, suc, ◌-◌, min, drop, take, ◌+◌, ◌≡◌, ◌≤◌, ◌<◌, refl, sym, ap, ◌∙◌, subst, Bool, List, [],
  ◌∷◌, ◌++◌, append_assoc, none, some, Bytes, Result, ok, err, All, length, length-append, arith,
}
use porkg.Linux.{Fd}
use porkg.Linux.Sandbox.{Sent, cmd_start, spawn_async, message_sent, command_sent}
use porkg.Socket.{
  Packet, Codec, SocketMessageError, read_buffer_size, recv_loop, recv_exact, send_message,
  send_all,
}
use porkg.Socket.Send.{bytes_of, send_all-bytes}
use porkg.Socket.Receive.{Answers, IsReady}

pub bytes_of-append : (ps qs : List Packet) → bytes_of (ps ++ qs) ≡ bytes_of ps ++ bytes_of qs
bytes_of-append [] qs = refl
bytes_of-append ((b, fds) ∷ ps) qs =
    ap (◌++◌ b) (bytes_of-append ps qs) ∙ sym (append_assoc b (bytes_of ps) (bytes_of qs))

-- With nothing on its way, a kernel that does not fail leaves a read waiting.
recv_loop-empty :
    {E : Type 0} (answers : Answers E) (room : ℕ) (read : Bytes) (fds : List Fd)
    → All IsReady answers
    → 0 < room
    → recv_loop answers room [] read fds ≡ none
unfolding recv_loop
recv_loop-empty answers zero read fds h pos = absurd (omega arith)
recv_loop-empty [] (suc room) read fds h pos = refl
recv_loop-empty (err e ∷ answers) (suc room) read fds (h, _) pos = absurd h
recv_loop-empty (ok (count, new) ∷ answers) (suc room) read fds (_, h) pos =
    let nothing : min count (min (min read_buffer_size (suc room)) 0) ≡ 0 = omega arith in
    subst
      (λ n. recv_loop answers (suc room - n) (drop n []) (read ++ take n []) (fds ++ new) ≡ none)
      (sym nothing)
      (recv_loop-empty answers (suc room - 0) (read ++ []) (fds ++ new) h (omega arith))

pub nothing_read :
    {E : Type 0} (answers : Answers E)
    → All IsReady answers
    → recv_exact 1 [] (record { stream = []; answers = answers }) ≡ none
unfolding recv_exact
nothing_read answers h = recv_loop-empty answers 1 [] [] h (omega arith)

-- What the controller has sent: successful spawns of these tasks, one after the other.
abbrev pub Commanded : {T S : Type 0} → Type 0 → Bool → Codec T S → List T → Bytes → Type 0
Commanded E little codec [] b = b ≡ []
Commanded E little codec (task ∷ tasks) b =
    (calls : List (Result ℕ E)) × ((calls' : List (Result ℕ E)) × ((fds : List Fd) × ((ps : List
            Packet)
          × ((rest : Bytes) × (spawn_async little codec calls calls' task fds ≡ some (ok tt, ps))
              × (b ≡ bytes_of ps ++ rest)
              × Commanded E little codec tasks rest))))

module _ {T E S : Type 0} (little : Bool) (codec : Codec T S) where
  message_sent-ok :
      (ps : List Packet) (o : Sent (SocketMessageError E S)) (all : List Packet)
      → message_sent little codec ps o ≡ some (ok tt, all)
      → (qs : List Packet) × (o ≡ some (ok tt, qs)) × (all ≡ ps ++ qs)
  message_sent-ok ps none all h = cc
  message_sent-ok ps (some (err e, qs)) all h = cc
  message_sent-ok ps (some (ok _, qs)) all h = (qs, refl, cc)

  -- A spawn that succeeds has sent the command, and then the task's message.
  pub spawn-sent :
      (calls calls' : List (Result ℕ E)) (task : T) (fds : List Fd) (ps : List Packet)
      → spawn_async little codec calls calls' task fds ≡ some (ok tt, ps)
      → (qs : List Packet) × (send_message little codec calls' task fds ≡ some (ok tt, qs))
        × (bytes_of ps ≡ cmd_start ∷ bytes_of qs)
  unfolding spawn_async
  spawn-sent calls calls' task fds ps h = commanded (send_all calls (cmd_start ∷ []) []) refl h
    where
      commanded :
          (o : Sent E)
          → send_all calls (cmd_start ∷ []) [] ≡ o
          → command_sent little codec calls' task fds o ≡ some (ok tt, ps)
          → (qs : List Packet) × (send_message little codec calls' task fds ≡ some (ok tt, qs))
            × (bytes_of ps ≡ cmd_start ∷ bytes_of qs)
      commanded none _ h = cc
      commanded (some (err e, qs)) _ h = cc
      commanded (some (ok _, qs)) sent h =
          let (rs, message, whole) = message_sent-ok qs _ ps h in
          (
            rs,
            message,
            ap bytes_of whole
                ∙ bytes_of-append qs rs
                ∙ ap (λ b. b ++ bytes_of rs) (send_all-bytes calls (cmd_start ∷ []) [] qs sent),
          )

pub Commanded-length :
    {T S : Type 0} (E : Type 0) (little : Bool) (codec : Codec T S) (tasks : List T) (b : Bytes)
    → Commanded E little codec tasks b
    → length tasks ≤ length b
Commanded-length E little codec [] b cmd = omega arith
Commanded-length E little codec (task ∷ tasks) b
      (calls, (calls', (fds, (ps, (rest, sent, split, cmd))))) =
    let (qs, _, text) = spawn-sent little codec calls calls' task fds ps sent in
    let size : length b ≡ suc (length (bytes_of qs) + length rest) =
      ap length (split ∙ ap (λ t. t ++ rest) text) ∙ ap suc (length-append (bytes_of qs) rest) in
    omega (arith, Commanded-length E little codec tasks rest cmd)
