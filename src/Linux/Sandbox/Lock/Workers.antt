-- ===== src/Linux/Sandbox/Lock/Workers.antt =====
-- The controller with many callers, and the zygote at the other end of its socket.
use mathlib.Core.List.{Perm}
use porkg.Base.{
  ℕ, ◌≡◌, ◌≤◌, inl, inr, sym, ap, ◌∙◌, subst, Bool, false, List, [], ◌++◌, map, append-nil, some,
  Result, ok, All, length,
}
use porkg.Linux.{Kernel, Fd, Run}
use porkg.Linux.Mappings.{Process, IdMappingTools}
use porkg.Linux.Clone.{Limits}
use porkg.Linux.Sandbox.{connect, drop_all}
use porkg.Linux.Sandbox.Commands.{Starts, zygote_main-Starts}
use porkg.Linux.Sandbox.Sending.{Commanded}
use porkg.Linux.Sandbox.Worker.{SandboxTask}
use porkg.Linux.Sandbox.Zygote.{zygote_main}
use porkg.Linux.Sandbox.Lock.{waits, callers_play}
use porkg.Linux.Sandbox.Lock.Callers.{waiting, sending}
use porkg.Linux.Sandbox.Lock.Exclusion.{joined}
use porkg.Linux.Sandbox.Lock.Commands.{Spawn, callers_play-Commanded}
use porkg.Socket.{Packet, Codec}
use porkg.Socket.Send.{bytes_of}
use porkg.Socket.Receive.{Answers, IsReady}
use porkg.Socket.Messages.{IsRoundTrip}

module _ (kernel : Kernel) {T E S : Type 0} (sandbox : SandboxTask kernel T) (limits : Limits)
    (process : Process) (tools : IdMappingTools) (little : Bool) (codec : Codec T S)
    (trip : IsRoundTrip codec) where
  -- However many successful calls of `spawn_async` run at once, and in whatever order they move: once
  -- all have returned, the list of those that had the lock, in the order in which they took it, is a
  -- permutation of the calls; and the zygote, connected before, starts a worker for the task of each
  -- call in that list, in its order, and for no other, until a start fails or panics; after the last
  -- it waits for more. The task's codec reads what it wrote, and the kernel of the zygote gives
  -- something at each of at least as many calls as bytes were sent.
  pub callers_play-Starts :
      (hello_answers : List (Result ℕ E)) (hello : List Packet)
      (calls : List (Spawn E little codec)) (js : List ℕ) (answers : Answers E) (s : Run kernel)
      → let r =
          callers_play (λ (x : Spawn E little codec). x.packets) js (false, map waits calls, []) in
        connect (ok tt) hello_answers ≡ some (ok tt, hello)
        → r.0.0 ≡ false
        → waiting r.0.1 ≡ []
        → All IsReady answers
        → length (bytes_of hello ++ bytes_of r.0.2) ≤ length answers
        → Perm calls r.1
          × ((extra : List Fd) × Starts kernel sandbox limits process tools little codec
                (map (λ (x : Spawn E little codec). x.task) r.1)
                (drop_all kernel extra s)
                (zygote_main kernel sandbox limits process tools little codec
                  (record { stream = bytes_of hello ++ bytes_of r.0.2; answers = answers })
                  s))
  callers_play-Starts hello_answers hello calls js answers s greets unlocked none_waits ready many =
      let r =
        callers_play (λ (x : Spawn E little codec). x.packets) js (false, map waits calls, []) in
      let (lines, commanded, lock) = callers_play-Commanded E little codec calls js in
      elim lock [
        | inl (_, none_sends) ↦
            let whole : r.0.2 ++ joined (sending r.0.1) ≡ r.0.2 =
              ap (λ q. r.0.2 ++ joined q) none_sends ∙ append-nil r.0.2 in
            (
              subst (Perm calls) (ap (◌++◌ r.1) none_waits ∙ append-nil r.1) lines,
              zygote_main-Starts kernel sandbox limits process tools little codec trip hello_answers
                  hello greets (map (λ x. x.task) r.1) (bytes_of r.0.2)
                  (subst (λ ps. Commanded E little codec (map (λ x. x.task) r.1) (bytes_of ps))
                    whole commanded)
                  answers ready many s,
            )
        | inr (held, _) ↦ absurd (let clash = sym held ∙ unlocked in cc)
      ]
