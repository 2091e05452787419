-- ===== src/Linux/Sandbox/Lock/Commands.antt =====
-- What many calls of `spawn_async` at once send is what they would send one after the other.
use mathlib.Core.List.{Perm}
use porkg.Base.{
  ℕ, ◌≡◌, ◌⊎◌, refl, sym, subst, Bool, true, false, List, [], ◌∷◌, ◌++◌, map, Result, ok, some,
}
use porkg.Linux.{Fd}
use porkg.Linux.Sandbox.{spawn_async}
use porkg.Linux.Sandbox.Sending.{Commanded, bytes_of-append}
use porkg.Linux.Sandbox.Lock.{waits, callers_play}
use porkg.Linux.Sandbox.Lock.Callers.{waiting, sending}
use porkg.Linux.Sandbox.Lock.Exclusion.{joined, waits-IsExclusive, play-IsExclusive}
use porkg.Socket.{Packet, Codec}
use porkg.Socket.Send.{bytes_of}

module _ {T S : Type 0} (E : Type 0) (little : Bool) (codec : Codec T S) where
  -- A call that succeeds, with what it sends.
  pub record Spawn : Type 0 where
    pub task : T
    pub fds : List Fd
    pub answers : List (Result ℕ E)
    pub more_answers : List (Result ℕ E)
    pub packets : List Packet
    pub succeeds : spawn_async little codec answers more_answers task fds ≡ some (ok tt, packets)

  joined-Commanded :
      (order : List Spawn)
      → Commanded E little codec
          (map (λ x. x.task) order)
          (bytes_of (joined (map (λ x. x.packets) order)))
  joined-Commanded [] = refl
  joined-Commanded (x ∷ order) = (
    x.answers,
    (
      x.more_answers,
      (
        x.fds,
        (
          x.packets,
          (
            bytes_of (joined (map (λ x. x.packets) order)),
            x.succeeds,
            bytes_of-append x.packets _,
            joined-Commanded order,
          ),
        ),
      ),
    ),
  )

  -- However many calls of `spawn_async` that succeed run at once, and in whatever order they move: at
  -- every moment some of them have had the lock, in some order, and the others wait for it; what is
  -- on the wire is, with what the holder of the lock has still to send, the commands for the tasks of
  -- the former, whole and in that order; and while nobody holds the lock nothing is left to send.
  pub callers_play-Commanded :
      (calls : List Spawn) (js : List ℕ)
      → let r = callers_play (λ x. x.packets) js (false, map waits calls, []) in
        Perm calls (r.1 ++ waiting r.0.1)
        × Commanded E little codec
            (map (λ x. x.task) r.1)
            (bytes_of (r.0.2 ++ joined (sending r.0.1)))
        × (((r.0.0 ≡ false) × (sending r.0.1 ≡ []))
            ⊎ ((r.0.0 ≡ true) × ((qs : List Packet) × (sending r.0.1 ≡ qs ∷ []))))
  callers_play-Commanded calls js =
      let h =
        play-IsExclusive (λ x. x.packets) calls [] js _
          (waits-IsExclusive (λ x. x.packets) calls) in
      let r = callers_play (λ x. x.packets) js (false, map waits calls, []) in
      (
        h.lines,
        subst (λ ps. Commanded E little codec (map (λ x. x.task) r.1) (bytes_of ps)) (sym h.whole)
            (joined-Commanded r.1),
        h.lock,
      )
