-- ===== src/Linux/Sandbox/Lock.antt =====
-- The controller's lock in crates/porkg-linux/src/sandbox.rs: many tasks of the daemon call `spawn_async`
-- at once. A call waits for the lock, sends its packets, one at a time, while other tasks run, and
-- gives the lock back at its end.
mod Gather
pub mod Callers
pub mod Exclusion
pub mod Commands
pub mod Progress
pub mod Workers
mod Tests
use porkg.Base.{ℕ, Bool, true, false, List, [], ◌∷◌, ◌++◌, Option, none, some, get_elem?, set}
use porkg.Socket.{Packet}

-- A caller with what it is to send, or with what it has still to send.
pub data Caller (X : Type 0) : Type 0 where
  waits : X → Caller X
  sends : List Packet → Caller X
  returned : Caller X

module _ {X : Type 0} (packets : X → List Packet) where
  -- Whether the lock is held, the callers, and what is on the wire.
  abbrev pub Controller : Type 0
  Controller = Bool × List (Caller X) × List Packet

  -- One caller's move, with the call that has got the lock, if it has now.
  abbrev pub caller_step : Bool → List Packet → Caller X → Bool × List Packet × Caller X × List X
  caller_step false wire (waits x) = (true, wire, sends (packets x), x ∷ [])
  caller_step true wire (waits x) = (true, wire, waits x, [])
  caller_step locked wire (sends (p ∷ ps)) = (locked, wire ++ p ∷ [], sends ps, [])
  caller_step locked wire (sends []) = (false, wire, returned, [])
  caller_step locked wire returned = (locked, wire, returned, [])

  abbrev pub caller_placed :
      List (Caller X) → ℕ → Bool × List Packet × Caller X × List X → Controller × List X
  caller_placed callers j (locked, wire, c, got) = ((locked, set callers j c, wire), got)

  abbrev pub caller_turned : ℕ → Controller → Option (Caller X) → Controller × List X
  caller_turned j s none = (s, [])
  caller_turned j (locked, callers, wire) (some c) =
      caller_placed callers j (caller_step locked wire c)

  -- A schedule says whose move is next; with the calls that have had the lock, in order.
  unfoldable pub callers_play : List ℕ → Controller → Controller × List X
  callers_play [] s = (s, [])
  callers_play (j ∷ js) s =
      let r = caller_turned j s (get_elem? s.1 j) in
      let rest = callers_play js r.0 in (rest.0, r.1 ++ rest.1)
