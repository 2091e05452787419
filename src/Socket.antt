-- ===== src/Socket.antt =====
-- crates/porkg-private/src/io.rs: messages with file descriptors over a Unix socket, synchronous
-- and asynchronous alike (an `await` only waits). The kernel is a parameter: its answers to the
-- calls of `send_fds` and `recv_fds` stand in a list, and `none` says that the loop has used all
-- of them and goes on. `bincode` is a parameter too.
pub mod Send
pub mod Receive
pub mod Words
pub mod Messages
mod Tests
use porkg.Base.{
  ℕ, zero, suc, ◌+◌, ◌-◌, ◌*◌, ◌/◌, ◌%◌, ◌^◌, min, Bool, true, false, List, [], ◌∷◌, ◌++◌, Option,
  none, some, Bytes, Result, ok, err, map_err, length, take, drop,
}

abbrev pub read_buffer_size : ℕ
read_buffer_size = 8192

abbrev pub header_size : ℕ
header_size = 8

abbrev pub Fd : Type 0
Fd = ℕ

-- Bytes that one `send_fds` hands over, with the descriptors that go with them.
abbrev pub Packet : Type 0
Packet = Bytes × List Fd

module _ {E : Type 0} where
  abbrev pub sent_first :
      Packet
      → Option (Result (Unit {0}) E × List Packet)
      → Option (Result (Unit {0}) E × List Packet)
  sent_first p none = none
  sent_first p (some (r, ps)) = some (r, p ∷ ps)

  -- `send_all`: each answer is the count of bytes taken, or an error. The result is the call's, and
  -- the packets that went out.
  unfoldable pub send_all :
      List (Result ℕ E) → Bytes → List Fd → Option (Result (Unit {0}) E × List Packet)
  send_all answers [] fds = some (ok tt, [])
  send_all [] (c ∷ rest) fds = none
  send_all (err e ∷ answers) (c ∷ rest) fds = some (err e, [])
  send_all (ok size ∷ answers) (c ∷ rest) fds =
      sent_first (take size (c ∷ rest), fds) (send_all answers (drop size (c ∷ rest)) [])

-- The receiving end: the bytes on their way, and the kernel's answers to come. An answer is the
-- count of bytes that it is ready to give and the descriptors, or an error.
pub record Incoming (E : Type 0) : Type 0 where
  pub stream : Bytes
  pub answers : List (Result (ℕ × List Fd) E)

-- The loop of `recv_exact`, with the room left, what is read and the descriptors so far.
module _ {E : Type 0} where
  unfoldable pub recv_loop :
      List (Result (ℕ × List Fd) E)
      → ℕ
      → Bytes
      → Bytes
      → List Fd
      → Option (Result (Bytes × List Fd) E × Incoming E)
  recv_loop answers zero stream read fds =
      some (ok (read, fds), record { stream = stream; answers = answers })
  recv_loop [] (suc room) stream read fds = none
  recv_loop (err e ∷ answers) (suc room) stream read fds =
      some (err e, record { stream = stream; answers = answers })
  recv_loop (ok (count, new_fds) ∷ answers) (suc room) stream read fds =
      let size = min count (min (min read_buffer_size (suc room)) (length stream)) in
      recv_loop answers (suc room - size) (drop size stream) (read ++ take size stream)
        (fds ++ new_fds)

  unfoldable pub recv_exact :
      ℕ → List Fd → Incoming E → Option (Result (Bytes × List Fd) E × Incoming E)
  unfolding recv_loop
  recv_exact room fds i = recv_loop i.answers room i.stream [] fds

-- The bytes of a `usize` in the machine's order; `true` is little-endian.
unfoldable pub to_le_bytes : ℕ → ℕ → Bytes
to_le_bytes zero v = []
to_le_bytes (suc w) v = (v % 256) ∷ to_le_bytes w (v / 256)

unfoldable pub from_le_bytes : Bytes → ℕ
from_le_bytes [] = 0
from_le_bytes (b ∷ s) = b + 256 * from_le_bytes s

abbrev pub reversed : Bytes → Bytes → Bytes
reversed [] acc = acc
reversed (b ∷ s) acc = reversed s (b ∷ acc)

unfoldable pub to_ne_bytes : Bool → ℕ → Bytes
unfolding to_le_bytes
to_ne_bytes true v = to_le_bytes header_size v
to_ne_bytes false v = reversed (to_le_bytes header_size v) []

unfoldable pub from_ne_bytes : Bool → Bytes → ℕ
unfolding from_le_bytes
from_ne_bytes true s = from_le_bytes s
from_ne_bytes false s = from_le_bytes (reversed s [])

-- `ser::serialize` and `ser::deserialize`.
pub record Codec (T S : Type 0) : Type 0 where
  pub serialize : T → Result Bytes S
  pub deserialize : Bytes → Result T S

-- `SocketMessageError`.
pub data SocketMessageError (E S : Type 0) : Type 0 where
  io : E → SocketMessageError E S
  serialize_error : S → SocketMessageError E S

-- The buffer of `send_message`: the body's length, and the body.
unfoldable pub frame : Bool → Bytes → Bytes
unfolding to_ne_bytes
frame little body = to_ne_bytes little (length body) ++ body

abbrev pub Received : Type 0 → Type 0 → Type 0 → Type 0
Received T E S = Option (Result (T × List Fd) (SocketMessageError E S) × Incoming E)

module _ {T E S : Type 0} (little : Bool) (codec : Codec T S) where
  abbrev pub sent_all :
      Option (Result (Unit {0}) E × List Packet)
      → Option (Result (Unit {0}) (SocketMessageError E S) × List Packet)
  sent_all none = none
  sent_all (some (r, ps)) = some (map_err io r, ps)

  unfoldable pub send_packed :
      List (Result ℕ E)
      → List Fd
      → Result Bytes S
      → Option (Result (Unit {0}) (SocketMessageError E S) × List Packet)
  unfolding frame send_all
  send_packed answers fds (err e) = some (err (serialize_error e), [])
  send_packed answers fds (ok body) = sent_all (send_all answers (frame little body) fds)

  unfoldable pub send_message :
      List (Result ℕ E)
      → T
      → List Fd
      → Option (Result (Unit {0}) (SocketMessageError E S) × List Packet)
  unfolding send_packed
  send_message answers message fds = send_packed answers fds (codec.serialize message)

  abbrev pub decoded : List Fd → Incoming E → Result T S → Received T E S
  decoded fds i (ok message) = some (ok (message, fds), i)
  decoded fds i (err e) = some (err (serialize_error e), i)

  abbrev pub with_body : Option (Result (Bytes × List Fd) E × Incoming E) → Received T E S
  with_body none = none
  with_body (some (err e, i)) = some (err (io e), i)
  with_body (some (ok (body, fds), i)) = decoded fds i (codec.deserialize body)

  abbrev pub with_header : Option (Result (Bytes × List Fd) E × Incoming E) → Received T E S
  with_header none = none
  with_header (some (err e, i)) = some (err (io e), i)
  with_header (some (ok (header, fds), i)) =
      with_body (recv_exact (from_ne_bytes little header) fds i)

  unfoldable pub recv_message : List Fd → Incoming E → Received T E S
  unfolding recv_exact from_ne_bytes
  recv_message fds i = with_header (recv_exact header_size fds i)
