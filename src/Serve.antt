-- ===== src/Serve.antt =====
-- crates/porkg-daemon/src/frontend/serve.rs and crates/porkg-private/src/future.rs: the daemon's
-- listeners and the loop that accepts connections. The host is a parameter; the answer of each
-- connection to its requests, which a task of its own gives, is left to the HTTP libraries.
pub mod Accepting
pub mod Binding
mod Tests
use porkg.Base.{
  ℕ, zero, suc, Bool, true, false, List, [], ◌∷◌, ◌++◌, Option, none, some, Bytes, Result, ok, err,
  if◌then◌else◌,
}

-- `std::task::Poll`.
pub data Poll (A : Type 0) : Type 0 where
  pending : Poll A
  ready : A → Poll A

-- `OptionalFuture::poll`, of what the future in it answers if there is one.
abbrev pub poll_optional : {A : Type 0} → Option (Poll A) → Poll A
poll_optional none = pending
poll_optional (some p) = p

pub data AcceptError : Type 0 where
  connection_refused connection_aborted connection_reset : AcceptError
  other_error : ℕ → AcceptError

unfoldable pub is_connection_error : AcceptError → Bool
is_connection_error connection_refused = true
is_connection_error connection_aborted = true
is_connection_error connection_reset = true
is_connection_error (other_error e) = false

-- A connection, by its descriptor.
pub data Client : Type 0 where
  tcp_client : ℕ → Client
  unix_client : ℕ → Client

abbrev pub as_client : (ℕ → Client) → Result ℕ AcceptError → Result Client AcceptError
as_client f (ok fd) = ok (f fd)
as_client f (err e) = err e

-- What the three futures of `select!` answer when they are polled together, and the one that is
-- polled first, which `select!` chooses at random; the others follow in turn. The second answer
-- is that of the TCP listener, if there is one.
pub record PollRound : Type 0 where
  pub first : ℕ
  pub unix : Poll (Result ℕ AcceptError)
  pub tcp : Poll (Result ℕ AcceptError)
  pub cancelled : Bool

pub data Event : Type 0 where
  accepted : Result Client AcceptError → Event
  stopped : Event

abbrev pub accept_event : (ℕ → Client) → Poll (Result ℕ AcceptError) → Poll Event
accept_event f pending = pending
accept_event f (ready r) = ready (accepted (as_client f r))

-- `tcp.as_ref().map(|v| v.accept()).unwrap_future()`.
abbrev pub tcp_future : Bool → PollRound → Poll (Result ℕ AcceptError)
tcp_future has_tcp r = poll_optional (if has_tcp then some r.tcp else none)

abbrev pub first_ready : List (Poll Event) → Poll Event
first_ready [] = pending
first_ready (pending ∷ ps) = first_ready ps
first_ready (ready e ∷ ps) = ready e

abbrev pub rotated : {A : Type 0} → ℕ → A → A → A → List A
rotated zero a b c = a ∷ b ∷ c ∷ []
rotated (suc zero) a b c = b ∷ c ∷ a ∷ []
rotated (suc (suc n)) a b c = c ∷ a ∷ b ∷ []

unfoldable pub select : Bool → PollRound → Poll Event
select has_tcp r = first_ready (
    rotated r.first (accept_event unix_client r.unix)
      (accept_event tcp_client (tcp_future has_tcp r))
      (if r.cancelled then ready stopped else pending))

-- How the loop ends, and the connections that it has given to tasks; `none` is a loop that waits
-- still, all of the rounds being over.
abbrev pub Serving : Type 0
Serving = Option (Result (Unit {0}) AcceptError) × List Client

abbrev pub serving : Client → Serving → Serving
serving c (result, clients) = (result, c ∷ clients)

abbrev pub handled : Poll Event → Serving → Serving
handled pending rest = rest
handled (ready stopped) rest = (some (ok tt), [])
handled (ready (accepted (ok c))) rest = serving c rest
handled (ready (accepted (err e))) rest = if is_connection_error e then rest else (some (err e), [])

unfoldable pub serve_loop : Bool → List PollRound → Serving
unfolding select is_connection_error
serve_loop has_tcp [] = (none, [])
serve_loop has_tcp (r ∷ rs) = handled (select has_tcp r) (serve_loop has_tcp rs)

-- `BindConfig`.
pub record BindConfig : Type 0 where
  pub socket : Bytes
  pub tcp : List Bytes

-- The file system and the network.
pub record Host : Type 1 where
  pub World : Type 0
  pub Failure : Type 0
  pub Address : Type 0
  pub parent : Bytes → Option Bytes
  pub try_exists : Bytes → World → Result Bool Failure × World
  pub create_dir_all : Bytes → World → Result (Unit {0}) Failure × World
  pub remove_file : Bytes → World → Result (Unit {0}) Failure × World
  pub bind_unix : Bytes → World → Result ℕ Failure × World
  pub to_socket_addrs : Bytes → World → Result (List Address) Failure × World
  pub bind_tcp : List Address → World → Result ℕ Failure × World

module _ (host : Host) where
  open host use {
    World, Failure, Address, parent, try_exists, create_dir_all, remove_file, bind_unix,
    to_socket_addrs, bind_tcp,
  }

  abbrev pub Action : Type 0 → Type 0
  Action A = World → Result A Failure × World

  abbrev pub resume :
      {A B : Type 0} → Result A Failure × World → (A → Action B) → Result B Failure × World
  resume (err e, w) next = (err e, w)
  resume (ok a, w) next = next a w

  abbrev pub and_then : {A B : Type 0} → Action A → (A → Action B) → Action B
  and_then m next w = resume (m w) next

  abbrev pub done : {A : Type 0} → A → Action A
  done a w = (ok a, w)

  abbrev pub make_parent : Option Bytes → Action (Unit {0})
  make_parent none = done tt
  make_parent (some path) =
      and_then (try_exists path) (λ there. if there then done tt else create_dir_all path)

  abbrev pub clean_up : Bytes → Action (Unit {0})
  clean_up path = and_then (try_exists path) (λ there. if there then remove_file path else done tt)

  -- The addresses of all names, in order.
  unfoldable pub lookup : List Bytes → Action (List Address)
  lookup [] = done []
  lookup (bind ∷ binds) =
      and_then (to_socket_addrs bind)
        (λ addrs. and_then (lookup binds) (λ more. done (addrs ++ more)))

  abbrev pub bind_all : List Address → Action (Option ℕ)
  bind_all [] = done none
  bind_all (a ∷ addrs) = and_then (bind_tcp (a ∷ addrs)) (λ fd. done (some fd))

  -- The listeners of `serve`, ahead of its loop.
  unfoldable pub listeners : BindConfig → Action (ℕ × Option ℕ)
  unfolding lookup
  listeners settings = and_then (make_parent (parent settings.socket)) λ _.
      and_then (clean_up settings.socket) λ _.
        and_then (bind_unix settings.socket)
          λ unix. and_then (and_then (lookup settings.tcp) bind_all) λ tcp. done (unix, tcp)

  abbrev pub is_some : Option ℕ → Bool
  is_some none = false
  is_some (some fd) = true

  -- `serve`: the errors of both parts, in a sum of their own.
  pub data ServeEnd : Type 0 where
    failed : Failure → ServeEnd
    served : Serving → ServeEnd

  abbrev pub served_by : Result (ℕ × Option ℕ) Failure × World → List PollRound → ServeEnd × World
  served_by (err e, w) rounds = (failed e, w)
  served_by (ok (unix, tcp), w) rounds = (served (serve_loop (is_some tcp) rounds), w)

  unfoldable pub serve : BindConfig → List PollRound → World → ServeEnd × World
  unfolding listeners serve_loop
  serve settings rounds w = served_by (listeners settings w) rounds
