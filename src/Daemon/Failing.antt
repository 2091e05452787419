-- ===== src/Daemon/Failing.antt =====
-- The daemon ends with the failure of the first of its tasks that fails.
use porkg.Base.{
  ◌≡◌, ◌∙◌, ap, refl, if◌then◌else◌, Bool, true, false, List, [], ◌∷◌, ◌++◌, Option, none, some,
  Result, ok, err, length, arith,
}
use porkg.Pool.Channels.{Flume, IsQueue}
use porkg.Daemon.{
  TaskEnd, returned, panicked, exit_on_error, ended, exit_received, main_result, send_exit,
}

-- The error of the first task that fails.
abbrev pub first_failure : {E : Type 0} → E → List (TaskEnd E) → Option E
first_failure panic_error [] = none
first_failure panic_error (returned (ok _) ∷ ts) = first_failure panic_error ts
first_failure panic_error (returned (err e) ∷ ts) = some e
first_failure panic_error (panicked ∷ ts) = some panic_error

abbrev pub exit_of : {E : Type 0} → Option E → Option (Result (Unit {0}) E)
exit_of none = none
exit_of (some e) = some (err e)

module _ {E : Type 0} (flume : Flume (Option E)) (queue : IsQueue flume) (panic_error : E) where
  open flume use {Channel, bounded, try_send, try_recv}
  open queue use {
    queued, limit, queued-bounded, limit-bounded, recv_empty, recv_oldest, send_room, send_full,
  }

  -- A channel with one message takes no other.
  send_held :
      (c : Channel) (e x : E)
      → queued c ≡ some e ∷ []
      → limit c ≡ 1
      → send_exit flume panic_error x c ≡ c
  send_held c e x one room =
      ap (λ r. r.1) (send_full c (some x) (omega (arith, ap length one, room)))

  exit_on_error-held :
      (t : TaskEnd E) (c : Channel) (e : E)
      → queued c ≡ some e ∷ []
      → limit c ≡ 1
      → exit_on_error flume panic_error t c ≡ c
  unfolding exit_on_error
  exit_on_error-held (returned (ok _)) c e one room = refl
  exit_on_error-held (returned (err x)) c e one room = send_held c e x one room
  exit_on_error-held panicked c e one room = send_held c e panic_error one room

  ended-held :
      (ts : List (TaskEnd E)) (c : Channel) (e : E)
      → queued c ≡ some e ∷ []
      → limit c ≡ 1
      → ended flume panic_error ts c ≡ c
  unfolding ended
  ended-held [] c e one room = refl
  ended-held (t ∷ ts) c e one room =
      ap (ended flume panic_error ts) (exit_on_error-held t c e one room)
      ∙ ended-held ts c e one room

  exit_received-held :
      (c : Channel) (e : E)
      → queued c ≡ some e ∷ []
      → exit_received flume panic_error (try_recv c) ≡ some (err e)
  exit_received-held c e one = let (c', got, _, _) = recv_oldest c (some e) [] one in rw got

  -- The first message stays, whatever is sent later.
  failed-first :
      (ts : List (TaskEnd E)) (c : Channel) (e : E)
      → queued c ≡ []
      → limit c ≡ 1
      → exit_received flume panic_error
          (try_recv (ended flume panic_error ts (send_exit flume panic_error e c)))
        ≡ some (err e)
  failed-first ts c e empty room =
      let (c', done, one, same) = send_room c (some e) (omega (arith, ap length empty, room)) in
      let held : queued c' ≡ some e ∷ [] = one ∙ ap (λ q. q ++ some e ∷ []) empty in
      ap (λ r. exit_received flume panic_error (try_recv (ended flume panic_error ts r.1))) done
      ∙ ap (λ c. exit_received flume panic_error (try_recv c))
          (ended-held ts c' e held (same ∙ room))
      ∙ exit_received-held c' e held

  ended-first_failure :
      (ts : List (TaskEnd E)) (c : Channel)
      → queued c ≡ []
      → limit c ≡ 1
      → exit_received flume panic_error (try_recv (ended flume panic_error ts c))
        ≡ exit_of (first_failure panic_error ts)
  unfolding ended exit_on_error
  ended-first_failure [] c empty room = rw (recv_empty c empty)
  ended-first_failure (returned (ok _) ∷ ts) c empty room = ended-first_failure ts c empty room
  ended-first_failure (returned (err e) ∷ ts) c empty room = failed-first ts c e empty room
  ended-first_failure (panicked ∷ ts) c empty room = failed-first ts c panic_error empty room

  -- Over a channel that keeps the crate's laws, a daemon that is not interrupted ends with the error
  -- of the first of its tasks that fails, a panic being one of them, whatever the later ones do;
  -- while no task fails it goes on waiting. One that is interrupted ends with success.
  pub main_result-first_failure :
      (interrupted : Bool) (ts : List (TaskEnd E))
      → main_result flume panic_error interrupted ts
        ≡ (if interrupted then some (ok tt) else exit_of (first_failure panic_error ts))
  unfolding main_result
  main_result-first_failure true ts = refl
  main_result-first_failure false ts =
      ended-first_failure ts (bounded 1) (queued-bounded 1) (limit-bounded 1)
