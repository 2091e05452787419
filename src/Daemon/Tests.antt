-- ===== src/Daemon/Tests.antt =====
-- A daemon with three tasks.
use porkg.Base.{ℕ, ◌≡◌, refl, false, List, [], ◌∷◌, some, ok, err, if◌then◌else◌}
use porkg.Pool.Sample.{sample, sample-IsQueue}
use porkg.Daemon.{TaskEnd, returned, panicked, main_result}
use porkg.Daemon.Failing.{first_failure, exit_of}
use porkg.Daemon.Start.{
  loads, logs, clones, builds_runtime, connects, hosts, ends, Setup, main, setup_steps, up_to_stop,
  end_of, main-Stops,
}
use porkg.Linux.Clone.{returns}

abbrev tasks : List (TaskEnd ℕ)
tasks = returned (ok tt) ∷ panicked ∷ returned (err 5) ∷ []

panics : main_result sample 101 false tasks ≡ some (err 101)
unfolding main_result
panics = refl

-- The connection fails: nothing is hosted.
abbrev setup : Setup ℕ ℕ
setup = record {
  load = ok (record { bind = record { socket = []; tcp = [] }; store = record { path = [] } });
  init_log = ok tt;
  start = returns (ok 3);
  build_runtime = ok tt;
  connect = err 9;
}

unconnected :
    main sample 101 setup false tasks
    ≡ (loads ∷ logs ∷ clones ∷ builds_runtime ∷ connects ∷ [], ends (err 9))
unfolding main
unconnected = refl

main-Stops_example :
    main sample 101 setup false tasks
    ≡ up_to_stop
        (setup_steps setup)
        (hosts ∷ [], end_of (if false then some (ok tt) else exit_of (first_failure 101 tasks)))
main-Stops_example = main-Stops sample sample-IsQueue 101 setup false tasks
