-- ===== src/Daemon/Start.antt =====
-- crates/porkg-daemon/src/main.rs: `main` from its first step on. What each step before the daemon's
-- tasks answers is a parameter: the configuration is that of Settings, and the start of the zygote
-- and the connection to it those of Linux/Sandbox.
use porkg.Base.{
  ◌≡◌, refl, ap, Bool, List, [], ◌∷◌, Option, none, some, Result, ok, err, ℕ, if◌then◌else◌,
}
use porkg.Pool.Channels.{Flume, IsQueue}
use porkg.Linux.Clone.{Ended, returns, exits}
use porkg.Settings.{Config}
use porkg.Daemon.{TaskEnd, main_result}
use porkg.Daemon.Failing.{first_failure, exit_of, main_result-first_failure}

pub data Step : Type 0 where
  loads logs clones builds_runtime connects hosts : Step

-- How a process that runs `main` ends, if it ends: one that was cloned in it exits there.
pub data MainEnd (E : Type 0) : Type 0 where
  ends : Result (Unit {0}) E → MainEnd E
  exits_with : ℕ → MainEnd E
  goes_on : MainEnd E

-- The answers of the steps; `start` comes back in both processes, in the new one with its end.
pub record Setup (E P : Type 0) : Type 0 where
  pub load : Result Config E
  pub init_log : Result (Unit {0}) E
  pub start : Ended (Result P E)
  pub build_runtime : Result (Unit {0}) E
  pub connect : Result (Unit {0}) E

abbrev pub Ran : Type 0 → Type 0
Ran E = List Step × MainEnd E

module _ {E : Type 0} where
  abbrev pub after : {A : Type 0} → Step → Result A E → (A → Ran E) → Ran E
  after step (err e) next = (step ∷ [], ends (err e))
  after step (ok a) next = let r = next a in (step ∷ r.0, r.1)

  -- The clone has two processes.
  abbrev pub after_clone : {P : Type 0} → Ended (Result P E) → (P → Ran E) → Ran E
  after_clone (exits code) next = (clones ∷ [], exits_with code)
  after_clone (returns r) next = after clones r next

  abbrev pub end_of : Option (Result (Unit {0}) E) → MainEnd E
  end_of none = goes_on
  end_of (some r) = ends r

  module _ (flume : Flume (Option E)) (panic_error : E) where
    -- `main`, by what its steps answer, whether it is interrupted, and how its tasks end.
    unfoldable pub main : {P : Type 0} → Setup E P → Bool → List (TaskEnd E) → Ran E
    unfolding main_result
    main s interrupted ts = after loads s.load λ config. after logs s.init_log λ _.
        after_clone s.start λ process. after builds_runtime s.build_runtime λ _.
          after connects s.connect
            λ _. (hosts ∷ [], end_of (main_result flume panic_error interrupted ts))

  -- The end that a step brings about, if it does.
  abbrev pub stops : {A : Type 0} → Result A E → Option (MainEnd E)
  stops (ok a) = none
  stops (err e) = some (ends (err e))

  abbrev pub clone_stops : {P : Type 0} → Ended (Result P E) → Option (MainEnd E)
  clone_stops (exits code) = some (exits_with code)
  clone_stops (returns r) = stops r

  -- The steps up to the first that brings about an end.
  abbrev pub up_to_stop : List (Step × Option (MainEnd E)) → Ran E → Ran E
  up_to_stop [] last = last
  up_to_stop ((step, some end) ∷ rest) last = (step ∷ [], end)
  up_to_stop ((step, none) ∷ rest) last = let r = up_to_stop rest last in (step ∷ r.0, r.1)

  abbrev pub setup_steps : {P : Type 0} → Setup E P → List (Step × Option (MainEnd E))
  setup_steps s =
      (loads, stops s.load)
      ∷ (logs, stops s.init_log)
      ∷ (clones, clone_stops s.start)
      ∷ (builds_runtime, stops s.build_runtime)
      ∷ (connects, stops s.connect)
      ∷ []

  after-stop :
      {A : Type 0} (step : Step) (r : Result A E) (next : A → Ran E)
      (rest : List (Step × Option (MainEnd E))) (last : Ran E)
      → ((a : A) → next a ≡ up_to_stop rest last)
      → after step r next ≡ up_to_stop ((step, stops r) ∷ rest) last
  after-stop step (err e) next rest last h = refl
  after-stop step (ok a) next rest last h = ap (λ r. (step ∷ r.0, r.1)) (h a)

  after_clone-stop :
      {P : Type 0} (r : Ended (Result P E)) (next : P → Ran E)
      (rest : List (Step × Option (MainEnd E))) (last : Ran E)
      → ((p : P) → next p ≡ up_to_stop rest last)
      → after_clone r next ≡ up_to_stop ((clones, clone_stops r) ∷ rest) last
  after_clone-stop (exits code) next rest last h = refl
  after_clone-stop (returns r) next rest last h = after-stop clones r next rest last h

  -- `main` loads the configuration, sets up the log, clones the zygote, and only then has threads;
  -- it connects to the zygote and hosts. The first of these steps that fails is the last one and gives
  -- its error; a process that was cloned goes no further than the clone. After all of them the
  -- daemon ends with the error of the first of its tasks that fails, goes on while none has, or
  -- ends with success if it is interrupted. The channel keeps the crate's laws.
  pub main-Stops :
      {P : Type 0} (flume : Flume (Option E)) (queue : IsQueue flume) (panic_error : E)
      (s : Setup E P) (interrupted : Bool) (ts : List (TaskEnd E))
      → main flume panic_error s interrupted ts
        ≡ up_to_stop (setup_steps s) (
          hosts ∷ [],
          end_of (if interrupted then some (ok tt) else exit_of (first_failure panic_error ts)),
        )
  unfolding main
  main-Stops flume queue panic_error s interrupted ts = after-stop loads s.load _ _ _ λ _.
      after-stop logs s.init_log _ _ _ λ _. after_clone-stop s.start _ _ _ λ _.
        after-stop builds_runtime s.build_runtime _ _ _ λ _.
          after-stop connects s.connect _ _ _ λ _.
            ap (λ o. (hosts ∷ [], end_of o))
              (main_result-first_failure flume queue panic_error interrupted ts)
