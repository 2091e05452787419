-- ===== src/Child/Tests.antt =====
-- A child that dies of SIGTERM, and one that does not.
use porkg.Base.{ℕ, ◌+◌, ◌≡◌, refl, [], ◌∷◌, some, Bool, true, false, ok, arith}
use porkg.Child.{Os, IsClock, sigterm, WaitStatus, signaled, still_alive, new, try_drop_impl}
use porkg.Child.Dropping.{IsOrderly, try_drop_impl-IsOrderly}

-- The world is the clock, and whether the child is alive.
abbrev status : Bool → WaitStatus
status true = still_alive
status false = signaled

abbrev mortal : Os
mortal = record {
  World = ℕ × Bool;
  kill = λ s w. (ok tt, (w.0, false));
  waitpid = λ w. (ok (status w.1), w);
  sleep = λ n w. (w.0 + n, w.1);
  now = λ w. w.0;
}

mortal-IsClock : IsClock mortal
mortal-IsClock = record {
  kill_later = λ s w. omega arith;
  waitpid_later = λ w. omega arith;
  sleep_later = λ n w. omega arith;
}

dies_of_sigterm :
    try_drop_impl mortal (new 7) ((3, true), []) ≡ some (ok tt, ((3, false), sigterm ∷ []))
unfolding try_drop_impl new
dies_of_sigterm = refl

try_drop_impl-IsOrderly_example :
    IsOrderly mortal mortal-IsClock (3, true) (try_drop_impl mortal (new 7) ((3, true), []))
try_drop_impl-IsOrderly_example = try_drop_impl-IsOrderly mortal mortal-IsClock 7 (3, true)
