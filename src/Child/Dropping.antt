-- ===== src/Child/Dropping.antt =====
-- What the drop of a child's handle sends, and when.
use porkg.Base.{
  ℕ, ◌+◌, ◌≤◌, ◌≡◌, ◌⊎◌, inl, inr, refl, sym, ap, subst, ◌∙◌, Bool, true, false, List, [], ◌∷◌,
  ◌++◌, Option, some, Result, ok, err, arith,
}
use porkg.Child.{
  Os, IsClock, Pid, Errno, Signal, sigterm, sigkill, new, take, forget, Run, Dropped, poll, kill,
  killed, wait, drop_wait_millis, kill_wait_millis, given_up, force_killed, waited, terminated,
  try_drop_impl,
}
use porkg.Child.Waiting.{Waited, wait-Waited}

module _ (os : Os) (clock : IsClock os) where
  open os use {World, now}

  -- A drop that ends, with an error or without: it has sent SIGTERM alone; or SIGTERM and then, in
  -- a world at least 4500 milliseconds after the first, SIGKILL.
  abbrev pub IsOrderly : World → Dropped os → Type 0
  IsOrderly w d =
      (r : Result (Unit {0}) Errno) × ((w' : World) × ((d ≡ some (r, (w', sigterm ∷ [])))
          ⊎ ((d ≡ some (r, (w', sigterm ∷ sigkill ∷ [])))
              × ((late : World) × (now w + drop_wait_millis ≤ now late)
                  × (d ≡ force_killed os (kill os sigkill (late, sigterm ∷ [])))))))

  killed-later :
      (r : Result (Unit {0}) Errno) (w : World) (sent : List Signal)
      → (now w ≤ now (killed os r (w, sent)).1.0) × ((killed os r (w, sent)).1.1 ≡ sent)
  unfolding poll
  killed-later (ok _) w sent = (clock.waitpid_later w, refl)
  killed-later (err e) w sent = (omega arith, refl)

  kill-later :
      (signal : Signal) (w : World) (sent : List Signal)
      → (now w ≤ now (kill os signal (w, sent)).1.0)
        × ((kill os signal (w, sent)).1.1 ≡ sent ++ signal ∷ [])
  unfolding kill
  kill-later signal w sent =
      let (later, same) =
        killed-later (os.kill signal w).0 (os.kill signal w).1 (sent ++ signal ∷ []) in
      (omega (arith, clock.kill_later signal w), same)

  -- The rest of a drop ends in a world that is no earlier.
  abbrev Ends : List Signal → World → Dropped os → Type 0
  Ends sent w d =
      (r : Result (Unit {0}) Errno) × ((w' : World) × (d ≡ some (r, (w', sent))) × (now w ≤ now w'))

  given_up-Ends :
      (sent : List Signal) (end : ℕ) (w : World) (o : Option (Result Bool Errno × World))
      → Waited os clock end w o
      → Ends sent w (given_up os sent o)
  given_up-Ends sent end w o (ok gone, (w', ends, later, _)) = rw ends (ok tt, (w', refl, later))
  given_up-Ends sent end w o (err e, (w', ends, later, _)) = rw ends (err e, (w', refl, later))

  force_killed-Ends :
      (sent : List Signal) (w w1 : World) (r : Result Bool Errno)
      → now w ≤ now w1
      → Ends sent w (force_killed os (r, (w1, sent)))
  force_killed-Ends sent w w1 (err e) later = (err e, (w1, refl, later))
  force_killed-Ends sent w w1 (ok gone) later =
      let (r, (w', ends, later')) =
        given_up-Ends sent _ w1 (wait os kill_wait_millis w1)
          (wait-Waited os clock kill_wait_millis w1) in
      (r, (w', ends, omega arith))

  waited-IsOrderly :
      (w w1 : World) (o : Option (Result Bool Errno × World))
      → now w ≤ now w1
      → Waited os clock (now w1 + drop_wait_millis) w1 o
      → IsOrderly w (waited os (sigterm ∷ []) o)
  waited-IsOrderly w w1 o later (err e, (w2, ends, _, _)) = rw ends (err e, (w2, inl refl))
  waited-IsOrderly w w1 o later (ok true, (w2, ends, _, _)) = rw ends (ok tt, (w2, inl refl))
  waited-IsOrderly w w1 o later (ok false, (w2, ends, _, timeout)) =
      let late = timeout refl in
      let (later', sent) = kill-later sigkill w2 (sigterm ∷ []) in
      let k = kill os sigkill (w2, sigterm ∷ []) in
      let (r, (w3, finish, later'')) = force_killed-Ends k.1.1 w2 k.1.0 k.0 later' in
      rw ends (r, (w3, inr (finish ∙ ap (λ s. some (r, (w3, s))) sent, (w2, omega arith, refl))))

  terminated-IsOrderly :
      (w w1 : World) (r : Result Bool Errno)
      → now w ≤ now w1
      → IsOrderly w (terminated os (r, (w1, sigterm ∷ [])))
  terminated-IsOrderly w w1 (err e) later = (err e, (w1, inl refl))
  terminated-IsOrderly w w1 (ok true) later = (ok tt, (w1, inl refl))
  terminated-IsOrderly w w1 (ok false) later =
      waited-IsOrderly w w1 (wait os drop_wait_millis w1) later
        (wait-Waited os clock drop_wait_millis w1)

  -- Dropping the handle of a child ends, if the clock goes on and a sleep takes its time. It
  -- sends SIGTERM first, and SIGKILL at most once, after that, and only when 4500 milliseconds
  -- have passed.
  pub try_drop_impl-IsOrderly :
      (pid : Pid) (w : World) → IsOrderly w (try_drop_impl os (new pid) (w, []))
  unfolding try_drop_impl new
  try_drop_impl-IsOrderly pid w =
      let (later, sent) = kill-later sigterm w [] in
      let k = kill os sigterm (w, []) in
      subst (λ s. IsOrderly w (terminated os (k.0, (k.1.0, s)))) (sym sent)
        (terminated-IsOrderly w k.1.0 k.0 later)

-- Forgetting a child gives its id and sends nothing, and the handle that is left after `take` is
-- empty, so that its drop sends nothing either.
pub forget_new :
    (os : Os) (pid : Pid) (s : Run os)
    → (forget os (new pid) s ≡ some (pid, s))
      × ((take (new pid)).0 ≡ some pid)
      × (try_drop_impl os (take (new pid)).1 s ≡ some (ok tt, s))
unfolding forget new take try_drop_impl
forget_new os pid s = (refl, refl, refl)
