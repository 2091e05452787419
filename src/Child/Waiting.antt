-- ===== src/Child/Waiting.antt =====
-- The waits end, and one that times out has waited its time.
use porkg.Base.{
  ℕ, zero, suc, ◌+◌, ◌<◌, ◌≤◌, ◌≡◌, inl, inr, refl, Bool, false, Bool-cases, Option, some, Result,
  ok, err, ltb, ltb→lt, arith,
}
use porkg.Child.{
  Os, IsClock, Errno, IoError, is_would_block, poll, polled, go_on, WaitRound, over, again,
  wait_round, wait_until, wait,
}

module _ (os : Os) (clock : IsClock os) where
  open os use {World, now}

  -- What a wait that started at `w` gives: the clock has not gone back, and a timeout is past the
  -- end.
  abbrev pub Waited : ℕ → World → Option (Result Bool Errno × World) → Type 0
  Waited end w o =
      (r : Result Bool Errno) × ((w' : World) × (o ≡ some (r, w'))
        × (now w ≤ now w')
        × (r ≡ ok false → end ≤ now w'))

  abbrev Rounds : ℕ → World → WaitRound os → Type 0
  Rounds end w (over r w') = (now w ≤ now w') × (r ≡ ok false → end ≤ now w')
  Rounds end w (again w') = (now w + 15 ≤ now w') × (now w < end)

  wait_round-Rounds :
      (end : ℕ) (w w1 : World) (r : Result (Unit {0}) IoError)
      → now w ≤ now w1
      → Rounds end w (wait_round os end (r, w1))
  wait_round-Rounds end w w1 (ok _) later = (later, λ h. cc)
  wait_round-Rounds end w w1 (err e) later = elim (Bool-cases (is_would_block e)) [
    | inr fails ↦ rw fails (later, λ h. cc)
    | inl blocks ↦ elim (Bool-cases (ltb (now w1) end)) [
      | inl early ↦
          rw (blocks, early)
            (omega (arith, clock.sleep_later 15 w1), omega (arith, ltb→lt (now w1) end early))
      | inr late ↦ rw (blocks, late) (later, λ h. ground arith)
    ]
  ]

  go_on-Waited :
      (fuel end : ℕ) (w : World) (rd : WaitRound os)
      → Rounds end w rd
      → end < fuel + 1 + now w
      → ((w' : World) → end < fuel + now w' → 0 < fuel → Waited end w' (wait_until os fuel end w'))
      → Waited end w (go_on os (wait_until os fuel end) rd)
  go_on-Waited fuel end w (over r w') (later, timeout) enough more = (r, (w', refl, later, timeout))
  go_on-Waited fuel end w (again w') (later, early) enough more =
      let (r, (w2, ends, later', timeout)) = more w' (omega arith) (omega arith) in
      (r, (w2, ends, omega arith, timeout))

  wait_until-Waited :
      (fuel end : ℕ) (w : World)
      → end < fuel + now w
      → 0 < fuel
      → Waited end w (wait_until os fuel end w)
  unfolding wait_until poll
  wait_until-Waited zero end w enough pos = absurd (omega arith)
  wait_until-Waited (suc fuel) end w enough pos =
      go_on-Waited fuel end w _
        (wait_round-Rounds end w (os.waitpid w).1 (polled (os.waitpid w).0) (clock.waitpid_later w))
        (omega arith) (λ w' enough' pos'. wait_until-Waited fuel end w' enough' pos')

  -- A wait ends, and one that times out has lasted its time.
  pub wait-Waited : (millis : ℕ) (w : World) → Waited (now w + millis) w (wait os millis w)
  unfolding wait
  wait-Waited millis w =
      wait_until-Waited (suc millis) (now w + millis) w (omega arith) (omega arith)
