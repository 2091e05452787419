-- ===== src/Pool/Threads/Steps.antt =====
-- The pool is wait-free: a call ends after a bounded number of its own operations.
use porkg.Base.{
  ℕ, zero, suc, ◌+◌, ◌≡◌, ◌≢◌, ◌≤◌, ◌<◌, refl, ap, ◌∙◌, subst, inl, inr, Bool-cases, false, List,
  [], ◌∷◌, Option, none, some, get_elem?, set, take, ◌==◌, ==_iff, if◌then◌else◌, arith,
}
use porkg.Pool.Channels.{Flume, TrySend, sent, full, disconnected}
use porkg.Pool.{PoolBuilder, slot, receive_at}
use porkg.Pool.Threads.{
  Thread, idle, taking, has_found, holding, accepted, sending, Shared, looked, attempted, attempt,
  advance,
}
use porkg.Pool.Threads.Turns.{
  Turn, runs, edits, forgets, brings, System, step, thread_of, turned, turn, play,
}

get_elem?-set_same :
    {A : Type 0} (xs : List A) (j : ℕ) (a b : A)
    → get_elem? xs j ≡ some a
    → get_elem? (set xs j b) j ≡ some b
get_elem?-set_same [] j a b h = cc
get_elem?-set_same (x ∷ xs) zero a b h = refl
get_elem?-set_same (x ∷ xs) (suc j) a b h = get_elem?-set_same xs j a b h

get_elem?-set_other :
    {A : Type 0} (xs : List A) (j k : ℕ) (b : A) → k ≢ j → get_elem? (set xs k b) j ≡ get_elem? xs j
get_elem?-set_other [] j k b h = refl
get_elem?-set_other (x ∷ xs) zero zero b h = absurd (h refl)
get_elem?-set_other (x ∷ xs) (suc j) zero b h = refl
get_elem?-set_other (x ∷ xs) zero (suc k) b h = refl
get_elem?-set_other (x ∷ xs) (suc j) (suc k) b h = get_elem?-set_other xs j k b (λ e. h (ap suc e))

module _ {G T : Type 0} (flume : Flume T) (config : PoolBuilder G T) (create : G → T × G) where
  -- The operations that a thread's call has left at most: the rounds of the loop, and what is
  -- around it. A thread that is idle or holds a value is in no call.
  abbrev pub left : Thread T → ℕ
  left idle = 0
  left (holding v) = 0
  left (taking id i rounds) = rounds + 1
  left (has_found v) = 1
  left (accepted v) = config.max_loop + 3
  left (sending id i rounds v) = rounds + 1

  -- The turns in which a thread makes an operation.
  abbrev pub turns_of : ℕ → List (Turn T) → ℕ
  turns_of j [] = 0
  turns_of j (runs tid k ∷ us) = (if k == j then 1 else 0) + turns_of j us
  turns_of j (edits k w ∷ us) = turns_of j us
  turns_of j (forgets k ∷ us) = turns_of j us
  turns_of j (brings k v ∷ us) = turns_of j us

  module _ (shared : Shared flume config create) where
    looked-left :
        (id i n : ℕ) (o : Option (T × List (flume.Channel)))
        → left (looked flume config create shared (taking id i n) o).1 ≤ n + 1
    looked-left id i n none = omega arith
    looked-left id i n (some (v, entries)) = omega arith

    attempted-left :
        (j id i n : ℕ) (v : T) (r : TrySend T × flume.Channel)
        → left (attempted flume config create shared j v (sending id i n) r).1 ≤ n + 1
    attempted-left j id i n v (sent, c) = omega arith
    attempted-left j id i n v (disconnected w, c) = omega arith
    attempted-left j id i n v (full w, c) = omega arith

    attempt-left :
        (j id i n : ℕ) (v : T) (o : Option flume.Channel)
        → left (attempt flume config create shared j v (sending id i n) o).1 ≤ n + 1
    attempt-left j id i n v none = omega arith
    attempt-left j id i n v (some c) = attempted-left j id i n v (flume.try_send c v)

  advance-left :
      (tid : ℕ) (shared : Shared flume config create) (t : Thread T)
      → 0 < left t
      → left (advance flume config create tid shared t).1 < left t
  unfolding advance
  advance-left tid (s, g) idle h = absurd (omega arith)
  advance-left tid (s, g) (holding v) h = absurd (omega arith)
  advance-left tid (s, g) (taking id i zero) h = omega arith
  advance-left tid (s, g) (taking id i (suc n)) h = omega (
    arith,
    looked-left (s, g) id (i + 1) n
        (receive_at flume s.entries (slot flume i id s.entries)
          (get_elem? s.entries (slot flume i id s.entries)) none),
  )
  advance-left tid (s, g) (has_found v) h = omega arith
  advance-left tid (s, g) (accepted v) h = omega arith
  advance-left tid (s, g) (sending id i zero v) h = omega arith
  advance-left tid (s, g) (sending id i (suc n) v) h = omega (
    arith,
    attempt-left (s, g) (slot flume i id s.entries) id (i + 1) n v
        (get_elem? s.entries (slot flume i id s.entries)),
  )

  abbrev own : Turn T → ℕ
  own (runs tid j) = 1
  own (edits j w) = 0
  own (forgets j) = 0
  own (brings j v) = 0

  turns_of-own :
      (j : ℕ) (u : Turn T) (us : List (Turn T)) → turns_of j (u ∷ us) ≤ own u + turns_of j us
  turns_of-own j (runs tid k) us = elim (Bool-cases (k == j)) [
    | inl same ↦ rw same (omega arith)
    | inr other ↦ rw other (omega arith)
  ]
  turns_of-own j (edits k w) us = omega arith
  turns_of-own j (forgets k) us = omega arith
  turns_of-own j (brings k v) us = omega arith

  turns_of-other :
      (j : ℕ) (u : Turn T) (us : List (Turn T))
      → (thread_of flume config create u == j) ≡ false
      → turns_of j (u ∷ us) ≡ turns_of j us
  turns_of-other j (runs tid k) us h = rw h (omega arith)
  turns_of-other j (edits k w) us h = refl
  turns_of-other j (forgets k) us h = refl
  turns_of-other j (brings k v) us h = refl

  step-left :
      (u : Turn T) (shared : Shared flume config create) (t : Thread T)
      → 0 < left t
      → left (step flume config create u shared t).1 + own u ≤ left t
  unfolding advance
  step-left (runs tid j) shared t h = omega (arith, advance-left tid shared t h)
  step-left (edits j w) shared (holding v) h = absurd (omega arith)
  step-left (edits j w) shared idle h = omega arith
  step-left (edits j w) shared (taking id i n) h = omega arith
  step-left (edits j w) shared (has_found v) h = omega arith
  step-left (edits j w) shared (accepted v) h = omega arith
  step-left (edits j w) shared (sending id i n v) h = omega arith
  step-left (forgets j) shared (holding v) h = absurd (omega arith)
  step-left (forgets j) shared idle h = omega arith
  step-left (forgets j) shared (taking id i n) h = omega arith
  step-left (forgets j) shared (has_found v) h = omega arith
  step-left (forgets j) shared (accepted v) h = omega arith
  step-left (forgets j) shared (sending id i n v) h = omega arith
  step-left (brings j w) shared (holding v) h = omega arith
  step-left (brings j w) shared idle h = absurd (omega arith)
  step-left (brings j w) shared (taking id i n) h = omega arith
  step-left (brings j w) shared (has_found v) h = omega arith
  step-left (brings j w) shared (accepted v) h = omega arith
  step-left (brings j w) shared (sending id i n v) h = omega arith

  -- What a turn leaves of a thread that is in a call.
  abbrev Went : ℕ → ℕ → ℕ → System flume config create → Type 0
  Went j before after (_, threads) =
      (t : Thread T) × (get_elem? threads j ≡ some t) × (left t + before ≤ after)

  turn-left :
      (u : Turn T) (us : List (Turn T)) (s : System flume config create) (j : ℕ) (t : Thread T)
      → get_elem? s.1 j ≡ some t
      → 0 < left t
      → Went j (turns_of j (u ∷ us)) (left t + turns_of j us) (turn flume config create u s).0
  unfolding turn
  turn-left u us (shared, threads) j t there h =
      let k = thread_of flume config create u in
      elim (Bool-cases (k == j)) [
        | inl same ↦
            let at : k ≡ j = (==_iff k j).0 same in
            let mine : get_elem? threads k ≡ some t = ap (get_elem? threads) at ∙ there in
            rw mine (
              (step flume config create u shared t).1,
              subst
                  (λ n.
                    get_elem? (set threads k (step flume config create u shared t).1) n
                    ≡ some (step flume config create u shared t).1)
                  at (get_elem?-set_same threads k t _ mine),
              omega (arith, step-left u shared t h, turns_of-own j u us),
            )
        | inr other ↦ elsewhere other (get_elem? threads (thread_of flume config create u))
      ]
    where
      elsewhere :
          (thread_of flume config create u == j) ≡ false
          → (o : Option (Thread T))
          → Went j
              (turns_of j (u ∷ us))
              (left t + turns_of j us)
              (turned flume config create u (shared, threads) o).0
      elsewhere other none = (t, there, omega (arith, turns_of-other j u us other))
      elsewhere other (some x) =
          let k = thread_of flume config create u in
          let apart : k ≢ j = λ e. let same = (==_iff k j).1 e in absurd (cc) in
          (
            t,
            get_elem?-set_other threads j k _ apart ∙ there,
            omega (arith, turns_of-other j u us other),
          )

  -- Wait-freedom. Whatever the other threads do, and whatever the channels answer, a thread that is in a
  -- call of `take` or `return_value` is out of it within as many operations of its own as `left`
  -- says: if the schedule gives it so many turns, then after one of the schedule's beginnings it
  -- is idle or holds a value.
  pub call_ends :
      (us : List (Turn T)) (s : System flume config create) (j : ℕ) (t : Thread T)
      → get_elem? s.1 j ≡ some t
      → left t ≤ turns_of j us
      → (n : ℕ) × ((t' : Thread T) × (get_elem? (play flume config create (take n us) s).0.1 j
            ≡ some t')
          × (left t' ≡ 0))
  unfolding play
  call_ends [] s j t there enough = (0, (t, there, omega arith))
  call_ends (u ∷ us) s j t there enough = elim (Bool-cases (left t == 0)) [
    | inl done ↦ (0, (t, there, (==_iff (left t) 0).0 done))
    | inr busy ↦
        let (t1, there1, fewer) = turn-left u us s j t there (ground arith) in
        let (n, (t', there', ended)) =
          call_ends us (turn flume config create u s).0 j t1 there1 (omega arith) in
        (suc n, (t', there', ended))
  ]
