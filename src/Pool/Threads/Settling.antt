-- ===== src/Pool/Threads/Settling.antt =====
-- What a whole schedule does to the values of a pool.
use porkg.Base.{
  ℕ, ◌+◌, ◌≡◌, ◌≤◌, refl, List, [], ◌∷◌, ◌++◌, Option, none, some, length, get_elem?, set, arith,
}
use porkg.Pool.Channels.{Flume, IsQueue}
use porkg.Pool.{PoolBuilder, PoolState}
use porkg.Pool.Contents.{contents, Keeps, Keeps-refl, Keeps-trans}
use porkg.Pool.Threads.{Thread}
use porkg.Pool.Threads.Turns.{Turn, System, step, thread_of, turned, turn, play}
use porkg.Pool.Threads.Counting.{
  weigh, weigh-append, in_flight, in_flight-set, added, removed, all_added, all_removed,
}
use porkg.Pool.Threads.Ledger.{step-Fair}
use porkg.Pool.{new}
use porkg.Pool.Contents.{length-contents-le}
use porkg.Pool.New.{new-total_limit, new-IsBounded}

module _ {G T : Type 0} (flume : Flume T) (queue : IsQueue flume) (config : PoolBuilder G T)
    (create : G → T × G) where
  -- All values: those stored, and those that threads have.
  abbrev pub owned : System flume config create → List T
  owned ((s, g), threads) = contents flume queue s.entries ++ in_flight threads

  -- The books of a run: what there was and what came is what there is and what went.
  abbrev pub Settled :
      System flume config create → List T → System flume config create → List T → Type 0
  Settled before came after went =
      ((f : T → ℕ) → weigh f (owned before) + weigh f came ≡ weigh f (owned after) + weigh f went)
      × Keeps flume queue before.0.0.entries after.0.0.entries

  turned-Settled :
      (u : Turn T) (s : PoolState flume) (g : G) (threads : List (Thread T)) (o : Option (Thread T))
      → get_elem? threads (thread_of flume config create u) ≡ o
      → let r = turned flume config create u ((s, g), threads) o in
        Settled ((s, g), threads) (added r.1) r.0 (removed r.1)
  turned-Settled u s g threads none there = ((λ f. refl), Keeps-refl flume queue s.entries)
  turned-Settled u s g threads (some t) there =
      let r = step flume config create u (s, g) t in
      let (books, keeps) = step-Fair flume queue config create u s g t in
      (
        λ f. omega (
          arith,
          books f,
          in_flight-set f threads (thread_of flume config create u) t r.1 there,
          weigh-append f (contents flume queue s.entries) (in_flight threads),
          weigh-append f (contents flume queue r.0.0.entries)
              (in_flight (set threads (thread_of flume config create u) r.1)),
        ),
        keeps,
      )

  -- Whatever schedule the threads follow, and however their calls overlap, no value is lost and none
  -- is in two places: for any weight of values, such as 1 for one of them and 0 for the others, those
  -- there were, in the channels and with the threads, and those that came, by the factory, a hook or
  -- a holder, weigh as much as those there are and those that went. And no channel is filled beyond its limit.
  pub play-Settled :
      (us : List (Turn T)) (s : System flume config create)
      → let r = play flume config create us s in Settled s (all_added r.1) r.0 (all_removed r.1)
  unfolding play turn
  play-Settled [] s = ((λ f. refl), Keeps-refl flume queue s.0.0.entries)
  play-Settled (u ∷ us) ((s, g), threads) =
      let one =
        turned flume config create u ((s, g), threads)
          (get_elem? threads (thread_of flume config create u)) in
      let rest = play flume config create us one.0 in
      let (books, keeps) = turned-Settled u s g threads _ refl in
      let (books', keeps') = play-Settled us one.0 in
      (
        λ f. omega (
          arith,
          books f,
          books' f,
          weigh-append f (added one.1) (all_added rest.1),
          weigh-append f (removed one.1) (all_removed rest.1),
        ),
        Keeps-trans flume queue keeps keeps',
      )

  -- After any schedule of any threads, a new pool over channels that keep the crate's laws stores no
  -- more values than its capacity, at every moment of any calls that overlap.
  pub play-capacity :
      (default : ℕ) (g : G) (threads : List (Thread T)) (us : List (Turn T))
      → length (
          contents flume queue
            (play flume config create us ((new flume config default, g), threads)).0.0.0.entries)
        ≤ config.capacity
  play-capacity default g threads us =
      let (_, keeps) = play-Settled us ((new flume config default, g), threads) in
      omega (
        arith,
        length-contents-le flume queue _ (keeps.bounded (new-IsBounded flume queue config default)),
        keeps.same_limit,
        (new-total_limit flume queue config default).0,
      )
