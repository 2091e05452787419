-- ===== src/Pool/Threads/Counting.antt =====
-- What the values in a pool, and those of the threads that use it, weigh together.
use porkg.Base.{ℕ, zero, suc, ◌+◌, ◌≡◌, List, [], ◌∷◌, ◌++◌, some, get_elem?, set, arith}
use porkg.Pool.Channels.{Flume, IsQueue}
use porkg.Pool.Contents.{contents}
use porkg.Pool.Threads.{
  Thread, idle, taking, has_found, holding, accepted, sending, Change, moved, created, dropped,
  changed,
}

module _ {T : Type 0} where
  -- With a weight of 1 for some values and 0 for the others this counts them.
  abbrev pub weigh : (T → ℕ) → List T → ℕ
  weigh f [] = 0
  weigh f (x ∷ xs) = f x + weigh f xs

  pub weigh-append : (f : T → ℕ) (xs ys : List T) → weigh f (xs ++ ys) ≡ weigh f xs + weigh f ys
  weigh-append f [] ys = omega arith
  weigh-append f (x ∷ xs) ys = omega (arith, weigh-append f xs ys)

  -- The value that a thread has.
  abbrev pub held : Thread T → List T
  held idle = []
  held (taking id i rounds) = []
  held (has_found v) = v ∷ []
  held (holding v) = v ∷ []
  held (accepted v) = v ∷ []
  held (sending id i rounds v) = v ∷ []

  abbrev pub in_flight : List (Thread T) → List T
  in_flight [] = []
  in_flight (t ∷ ts) = held t ++ in_flight ts

  abbrev pub added : Change T → List T
  added moved = []
  added (created v) = v ∷ []
  added (dropped v) = []
  added (changed v w) = w ∷ []

  abbrev pub removed : Change T → List T
  removed moved = []
  removed (created v) = []
  removed (dropped v) = v ∷ []
  removed (changed v w) = v ∷ []

  abbrev pub all_added : List (Change T) → List T
  all_added [] = []
  all_added (c ∷ cs) = added c ++ all_added cs

  abbrev pub all_removed : List (Change T) → List T
  all_removed [] = []
  all_removed (c ∷ cs) = removed c ++ all_removed cs

  pub in_flight-set :
      (f : T → ℕ) (ts : List (Thread T)) (j : ℕ) (t t' : Thread T)
      → get_elem? ts j ≡ some t
      → weigh f (in_flight (set ts j t')) + weigh f (held t)
        ≡ weigh f (in_flight ts) + weigh f (held t')
  in_flight-set f [] j t t' there = absurd (cc)
  in_flight-set f (x ∷ xs) zero t t' there =
      let same : x ≡ t = cc in
      rw same (
        omega
          (arith, weigh-append f (held t) (in_flight xs), weigh-append f (held t') (in_flight xs)))
  in_flight-set f (x ∷ xs) (suc j) t t' there = omega (
    arith,
    in_flight-set f xs j t t' there,
    weigh-append f (held x) (in_flight xs),
    weigh-append f (held x) (in_flight (set xs j t')),
  )

module _ {T : Type 0} (flume : Flume T) (queue : IsQueue flume) where
  open flume use {Channel, try_send}
  open queue use {queued, limit, send_room, send_full}

  pub contents-set :
      (f : T → ℕ) (entries : List Channel) (j : ℕ) (c c' : Channel)
      → get_elem? entries j ≡ some c
      → weigh f (contents flume queue (set entries j c')) + weigh f (queued c)
        ≡ weigh f (contents flume queue entries) + weigh f (queued c')
  contents-set f [] j c c' there = absurd (cc)
  contents-set f (x ∷ xs) zero c c' there =
      let same : x ≡ c = cc in
      rw same (
        omega (
          arith,
          weigh-append f (queued c) (contents flume queue xs),
          weigh-append f (queued c') (contents flume queue xs),
        ))
  contents-set f (x ∷ xs) (suc j) c c' there = omega (
    arith,
    contents-set f xs j c c' there,
    weigh-append f (queued x) (contents flume queue xs),
    weigh-append f (queued x) (contents flume queue (set xs j c')),
  )
