-- ===== src/Pool/Threads/Ledger.antt =====
-- A thread's move neither loses a value nor doubles one, and fills no channel beyond its limit.
use porkg.Base.{
  ℕ, zero, suc, ◌+◌, ◌≡◌, ◌≤◌, refl, ap, inl, inr, Bool-cases, List, [], ◌∷◌, Option, none, some,
  length, length-append, length-set, get_elem?, set, get-All, ltb, ltb→lt, arith,
}
use porkg.Pool.Channels.{Flume, IsQueue}
use porkg.Pool.{PoolBuilder, PoolState, next_id, slot, receive_at, received, on_return}
use porkg.Pool.Contents.{contents, Keeps, Keeps-refl, set-total_limit, set-IsBounded}
use porkg.Pool.Threads.{
  Thread, idle, taking, has_found, holding, accepted, sending, moved, Moved, filtered, looked,
  attempt, advance,
}
use porkg.Pool.Threads.Turns.{Turn, runs, edits, forgets, brings, step}
use porkg.Pool.Threads.Counting.{weigh, weigh-append, held, added, removed, contents-set}

module _ {G T : Type 0} (flume : Flume T) (queue : IsQueue flume) (config : PoolBuilder G T)
    (create : G → T × G) where
  open flume use {Channel, try_send, try_recv}
  open queue use {queued, limit, recv_empty, recv_oldest, send_room, send_full}

  -- The books of a move.
  abbrev pub Fair : List Channel → Thread T → Moved flume config create → Type 0
  Fair entries t ((s, g), t', c) =
      ((f : T → ℕ)
        → weigh f (contents flume queue entries) + (weigh f (held t) + weigh f (added c))
          ≡ weigh f (contents flume queue s.entries) + (weigh f (held t') + weigh f (removed c)))
      × Keeps flume queue entries s.entries

  set-Keeps :
      (entries : List Channel) (j : ℕ) (c c' : Channel)
      → get_elem? entries j ≡ some c
      → limit c' ≡ limit c
      → (length (queued c) ≤ limit c → length (queued c') ≤ limit c')
      → Keeps flume queue entries (set entries j c')
  set-Keeps entries j c c' there l within = record {
    same_limit = set-total_limit flume queue entries j c c' there l;
    same_count = length-set entries j c';
    bounded = λ h.
        set-IsBounded flume queue entries j c'
          (within (get-All (λ c. length (queued c) ≤ limit c) entries j c there h)) h;
  }

  module _ (s : PoolState flume) (g : G) (j : ℕ) where
    looked-Fair :
        (id id' i i' n n' : ℕ) (c : Channel)
        → get_elem? s.entries j ≡ some c
        → (vs : List T) → queued c ≡ vs
        → Fair s.entries (taking id i n) (
            looked flume config create
              (s, g)
              (taking id' i' n')
              (received flume s.entries j (try_recv c) none))
    looked-Fair id id' i i' n n' c there [] q =
        rw (recv_empty c q) ((λ f. refl), Keeps-refl flume queue s.entries)
    looked-Fair id id' i i' n n' c there (v ∷ vs) q =
        let (c', got, q', l) = recv_oldest c v vs q in
        rw got (
          (λ f. omega (
            arith,
            contents-set flume queue f s.entries j c c' there,
            ap (weigh f) q,
            ap (weigh f) q',
          )),
          set-Keeps s.entries j c c' there l (λ w. omega (arith, ap length q, ap length q')),
        )

    attempt-Fair :
        (id id' i i' n n' : ℕ) (v : T) (o : Option Channel)
        → get_elem? s.entries j ≡ o
        → Fair s.entries
            (sending id i n v)
            (attempt flume config create (s, g) j v (sending id' i' n') o)
    attempt-Fair id id' i i' n n' v none there = ((λ f. refl), Keeps-refl flume queue s.entries)
    attempt-Fair id id' i i' n n' v (some c) there =
        elim (Bool-cases (ltb (length (queued c)) (limit c))) [
          | inl room ↦
              let (c', done, q, l) = send_room c v (ltb→lt _ _ room) in
              rw done (
                (λ f. omega (
                  arith,
                  contents-set flume queue f s.entries j c c' there,
                  ap (weigh f) q,
                  weigh-append f (queued c) (v ∷ []),
                )),
                set-Keeps s.entries j c c' there l (λ w.
                    omega (arith, ltb→lt _ _ room, ap length q, length-append (queued c) (v ∷ []))),
              )
          | inr no_room ↦
              rw (send_full c v (ground arith)) ((λ f. refl), Keeps-refl flume queue s.entries)
        ]

    receive_at-Fair :
        (id id' i i' n n' : ℕ) (o : Option Channel)
        → get_elem? s.entries j ≡ o
        → Fair s.entries (taking id i n) (
            looked flume config create
              (s, g)
              (taking id' i' n')
              (receive_at flume s.entries j o none))
    receive_at-Fair id id' i i' n n' none there = ((λ f. refl), Keeps-refl flume queue s.entries)
    receive_at-Fair id id' i i' n n' (some c) there =
        looked-Fair id id' i i' n n' c there (queued c) refl

  filtered-Fair :
      (s : PoolState flume) (v : T) (r : Option T × G)
      → Fair s.entries (holding v) (filtered flume config create s v r)
  filtered-Fair s v (none, g) = ((λ f. omega arith), Keeps-refl flume queue s.entries)
  filtered-Fair s v (some w, g) = ((λ f. omega arith), Keeps-refl flume queue s.entries)

  pub advance-Fair :
      (tid : ℕ) (s : PoolState flume) (g : G) (t : Thread T)
      → Fair s.entries t (advance flume config create tid (s, g) t)
  unfolding advance next_id
  advance-Fair tid s g idle = ((λ f. refl), Keeps-refl flume queue s.entries)
  advance-Fair tid s g (taking id i zero) = ((λ f. omega arith), Keeps-refl flume queue s.entries)
  advance-Fair tid s g (taking id i (suc n)) =
      receive_at-Fair s g (slot flume i id s.entries) id id i (i + 1) (suc n) n _ refl
  advance-Fair tid s g (has_found v) = ((λ f. omega arith), Keeps-refl flume queue s.entries)
  advance-Fair tid s g (holding v) = filtered-Fair s v (on_return config.return_hook v g)
  advance-Fair tid s g (accepted v) = ((λ f. refl), Keeps-refl flume queue s.entries)
  advance-Fair tid s g (sending id i zero v) =
      ((λ f. omega arith), Keeps-refl flume queue s.entries)
  advance-Fair tid s g (sending id i (suc n) v) =
      attempt-Fair s g (slot flume i id s.entries) id id i (i + 1) (suc n) n v _ refl

  unmoved : (s : PoolState flume) (g : G) (t : Thread T) → Fair s.entries t ((s, g), t, moved)
  unmoved s g t = ((λ f. refl), Keeps-refl flume queue s.entries)

  pub step-Fair :
      (u : Turn T) (s : PoolState flume) (g : G) (t : Thread T)
      → Fair s.entries t (step flume config create u (s, g) t)
  unfolding advance
  step-Fair (runs tid j) s g t = advance-Fair tid s g t
  step-Fair (edits j w) s g (holding v) = ((λ f. omega arith), Keeps-refl flume queue s.entries)
  step-Fair (edits j w) s g idle = unmoved s g idle
  step-Fair (edits j w) s g (taking id i n) = unmoved s g (taking id i n)
  step-Fair (edits j w) s g (has_found v) = unmoved s g (has_found v)
  step-Fair (edits j w) s g (accepted v) = unmoved s g (accepted v)
  step-Fair (edits j w) s g (sending id i n v) = unmoved s g (sending id i n v)
  step-Fair (forgets j) s g (holding v) = ((λ f. omega arith), Keeps-refl flume queue s.entries)
  step-Fair (forgets j) s g idle = unmoved s g idle
  step-Fair (forgets j) s g (taking id i n) = unmoved s g (taking id i n)
  step-Fair (forgets j) s g (has_found v) = unmoved s g (has_found v)
  step-Fair (forgets j) s g (accepted v) = unmoved s g (accepted v)
  step-Fair (forgets j) s g (sending id i n v) = unmoved s g (sending id i n v)
  step-Fair (brings j w) s g idle = ((λ f. omega arith), Keeps-refl flume queue s.entries)
  step-Fair (brings j w) s g (holding v) = unmoved s g (holding v)
  step-Fair (brings j w) s g (taking id i n) = unmoved s g (taking id i n)
  step-Fair (brings j w) s g (has_found v) = unmoved s g (has_found v)
  step-Fair (brings j w) s g (accepted v) = unmoved s g (accepted v)
  step-Fair (brings j w) s g (sending id i n v) = unmoved s g (sending id i n v)
