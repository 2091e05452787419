-- ===== src/Pool/Contents.antt =====
-- What is stored in a pool: the queues of its channels, taken together. A call moves one value at
-- most, and keeps every channel within its limit.
use mathlib.Core.List.{Perm, perm_middle}
use mathlib.Core.List.Perm
use porkg.Base.{
  ℕ, zero, suc, ◌+◌, ◌≡◌, ◌≤◌, ◌⊎◌, inl, inr, refl, sym, ap, ◌∙◌, Bool-cases, List, [], ◌∷◌, ◌++◌,
  append_assoc, Option, none, some, length, length-append, length-set, get_elem?, set, All, get-All,
  ltb, ltb→lt, arith,
}
use porkg.Pool.Channels.{Flume, IsQueue}
use porkg.Pool.{take_loop, receive_at, received, send_loop, send_at, slot}

module _ {T : Type 0} (flume : Flume T) (queue : IsQueue flume) where
  open flume use {Channel, try_send, try_recv}
  open queue use {queued, limit, recv_empty, recv_oldest, send_room, send_full}

  abbrev pub contents : List Channel → List T
  contents [] = []
  contents (c ∷ cs) = queued c ++ contents cs

  abbrev pub total_limit : List Channel → ℕ
  total_limit [] = 0
  total_limit (c ∷ cs) = limit c + total_limit cs

  abbrev pub IsWithin : Channel → Type 0
  IsWithin c = length (queued c) ≤ limit c

  -- Every channel holds at most what it was made for.
  abbrev pub IsBounded : List Channel → Type 0
  IsBounded = All IsWithin

  set-contents_recv :
      (entries : List Channel) (j : ℕ) (c c' : Channel) (v : T)
      → get_elem? entries j ≡ some c
      → queued c ≡ v ∷ queued c'
      → Perm (contents entries) (v ∷ contents (set entries j c'))
  set-contents_recv [] j c c' v there q = absurd (cc)
  set-contents_recv (x ∷ xs) zero c c' v there q =
      let same : queued x ≡ v ∷ queued c' = cc in rw same (Perm.refl _)
  set-contents_recv (x ∷ xs) (suc j) c c' v there q =
      Perm.trans (Perm.append_left (queued x) (set-contents_recv xs j c c' v there q))
        (perm_middle (queued x) _)

  set-contents_send :
      (entries : List Channel) (j : ℕ) (c c' : Channel) (v : T)
      → get_elem? entries j ≡ some c
      → queued c' ≡ queued c ++ v ∷ []
      → Perm (contents (set entries j c')) (v ∷ contents entries)
  set-contents_send [] j c c' v there q = absurd (cc)
  set-contents_send (x ∷ xs) zero c c' v there q =
      let same : queued c' ≡ queued x ++ v ∷ [] = cc in
      rw (same, append_assoc) (perm_middle (queued x) (contents xs))
  set-contents_send (x ∷ xs) (suc j) c c' v there q =
      Perm.trans (Perm.append_left (queued x) (set-contents_send xs j c c' v there q))
        (perm_middle (queued x) _)

  pub set-total_limit :
      (entries : List Channel) (j : ℕ) (c c' : Channel)
      → get_elem? entries j ≡ some c
      → limit c' ≡ limit c
      → total_limit (set entries j c') ≡ total_limit entries
  set-total_limit [] j c c' there l = refl
  set-total_limit (x ∷ xs) zero c c' there l = let same : limit c' ≡ limit x = cc in omega arith
  set-total_limit (x ∷ xs) (suc j) c c' there l = omega (arith, set-total_limit xs j c c' there l)

  pub set-IsBounded :
      (entries : List Channel) (j : ℕ) (c' : Channel)
      → IsWithin c'
      → IsBounded entries
      → IsBounded (set entries j c')
  set-IsBounded [] j c' w h = tt
  set-IsBounded (x ∷ xs) zero c' w (hx, h) = (w, h)
  set-IsBounded (x ∷ xs) (suc j) c' w (hx, h) = (hx, set-IsBounded xs j c' w h)

  -- What every move of a value keeps: the channels' limits, and that they are kept to.
  pub record Keeps (entries entries' : List Channel) : Type 0 where
    pub same_limit : total_limit entries' ≡ total_limit entries
    pub same_count : length entries' ≡ length entries
    pub bounded : IsBounded entries → IsBounded entries'

  pub Keeps-refl : (entries : List Channel) → Keeps entries entries
  Keeps-refl entries = record { same_limit = refl; same_count = refl; bounded = λ h. h }

  pub Keeps-trans : {a b c : List Channel} → Keeps a b → Keeps b c → Keeps a c
  Keeps-trans k l = record {
    same_limit = l.same_limit ∙ k.same_limit;
    same_count = l.same_count ∙ k.same_count;
    bounded = λ h. l.bounded (k.bounded h);
  }

  abbrev pub Received : List Channel → Option (T × List Channel) → Type 0
  Received entries none = Unit {0}
  Received entries (some (v, entries')) =
      Perm (contents entries) (v ∷ contents entries') × Keeps entries entries'

  received-Received :
      (entries : List Channel) (j : ℕ) (c : Channel) (rest : Option (T × List Channel))
      → get_elem? entries j ≡ some c
      → Received entries rest
      → (vs : List T) → queued c ≡ vs
      → Received entries (received flume entries j (try_recv c) rest)
  received-Received entries j c rest there h [] q = rw (recv_empty c q) h
  received-Received entries j c rest there h (v ∷ vs) q =
      let (c', got, q', l) = recv_oldest c v vs q in
      rw got (
        set-contents_recv entries j c c' v there (q ∙ ap (◌∷◌ v) (sym q')),
        record {
          same_limit = set-total_limit entries j c c' there l;
          same_count = length-set entries j c';
          bounded = λ h.
              let within = get-All IsWithin entries j c there h in
              set-IsBounded entries j c' (omega (arith, ap length q, ap length q')) h;
        },
      )

  receive_at-Received :
      (entries : List Channel) (j : ℕ) (o : Option Channel) (rest : Option (T × List Channel))
      → get_elem? entries j ≡ o
      → Received entries rest
      → Received entries (receive_at flume entries j o rest)
  receive_at-Received entries j none rest there h = tt
  receive_at-Received entries j (some c) rest there h =
      received-Received entries j c rest there h (queued c) refl

  -- The loop of `take` finds nothing, or takes one value out of one channel.
  pub take_loop-Received :
      (rounds i id : ℕ) (entries : List Channel)
      → Received entries (take_loop flume rounds i id entries)
  unfolding take_loop
  take_loop-Received zero i id entries = tt
  take_loop-Received (suc rounds) i id entries =
      receive_at-Received entries (slot flume i id entries) _ _ refl
        (take_loop-Received rounds (i + 1) id entries)

  -- The loop of `return_value` stores the value in one channel, or drops it and changes nothing.
  abbrev pub Sent : List Channel → T → List Channel → Type 0
  Sent entries v entries' =
      ((entries' ≡ entries) ⊎ Perm (contents entries') (v ∷ contents entries))
      × Keeps entries entries'

  send_at-Sent :
      (entries : List Channel) (j : ℕ) (v : T) (o : Option Channel) (rest : T → List Channel)
      → get_elem? entries j ≡ o
      → Sent entries v (rest v)
      → Sent entries v (send_at flume entries j v o rest)
  send_at-Sent entries j v none rest there h = (inl refl, Keeps-refl entries)
  send_at-Sent entries j v (some c) rest there h =
      elim (Bool-cases (ltb (length (queued c)) (limit c))) [
        | inl room ↦
            let (c', done, q, l) = send_room c v (ltb→lt _ _ room) in
            rw done (
              inr (set-contents_send entries j c c' v there q),
              record {
                same_limit = set-total_limit entries j c c' there l;
                same_count = length-set entries j c';
                bounded = λ h.
                    set-IsBounded entries j c'
                      (omega
                        (arith, ltb→lt _ _ room, ap length q, length-append (queued c) (v ∷ [])))
                      h;
              },
            )
        | inr no_room ↦ rw (send_full c v (ground arith)) h
      ]

  pub send_loop-Sent :
      (rounds i id : ℕ) (entries : List Channel) (v : T)
      → Sent entries v (send_loop flume rounds i id entries v)
  unfolding send_loop
  send_loop-Sent zero i id entries v = (inl refl, Keeps-refl entries)
  send_loop-Sent (suc rounds) i id entries v =
      send_at-Sent entries (slot flume i id entries) v _ (send_loop flume rounds (i + 1) id entries)
        refl (send_loop-Sent rounds (i + 1) id entries v)

  -- Within their limits, the channels hold no more than the limits' sum.
  pub length-contents-le :
      (entries : List Channel) → IsBounded entries → length (contents entries) ≤ total_limit entries
  length-contents-le [] h = omega arith
  length-contents-le (c ∷ cs) (hc, h) =
      omega (arith, length-append (queued c) (contents cs), length-contents-le cs h)

  -- A channel that has no room.
  abbrev pub IsFull : Channel → Type 0
  IsFull c = limit c ≤ length (queued c)

  send_at_full :
      (entries : List Channel) (j : ℕ) (v : T) (rest : T → List Channel)
      → (rest v ≡ entries)
      → All IsFull entries
      → (o : Option Channel) → get_elem? entries j ≡ o
      → send_at flume entries j v o rest ≡ entries
  send_at_full entries j v rest e h none there = refl
  send_at_full entries j v rest e h (some c) there =
      rw (send_full c v (get-All IsFull entries j c there h)) e

  pub send_loop_full :
      (rounds i id : ℕ) (entries : List Channel) (v : T)
      → All IsFull entries
      → send_loop flume rounds i id entries v ≡ entries
  unfolding send_loop
  send_loop_full zero i id entries v h = refl
  send_loop_full (suc rounds) i id entries v h =
      send_at_full entries (slot flume i id entries) v (send_loop flume rounds (i + 1) id entries)
        (send_loop_full rounds (i + 1) id entries v h) h _ refl
