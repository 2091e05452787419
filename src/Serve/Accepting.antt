-- ===== src/Serve/Accepting.antt =====
-- What the loop that accepts connections does over many rounds.
use porkg.Base.{
  ℕ, zero, suc, ◌≡◌, ◌⊎◌, refl, inl, inr, Bool, true, false, List, [], ◌∷◌, ◌++◌, Option, none,
  some, Result, ok, err, if◌then◌else◌, All,
}
use porkg.Serve.{
  Poll, pending, ready, AcceptError, connection_refused, connection_aborted, connection_reset,
  other_error, is_connection_error, poll_optional, Client, tcp_client, unix_client, PollRound,
  Event, accepted, stopped, accept_event, first_ready, rotated, select, Serving, handled,
  serve_loop,
}

-- An event that the loop goes on after.
abbrev GoesOn : Poll Event → Type 0
GoesOn pending = Unit {0}
GoesOn (ready stopped) = ⊥
GoesOn (ready (accepted (ok c))) = Unit {0}
GoesOn (ready (accepted (err connection_refused))) = Unit {0}
GoesOn (ready (accepted (err connection_aborted))) = Unit {0}
GoesOn (ready (accepted (err connection_reset))) = Unit {0}
GoesOn (ready (accepted (err (other_error n)))) = ⊥

-- An event that ends the loop, and its result.
abbrev EndsWith : Poll Event → Result (Unit {0}) AcceptError → Type 0
EndsWith pending r = ⊥
EndsWith (ready stopped) r = r ≡ ok tt
EndsWith (ready (accepted (ok c))) r = ⊥
EndsWith (ready (accepted (err connection_refused))) r = ⊥
EndsWith (ready (accepted (err connection_aborted))) r = ⊥
EndsWith (ready (accepted (err connection_reset))) r = ⊥
EndsWith (ready (accepted (err (other_error n)))) r = r ≡ err (other_error n)

-- The connections in the rounds' events, in order.
abbrev client_in : Poll Event → List Client
client_in pending = []
client_in (ready stopped) = []
client_in (ready (accepted (ok c))) = c ∷ []
client_in (ready (accepted (err e))) = []

rotated-All :
    {A : Type 0} (P : A → Type 0) (n : ℕ) (a b c : A) → P a → P b → P c → All P (rotated n a b c)
rotated-All P zero a b c pa pb pc = (pa, (pb, (pc, tt)))
rotated-All P (suc zero) a b c pa pb pc = (pb, (pc, (pa, tt)))
rotated-All P (suc (suc n)) a b c pa pb pc = (pc, (pa, (pb, tt)))

module _ (has_tcp : Bool) where
  -- An event that a round brings: what a listener answers, or the cancellation. A TCP listener that
  -- is not there answers nothing.
  abbrev Offers : PollRound → Event → Type 0
  Offers r stopped = r.cancelled ≡ true
  Offers r (accepted (ok (unix_client fd))) = r.unix ≡ ready (ok fd)
  Offers r (accepted (ok (tcp_client fd))) = (has_tcp ≡ true) × (r.tcp ≡ ready (ok fd))
  Offers r (accepted (err e)) =
      (r.unix ≡ ready (err e)) ⊎ ((has_tcp ≡ true) × (r.tcp ≡ ready (err e)))

  -- Nothing is ready.
  abbrev IsQuiet : PollRound → Type 0
  IsQuiet r = (r.unix ≡ pending) × ((has_tcp ≡ false) ⊎ (r.tcp ≡ pending)) × (r.cancelled ≡ false)

  abbrev Brings : PollRound → Poll Event → Type 0
  Brings r pending = IsQuiet r
  Brings r (ready e) = Offers r e

  -- The rounds, how the loop ends, and the connections given to tasks.
  pub data Served : List PollRound → Serving → Type 0 where
    over : Served [] (none, [])
    goes_on :
        (r : PollRound) (rs : List PollRound) (p : Poll Event)
        (x : Option (Result (Unit {0}) AcceptError)) (clients : List Client)
        → Brings r p
        → GoesOn p
        → Served rs (x, clients)
        → Served (r ∷ rs) (x, client_in p ++ clients)
    ends :
        (r : PollRound) (rs : List PollRound) (p : Poll Event) (x : Result (Unit {0}) AcceptError)
        → Brings r p
        → EndsWith p x
        → Served (r ∷ rs) (some x, [])

  -- What a future answers is offered.
  abbrev Possible : PollRound → Poll Event → Type 0
  Possible r pending = Unit {0}
  Possible r (ready e) = Offers r e

  unix-Possible :
      (r : PollRound) (p : Poll (Result ℕ AcceptError))
      → r.unix ≡ p
      → Possible r (accept_event unix_client p)
  unix-Possible r pending h = tt
  unix-Possible r (ready (ok fd)) h = h
  unix-Possible r (ready (err e)) h = inl h

  tcp-Possible :
      (r : PollRound) (b : Bool) (p : Poll (Result ℕ AcceptError))
      → has_tcp ≡ b
      → r.tcp ≡ p
      → Possible r (accept_event tcp_client (poll_optional (if b then some p else none)))
  tcp-Possible r false p there h = tt
  tcp-Possible r true pending there h = tt
  tcp-Possible r true (ready (ok fd)) there h = (there, h)
  tcp-Possible r true (ready (err e)) there h = inr (there, h)

  cancel-Possible :
      (r : PollRound) (b : Bool)
      → r.cancelled ≡ b
      → Possible r (if b then ready stopped else pending)
  cancel-Possible r true h = h
  cancel-Possible r false h = tt

  first_ready-Possible :
      (r : PollRound) (ps : List (Poll Event)) → All (Possible r) ps → Possible r (first_ready ps)
  first_ready-Possible r [] h = tt
  first_ready-Possible r (pending ∷ ps) (_, h) = first_ready-Possible r ps h
  first_ready-Possible r (ready e ∷ ps) (here, _) = here

  none_ready : (ps : List (Poll Event)) → first_ready ps ≡ pending → All (λ p. p ≡ pending) ps
  none_ready [] h = tt
  none_ready (pending ∷ ps) h = (refl, none_ready ps h)
  none_ready (ready e ∷ ps) h = cc

  -- No future is ready, whichever is polled first.
  all_pending :
      (n : ℕ) (a b c : Poll Event)
      → first_ready (rotated n a b c) ≡ pending
      → (a ≡ pending) × (b ≡ pending) × (c ≡ pending)
  all_pending zero a b c h = let (pa, (pb, (pc, _))) = none_ready (a ∷ b ∷ c ∷ []) h in (pa, pb, pc)
  all_pending (suc zero) a b c h =
      let (pb, (pc, (pa, _))) = none_ready (b ∷ c ∷ a ∷ []) h in (pa, pb, pc)
  all_pending (suc (suc n)) a b c h =
      let (pc, (pa, (pb, _))) = none_ready (c ∷ a ∷ b ∷ []) h in (pa, pb, pc)

  no_event :
      (f : ℕ → Client) (p : Poll (Result ℕ AcceptError)) → accept_event f p ≡ pending → p ≡ pending
  no_event f pending h = refl
  no_event f (ready x) h = cc

  no_tcp :
      (b : Bool) (p : Poll (Result ℕ AcceptError))
      → has_tcp ≡ b
      → accept_event tcp_client (poll_optional (if b then some p else none)) ≡ pending
      → (has_tcp ≡ false) ⊎ (p ≡ pending)
  no_tcp false p there h = inl there
  no_tcp true p there h = inr (no_event tcp_client p h)

  not_cancelled :
      (b : Bool) → ◌≡◌ {A = Poll Event} (if b then ready stopped else pending) pending → b ≡ false
  not_cancelled false h = refl
  not_cancelled true h = cc

  select-Possible : (r : PollRound) → Possible r (select has_tcp r)
  unfolding select
  select-Possible r = first_ready-Possible r _ (
      rotated-All (Possible r) r.first _ _ _ (unix-Possible r r.unix refl)
        (tcp-Possible r has_tcp r.tcp refl refl) (cancel-Possible r r.cancelled refl))

  select-IsQuiet : (r : PollRound) → select has_tcp r ≡ pending → IsQuiet r
  unfolding select
  select-IsQuiet r h =
      let (unix, tcp, cancelled) = all_pending r.first _ _ _ h in
      (
        no_event unix_client r.unix unix,
        no_tcp has_tcp r.tcp refl tcp,
        not_cancelled r.cancelled cancelled,
      )

  brings : (r : PollRound) (p : Poll Event) → Possible r p → (p ≡ pending → IsQuiet r) → Brings r p
  brings r pending h quiet = quiet refl
  brings r (ready e) h quiet = h

  handled-Served :
      (r : PollRound) (rs : List PollRound) (p : Poll Event) (rest : Serving)
      → Brings r p
      → Served rs rest
      → Served (r ∷ rs) (handled p rest)
  unfolding is_connection_error
  handled-Served r rs pending (x, clients) h more = goes_on r rs pending x clients h tt more
  handled-Served r rs (ready stopped) rest h more = ends r rs (ready stopped) (ok tt) h refl
  handled-Served r rs (ready (accepted (ok c))) (x, clients) h more =
      goes_on r rs (ready (accepted (ok c))) x clients h tt more
  handled-Served r rs (ready (accepted (err connection_refused))) (x, clients) h more =
      goes_on r rs (ready (accepted (err connection_refused))) x clients h tt more
  handled-Served r rs (ready (accepted (err connection_aborted))) (x, clients) h more =
      goes_on r rs (ready (accepted (err connection_aborted))) x clients h tt more
  handled-Served r rs (ready (accepted (err connection_reset))) (x, clients) h more =
      goes_on r rs (ready (accepted (err connection_reset))) x clients h tt more
  handled-Served r rs (ready (accepted (err (other_error n)))) rest h more =
      ends r rs (ready (accepted (err (other_error n)))) (err (other_error n)) h refl

  -- In each round the loop handles one event that a future of that round answers, or waits if none
  -- answers; the TCP listener's answers count only if there is one. It gives each connection so
  -- accepted to a task, once and in order, up to the round that ends it. A cancellation ends
  -- it with success; an error of a listener ends it with that error, unless it says that a connection
  -- was refused, aborted or reset: the loop goes on after these and after any other event.
  pub serve_loop-Served : (rs : List PollRound) → Served rs (serve_loop has_tcp rs)
  unfolding serve_loop
  serve_loop-Served [] = over
  serve_loop-Served (r ∷ rs) =
      handled-Served r rs (select has_tcp r) (serve_loop has_tcp rs)
        (brings r (select has_tcp r) (select-Possible r) (select-IsQuiet r)) (serve_loop-Served rs)
