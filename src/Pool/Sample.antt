-- ===== src/Pool/Sample.antt =====
-- A channel that keeps the laws: a list and its limit.
use porkg.Base.{
  ℕ, ◌≡◌, ◌<◌, ◌≤◌, refl, List, [], ◌∷◌, ◌++◌, Option, none, some, length, ltb, lt→ltb,
  if◌then◌else◌, arith,
}
use porkg.Pool.Channels.{Flume, IsQueue, TrySend, sent, full}

pub record Bounded (T : Type 0) : Type 0 where
  pub items : List T
  pub bound : ℕ

module _ {T : Type 0} where
  abbrev send : Bounded T → T → TrySend T × Bounded T
  send c v =
      if ltb (length c.items) c.bound
      then (sent, record c { items = c.items ++ v ∷ [] })
      else (full v, c)

  abbrev recv_from : ℕ → List T → Option (T × Bounded T)
  recv_from bound [] = none
  recv_from bound (v ∷ vs) = some (v, record { items = vs; bound = bound })

  abbrev pub sample : Flume T
  sample = record {
    Channel = Bounded T;
    bounded = λ n. record { items = []; bound = n };
    try_send = send;
    try_recv = λ c. recv_from c.bound c.items;
  }

  pub send_room :
      (c : Bounded T) (v : T)
      → length c.items < c.bound
      → send c v ≡ (sent, record c { items = c.items ++ v ∷ [] })
  send_room c v h = rw (lt→ltb _ _ h)

  pub send_full : (c : Bounded T) (v : T) → c.bound ≤ length c.items → send c v ≡ (full v, c)
  send_full c v h = ground arith

  pub recv_from-cons :
      (c : Bounded T) (v : T) (vs : List T)
      → c.items ≡ v ∷ vs
      → recv_from c.bound c.items ≡ some (v, record { items = vs; bound = c.bound })
  recv_from-cons c v vs e = rw e

  pub recv_from-nil : (c : Bounded T) → c.items ≡ [] → recv_from c.bound c.items ≡ none
  recv_from-nil c e = rw e

  abbrev pub sample-IsQueue : IsQueue (sample)
  sample-IsQueue = record {
    queued = λ c. c.items;
    limit = λ c. c.bound;
    queued-bounded = λ n. refl;
    limit-bounded = λ n. refl;
    recv_empty = recv_from-nil;
    recv_oldest =
        λ c v vs e. (record { items = vs; bound = c.bound }, recv_from-cons c v vs e, refl, refl);
    send_room = λ c v h. (record c { items = c.items ++ v ∷ [] }, send_room c v h, refl, refl);
    send_full = send_full;
  }
