-- ===== src/Pool/Channels.antt =====
-- Bounded channels of the crate `flume` as the pool uses them: it keeps both ends of each channel
-- and never waits on one.
use porkg.Base.{ℕ, ◌≡◌, ◌<◌, ◌≤◌, List, [], ◌∷◌, ◌++◌, Option, none, some, length}

pub data TrySend (T : Type 0) : Type 0 where
  sent : TrySend T
  full : T → TrySend T
  disconnected : T → TrySend T

pub record Flume (T : Type 0) : Type 1 where
  pub Channel : Type 0
  pub bounded : ℕ → Channel
  pub try_send : Channel → T → TrySend T × Channel
  pub try_recv : Channel → Option (T × Channel)

-- What the crate documents: a first-in first-out queue that holds up to its bound. A channel of
-- bound 0 takes a message only for a receiver that waits, and none does.
pub record IsQueue {T : Type 0} (f : Flume T) : Type 0 where
  pub queued : f.Channel → List T
  pub limit : f.Channel → ℕ
  pub queued-bounded : (n : ℕ) → queued (f.bounded n) ≡ []
  pub limit-bounded : (n : ℕ) → limit (f.bounded n) ≡ n
  pub recv_empty : (c : f.Channel) → queued c ≡ [] → f.try_recv c ≡ none
  pub recv_oldest :
      (c : f.Channel) (v : T) (vs : List T)
      → queued c ≡ v ∷ vs
      → (c' : f.Channel) × (f.try_recv c ≡ some (v, c')) × (queued c' ≡ vs) × (limit c' ≡ limit c)
  pub send_room :
      (c : f.Channel) (v : T)
      → length (queued c) < limit c
      → (c' : f.Channel) × (f.try_send c v ≡ (sent, c'))
        × (queued c' ≡ queued c ++ v ∷ [])
        × (limit c' ≡ limit c)
  pub send_full :
      (c : f.Channel) (v : T) → limit c ≤ length (queued c) → f.try_send c v ≡ (full v, c)
