-- ===== src/Pool/Items/Lifetimes.antt =====
-- A value's way from the pool through uses of the item and back.
use porkg.Base.{◌≡◌, refl, List, [], ◌∷◌, Option, none, some, Result, ok, err, and_then}
use porkg.Pool.Items.{Pooled, drop, forget, apply_result, get_mut, clone, new}

-- What a holder does with an item while it is alive.
pub data Use (T E : Type 0) : Type 0 where
  mutates : (T → T) → Use T E
  applies : (T → Result T E) → Use T E
  clones : Use T E

pub data End : Type 0 where
  drops forgets : End

-- What the uses make of the value, said without an item or a pool.
unfoldable pub outcome : {T E : Type 0} → List (Use T E) → T → Result T E
outcome [] v = ok v
outcome (mutates f ∷ us) v = outcome us (f v)
outcome (applies f ∷ us) v = and_then (f v) (λ w. outcome us w)
outcome (clones ∷ us) v = outcome us v

-- What the holder is left with, and the pool; `none` is a panic.
abbrev pub Left : Type 0 → Type 0 → Type 0 → Type 0
Left T P E = Option (Result (Option T) E × P)

abbrev pub taken_out : {T P E : Type 0} → Option (T × P) → Left T P E
taken_out none = none
taken_out (some (v, p)) = some (ok (some v), p)

abbrev pub go_on :
    {T P E : Type 0} → (Pooled T → P → Left T P E) → P → Option (Pooled T) → Left T P E
go_on more p none = none
go_on more p (some item) = more item p

abbrev pub go_on_result :
    {T P E : Type 0} → (Pooled T → P → Left T P E) → Option (Result (Pooled T) E × P) → Left T P E
go_on_result more none = none
go_on_result more (some (err e, p)) = some (err e, p)
go_on_result more (some (ok item, p)) = more item p

module _ {T P E : Type 0} (return_value : T → P → P) where
  -- The item's methods in the order of the uses, and its end. A clone is dropped at once.
  unfoldable pub live : List (Use T E) → End → Pooled T → P → Left T P E
  unfolding drop forget apply_result get_mut clone
  live [] drops item p = some (ok none, drop return_value item p)
  live [] forgets item p = taken_out (forget return_value item p)
  live (mutates f ∷ us) end item p = go_on (live us end) p (get_mut item f)
  live (applies f ∷ us) end item p = go_on_result (live us end) (apply_result return_value item f p)
  live (clones ∷ us) end item p = live us end item (drop return_value (clone item) p)

  abbrev pub settle : End → Result T E → P → Result (Option T) E × P
  settle end (err e) p = (err e, p)
  settle drops (ok v) p = (ok none, return_value v p)
  settle forgets (ok v) p = (ok (some v), p)

  applied_settles :
      (f : T → Result T E) (us : List (Use T E)) (end : End) (v : T) (p : P) (r : Result T E)
      → f v ≡ r
      → ((w : T) → live us end (new w) p ≡ some (settle end (outcome us w) p))
      → live (applies f ∷ us) end (new v) p ≡ some (settle end (outcome (applies f ∷ us) v) p)
  unfolding live new outcome
  applied_settles f us end v p (ok w) h later = rw h (later w)
  applied_settles f us end v p (err e) h later = rw h refl

  -- Whatever is done with an item before it ends, nothing panics, and the pool gets a value back
  -- once, if the item is dropped, and that is the value as the uses left it; it gets nothing if the
  -- item is forgotten, if an applied function fails, or from a clone.
  pub live_settles :
      (us : List (Use T E)) (end : End) (v : T) (p : P)
      → live us end (new v) p ≡ some (settle end (outcome us v) p)
  unfolding live new outcome
  live_settles [] drops v p = refl
  live_settles [] forgets v p = refl
  live_settles (mutates f ∷ us) end v p = live_settles us end (f v) p
  live_settles (applies f ∷ us) end v p =
      applied_settles f us end v p (f v) refl (λ w. live_settles us end w p)
  live_settles (clones ∷ us) end v p = live_settles us end v p
