-- ===== src/Pool/OwnedItems.antt =====
-- crates/porkg-private/src/mem/owned_pooled_item.rs: an item that owns its pool, which is any state
-- `P` with the function that takes a value back. `none` is the panic of `unwrap` on an empty item.
use porkg.Base.{◌≡◌, refl, List, [], ◌∷◌, Option, none, some}

pub record OwnedPooled (T : Type 0) : Type 0 where
  pub value : Option T

module _ {T : Type 0} where
  unfoldable pub new : T → OwnedPooled T
  new v = record { value = some v }

  -- `get`, `deref` and `as_ref`.
  unfoldable pub get : OwnedPooled T → Option T
  get item = item.value

  abbrev pub assigned : (T → T) → Option T → Option (OwnedPooled T)
  assigned f none = none
  assigned f (some v) = some (record { value = some (f v) })

  -- `get_mut`, `deref_mut` and `as_mut`, with what is written through the reference.
  unfoldable pub get_mut : OwnedPooled T → (T → T) → Option (OwnedPooled T)
  get_mut item f = assigned f item.value

module _ {T P : Type 0} (return_value : T → P → P) where
  abbrev pub dropped : Option T → P → P
  dropped none p = p
  dropped (some v) p = return_value v p

  -- `Drop`.
  unfoldable pub drop : OwnedPooled T → P → P
  drop item p = dropped item.value p

  abbrev pub forgotten : Option T → P → Option (T × P)
  forgotten none p = none
  forgotten (some v) p = some (v, drop (record { value = none }) p)

  unfoldable pub forget : OwnedPooled T → P → Option (T × P)
  unfolding drop
  forget item p = forgotten item.value p

  abbrev pub mutated :
      (OwnedPooled T → Option (OwnedPooled T)) → Option (OwnedPooled T) → Option (OwnedPooled T)
  mutated more none = none
  mutated more (some item) = more item

  -- Writes through the item, one after the other.
  unfoldable pub write_all : List (T → T) → OwnedPooled T → Option (OwnedPooled T)
  unfolding get_mut
  write_all [] item = some item
  write_all (f ∷ fs) item = mutated (write_all fs) (get_mut item f)

  abbrev pub written : List (T → T) → T → T
  written [] v = v
  written (f ∷ fs) v = written fs (f v)

  -- After any writes, which do not panic, the item holds the value as they leave it; a drop gives
  -- exactly that value to the pool, and `forget` gives it to the caller and nothing to the pool.
  write_all_settles :
      (fs : List (T → T)) (v : T) (p : P)
      → (item : OwnedPooled T) × (write_all fs (new v) ≡ some item)
        × (get item ≡ some (written fs v))
        × (drop item p ≡ return_value (written fs v) p)
        × (forget item p ≡ some (written fs v, p))
  unfolding write_all new get drop forget
  write_all_settles [] v p = (new v, refl, refl, refl, refl)
  write_all_settles (f ∷ fs) v p = write_all_settles fs (f v) p
