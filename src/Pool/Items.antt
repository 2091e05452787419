-- ===== src/Pool/Items.antt =====
-- crates/porkg-private/src/mem/pooled_item.rs: a value that goes back to its pool when it is dropped.
-- The pool is any state `P` with the function that takes a value back. `none` as a result is the
-- panic of `unwrap` on an empty item. A method that takes `self` ends with the drop of what is
-- left.
pub mod Lifetimes
use porkg.Base.{Bool, true, false, Option, none, some, Result, ok, err}

-- `&dyn PoolReturn<T>`: a pool, or the `NullPool` of mem.rs.
pub data Target : Type 0 where
  to_pool null_pool : Target

pub record Pooled (T : Type 0) : Type 0 where
  pub value : Option T
  pub pool : Target

module _ {T P : Type 0} (return_value : T → P → P) where
  -- `PoolReturn::return_value` of the two targets.
  abbrev pub give : Target → T → P → P
  give to_pool v p = return_value v p
  give null_pool v p = p

  abbrev pub dropped : Target → Option T → P → P
  dropped t none p = p
  dropped t (some v) p = give t v p

  -- `Drop`.
  unfoldable pub drop : Pooled T → P → P
  drop item p = dropped item.pool item.value p

  -- `value.take()`, which the methods that take `self` begin with.
  abbrev pub emptied : Pooled T → Pooled T
  emptied item = record item { value = none }

  abbrev pub forgotten : Pooled T → Option T → P → Option (T × P)
  forgotten item none p = none
  forgotten item (some v) p = some (v, drop (emptied item) p)

  unfoldable pub forget : Pooled T → P → Option (T × P)
  unfolding drop
  forget item p = forgotten item item.value p

  abbrev pub settled : {E : Type 0} → Pooled T → Result T E → P → Result (Pooled T) E × P
  settled item (ok v) p = (ok (record item { value = some v }), p)
  settled item (err e) p = (err e, drop (emptied item) p)

  abbrev pub applied :
      {E : Type 0} → Pooled T → (T → Result T E) → Option T → P → Option (Result (Pooled T) E × P)
  applied item f none p = none
  applied item f (some v) p = some (settled (emptied item) (f v) p)

  unfoldable pub apply_result :
      {E : Type 0} → Pooled T → (T → Result T E) → P → Option (Result (Pooled T) E × P)
  unfolding drop
  apply_result item f p = applied item f item.value p

module _ {T : Type 0} where
  unfoldable pub new : T → Pooled T
  new v = record { value = some v; pool = to_pool }

  -- `get`, `deref` and `as_ref`.
  unfoldable pub get : Pooled T → Option T
  get item = item.value

  abbrev pub assigned : Pooled T → (T → T) → Option T → Option (Pooled T)
  assigned item f none = none
  assigned item f (some v) = some (record item { value = some (f v) })

  -- `get_mut`, `deref_mut` and `as_mut`, with what is written through the reference.
  unfoldable pub get_mut : Pooled T → (T → T) → Option (Pooled T)
  get_mut item f = assigned item f item.value

  unfoldable pub clone : Pooled T → Pooled T
  clone item = record { value = item.value; pool = null_pool }
