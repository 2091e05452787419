-- ===== src/Hashing.antt =====
-- crates/porkg-model/src/hashing.rs: what `StableHash` feeds to a hasher. A value of an integer
-- type is its bit pattern, a `BTreeMap` or a `BTreeSet` is its list in key order, and a `String`,
-- an `OsString` or a path is its bytes.
pub mod Stream
pub mod PrefixFree
pub mod Supported
mod Tests
use porkg.Base.{
  ℕ, zero, suc, ◌+◌, ◌-◌, ◌/◌, ◌%◌, ◌^◌, Bool, List, [], ◌∷◌, ◌++◌, Option, none, some, Bytes,
  length, if◌then◌else◌,
}

-- The trait `StableHasher`, for the hasher's state `H` and its `Result` type `R`.
pub record StableHasher (H R : Type 0) : Type 0 where
  pub update : H → Bytes → H
  pub finalize : H → R

-- The most significant byte of a `w`-byte integer first.
unfoldable pub to_be_bytes : ℕ → ℕ → Bytes
to_be_bytes zero v = []
to_be_bytes (suc w) v = to_be_bytes w (v / 256) ++ (v % 256) ∷ []

abbrev pub u64_mod : ℕ
u64_mod = 2 ^ 64

abbrev len_or_max : Option ℕ → ℕ
len_or_max none = u64_mod - 1
len_or_max (some n) = n % u64_mod

-- `StableHash::update` of each type, as a function on the hasher's state.
module _ {H R : Type 0} (hasher : StableHasher H R) where
  unfoldable pub update_u8 : ℕ → H → H
  update_u8 v h = hasher.update h (v ∷ [])

  -- `impl_simple!` for an integer of `w` bytes.
  unfoldable pub update_int : ℕ → ℕ → H → H
  unfolding to_be_bytes
  update_int w v h = hasher.update h (to_be_bytes w v)

  unfoldable pub update_bool : Bool → H → H
  update_bool b h = if b then hasher.update h (0xFF ∷ []) else hasher.update h (0x00 ∷ [])

  -- `v as u64`, for a `usize` or the pattern of an `isize`.
  unfoldable pub update_usize : ℕ → H → H
  unfolding update_int
  update_usize v h = update_int 8 (v % u64_mod) h

  -- The loop of `update_iter`, from element `i` on.
  unfoldable pub update_items : {A : Type 0} → (A → H → H) → ℕ → List A → H → H
  unfolding update_int
  update_items update i [] h = h
  update_items update i (v ∷ vs) h =
      update_items update (i + 1) vs (update v (update_int 8 (i % u64_mod) h))

  unfoldable pub update_iter : {A : Type 0} → (A → H → H) → List A → Option ℕ → H → H
  unfolding update_int update_items
  update_iter update vs len h = update_items update 0 vs (update_int 8 (len_or_max len) h)

  -- `Vec<T>`, `[T]` and `BTreeSet<T>`.
  unfoldable pub update_slice : {A : Type 0} → (A → H → H) → List A → H → H
  unfolding update_iter
  update_slice update vs h = update_iter update vs (some (length vs)) h

  -- `String`, `&str`, `OsString`, `&OsStr`, `PathBuf` and `&Path`, through `as_bytes`.
  unfoldable pub update_string : Bytes → H → H
  unfolding update_slice update_u8
  update_string s h = update_slice update_u8 s h

  unfoldable pub update_option : {A : Type 0} → (A → H → H) → Option A → H → H
  unfolding update_u8
  update_option update none h = update_u8 0 h
  update_option update (some v) h = update v (update_u8 0xFF h)

  unfoldable pub update_pair : {A B : Type 0} → (A → H → H) → (B → H → H) → A × B → H → H
  update_pair first second (a, b) h = second b (first a h)

  unfoldable pub update_map : {K V : Type 0} → (K → H → H) → (V → H → H) → List (K × V) → H → H
  unfolding update_iter update_pair
  update_map key value m h = update_iter (update_pair key value) m (some (length m)) h

  -- `StableHashExt::hash`.
  unfoldable pub hash : {A : Type 0} → (A → H → H) → A → H → R
  hash update v h = hasher.finalize (update v h)
