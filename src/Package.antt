-- ===== src/Package.antt =====
-- crates/porkg-model/src/package.rs: the data of a package and the hash input of its lock file.
pub mod LockHash
mod Tests
use porkg.Base.{ℕ, List, Option, Bytes}
use porkg.Hashing.{StableHasher, update_map, update_string}

-- A `BTreeMap` is its list of entries in key order; a `BTreeSet`, its list in order.
abbrev pub BTreeMap : Type 0 → Type 0 → Type 0
BTreeMap K V = List (K × V)

pub record Dependency : Type 0 where
  pub name : Bytes
  pub version : Bytes
  pub target : Bytes

-- `[u64; 3]`.
pub record Compatibility : Type 0 where
  pub first : ℕ
  pub second : ℕ
  pub third : ℕ

pub record Metadata : Type 0 where
  pub name : Bytes
  pub version : Bytes
  pub description : Option Bytes
  pub compatibility : Option Compatibility
  pub targets : List Bytes

-- The field `package` is `metadata` here.
pub record Package : Type 0 where
  pub metadata : Metadata
  pub dependencies : BTreeMap Bytes Dependency
  pub build_dependencies : BTreeMap Bytes Dependency

pub record Executable : Type 0 where
  pub exec : List Bytes
  pub env : BTreeMap Bytes Bytes

pub record LockDefinition : Type 0 where
  pub dependencies : BTreeMap Bytes Bytes
  pub build_dependencies : BTreeMap Bytes Bytes

-- `impl StableHash for LockDefinition`.
unfoldable pub update_lock : {H R : Type 0} → StableHasher H R → LockDefinition → H → H
unfolding update_map update_string
update_lock hasher lock h =
    let map = update_map hasher (update_string hasher) (update_string hasher) in
    map lock.build_dependencies (map lock.dependencies h)
