-- ===== src/Package/Tests.antt =====
-- The theorems on lock files at concrete ones.
use porkg.Base.{◌≡◌, refl, [], ◌∷◌, ◌++◌, Bytes, codes, arith}
use porkg.Hashing.Supported.{Blake3}
use porkg.Package.{LockDefinition}
use porkg.Package.LockHash.{IsLock, update_lock-injective}

abbrev lock : LockDefinition
lock = record {
  dependencies = (codes "a", codes "h1") ∷ [];
  build_dependencies = (codes "b", codes "h2") ∷ [];
}

lock-IsLock : IsLock lock
lock-IsLock = (
  (omega arith, ((omega arith, omega arith), tt)),
  (omega arith, ((omega arith, omega arith), tt)),
)

update_lock-injective_example : lock ≡ lock
update_lock-injective_example = update_lock-injective lock lock lock-IsLock lock-IsLock refl

-- A stand-in for BLAKE3 that keeps the whole text.
abbrev whole : Blake3
whole = record { State = Bytes; new = []; update = λ h s. h ++ s; finalize = λ h. h }
