-- ===== src/Package/LockHash.antt =====
-- The hash input of a lock file tells lock files apart.
use porkg.Base.{◌≡◌, ◌∙◌, sym, ap, [], ◌++◌, append_assoc, Bytes}
use porkg.Hashing.{StableHasher, hash}
use porkg.Hashing.Supported.{Blake3, blake3_hasher, blake3_hash, blake3, stable_hasher, finalize}
use porkg.Hashing.Stream.{
  IsStreaming, Feeds, stream_string, stream_map, update_string-Feeds, update_map-Feeds,
}
use porkg.Hashing.PrefixFree.{
  IsPrefixFree, IsListOf, IsStr, stream_string-IsPrefixFree, stream_map-IsPrefixFree,
}
use porkg.Package.{LockDefinition, BTreeMap, update_lock}

abbrev pub stream_lock_map : BTreeMap Bytes Bytes → Bytes
stream_lock_map = stream_map stream_string stream_string

pub stream_lock : LockDefinition → Bytes
stream_lock lock = stream_lock_map lock.dependencies ++ stream_lock_map lock.build_dependencies

-- Both maps and all their strings are shorter than 2 ^ 64, as any value in memory is.
abbrev pub IsLock : LockDefinition → Type 0
IsLock lock =
    IsListOf (λ e. IsStr e.0 × IsStr e.1) lock.dependencies
    × IsListOf (λ e. IsStr e.0 × IsStr e.1) lock.build_dependencies

pub update_lock-Feeds :
    {H R : Type 0} (hasher : StableHasher H R)
    → IsStreaming hasher
    → Feeds hasher (update_lock hasher) stream_lock
unfolding update_lock stream_lock
update_lock-Feeds hasher streams lock h =
    let string = update_string-Feeds hasher streams in
    let feeds = update_map-Feeds hasher streams _ _ stream_string stream_string string string in
    rw (feeds lock.dependencies h, feeds lock.build_dependencies _) (streams h _ _)

lock_map-IsPrefixFree :
    IsPrefixFree (IsListOf (λ (e : Bytes × Bytes). IsStr e.0 × IsStr e.1)) stream_lock_map
lock_map-IsPrefixFree =
    stream_map-IsPrefixFree IsStr IsStr stream_string stream_string stream_string-IsPrefixFree
      stream_string-IsPrefixFree

stream_lock-IsPrefixFree : IsPrefixFree IsLock stream_lock
unfolding stream_lock
stream_lock-IsPrefixFree a b r s (da, ba) (db, bb) e =
    let (deps, rest) = lock_map-IsPrefixFree _ _ _ _ da db (simp append_assoc at e) in
    let (build, after) = lock_map-IsPrefixFree _ _ r s ba bb rest in
    (λ i. record { dependencies = deps i; build_dependencies = build i }, after)

-- A hasher that only writes down what it is fed.
abbrev pub recorder : StableHasher Bytes Bytes
recorder = record { update = λ h s. h ++ s; finalize = λ h. h }

-- Two lock files that feed a hasher the same bytes are the same lock file, if their maps and
-- strings are shorter than 2 ^ 64.
pub update_lock-injective :
    (a b : LockDefinition)
    → IsLock a
    → IsLock b
    → update_lock recorder a [] ≡ update_lock recorder b []
    → a ≡ b
update_lock-injective a b ha hb e =
    let streams : IsStreaming recorder = λ h s t. append_assoc h s t in
    let same =
      sym (update_lock-Feeds recorder streams a []) ∙ e ∙ update_lock-Feeds recorder streams b [] in
    (stream_lock-IsPrefixFree a b [] [] ha hb (ap (λ s. s ++ []) same)).0

-- What the crate documents: hashing a text piece by piece is hashing the whole.
abbrev pub IsIncremental : Blake3 → Type 0
IsIncremental b = (h : b.State) (s t : Bytes) → b.update (b.update h s) t ≡ b.update h (s ++ t)

stable_hasher-IsStreaming : (b : Blake3) → IsIncremental b → IsStreaming (stable_hasher b)
unfolding stable_hasher
stable_hasher-IsStreaming b law (blake3_hasher h) s t = ap blake3_hasher (law h s t)

-- The hash of a lock file with a fresh hasher is the BLAKE3 hash of the lock file's stream, taken
-- in one piece, if BLAKE3 is incremental.
pub hash-lock :
    (b : Blake3)
    → IsIncremental b
    → (lock : LockDefinition)
    → hash (stable_hasher b) (update_lock (stable_hasher b)) lock (blake3 b)
      ≡ blake3_hash (b.finalize (b.update b.new (stream_lock lock)))
unfolding hash blake3 stable_hasher
hash-lock b law lock =
    ap (finalize b)
      (update_lock-Feeds (stable_hasher b) (stable_hasher-IsStreaming b law) lock (blake3 b))
