-- ===== src/Hashing/Supported.antt =====
-- crates/porkg-model/src/hashing/supported.rs over the crates `blake3` and `data_encoding`, which
-- are parameters.
pub mod Laws
use porkg.Base.{
  ℕ, ◌≡◌, List, [], ◌∷◌, ◌++◌, Option, none, some, Bytes, codes, Result, ok, err, ◌==◌,
  if◌then◌else◌, ltb,
}
use porkg.Base32.{Encoding, InvalidBase32, invalid_base32}
use porkg.Base32
use porkg.Hashing.{StableHasher, update_u8}

-- `blake3::Hasher`: `finalize().as_bytes()` is one function here.
pub record Blake3 : Type 1 where
  pub State : Type 0
  pub new : State
  pub update : State → Bytes → State
  pub finalize : State → Bytes

-- `[u8; 32]` is a byte string of length 32.
pub data SupportedHash : Type 0 where
  blake3_hash : Bytes → SupportedHash

pub data SupportedHasher (b : Blake3) : Type 0 where
  blake3_hasher : b.State → SupportedHasher b

module _ (b : Blake3) where
  unfoldable pub blake3 : SupportedHasher b
  blake3 = blake3_hasher b.new

  unfoldable pub update : SupportedHasher b → Bytes → SupportedHasher b
  update (blake3_hasher h) s = blake3_hasher (b.update h s)

  unfoldable pub finalize : SupportedHasher b → SupportedHash
  finalize (blake3_hasher h) = blake3_hash (b.finalize h)

  -- `impl StableHasher for SupportedHasher`.
  unfoldable pub stable_hasher : StableHasher (SupportedHasher b) SupportedHash
  unfolding update finalize
  stable_hasher = record { update = update; finalize = finalize }

  unfoldable pub create_matching_hasher : SupportedHash → SupportedHasher b
  unfolding blake3
  create_matching_hasher (blake3_hash _) = blake3

-- `std::cmp::Ordering`.
pub data Ordering : Type 0 where
  less equal greater : Ordering

-- `Ord` of byte arrays is lexicographic.
unfoldable pub cmp_bytes : Bytes → Bytes → Ordering
cmp_bytes [] [] = equal
cmp_bytes [] (y ∷ ys) = less
cmp_bytes (x ∷ xs) [] = greater
cmp_bytes (x ∷ xs) (y ∷ ys) = if ltb x y then less else if ltb y x then greater else cmp_bytes xs ys

unfoldable pub cmp : SupportedHash → SupportedHash → Ordering
unfolding cmp_bytes
cmp (blake3_hash a) (blake3_hash b) = cmp_bytes a b

unfoldable pub partial_cmp : SupportedHash → SupportedHash → Option Ordering
unfolding cmp
partial_cmp a b = some (cmp a b)

pub data ParseError : Type 0 where
  unknown_type : Bytes → ParseError
  invalid_length : ℕ → ParseError
  invalid_base32_value : ParseError

-- `impl From<InvalidBase32> for ParseError<T>`.
unfoldable pub from_invalid : InvalidBase32 → ParseError
from_invalid _ = invalid_base32_value

abbrev pub prefix_blake3 : Bytes
prefix_blake3 = codes "blake3-"

-- `str::strip_prefix`.
unfoldable pub strip_prefix : Bytes → Bytes → Option Bytes
strip_prefix [] s = some s
strip_prefix (p ∷ ps) [] = none
strip_prefix (p ∷ ps) (c ∷ s) = if p == c then strip_prefix ps s else none

parsed : Result Bytes InvalidBase32 → Result SupportedHash ParseError
unfolding from_invalid
parsed (ok b) = ok (blake3_hash b)
parsed (err e) = err (from_invalid e)

module _ (e : Encoding) where
  unfoldable pub display : SupportedHash → Bytes
  unfolding Base32.display
  display (blake3_hash h) = codes "blake3-" ++ Base32.display e h

  unfoldable pub debug : SupportedHash → Bytes
  unfolding Base32.display
  debug (blake3_hash h) = codes "Blake3(\"" ++ (Base32.display e h ++ codes "\")")

  unfoldable pub from_str : Bytes → Result SupportedHash ParseError
  unfolding strip_prefix parsed Base32.from_str
  from_str s = elim (strip_prefix prefix_blake3 s) [
    | some val ↦ parsed (Base32.from_str e 32 val)
    | none ↦ err (unknown_type s)
  ]

-- `impl StableHash for SupportedHash`: the algorithm's tag, and the bytes with no count.
unfoldable pub update_hash : {H R : Type 0} → StableHasher H R → SupportedHash → H → H
unfolding update_u8
update_hash hasher (blake3_hash bytes) h = hasher.update (update_u8 hasher 1 h) bytes
