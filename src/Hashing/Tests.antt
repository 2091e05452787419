-- ===== src/Hashing/Tests.antt =====
-- The hashing theorems at concrete values.
use porkg.Base.{
  ◌≡◌, ◌<◌, refl, [], ◌∷◌, ◌++◌, append_assoc, Bytes, codes, replicate, ok, err, All-replicate,
  arith,
}
use porkg.Base32.Sample.{sample, sample-IsLawful}
use porkg.Hashing.Stream.{IsStreaming}
use porkg.Hashing.Supported.{
  SupportedHash, blake3_hash, unknown_type, display, from_str, prefix_blake3,
}
use porkg.Hashing.Supported.Laws.{from_str-display}
use porkg.Package.LockHash.{recorder}

recorder-IsStreaming : IsStreaming recorder
recorder-IsStreaming h s t = append_assoc h s t

abbrev zero_bytes : Bytes
zero_bytes = replicate 32 0

from_str-display_example :
    from_str sample (display sample (blake3_hash zero_bytes)) ≡ ok (blake3_hash zero_bytes)
from_str-display_example =
    from_str-display sample sample-IsLawful (blake3_hash zero_bytes)
      (refl, All-replicate (λ c. c < 256) 32 0 (omega arith))

zeros_text : from_str sample (prefix_blake3 ++ replicate 64 0) ≡ ok (blake3_hash zero_bytes)
unfolding from_str
zeros_text = refl

unknown_text : from_str sample (codes "md5-00") ≡ err (unknown_type (codes "md5-00"))
unfolding from_str
unknown_text = refl

abbrev one : SupportedHash
one = blake3_hash (1 ∷ [])

abbrev two : SupportedHash
two = blake3_hash (2 ∷ [])
