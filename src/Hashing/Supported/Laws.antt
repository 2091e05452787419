-- ===== src/Hashing/Supported/Laws.antt =====
-- Text, order and hashing of a `SupportedHash`.
use porkg.Base.{
  ◌≡◌, ◌<◌, ◌↔◌, ◌⊎◌, inl, inr, refl, ap, subst, [], ◌∷◌, ◌++◌, none, some, Bytes, length, Result,
  ok, err, All, arith, Option-cases,
}
use porkg.Base32.{Encoding, IsLawful, InvalidBase32}
use porkg.Base32.Laws.{from_str_sound as base32_sound, from_str-display as base32-display}
use porkg.Base32
use porkg.Hashing.{StableHasher}
use porkg.Hashing.Stream.{IsStreaming, Feeds}
use porkg.Hashing.Supported.{
  SupportedHash, blake3_hash, Ordering, less, equal, greater, cmp_bytes, cmp, ParseError,
  unknown_type, invalid_base32_value, prefix_blake3, strip_prefix, parsed, display, from_str,
  update_hash,
}

-- A value of `[u8; 32]`.
abbrev pub IsHash : SupportedHash → Type 0
IsHash (blake3_hash b) = (length b ≡ 32) × All (λ c. c < 256) b

strip_prefix_sound : (p s t : Bytes) → strip_prefix p s ≡ some t → s ≡ p ++ t
unfolding strip_prefix
strip_prefix_sound [] s t h = cc
strip_prefix_sound (p ∷ ps) [] t h = cc
strip_prefix_sound (p ∷ ps) (c ∷ s) t h = ground (arith, strip_prefix_sound ps s t)

parsed-eq-ok :
    (r : Result Bytes InvalidBase32) (b : Bytes) → parsed r ≡ ok (blake3_hash b) → r ≡ ok b
unfolding parsed
parsed-eq-ok (ok c) b h = cc
parsed-eq-ok (err x) b h = cc

parsed-eq-err :
    (r : Result Bytes InvalidBase32) (x : ParseError) → parsed r ≡ err x → x ≡ invalid_base32_value
unfolding parsed
parsed-eq-err (ok c) x h = cc
parsed-eq-err (err y) x h = cc

module _ (e : Encoding) (l : IsLawful e) where
  -- A hash of 32 bytes is read back from its text, if the encoding keeps the crate's laws.
  pub from_str-display : (h : SupportedHash) → IsHash h → from_str e (display e h) ≡ ok h
  unfolding from_str display parsed strip_prefix
  from_str-display (blake3_hash b) (n, bytes) =
      let size : Base32.from_str e 32 (Base32.display e b) ≡ ok b =
        subst (λ k. Base32.from_str e k (Base32.display e b) ≡ ok b) n
          (base32-display e l b bytes) in
      ap parsed size

  -- A text that parses starts with the algorithm's prefix, and its hash has 32 bytes, those that
  -- the rest of the text decodes to, if the encoding keeps the crate's laws.
  pub from_str_sound :
      (s b : Bytes)
      → from_str e s ≡ ok (blake3_hash b)
      → (length b ≡ 32) × ((val : Bytes) × (s ≡ prefix_blake3 ++ val) × (e.decode_mut val ≡ ok b))
  unfolding from_str
  from_str_sound s b h = elim (Option-cases (strip_prefix prefix_blake3 s)) [
    | inl missing ↦ absurd (ground arith)
    | inr (val, found) ↦
        let read : Base32.from_str e 32 val ≡ ok b = parsed-eq-ok _ b (rw (found, from_str) at h) in
        let (size, bytes) = base32_sound e l 32 val b read in
        (size, (val, strip_prefix_sound prefix_blake3 s val found, bytes))
  ]

-- A text that does not parse is either without the prefix, and reported as of an unknown type,
-- or starts with the prefix, and is reported as a bad Base32 value; `invalid_length` is never
-- reported.
from_str_errors :
    (e : Encoding) (s : Bytes) (x : ParseError)
    → from_str e s ≡ err x
    → ((x ≡ unknown_type s) × (strip_prefix prefix_blake3 s ≡ none))
      ⊎ ((x ≡ invalid_base32_value) × ((val : Bytes) × (s ≡ prefix_blake3 ++ val)))
unfolding from_str
from_str_errors e s x h = elim (Option-cases (strip_prefix prefix_blake3 s)) [
  | inl missing ↦ inl (ground arith, missing)
  | inr (val, found) ↦ inr (
    parsed-eq-err _ x (rw (found, from_str) at h),
    (val, strip_prefix_sound prefix_blake3 s val found),
  )
]

flip : Ordering → Ordering
flip less = greater
flip equal = equal
flip greater = less

cmp_bytes-flip : (a b : Bytes) → cmp_bytes b a ≡ flip (cmp_bytes a b)
unfolding cmp_bytes flip
cmp_bytes-flip [] [] = refl
cmp_bytes-flip [] (y ∷ ys) = refl
cmp_bytes-flip (x ∷ xs) [] = refl
cmp_bytes-flip (x ∷ xs) (y ∷ ys) = ground (arith, cmp_bytes-flip xs ys)

cmp_bytes-equal : (a b : Bytes) → cmp_bytes a b ≡ equal → a ≡ b
unfolding cmp_bytes
cmp_bytes-equal [] [] h = refl
cmp_bytes-equal [] (y ∷ ys) h = cc
cmp_bytes-equal (x ∷ xs) [] h = cc
cmp_bytes-equal (x ∷ xs) (y ∷ ys) h = ground (arith, cmp_bytes-equal xs ys)

cmp_bytes_trans :
    (a b c : Bytes) → cmp_bytes a b ≡ less → cmp_bytes b c ≡ less → cmp_bytes a c ≡ less
unfolding cmp_bytes
cmp_bytes_trans [] [] c h k = cc
cmp_bytes_trans [] (y ∷ ys) [] h k = cc
cmp_bytes_trans [] (y ∷ ys) (z ∷ zs) h k = refl
cmp_bytes_trans (x ∷ xs) [] c h k = cc
cmp_bytes_trans (x ∷ xs) (y ∷ ys) [] h k = cc
cmp_bytes_trans (x ∷ xs) (y ∷ ys) (z ∷ zs) h k = ground (arith, cmp_bytes_trans xs ys zs)

cmp_bytes_refl : (a : Bytes) → cmp_bytes a a ≡ equal
unfolding cmp_bytes
cmp_bytes_refl [] = refl
cmp_bytes_refl (x ∷ xs) = ground (arith, cmp_bytes_refl xs)

-- The order of hashes is a strict total order that agrees with equality: equal exactly on equal
-- hashes, reversed by swapping, and transitive.
pub cmp_total_order :
    (a b c : SupportedHash)
    → ((cmp a b ≡ equal) ↔ (a ≡ b))
      × ((cmp a b ≡ less) ↔ (cmp b a ≡ greater))
      × (cmp a b ≡ less → cmp b c ≡ less → cmp a c ≡ less)
unfolding cmp flip
cmp_total_order (blake3_hash a) (blake3_hash b) (blake3_hash c) = (
  (
    λ h. ap blake3_hash (cmp_bytes-equal a b h),
    λ e. let same : a ≡ b = cc in rw same (cmp_bytes_refl b),
  ),
  (λ h. ground (arith, cmp_bytes-flip a b), λ h. ground (arith, cmp_bytes-flip b a)),
  cmp_bytes_trans a b c,
)

unfoldable pub stream_hash : SupportedHash → Bytes
stream_hash (blake3_hash b) = 1 ∷ b

pub update_hash-Feeds :
    {H R : Type 0} (hasher : StableHasher H R)
    → IsStreaming hasher
    → Feeds hasher (update_hash hasher) stream_hash
unfolding update_hash stream_hash
update_hash-Feeds hasher streams (blake3_hash b) h = streams h _ b
