-- ===== src/Base32/Sample.antt =====
-- An encoding that keeps the laws, two symbols to a byte, to show that they can be met.
use mathlib.Core.Path.{ap₂}
use porkg.Base.{
  ℕ, ◌+◌, ◌*◌, ◌/◌, ◌%◌, ◌≡◌, refl, ap, [], ◌∷◌, Bytes, length, Result, ok, err, ◌==◌,
  if◌then◌else◌, arith,
}
use porkg.Base32.{Encoding, IsLawful, DecodeKind, length_kind}

abbrev nibbles : Bytes → Bytes
nibbles [] = []
nibbles (c ∷ s) = (c / 16) ∷ (c % 16) ∷ nibbles s

abbrev joined : ℕ → ℕ → Result Bytes DecodeKind → Result Bytes DecodeKind
joined hi lo (ok s) = ok ((hi * 16 + lo) ∷ s)
joined hi lo (err k) = err k

abbrev pairs : Bytes → Result Bytes DecodeKind
pairs [] = ok []
pairs (hi ∷ []) = err length_kind
pairs (hi ∷ lo ∷ s) = joined hi lo (pairs s)

abbrev pub half_len : ℕ → Result ℕ DecodeKind
half_len n = if n % 2 == 0 then ok (n / 2) else err length_kind

abbrev pub sample : Encoding
sample = record { encode = nibbles; decode_len = half_len; decode_mut = pairs }

pairs-nibbles : (b : Bytes) → pairs (nibbles b) ≡ ok b
pairs-nibbles [] = refl
pairs-nibbles (c ∷ b) = rw (pairs-nibbles b) (ap ok (ap₂ ◌∷◌ (omega arith) refl))

length-nibbles : (b : Bytes) → length (nibbles b) ≡ 2 * length b
length-nibbles [] = omega arith
length-nibbles (c ∷ b) = omega (arith, length-nibbles b)

joined-eq-ok :
    (hi lo : ℕ) (r : Result Bytes DecodeKind) (b : Bytes)
    → joined hi lo r ≡ ok b
    → (c : Bytes) × (r ≡ ok c) × (b ≡ (hi * 16 + lo) ∷ c)
joined-eq-ok hi lo (ok c) b h = (c, refl, cc)
joined-eq-ok hi lo (err k) b h = cc

length-pairs : (s b : Bytes) → pairs s ≡ ok b → length s ≡ 2 * length b
length-pairs [] b h = let e : [] ≡ b = cc in rw (← e) (omega arith)
length-pairs (hi ∷ []) b h = cc
length-pairs (hi ∷ lo ∷ s) b h =
    let (c, e, shape) = joined-eq-ok hi lo (pairs s) b h in
    rw shape (omega (arith, length-pairs s c e))

half_len-twice : (n m : ℕ) → n ≡ 2 * m → half_len n ≡ ok m
half_len-twice n m h = ground arith

pub sample-IsLawful : IsLawful sample
sample-IsLawful = record {
  decode-encode = λ b _. pairs-nibbles b;
  decode_len-encode = λ b. half_len-twice _ _ (length-nibbles b);
  length-decode = λ s b h. half_len-twice _ _ (length-pairs s b h);
}
