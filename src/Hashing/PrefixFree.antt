-- ===== src/Hashing/PrefixFree.antt =====
-- The streams can be told apart: no stream of a value goes on into the stream of another.
use native.Mathlib.Nat.{pow-suc}
use mathlib.Core.Path.{ap₂}
use porkg.Base.{
  ℕ, zero, suc, ◌+◌, ◌/◌, ◌%◌, ◌*◌, ◌^◌, ◌<◌, ◌≡◌, refl, ap, List, [], ◌∷◌, ◌++◌, append_assoc,
  Option, none, some, Bytes, length, All, arith,
}
use porkg.Hashing.{to_be_bytes, u64_mod}
use porkg.Hashing.Stream.{
  stream_items, stream_list, stream_option, stream_u8, stream_pair, stream_string, stream_map,
}

-- Whatever follows, a stream that starts with a value's bytes determines the value and the rest.
abbrev pub IsPrefixFree : {A : Type 0} → (A → Type 0) → (A → Bytes) → Type 0
IsPrefixFree {A} P enc =
    (a b : A) (r s : Bytes) → P a → P b → enc a ++ r ≡ enc b ++ s → (a ≡ b) × (r ≡ s)

div_lt : (w v : ℕ) → v < 256 ^ suc w → v / 256 < 256 ^ w
div_lt w v h = let e : 256 ^ suc w ≡ 256 ^ w * 256 = pow-suc 256 w in omega arith

pub to_be_bytes-IsPrefixFree : (w : ℕ) → IsPrefixFree (λ v. v < 256 ^ w) (to_be_bytes w)
unfolding to_be_bytes
to_be_bytes-IsPrefixFree zero a b r s ha hb e = (omega arith, e)
to_be_bytes-IsPrefixFree (suc w) a b r s ha hb e =
    let (high, low) =
      to_be_bytes-IsPrefixFree w (a / 256) (b / 256) ((a % 256) ∷ r) ((b % 256) ∷ s) (div_lt w a ha)
        (div_lt w b hb) (simp append_assoc at e) in
    last high low
  where
    last : a / 256 ≡ b / 256 → (a % 256) ∷ r ≡ (b % 256) ∷ s → (a ≡ b) × (r ≡ s)
    last high low = let digit : a % 256 ≡ b % 256 = cc in (omega arith, cc)

-- The bytes of a count or an index: any number, taken modulo 2 ^ 64.
index-IsPrefixFree :
    (a : ℕ) (r s : Bytes)
    → to_be_bytes 8 (a % u64_mod) ++ r ≡ to_be_bytes 8 (a % u64_mod) ++ s
    → r ≡ s
index-IsPrefixFree a r s e =
    (to_be_bytes-IsPrefixFree 8 (a % u64_mod) (a % u64_mod) r s (omega arith) (omega arith) e).1

pub stream_u8-IsPrefixFree : IsPrefixFree (λ _. Unit {0}) stream_u8
unfolding stream_u8
stream_u8-IsPrefixFree a b r s _ _ e = (cc, cc)

-- Lists of one length, element by element.
stream_items-IsPrefixFree :
    {A : Type 0} (P : A → Type 0) (enc : A → Bytes)
    → IsPrefixFree P enc
    → (i : ℕ) (xs ys : List A) (r s : Bytes) → length xs ≡ length ys
    → All P xs
    → All P ys
    → stream_items enc i xs ++ r ≡ stream_items enc i ys ++ s
    → (xs ≡ ys) × (r ≡ s)
unfolding stream_items
stream_items-IsPrefixFree P enc free i [] [] r s n hx hy e = (refl, e)
stream_items-IsPrefixFree P enc free i [] (y ∷ ys) r s n hx hy e = absurd (omega arith)
stream_items-IsPrefixFree P enc free i (x ∷ xs) [] r s n hx hy e = absurd (omega arith)
stream_items-IsPrefixFree P enc free i (x ∷ xs) (y ∷ ys) r s n (px, hx) (py, hy) e =
    let tails = index-IsPrefixFree i _ _ (simp append_assoc at e) in
    let (same, rest) = free x y _ _ px py tails in
    let (all_same, after) =
      stream_items-IsPrefixFree P enc free (i + 1) xs ys r s (omega arith) hx hy rest in
    (cc, after)

abbrev pub IsListOf : {A : Type 0} → (A → Type 0) → List A → Type 0
IsListOf P xs = (length xs < u64_mod) × All P xs

-- Lists of elements that can be told apart can be told apart.
pub stream_list-IsPrefixFree :
    {A : Type 0} (P : A → Type 0) (enc : A → Bytes)
    → IsPrefixFree P enc
    → IsPrefixFree (IsListOf P) (stream_list enc)
unfolding stream_list
stream_list-IsPrefixFree P enc free xs ys r s (nx, hx) (ny, hy) e =
    let (count, items) =
      to_be_bytes-IsPrefixFree 8 (length xs % u64_mod) (length ys % u64_mod) _ _ (omega arith)
        (omega arith) (simp append_assoc at e) in
    stream_items-IsPrefixFree P enc free 0 xs ys r s (omega arith) hx hy items

pub stream_pair-IsPrefixFree :
    {A B : Type 0} (P : A → Type 0) (Q : B → Type 0) (enc1 : A → Bytes) (enc2 : B → Bytes)
    → IsPrefixFree P enc1
    → IsPrefixFree Q enc2
    → IsPrefixFree (λ p. P p.0 × Q p.1) (stream_pair enc1 enc2)
unfolding stream_pair
stream_pair-IsPrefixFree P Q enc1 enc2 f g (a, b) (c, d) r s (pa, qb) (pc, qd) e =
    let (first, rest) = f a c _ _ pa pc (simp append_assoc at e) in
    let (second, after) = g b d r s qb qd rest in (ap₂ (λ x y. (x, y)) first second, after)

abbrev pub IsOptionOf : {A : Type 0} → (A → Type 0) → Option A → Type 0
IsOptionOf P none = Unit {0}
IsOptionOf P (some v) = P v

pub stream_option-IsPrefixFree :
    {A : Type 0} (P : A → Type 0) (enc : A → Bytes)
    → IsPrefixFree P enc
    → IsPrefixFree (IsOptionOf P) (stream_option enc)
unfolding stream_option
stream_option-IsPrefixFree P enc free none none r s _ _ e = (refl, cc)
stream_option-IsPrefixFree P enc free none (some b) r s _ _ e =
    let byte : ◌≡◌ {A = ℕ} 0 255 = cc in absurd (omega arith)
stream_option-IsPrefixFree P enc free (some a) none r s _ _ e =
    let byte : ◌≡◌ {A = ℕ} 255 0 = cc in absurd (omega arith)
stream_option-IsPrefixFree P enc free (some a) (some b) r s pa pb e =
    let (same, rest) = free a b r s pa pb (cc) in (ap some same, rest)

-- A Rust string is shorter than 2 ^ 64 bytes.
abbrev pub IsStr : Bytes → Type 0
IsStr s = length s < u64_mod

All-Unit : (s : Bytes) → All (λ _. Unit {0}) s
All-Unit [] = tt
All-Unit (c ∷ s) = (tt, All-Unit s)

pub stream_string-IsPrefixFree : IsPrefixFree IsStr stream_string
unfolding stream_string
stream_string-IsPrefixFree a b r s ha hb =
    stream_list-IsPrefixFree (λ _. Unit {0}) stream_u8 stream_u8-IsPrefixFree a b r s
      (ha, All-Unit a) (hb, All-Unit b)

pub stream_map-IsPrefixFree :
    {K V : Type 0} (P : K → Type 0) (Q : V → Type 0) (enc1 : K → Bytes) (enc2 : V → Bytes)
    → IsPrefixFree P enc1
    → IsPrefixFree Q enc2
    → IsPrefixFree (IsListOf (λ p. P p.0 × Q p.1)) (stream_map enc1 enc2)
unfolding stream_map
stream_map-IsPrefixFree P Q enc1 enc2 f g =
    stream_list-IsPrefixFree (λ p. P p.0 × Q p.1) (stream_pair enc1 enc2)
      (stream_pair-IsPrefixFree P Q enc1 enc2 f g)
