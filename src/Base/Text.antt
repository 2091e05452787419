-- ===== src/Base/Text.antt =====
-- Byte strings: lists of numbers below 256.
use Prim.Native.Nat.{ℕ, zero, suc}
use Prim.Native.Char.{code}
use Prim.Native.String.{String}
use mathlib.Core.Path.{◌≡◌, refl}
use mathlib.Core.Bool.{Bool, true, false, ◌&&◌}
use mathlib.Core.Logic.{◌↔◌}
use mathlib.Core.List.{List, [], ◌∷◌, ◌++◌}
use native.Mathlib.Omega.{arith}
use mathlib.Core.Logic.{◌≢◌}
use mathlib.Core.Option
use mathlib.Core.Option.{Option, none, some}
use porkg.Base.Tests.{◌==◌, if◌then◌else◌}
use porkg.Base.Lists.{All, take, drop, length}

abbrev pub Bytes : Type 0
Bytes = List ℕ

-- The code points of a literal; these are its bytes when the text is ASCII.
abbrev pub codes : String → Bytes
codes String.[] = []
codes (String.◌∷◌ c s) = code c ∷ codes s

abbrev pub bytes_eq : Bytes → Bytes → Bool
bytes_eq [] [] = true
bytes_eq (a ∷ s) (b ∷ t) = a == b && bytes_eq s t
bytes_eq _ _ = false

pub bytes_eq_iff : (s t : Bytes) → (bytes_eq s t ≡ true) ↔ (s ≡ t)
bytes_eq_iff [] [] = ground arith
bytes_eq_iff [] (b ∷ t) = ground arith
bytes_eq_iff (a ∷ s) [] = ground arith
bytes_eq_iff (a ∷ s) (b ∷ t) = ground (arith, bytes_eq_iff s t)

pub bytes_ne : (s t : Bytes) → bytes_eq s t ≡ false → s ≢ t
bytes_ne s t h e = let same = (bytes_eq_iff s t).1 e in cc

-- The position of the first byte `b`, as `str::find` gives it for an ASCII character.
abbrev pub find : ℕ → Bytes → Option ℕ
find b [] = none
find b (c ∷ s) = if c == b then some 0 else Option.map suc (find b s)

abbrev pub Lacks : ℕ → Bytes → Type 0
Lacks b = All (λ c. c ≢ b)

pub find-none : (b : ℕ) (s : Bytes) → find b s ≡ none → Lacks b s
find-none b [] h = tt
find-none b (c ∷ s) h = ground (arith, find-none b s)

pub find-Lacks : (b : ℕ) (s : Bytes) → Lacks b s → find b s ≡ none
find-Lacks b [] h = refl
find-Lacks b (c ∷ s) h = ground (arith, find-Lacks b s)

-- A found byte cuts the text in two.
pub find-some :
    (b : ℕ) (s : Bytes) (i : ℕ)
    → find b s ≡ some i
    → (s ≡ take i s ++ b ∷ drop (suc i) s) × Lacks b (take i s) × (length (take i s) ≡ i)
find-some b [] i h = cc
find-some b (c ∷ s) zero h = ground arith
find-some b (c ∷ s) (suc i) h = ground (arith, find-some b s i)

pub find-append : (b : ℕ) (p t : Bytes) → Lacks b p → find b (p ++ b ∷ t) ≡ some (length p)
find-append b [] t h = ground arith
find-append b (c ∷ p) t h = ground (arith, find-append b p t)

pub take-find :
    (b : ℕ) (s : Bytes) (i : ℕ) → find b s ≡ some i → take (suc i) s ≡ take i s ++ b ∷ []
take-find b [] i h = cc
take-find b (c ∷ s) zero h = ground arith
take-find b (c ∷ s) (suc i) h = ground (arith, take-find b s i)
