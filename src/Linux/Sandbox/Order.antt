-- ===== src/Linux/Sandbox/Order.antt =====
-- The calls of two processes in the order in which they are made.
use porkg.Base.{ℕ, ◌≡◌, ◌≢◌, ◌⊎◌, inl, inr, refl, ap, ◌∙◌, List, [], ◌∷◌, ◌++◌, All}
use porkg.Linux.{Call, Fd, write_all}

-- The calls of both processes in the order in which they are made: `inl` for the zygote's and `inr`
-- for the worker's.
abbrev pub Joint : Type 0
Joint = List (Call ⊎ Call)

abbrev pub lefts : Joint → List Call
lefts [] = []
lefts (inl c ∷ j) = c ∷ lefts j
lefts (inr c ∷ j) = lefts j

abbrev pub rights : Joint → List Call
rights [] = []
rights (inl c ∷ j) = rights j
rights (inr c ∷ j) = c ∷ rights j

abbrev pub IsWrite : Fd → Call → Type 0
IsWrite fd c = (text : List ℕ) × (c ≡ write_all fd text)

abbrev pub Writes : Fd → List Call → Type 0
Writes fd [] = ⊥
Writes fd (c ∷ cs) = IsWrite fd c ⊎ Writes fd cs

abbrev pub LacksWrites : Fd → List Call → Type 0
LacksWrites fd = All (λ c. IsWrite fd c → ⊥)

pub lefts-append : (i j : Joint) → lefts (i ++ j) ≡ lefts i ++ lefts j
lefts-append [] j = refl
lefts-append (inl c ∷ i) j = ap (◌∷◌ c) (lefts-append i j)
lefts-append (inr c ∷ i) j = lefts-append i j

pub rights-append : (i j : Joint) → rights (i ++ j) ≡ rights i ++ rights j
rights-append [] j = refl
rights-append (inl c ∷ i) j = rights-append i j
rights-append (inr c ∷ i) j = ap (◌∷◌ c) (rights-append i j)

pub only : (xs ys : List Call) (c d : Call) → xs ++ d ∷ ys ≡ c ∷ [] → d ≡ c
only [] ys c d same = cc
only (x ∷ []) ys c d same = absurd (cc)
only (x ∷ y ∷ xs) ys c d same = absurd (cc)

pub cancel : (p s t : List Call) → p ++ s ≡ p ++ t → s ≡ t
cancel [] s t h = h
cancel (c ∷ p) s t h = cancel p s t cc

pub Writes-append : (fd : Fd) (xs ys : List Call) → Writes fd xs → Writes fd (xs ++ ys)
Writes-append fd [] ys w = absurd w
Writes-append fd (x ∷ xs) ys (inl w) = inl w
Writes-append fd (x ∷ xs) ys (inr w) = inr (Writes-append fd xs ys w)

pub lacks-prefix :
    (fd : Fd) (xs more cs : List Call) → xs ++ more ≡ cs → Writes fd xs → LacksWrites fd cs → ⊥
lacks-prefix fd [] more cs same w lacks = w
lacks-prefix fd (x ∷ xs) more [] same w lacks = absurd (cc)
lacks-prefix fd (x ∷ xs) more (c ∷ cs) same (inl (text, w)) (no_write, lacks) =
    no_write (text, (let first : c ≡ x = cc in first ∙ w))
lacks-prefix fd (x ∷ xs) more (c ∷ cs) same (inr w) (no_write, lacks) =
    lacks-prefix fd xs more cs (cc) w lacks

-- What comes before the write of a list that ends with one, and has no other, is all.
pub whole-prefix :
    (fd : Fd) (xs more cs : List Call) (c : Call)
    → xs ++ more ≡ cs ++ c ∷ []
    → Writes fd xs
    → LacksWrites fd cs
    → xs ≡ cs ++ c ∷ []
whole-prefix fd [] more cs c same w lacks = absurd w
whole-prefix fd (x ∷ []) more [] c same w lacks = cc
whole-prefix fd (x ∷ y ∷ xs) more [] c same w lacks = absurd (cc)
whole-prefix fd (x ∷ xs) more (d ∷ cs) c same (inl (text, w)) (no_write, lacks) =
    absurd (no_write (text, (let first : d ≡ x = cc in first ∙ w)))
whole-prefix fd (x ∷ xs) more (d ∷ cs) c same (inr w) (no_write, lacks) =
    let rest = whole-prefix fd xs more cs c (cc) w lacks in cc

-- The first of the worker's calls stands ahead of any other of them.
pub first_right :
    (c d : Call) (rest : List Call) (before after : Joint)
    → rights (before ++ inr d ∷ after) ≡ c ∷ rest
    → d ≢ c
    → (b : Joint) × ((b' : Joint) × (before ≡ b ++ inr c ∷ b'))
first_right c d rest [] after same other = absurd (other cc)
first_right c d rest (inl a ∷ before) after same other =
    let (b, (b', split)) = first_right c d rest before after same other in
    (inl a ∷ b, (b', ap (◌∷◌ (inl a)) split))
first_right c d rest (inr a ∷ before) after same other =
    let first : a ≡ c = cc in ([], (before, ap (λ a. inr a ∷ before) first))
