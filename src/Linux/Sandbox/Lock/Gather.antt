-- ===== src/Linux/Sandbox/Lock/Gather.antt =====
-- Lists that the members of a list have, taken together.
use porkg.Base.{
  ℕ, zero, suc, ◌≡◌, refl, sym, ap, ◌∙◌, List, [], ◌∷◌, ◌++◌, append_assoc, some, get_elem?, set,
}

module _ {B : Type 0} where
  pub alone :
      (pre post : List B) (x y : B)
      → pre ++ (x ∷ post) ≡ y ∷ []
      → (x ≡ y) × (pre ≡ []) × (post ≡ [])
  alone [] post x y same = (cc, refl, cc)
  alone (z ∷ []) post x y same = absurd (cc)
  alone (z ∷ w ∷ pre) post x y same = absurd (cc)

  pub empty : (pre post : List B) → pre ++ post ≡ [] → (pre ≡ []) × (post ≡ [])
  empty [] post same = (refl, same)
  empty (z ∷ pre) post same = absurd (cc)

pub set-get : {A : Type 0} (xs : List A) (j : ℕ) (a : A) → get_elem? xs j ≡ some a → set xs j a ≡ xs
set-get [] j a there = refl
set-get (x ∷ xs) zero a there = let same : x ≡ a = cc in ap (λ a. a ∷ xs) (sym same)
set-get (x ∷ xs) (suc j) a there = ap (◌∷◌ x) (set-get xs j a there)

module _ {A B : Type 0} (f : A → List B) where
  -- What the members of a list have, taken together.
  abbrev pub gather : List A → List B
  gather [] = []
  gather (a ∷ as') = f a ++ gather as'

  -- The part of one member stands between the parts of the others.
  pub gather-get :
      (xs : List A) (j : ℕ) (a : A)
      → get_elem? xs j ≡ some a
      → (pre : List B) × ((post : List B) × (gather xs ≡ pre ++ (f a ++ post))
          × ((b : A) → gather (set xs j b) ≡ pre ++ (f b ++ post)))
  gather-get [] j a there = absurd (cc)
  gather-get (x ∷ xs) zero a there =
      let same : x ≡ a = cc in ([], (gather xs, ap (λ a. f a ++ gather xs) same, λ b. refl))
  gather-get (x ∷ xs) (suc j) a there =
      let (pre, (post, now, next)) = gather-get xs j a there in
      (
        f x ++ pre,
        (
          post,
          ap (◌++◌ (f x)) now ∙ sym (append_assoc (f x) pre _),
          λ b. ap (◌++◌ (f x)) (next b) ∙ sym (append_assoc (f x) pre _),
        ),
      )
