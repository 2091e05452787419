-- ===== src/Debug/Tests.antt =====
-- Printed buffers.
use porkg.Base.{◌≡◌, refl, [], ◌∷◌, codes}
use porkg.Debug.{printable_debug}

mixed : printable_debug (97 ∷ 10 ∷ 34 ∷ 255 ∷ []) ≡ codes "b\"a\\n\\\"\\xff\""
unfolding printable_debug
mixed = refl

-- A backslash and an `n`, and a line feed, print alike.
ambiguous : printable_debug (92 ∷ 110 ∷ []) ≡ printable_debug (10 ∷ [])
unfolding printable_debug
ambiguous = refl
