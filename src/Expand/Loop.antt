-- ===== src/Expand/Loop.antt =====
-- How the pieces of the reference act on a prefix that holds no character of interest.
use native.Mathlib.Nat.{add-zero}
use porkg.Base.{
  ℕ, suc, ◌+◌, ◌≡◌, refl, sym, ap, inl, inr, Bool-cases, get_elem?, ◌∙◌, true, false, [], ◌∷◌, ◌++◌,
  append_assoc, append-nil, Bytes, ok, err, length, drop, Lacks, ◌==◌, arith,
}
use porkg.Expand.{
  Context, new_error, incomplete_expansion, backslash, dollar_sign, close_brace, is_open_brace,
}
use porkg.Expand.Reference.{
  Output, prepend, plain, dollar, naming, variables, has_backslash, reference, named,
}

pub prepend-prepend : (s t : Bytes) (o : Output) → prepend s (prepend t o) ≡ prepend (s ++ t) o
prepend-prepend s t (ok u) = ap ok (simp append_assoc)
prepend-prepend s t (err e) = refl

pub prepend-nil : (o : Output) → prepend [] o ≡ o
prepend-nil (ok u) = refl
prepend-nil (err e) = refl

has_backslash-append : (p t : Bytes) → has_backslash t ≡ true → has_backslash (p ++ t) ≡ true
has_backslash-append [] t k = k
has_backslash-append (c ∷ p) t k = ground (arith, has_backslash-append p t k)

has_backslash-Lacks : (t : Bytes) → Lacks backslash t → has_backslash t ≡ false
has_backslash-Lacks [] h = refl
has_backslash-Lacks (c ∷ t) (hc, ht) = ground (arith, has_backslash-Lacks t ht)

module _ (context : Context) where
  pub variables-plain :
      (p t : Bytes) (ofs : ℕ)
      → Lacks dollar_sign p
      → variables context plain ofs (p ++ t)
        ≡ prepend p (variables context plain (ofs + length p) t)
  unfolding variables
  variables-plain [] t ofs h = rw add-zero (sym (prepend-nil _))
  variables-plain (c ∷ p) t ofs (hc, hp) =
      let other : (c == dollar_sign) ≡ false = ground arith in
      let shift : ofs + suc (length p) ≡ ofs + 1 + length p = omega arith in
      rw (other, shift, variables-plain p t (ofs + 1) hp) (prepend-prepend (c ∷ []) p _)

  pub variables-naming :
      (p t : Bytes) (start ofs : ℕ) (name : Bytes)
      → Lacks close_brace p
      → variables context (naming start name) ofs (p ++ t)
        ≡ variables context (naming start (name ++ p)) (ofs + length p) t
  unfolding variables
  variables-naming [] t start ofs name h = rw (add-zero, append-nil)
  variables-naming (c ∷ p) t start ofs name (hc, hp) =
      let other : (c == close_brace) ≡ false = ground arith in
      let shift : ofs + suc (length p) ≡ ofs + 1 + length p = omega arith in
      rw (other, shift, variables-naming p t start (ofs + 1) (name ++ c ∷ []) hp) (rw append_assoc)

  pub reference-plain :
      (p t : Bytes) (ofs : ℕ)
      → Lacks backslash p
      → has_backslash t ≡ true
      → reference context false ofs (p ++ t)
        ≡ prepend p (reference context false (ofs + length p) t)
  unfolding reference
  reference-plain [] t ofs h k = rw add-zero (sym (prepend-nil _))
  reference-plain (c ∷ p) t ofs (hc, hp) k =
      let other : (c == backslash) ≡ false = ground arith in
      let shift : ofs + suc (length p) ≡ ofs + 1 + length p = omega arith in
      rw (other, has_backslash-append p t k, shift, reference-plain p t (ofs + 1) hp k)
        (prepend-prepend (c ∷ []) p _)

  -- A dollar sign before anything but a brace is text.
  pub variables-dollar :
      (t : Bytes) (ofs : ℕ)
      → is_open_brace (get_elem? t 0) ≡ false
      → variables context dollar ofs t ≡ prepend (dollar_sign ∷ []) (variables context plain ofs t)
  unfolding variables
  variables-dollar [] ofs h = refl
  variables-dollar (c ∷ t) ofs h = elim (Bool-cases (c == dollar_sign)) [
    | inl sign ↦ rw (h, sign)
    | inr other ↦ rw (h, other) (sym (prepend-prepend (dollar_sign ∷ []) (c ∷ []) _))
  ]

  -- With no backslash ahead only variables are replaced.
  pub reference-variables :
      (t : Bytes) (ofs : ℕ)
      → Lacks backslash t
      → reference context false ofs t ≡ variables context plain ofs t
  unfolding reference
  reference-variables [] ofs h = unfold variables in refl
  reference-variables (c ∷ t) ofs (hc, ht) =
      let other : (c == backslash) ≡ false = ground arith in rw (other, has_backslash-Lacks t ht)

  -- A name with no closing brace.
  pub variables_unclosed :
      (w : Bytes) (start : ℕ)
      → Lacks close_brace w
      → variables context (naming start []) start w ≡ err (new_error start incomplete_expansion)
  variables_unclosed w start h =
      let none_left : variables context (naming start w) (start + length w) []
          ≡ err (new_error start incomplete_expansion) =
        unfold variables in refl in
      rw append-nil at (variables-naming w [] start start [] h ∙ none_left)

  -- A name and its closing brace.
  pub variables-named :
      (n x : Bytes) (start : ℕ)
      → Lacks close_brace n
      → variables context (naming start []) start (n ++ close_brace ∷ x)
        ≡ named start n (context n) (variables context plain (start + length n + 1) x)
  variables-named n x start h =
      variables-naming n (close_brace ∷ x) start start [] h ∙ unfold variables in refl

  -- A dollar sign behind text with none.
  pub variables_sign :
      (p x : Bytes) (ofs : ℕ)
      → Lacks dollar_sign p
      → variables context plain ofs (p ++ dollar_sign ∷ x)
        ≡ prepend p (variables context dollar (ofs + length p + 1) x)
  variables_sign p x ofs h = variables-plain p (dollar_sign ∷ x) ofs h ∙ unfold variables in refl

  -- Text with no dollar sign.
  pub variables_text :
      (p : Bytes) (ofs : ℕ) → Lacks dollar_sign p → variables context plain ofs p ≡ ok p
  variables_text p ofs h =
      let none_left : prepend p (variables context plain (ofs + length p) []) ≡ ok (p ++ []) =
        unfold variables in refl in
      rw append-nil at (variables-plain p [] ofs h ∙ none_left)

  -- A dollar sign and an opening brace begin a name.
  pub variables_brace :
      (t : Bytes) (ofs : ℕ)
      → is_open_brace (get_elem? t 0) ≡ true
      → variables context dollar ofs t
        ≡ variables context (naming (ofs + 1) []) (ofs + 1) (drop 1 t)
  unfolding variables
  variables_brace [] ofs h = cc
  variables_brace (c ∷ t) ofs h = rw h
