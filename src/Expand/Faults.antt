-- ===== src/Expand/Faults.antt =====
-- Where `expand` departs from its documentation: variables ahead of an escape, and variables that
-- stand for the empty text.
use native.Mathlib.Nat.{zero-add}
use porkg.Base.{
  ◌+◌, ◌-◌, ◌≡◌, ◌≢◌, refl, ◌∙◌, true, false, [], ◌∷◌, ◌++◌, some, Bytes, Result, ok, length,
  length-append, ltb, take-length-append, slice, find-Lacks, find-append, Lacks, All-append, arith,
}
use porkg.Expand.{
  Context, Cow, borrowed, ExpandError, backslash, dollar_sign, open_brace, close_brace, expand,
  round, continue, follow, backslash_to, brace_to, name_round,
}
use porkg.Expand.Reference.{prepend, plain, naming, variables, reference}
use porkg.Expand.Loop.{prepend-prepend, variables-named, reference-variables}
use porkg.Expand.Rounds.{reference_at_backslash}
use porkg.Expand.Moves.{IsNonEmpty}
use porkg.Expand.Refines.{text, expand-reference}

-- Text with no backslash ahead of the escape `\n` is copied as it stands, so that a variable in
-- it is not expanded, where no variable stands for the empty text; the rest is expanded as the
-- reference says.
pub expand_before_escape :
    (context : Context) (p s : Bytes)
    → IsNonEmpty context
    → Lacks backslash p
    → (r : Result Cow ExpandError) × (expand (p ++ backslash ∷ b'n' ∷ s) context ≡ some r)
      × (text r ≡ prepend (p ++ 10 ∷ []) (reference context false (length p + 2) s))
expand_before_escape context p s full h =
    let value = p ++ backslash ∷ b'n' ∷ s in
    let (r, ends, shown) = expand-reference context full (p ++ backslash ∷ b'n' ∷ s) in
    let spec = reference_at_backslash value context p (b'n' ∷ s) 0 h in
    (r, ends, shown ∙ rw zero-add at spec ∙ prepend-prepend p (10 ∷ []) _)

-- `${name}`, alone.
abbrev pub lone : Bytes → Bytes
lone name = dollar_sign ∷ open_brace ∷ (name ++ close_brace ∷ [])

lone-Lacks : (name : Bytes) → Lacks backslash name → Lacks backslash (lone name)
lone-Lacks name k = (
  ground arith,
  (ground arith, All-append (λ c. c ≢ backslash) name (close_brace ∷ []) k (ground arith, tt)),
)

round-lone :
    (context : Context) (name : Bytes)
    → Lacks close_brace name
    → Lacks backslash name
    → context name ≡ some []
    → round (lone name) context 0 [] ≡ continue (2 + length name + 1) []
unfolding round
round-lone context name h k e =
    let clean = find-Lacks backslash (lone name) (lone-Lacks name k) in
    let named = find-append close_brace name [] h in
    let width : 2 + length name - 2 ≡ length name = omega arith in
    let cut : slice (lone name) 2 (2 + length name) ≡ name =
      rw width (take-length-append name (close_brace ∷ [])) in
    rw (clean, backslash_to) (rw (named, brace_to) (rw (cut, name_round, e)))

-- A text that is one variable, which stands for the empty text, is left unexpanded by `expand`,
-- while the reference gives the empty text.
pub expand_empty_value :
    (context : Context) (name : Bytes)
    → Lacks close_brace name
    → Lacks backslash name
    → context name ≡ some []
    → (expand (lone name) context ≡ some (ok (borrowed (lone name))))
      × (reference context false 0 (lone name) ≡ ok [])
unfolding expand
expand_empty_value context name h k e =
    let opened : variables context plain 0 (lone name)
        ≡ variables context (naming 2 []) 2 (name ++ close_brace ∷ []) =
      unfold variables in refl in
    let first : ltb 0 (length (lone name)) ≡ true = ground arith in
    let last : ltb (2 + length name + 1) (length (lone name)) ≡ false =
      ground (arith, length-append name (close_brace ∷ [])) in
    (
      rw (first, round-lone context name h k e, follow) (rw last),
      reference-variables context (lone name) 0 (lone-Lacks name k)
          ∙ opened
          ∙ rw (variables-named context name [] 2 h, e) (unfold variables in refl),
    )
