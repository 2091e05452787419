-- ===== src/Expand/Tests.antt =====
-- The unit tests of string.rs, run on the model.
use porkg.Base.{
  ◌≡◌, refl, List, [], ◌∷◌, false, none, some, codes, Result, ok, err, bytes_eq, if◌then◌else◌,
  find-none, arith,
}
use porkg.Expand.{
  Context, Cow, ExpandError, borrowed, owned, new_error, unknown_variable, incomplete_expansion,
  invalid_escape_sequence, expand, backslash, dollar_sign, close_brace,
}
use porkg.Expand.Reference.{reference, prepend}
use porkg.Expand.Moves.{IsNonEmpty}
use porkg.Expand.Refines.{text, expand-reference, expand_ends}
use porkg.Expand.Templates.{Segment, literal, variable, expand-template}
use porkg.Expand.Faults.{expand_before_escape, expand_empty_value}

abbrev context : Context
context name =
    if bytes_eq name (codes "FOO")
    then some (codes "foo")
    else if bytes_eq name (codes "BAR")
    then some (codes "bar")
    else none

plain_text : expand (codes "hello") context ≡ some (ok (borrowed (codes "hello")))
unfolding expand
plain_text = refl

no_brace : expand (codes "hello $FOO") context ≡ some (ok (owned (codes "hello $FOO")))
unfolding expand
no_brace = refl

one_variable : expand (codes "hello ${FOO}") context ≡ some (ok (owned (codes "hello foo")))
unfolding expand
one_variable = refl

escapes :
    expand (codes "he\\\\ll\\\\o\\n \\${FOO} ${FOO}") context
    ≡ some (ok (owned (codes "he\\ll\\o\n ${FOO} foo")))
unfolding expand
escapes = refl

bad_escape : expand (codes "hello \\f") context ≡ some (err (new_error 6 invalid_escape_sequence))
unfolding expand
bad_escape = refl

unknown :
    expand (codes "hello ${BAZ}") context
    ≡ some (err (new_error 8 (unknown_variable (codes "BAZ"))))
unfolding expand
unknown = refl

incomplete : expand (codes "hello ${BAZ") context ≡ some (err (new_error 8 incomplete_expansion))
unfolding expand
incomplete = refl

context-IsNonEmpty : IsNonEmpty context
context-IsNonEmpty name v h = ground arith

expand-reference_example :
    (r : Result Cow ExpandError) × (expand (codes "a\\n${FOO}$") context ≡ some r)
    × (text r ≡ reference context false 0 (codes "a\\n${FOO}$"))
expand-reference_example = expand-reference context context-IsNonEmpty (codes "a\\n${FOO}$")

abbrev template : List Segment
template = literal (codes "x=") ∷ variable (codes "FOO") ∷ literal (codes "!") ∷ []

expand-template_example :
    (r : Result Cow ExpandError) × (expand (codes "x=${FOO}!") context ≡ some r)
    × (text r ≡ ok (codes "x=foo!"))
expand-template_example = expand-template context template context-IsNonEmpty (
  (find-none dollar_sign (codes "x=") refl, find-none backslash (codes "x=") refl),
  (
    (
      find-none close_brace (codes "FOO") refl,
      find-none backslash (codes "FOO") refl,
      (codes "foo", refl),
    ),
    ((find-none dollar_sign (codes "!") refl, find-none backslash (codes "!") refl), tt),
  ),
)

expand_before_escape_example :
    (r : Result Cow ExpandError) × (expand (codes "${FOO}\\n${FOO}") context ≡ some r)
    × (text r ≡ prepend (codes "${FOO}\n") (reference context false 8 (codes "${FOO}")))
expand_before_escape_example =
    expand_before_escape context (codes "${FOO}") (codes "${FOO}") context-IsNonEmpty
      (find-none backslash (codes "${FOO}") refl)

abbrev empty_context : Context
empty_context name = some []

expand_empty_value_example :
    (expand (codes "${E}") empty_context ≡ some (ok (borrowed (codes "${E}"))))
    × (reference empty_context false 0 (codes "${E}") ≡ ok [])
expand_empty_value_example =
    expand_empty_value empty_context (codes "E") (find-none close_brace (codes "E") refl)
      (find-none backslash (codes "E") refl) refl

-- A variable that stands for the empty text.
expand_ends_example :
    (r : Result Cow ExpandError) × (expand (codes "a${x}b$") (λ name. some []) ≡ some r)
expand_ends_example = expand_ends (λ name. some []) (codes "a${x}b$")
