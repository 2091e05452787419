-- ===== src/Fork/Macro/Tests.antt =====
-- A test that returns a result, and one whose type has a second arrow.
use porkg.Base.{◌≡◌, refl, [], ◌∷◌, some, codes}
use porkg.Fork.Macro.{
  ident, punct, group, brace, parenthesis, TokenStream, empty, token, extend, stream, one,
  exit_code, build_test, fork_test,
}
use porkg.Fork.Macro.Tokens.{test_tokens}
use porkg.Fork.Macro.Rewriting.{function, arrow_to, fork_test-function}

abbrev header : TokenStream
header = one (group parenthesis empty)

abbrev body : TokenStream
body = one (ident (codes "work"))

abbrev result : TokenStream
result = one (ident (codes "Result"))

fork_test-function_example :
    fork_test (
      function
        (one (ident (codes "pub")))
        (codes "works")
        header
        (arrow_to (some result) (token (group brace body) empty)))
    ≡ some (
        function
          (one (ident (codes "pub")))
          (codes "works")
          header
          (test_tokens (codes "works") result body))
fork_test-function_example =
    fork_test-function (one (ident (codes "pub"))) (codes "works") header (some result) body empty
      (refl, tt) (refl, refl, tt) (refl, refl, tt)

-- `fn f() -> A -> B { work }`, as in the type of a function pointer: the first arrow is lost and
-- its type stays.
second_arrow :
    fork_test (
      function empty (codes "f") header (
        stream (
          punct b'-'
          ∷ punct b'>'
          ∷ ident (codes "A")
          ∷ punct b'-'
          ∷ punct b'>'
          ∷ ident (codes "B")
          ∷ group brace body
          ∷ [])))
    ≡ some (
        function empty (codes "f") header (
          token (ident (codes "A")) (
            extend exit_code
              (one (group brace (build_test (codes "f") (one (ident (codes "B"))) body))))))
unfolding fork_test
second_arrow = refl
