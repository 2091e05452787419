-- ===== src/Fork/Macro/Tokens.antt =====
-- The tokens that the attribute `fork_test` of crates/porkg-test-macros/src/fork.rs is to write.
use porkg.Base.{◌≡◌, refl, [], ◌∷◌, Bytes, codes}
use porkg.Fork.Macro.{
  ident, punct, literal, group, brace, parenthesis, TokenStream, empty, token, extend, stream, one,
  exit_code, build_test,
}

-- The tokens of `g; std::process::ExitCode::SUCCESS`, without a type, and with one those of
-- `std::process::Termination::report((|| -> ret { g })())`.
abbrev pub host_tokens : TokenStream → TokenStream → TokenStream
host_tokens empty g = extend g (
    stream (
      punct b';'
      ∷ ident (codes "std")
      ∷ punct b':'
      ∷ punct b':'
      ∷ ident (codes "process")
      ∷ punct b':'
      ∷ punct b':'
      ∷ ident (codes "ExitCode")
      ∷ punct b':'
      ∷ punct b':'
      ∷ ident (codes "SUCCESS")
      ∷ []))
host_tokens (token t ret) g = stream (
    ident (codes "std")
    ∷ punct b':'
    ∷ punct b':'
    ∷ ident (codes "process")
    ∷ punct b':'
    ∷ punct b':'
    ∷ ident (codes "Termination")
    ∷ punct b':'
    ∷ punct b':'
    ∷ ident (codes "report")
    ∷ group parenthesis (
        stream (
          group parenthesis (
            token (punct b'|') (
              token (punct b'|') (
                token (punct b'-')
                  (token (punct b'>') (extend (token t ret) (one (group brace g)))))))
          ∷ group parenthesis empty
          ∷ []))
    ∷ [])

-- The tokens of `-> std::process::ExitCode` and of a body
-- `{ if porkg_test::fork::in_host() { .. } else { porkg_test::fork::run(module_path!(), name) } }`.
abbrev pub test_tokens : Bytes → TokenStream → TokenStream → TokenStream
test_tokens name ret g = stream (
    punct b'-'
    ∷ punct b'>'
    ∷ ident (codes "std")
    ∷ punct b':'
    ∷ punct b':'
    ∷ ident (codes "process")
    ∷ punct b':'
    ∷ punct b':'
    ∷ ident (codes "ExitCode")
    ∷ group brace (
        stream (
          ident (codes "if")
          ∷ ident (codes "porkg_test")
          ∷ punct b':'
          ∷ punct b':'
          ∷ ident (codes "fork")
          ∷ punct b':'
          ∷ punct b':'
          ∷ ident (codes "in_host")
          ∷ group parenthesis empty
          ∷ group brace (host_tokens ret g)
          ∷ ident (codes "else")
          ∷ group brace (
              stream (
                ident (codes "porkg_test")
                ∷ punct b':'
                ∷ punct b':'
                ∷ ident (codes "fork")
                ∷ punct b':'
                ∷ punct b':'
                ∷ ident (codes "run")
                ∷ group parenthesis (
                    stream (
                      ident (codes "module_path")
                      ∷ punct b'!'
                      ∷ group parenthesis empty
                      ∷ punct b','
                      ∷ literal name
                      ∷ []))
                ∷ []))
          ∷ []))
    ∷ [])

pub build_test-test_tokens :
    (name : Bytes) (ret g : TokenStream)
    → extend exit_code (one (group brace (build_test name ret g))) ≡ test_tokens name ret g
unfolding build_test
build_test-test_tokens name empty g = refl
build_test-test_tokens name (token t ret) g = refl
