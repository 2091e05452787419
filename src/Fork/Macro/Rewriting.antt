-- ===== src/Fork/Macro/Rewriting.antt =====
-- What the attribute `fork_test` of crates/porkg-test-macros/src/fork.rs makes of a function.
use porkg.Base.{
  ◌≡◌, ◌∙◌, Bool-cases, inl, inr, ap, refl, sym, Bool, true, false, Option, none, some, Bytes,
  codes,
}
use porkg.Fork.Macro.{
  TokenTree, ident, punct, group, brace, TokenStream, empty, token, extend, one, is_fn, body_of,
  is_punct, exit_code, build_test, to_fn, to_name, is_arrow, next_start, next_ret, to_body,
  from_name, fork_test,
}
use porkg.Fork.Macro.Tokens.{test_tokens, build_test-test_tokens}

extend-empty : (ts : TokenStream) → extend ts empty ≡ ts
extend-empty empty = refl
extend-empty (token t ts) = ap (token t) (extend-empty ts)

extend_assoc : (rs ss ts : TokenStream) → extend (extend rs ss) ts ≡ extend rs (extend ss ts)
extend_assoc empty ss ts = refl
extend_assoc (token r rs) ss ts = ap (token r) (extend_assoc rs ss ts)

abbrev pub LacksFn : TokenStream → Type 0
LacksFn empty = Unit
LacksFn (token t ts) = (is_fn t ≡ false) × LacksFn ts

-- Whether the first token is the second half of an arrow.
abbrev pub starts_arrow : TokenTree → TokenStream → Bool
starts_arrow t empty = false
starts_arrow t (token u ts) = is_arrow t u

-- No body, that is a group in braces, and no arrow.
abbrev pub IsPlain : TokenStream → Type 0
IsPlain empty = Unit
IsPlain (token t ts) = (body_of t ≡ none) × (starts_arrow t ts ≡ false) × IsPlain ts

to_fn-LacksFn :
    (start pre ts : TokenStream)
    → LacksFn pre
    → to_fn start (extend pre (token (ident (codes "fn")) ts))
      ≡ (extend start (extend pre (one (ident (codes "fn")))), ts)
to_fn-LacksFn start empty ts h = refl
to_fn-LacksFn start (token t pre) ts (ht, h) =
    rw ht (to_fn-LacksFn (extend start (one t)) pre ts h ∙ rw extend_assoc)

next_start-token :
    (in_ret : Bool) (start : TokenStream) (t : TokenTree) (ts : TokenStream)
    → next_start in_ret (next_start in_ret start (one t)) ts ≡ next_start in_ret start (token t ts)
next_start-token true start t ts = refl
next_start-token false start t ts = extend_assoc start (one t) ts

next_ret-token :
    (in_ret : Bool) (ret : TokenStream) (t : TokenTree) (ts : TokenStream)
    → next_ret in_ret (next_ret in_ret ret (one t)) ts ≡ next_ret in_ret ret (token t ts)
next_ret-token true ret t ts = extend_assoc ret (one t) ts
next_ret-token false ret t ts = refl

no_arrow : (t u : TokenTree) → is_punct b'>' u ≡ false → is_arrow t u ≡ false
no_arrow t u other = elim (Bool-cases (is_punct b'-' t)) [
  | inl minus ↦ rw (minus, other)
  | inr differs ↦ rw differs
]

-- Plain tokens go where `in_ret` says.
to_body-IsPlain :
    (name : Bytes) (in_ret : Bool) (start ret plain : TokenStream) (u : TokenTree)
    (ts : TokenStream)
    → IsPlain plain
    → is_punct b'>' u ≡ false
    → to_body name in_ret start ret (extend plain (token u ts))
      ≡ to_body name in_ret (next_start in_ret start plain) (next_ret in_ret ret plain) (token u ts)
unfolding to_body
to_body-IsPlain name true start ret empty u ts h other =
    ap (λ r. to_body name true start r (token u ts)) (sym (extend-empty ret))
to_body-IsPlain name false start ret empty u ts h other =
    ap (λ s. to_body name false s ret (token u ts)) (sym (extend-empty start))
to_body-IsPlain name in_ret start ret (token t empty) u ts (ht, arrow, h) other =
    rw (ht, no_arrow t u other)
to_body-IsPlain name in_ret start ret (token t (token v plain)) u ts (ht, arrow, h) other =
    rw (ht, arrow)
      (to_body-IsPlain name in_ret (next_start in_ret start (one t)) (next_ret in_ret ret (one t))
          (token v plain) u ts h other
        ∙ ap
            (λ s.
              to_body name in_ret s (next_ret in_ret (next_ret in_ret ret (one t)) (token v plain))
                (token u ts))
            (next_start-token in_ret start t (token v plain))
        ∙ ap
            (λ r.
              to_body name in_ret (next_start in_ret start (token t (token v plain))) r
                (token u ts))
            (next_ret-token in_ret ret t (token v plain)))

-- A body ends the loop, whatever follows.
to_body-body :
    (name : Bytes) (in_ret : Bool) (start ret g rest : TokenStream)
    → to_body name in_ret start ret (token (group brace g) rest)
      ≡ extend start (extend exit_code (one (group brace (build_test name ret g))))
unfolding to_body
to_body-body name in_ret start ret g empty = refl
to_body-body name in_ret start ret g (token t rest) = refl

-- A function as it is written, up to its body; its type follows an arrow, if there is one.
abbrev pub arrow_to : Option TokenStream → TokenStream → TokenStream
arrow_to none ts = ts
arrow_to (some ret) ts = token (punct b'-') (token (punct b'>') (extend ret ts))

abbrev pub returned : Option TokenStream → TokenStream
returned none = empty
returned (some ret) = ret

abbrev pub function : TokenStream → Bytes → TokenStream → TokenStream → TokenStream
function pre name header ts =
    extend pre (token (ident (codes "fn")) (token (ident name) (extend header ts)))

to_body-arrow_to :
    (name : Bytes) (start header : TokenStream) (ret : Option TokenStream) (g rest : TokenStream)
    → IsPlain header
    → IsPlain (returned ret)
    → to_body name false start empty (extend header (arrow_to ret (token (group brace g) rest)))
      ≡ extend start
          (extend header (extend exit_code (one (group brace (build_test name (returned ret) g)))))
unfolding to_body
to_body-arrow_to name start header none g rest h h' =
    to_body-IsPlain name false start empty header (group brace g) rest h refl
    ∙ to_body-body name false (extend start header) empty g rest
    ∙ extend_assoc start header _
to_body-arrow_to name start header (some ret) g rest h h' =
    to_body-IsPlain name false start empty header (punct b'-') _ h refl
    ∙ to_body-IsPlain name true (extend (extend start header) empty) empty ret (group brace g) rest
        h' refl
    ∙ to_body-body name true (extend (extend start header) empty) ret g rest
    ∙ ap (λ s. extend s (extend exit_code (one (group brace (build_test name ret g)))))
        (extend-empty (extend start header))
    ∙ extend_assoc start header _

-- For a function with a name and a body: the attribute keeps all that stands before the body, but
-- for the type, which becomes `std::process::ExitCode`; the new body calls `in_host`, and if that is
-- true runs the body that it had, with success after it if no type was written, and otherwise as a
-- closure of that type whose result is reported; if `in_host` is false it calls `run` with the
-- module's path and the function's name. The words before `fn` are others, and the header and the
-- type have no arrow and no group in braces.
pub fork_test-function :
    (pre : TokenStream) (name : Bytes) (header : TokenStream) (ret : Option TokenStream)
    (g rest : TokenStream)
    → LacksFn pre
    → IsPlain header
    → IsPlain (returned ret)
    → fork_test (function pre name header (arrow_to ret (token (group brace g) rest)))
      ≡ some (function pre name header (test_tokens name (returned ret) g))
unfolding fork_test
fork_test-function pre name header ret g rest hp hh hr =
    let start = extend (extend pre (one (ident (codes "fn")))) (one (ident name)) in
    ap (λ r. from_name (to_name r.0 r.1)) (to_fn-LacksFn empty pre _ hp)
    ∙ ap some (
        to_body-arrow_to name start header ret g rest hh hr
        ∙ extend_assoc (extend pre (one (ident (codes "fn")))) (one (ident name)) _
        ∙ extend_assoc pre (one (ident (codes "fn"))) _
        ∙ ap (λ ts. function pre name header ts) (build_test-test_tokens name (returned ret) g))
