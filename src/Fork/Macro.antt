-- ===== src/Fork/Macro.antt =====
-- crates/porkg-test-macros/src/fork.rs: the attribute `fork_test`, on the tokens of its function. A
-- panic, for want of a name, is `none`. The spacing of punctuation and the spans are left out, and
-- so are blanks.
pub mod Tokens
pub mod Rewriting
mod Tests
use porkg.Base.{
  ℕ, Bool, true, false, List, [], ◌∷◌, ◌==◌, ◌&&◌, Option, none, some, if◌then◌else◌, Bytes, codes,
  bytes_eq,
}

pub data Delimiter : Type 0 where
  parenthesis : Delimiter
  brace : Delimiter
  bracket : Delimiter

mutual
  pub data TokenTree : Type 0 where
    ident : Bytes → TokenTree
    punct : ℕ → TokenTree
    literal : Bytes → TokenTree
    group : Delimiter → TokenStream → TokenTree

  pub data TokenStream : Type 0 where
    empty : TokenStream
    token : TokenTree → TokenStream → TokenStream

-- `extend`
abbrev pub extend : TokenStream → TokenStream → TokenStream
extend empty ts = ts
extend (token t ss) ts = token t (extend ss ts)

abbrev pub stream : List TokenTree → TokenStream
stream [] = empty
stream (t ∷ ts) = token t (stream ts)

abbrev pub one : TokenTree → TokenStream
one t = token t empty

abbrev pub is_empty : TokenStream → Bool
is_empty empty = true
is_empty (token t ts) = false

abbrev pub is_fn : TokenTree → Bool
is_fn (ident i) = bytes_eq i (codes "fn")
is_fn (punct c) = false
is_fn (literal s) = false
is_fn (group d ts) = false

-- The name of an identifier.
abbrev pub name_of : TokenTree → Option Bytes
name_of (ident i) = some i
name_of (punct c) = none
name_of (literal s) = none
name_of (group d ts) = none

-- The contents of a group in braces.
abbrev pub body_of : TokenTree → Option TokenStream
body_of (group brace ts) = some ts
body_of (group parenthesis ts) = none
body_of (group bracket ts) = none
body_of (ident i) = none
body_of (punct c) = none
body_of (literal s) = none

abbrev pub is_punct : ℕ → TokenTree → Bool
is_punct c (punct d) = d == c
is_punct c (ident i) = false
is_punct c (literal s) = false
is_punct c (group d ts) = false

abbrev pub path_separator : List TokenTree → List TokenTree
path_separator ts = punct b':' ∷ punct b':' ∷ ts

-- `std::process::` and a name
abbrev pub std_process : List TokenTree → List TokenTree
std_process ts = ident (codes "std") ∷ path_separator (ident (codes "process") ∷ path_separator ts)

abbrev pub call_of : TokenStream → TokenTree
call_of ts = group parenthesis ts

-- `-> std::process::ExitCode`
abbrev pub exit_code : TokenStream
exit_code = stream (punct b'-' ∷ punct b'>' ∷ std_process (ident (codes "ExitCode") ∷ []))

-- What runs in the new process.
abbrev pub reported : TokenStream → TokenStream → TokenStream
reported ret g =
    if is_empty ret
    then extend g (
        stream (
          punct b';'
          ∷ std_process (ident (codes "ExitCode") ∷ path_separator (ident (codes "SUCCESS") ∷ []))))
    else stream (
        std_process (
          ident (codes "Termination")
          ∷ path_separator (
              ident (codes "report")
              ∷ call_of (
                  stream (
                    call_of (
                      extend (stream (punct b'|' ∷ punct b'|' ∷ punct b'-' ∷ punct b'>' ∷ []))
                        (extend ret (one (group brace g))))
                    ∷ call_of empty
                    ∷ []))
              ∷ [])))

-- `porkg_test::fork::` and a name
abbrev pub porkg_test : List TokenTree → List TokenTree
porkg_test ts =
    ident (codes "porkg_test") ∷ path_separator (ident (codes "fork") ∷ path_separator ts)

unfoldable pub build_test : Bytes → TokenStream → TokenStream → TokenStream
build_test name ret g = extend (one (ident (codes "if"))) (
    extend (stream (porkg_test (ident (codes "in_host") ∷ call_of empty ∷ []))) (
      stream (
        group brace (reported ret g)
        ∷ ident (codes "else")
        ∷ group brace (
            stream (
              porkg_test (
                ident (codes "run")
                ∷ call_of (
                    stream (
                      ident (codes "module_path")
                      ∷ punct b'!'
                      ∷ call_of empty
                      ∷ punct b','
                      ∷ literal name
                      ∷ []))
                ∷ [])))
        ∷ [])))

-- The first loop: what it has put into `start`, with what is left.
abbrev pub to_fn : TokenStream → TokenStream → TokenStream × TokenStream
to_fn start empty = (start, empty)
to_fn start (token t ts) =
    let rest = to_fn (extend start (one t)) ts in
    if is_fn t then (extend start (one t), ts) else rest

-- The second loop: the name, if there is one, what is in `start`, and what is left.
abbrev pub named :
    TokenTree
    → TokenStream
    → TokenStream
    → Option Bytes
    → Option (Bytes × TokenStream × TokenStream)
    → Option (Bytes × TokenStream × TokenStream)
named t ts start (some i) later = some (i, extend start (one t), ts)
named t ts start none later = later

abbrev pub to_name : TokenStream → TokenStream → Option (Bytes × TokenStream × TokenStream)
to_name start empty = none
to_name start (token t ts) = named t ts start (name_of t) (to_name (extend start (one t)) ts)

abbrev pub is_arrow : TokenTree → TokenTree → Bool
is_arrow a b = is_punct b'-' a && is_punct b'>' b

-- What a token other than the body and an arrow is added to, by `in_ret`.
abbrev pub next_start : Bool → TokenStream → TokenStream → TokenStream
next_start in_ret start ts = if in_ret then start else extend start ts

abbrev pub next_ret : Bool → TokenStream → TokenStream → TokenStream
next_ret in_ret ret ts = if in_ret then extend ret ts else ret

-- A body ends the third loop.
abbrev pub with_body :
    Bytes → TokenStream → TokenStream → Option TokenStream → TokenStream → TokenStream
with_body name start ret none other = other
with_body name start ret (some g) other =
    extend start (extend exit_code (one (group brace (build_test name ret g))))

-- The third loop; what it returns is `start`.
unfoldable pub to_body : Bytes → Bool → TokenStream → TokenStream → TokenStream → TokenStream
unfolding build_test
to_body name in_ret start ret empty = start
to_body name in_ret start ret (token t empty) =
    with_body name start ret (body_of t) (next_start in_ret start (one t))
to_body name in_ret start ret (token t (token u ts)) =
    let after_arrow = to_body name true (extend start ret) empty ts in
    let other =
      to_body name in_ret (next_start in_ret start (one t)) (next_ret in_ret ret (one t))
        (token u ts) in
    with_body name start ret (body_of t) (if is_arrow t u then after_arrow else other)

abbrev pub from_name : Option (Bytes × TokenStream × TokenStream) → Option TokenStream
from_name none = none
from_name (some (name, start, ts)) = some (to_body name false start empty ts)

unfoldable pub fork_test : TokenStream → Option TokenStream
unfolding to_body
fork_test input = let (start, ts) = to_fn empty input in from_name (to_name start ts)
