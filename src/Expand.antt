-- ===== src/Expand.antt =====
-- crates/porkg-private/src/string.rs: `expand`. A `&str` is its UTF-8 bytes; every byte that the
-- code looks for is ASCII, so `str::find` and the slices agree with those on bytes. `reserve` only
-- sets a capacity and is left out.
pub mod Reference
mod Tests
pub mod Loop
pub mod Rounds
pub mod Moves
pub mod Refines
pub mod Templates
pub mod Faults
use porkg.Base.{
  ℕ, zero, suc, ◌+◌, Bool, true, false, List, [], ◌∷◌, ◌++◌, Option, none, some, Bytes, Result, ok,
  err, length, drop, slice, get_elem?, find, ltb, ◌==◌, ◌||◌, if◌then◌else◌,
}

pub data ExpandErrorKind : Type 0 where
  unknown_variable : Bytes → ExpandErrorKind
  incomplete_expansion : ExpandErrorKind
  invalid_escape_sequence : ExpandErrorKind

pub record ExpandError : Type 0 where
  pub kind : ExpandErrorKind
  pub offset : ℕ

-- `ExpandError::new`.
abbrev pub new_error : ℕ → ExpandErrorKind → ExpandError
new_error offset kind = record { kind = kind; offset = offset }

-- `Cow<str>`.
pub data Cow : Type 0 where
  borrowed : Bytes → Cow
  owned : Bytes → Cow

abbrev pub backslash : ℕ
backslash = b'\\'

abbrev pub dollar_sign : ℕ
dollar_sign = b'$'

abbrev pub open_brace : ℕ
open_brace = b'{'

abbrev pub close_brace : ℕ
close_brace = b'}'

abbrev pub is_empty : Bytes → Bool
is_empty [] = true
is_empty (c ∷ s) = false

-- The character that the byte after a backslash stands for.
abbrev pub escaped : Option ℕ → Option ℕ
escaped none = none
escaped (some c) =
    if c == dollar_sign || c == backslash
    then some c
    else if c == b'n'
    then some 10
    else if c == b'r'
    then some 13
    else if c == b't'
    then some 9
    else none

-- One round of the `while` loop: `continue` with new `ofs` and `result`, `break`, or `return Err`.
pub data Round : Type 0 where
  continue : ℕ → Bytes → Round
  break : Round
  fail : ExpandError → Round

abbrev pub Context : Type 0
Context = Bytes → Option Bytes

abbrev pub is_open_brace : Option ℕ → Bool
is_open_brace none = false
is_open_brace (some c) = c == open_brace

-- `ofs` and `result` behind the loop, or the error that it returns.
abbrev pub Outcome : Type 0
Outcome = Result (ℕ × Bytes) ExpandError

-- What a round does to the loop whose further rounds are `more`.
abbrev pub follow : (ℕ → Bytes → Option Outcome) → ℕ → Bytes → Round → Option Outcome
follow more ofs result (continue ofs' result') = more ofs' result'
follow more ofs result break = some (ok (ofs, result))
follow more ofs result (fail e) = some (err e)

abbrev pub escape_to : ℕ → Bytes → Option ℕ → Round
escape_to start text none = fail (new_error start invalid_escape_sequence)
escape_to start text (some c) = continue (start + 2) (text ++ c ∷ [])

abbrev pub name_to : ℕ → Bytes → Bytes → ℕ → Option Bytes → Round
name_to start result name next none = fail (new_error start (unknown_variable name))
name_to start result name next (some v) = continue next (result ++ v)

module _ (value : Bytes) where
  -- After the loop.
  unfoldable pub finish : ℕ → Bytes → Cow
  finish ofs [] = borrowed value
  finish ofs (c ∷ result) = owned ((c ∷ result) ++ drop ofs value)

  finished : Option Outcome → Option (Result Cow ExpandError)
  unfolding finish
  finished none = none
  finished (some (ok (ofs, result))) = some (ok (finish ofs result))
  finished (some (err e)) = some (err e)

module _ (value : Bytes) (context : Context) where
  -- A backslash was found `index` bytes after `ofs`.
  unfoldable pub escape_round : ℕ → Bytes → ℕ → Round
  escape_round ofs result index =
      let start = ofs + index in
      escape_to start (result ++ slice value ofs start) (escaped (get_elem? value (start + 1)))

  -- The name runs from `start` for `end` bytes, up to a closing brace.
  unfoldable pub name_round : ℕ → Bytes → ℕ → Round
  name_round start result end =
      let name = slice value start (start + end) in
      name_to start result name (start + end + 1) (context name)

  abbrev pub brace_to : ℕ → Bytes → Option ℕ → Round
  brace_to start result none = fail (new_error start incomplete_expansion)
  brace_to start result (some end) = name_round start result end

  -- An opening brace was found before `start`.
  unfoldable pub brace_round : ℕ → Bytes → Round
  unfolding name_round
  brace_round start result = brace_to start result (find close_brace (drop start value))

  -- A dollar sign was found `index` bytes after `ofs`.
  unfoldable pub dollar_round : ℕ → Bytes → ℕ → Round
  unfolding brace_round
  dollar_round ofs result index =
      let start = ofs + index + 1 in
      if is_open_brace (get_elem? value start)
      then brace_round (start + 1) (result ++ slice value ofs (ofs + index))
      else continue start (result ++ slice value ofs start)

  abbrev pub dollar_to : ℕ → Bytes → Option ℕ → Round
  dollar_to ofs result none = break
  dollar_to ofs result (some index) = dollar_round ofs result index

  abbrev pub backslash_to : ℕ → Bytes → Option ℕ → Round
  backslash_to ofs result none = dollar_to ofs result (find dollar_sign (drop ofs value))
  backslash_to ofs result (some index) = escape_round ofs result index

  unfoldable pub round : ℕ → Bytes → Round
  unfolding escape_round dollar_round
  round ofs result = backslash_to ofs result (find backslash (drop ofs value))

  -- The loop on fuel: `ofs` and `result` where it ends, or its error; `none` is no fuel left.
  unfoldable pub expand_loop : ℕ → ℕ → Bytes → Option Outcome
  unfolding round
  expand_loop zero ofs result = none
  expand_loop (suc fuel) ofs result =
      if ltb ofs (length value)
      then follow (expand_loop fuel) ofs result (round ofs result)
      else some (ok (ofs, result))

  -- Each round moves `ofs` on, so `length value + 1` rounds are enough.
  unfoldable pub expand : Option (Result Cow ExpandError)
  unfolding expand_loop finished
  expand =
      if is_empty value
      then some (ok (borrowed value))
      else finished value (expand_loop (suc (length value)) 0 [])
