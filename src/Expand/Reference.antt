-- ===== src/Expand/Reference.antt =====
-- What `expand` computes, said by one pass over the text with no positions to search for: as long
-- as a backslash is still ahead, everything but escapes is copied; after the last escape, variables
-- are replaced. Offsets are carried for the errors only.
use porkg.Base.{
  ℕ, ◌+◌, Bool, true, false, ◌||◌, [], ◌∷◌, ◌++◌, Option, none, some, Bytes, Result, ok, err, ◌==◌,
  if◌then◌else◌,
}
use porkg.Expand.{
  ExpandError, new_error, unknown_variable, incomplete_expansion, invalid_escape_sequence, Context,
  escaped, backslash, dollar_sign, open_brace, close_brace,
}

abbrev pub Output : Type 0
Output = Result Bytes ExpandError

abbrev pub prepend : Bytes → Output → Output
prepend s (ok t) = ok (s ++ t)
prepend s (err e) = err e

-- Plain text; just behind a dollar sign; or in a name, with its start and its text so far.
pub data Mode : Type 0 where
  plain : Mode
  dollar : Mode
  naming : ℕ → Bytes → Mode

abbrev pub named : ℕ → Bytes → Option Bytes → Output → Output
named start name none rest = err (new_error start (unknown_variable name))
named start name (some v) rest = prepend v rest

abbrev pub has_backslash : Bytes → Bool
has_backslash [] = false
has_backslash (c ∷ s) = c == backslash || has_backslash s

abbrev pub replaced : ℕ → Option ℕ → Output → Output
replaced start none rest = err (new_error start invalid_escape_sequence)
replaced start (some c) rest = prepend (c ∷ []) rest

module _ (context : Context) where
  unfoldable pub variables : Mode → ℕ → Bytes → Output
  variables plain ofs [] = ok []
  variables dollar ofs [] = ok (dollar_sign ∷ [])
  variables (naming start name) ofs [] = err (new_error start incomplete_expansion)
  variables plain ofs (c ∷ s) =
      let sign = variables dollar (ofs + 1) s in
      let copy = prepend (c ∷ []) (variables plain (ofs + 1) s) in
      if c == dollar_sign then sign else copy
  variables dollar ofs (c ∷ s) =
      let name = variables (naming (ofs + 1) []) (ofs + 1) s in
      let sign = prepend (dollar_sign ∷ []) (variables dollar (ofs + 1) s) in
      let copy = prepend (dollar_sign ∷ c ∷ []) (variables plain (ofs + 1) s) in
      if c == open_brace then name else if c == dollar_sign then sign else copy
  variables (naming start name) ofs (c ∷ s) =
      let done = named start name (context name) (variables plain (ofs + 1) s) in
      let more = variables (naming start (name ++ c ∷ [])) (ofs + 1) s in
      if c == close_brace then done else more

  -- The Boolean says that the byte before was a backslash.
  unfoldable pub reference : Bool → ℕ → Bytes → Output
  unfolding variables
  reference true ofs [] = err (new_error ofs invalid_escape_sequence)
  reference false ofs [] = ok []
  reference true ofs (c ∷ s) = replaced ofs (escaped (some c)) (reference false (ofs + 2) s)
  reference false ofs (c ∷ s) =
      let escape = reference true ofs s in
      let copy = prepend (c ∷ []) (reference false (ofs + 1) s) in
      let last = variables plain ofs (c ∷ s) in
      if c == backslash then escape else if has_backslash s then copy else last
