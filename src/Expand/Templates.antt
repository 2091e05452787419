-- ===== src/Expand/Templates.antt =====
-- Texts that `expand` treats as their writers mean them: templates with no escape, and quoted text.
use porkg.Base.{
  ℕ, ◌+◌, ◌≡◌, ◌≢◌, refl, inl, inr, Bool-cases, ◌∙◌, false, ◌||◌, List, [], ◌∷◌, ◌++◌, append_assoc,
  Option, none, some, Bytes, Result, ok, length, Lacks, All, All-append, ◌==◌, if◌then◌else◌, arith,
}
use porkg.Expand.{
  Context, Cow, ExpandError, backslash, dollar_sign, open_brace, close_brace, expand,
}
use porkg.Expand.Reference.{plain, naming, variables, reference, has_backslash}
use porkg.Expand.Loop.{variables-plain, variables-named, variables_text, reference-variables}
use porkg.Expand.Moves.{IsNonEmpty}
use porkg.Expand.Refines.{text, expand-reference}

pub data Segment : Type 0 where
  literal : Bytes → Segment
  variable : Bytes → Segment

abbrev pub show : Segment → Bytes
show (literal s) = s
show (variable n) = dollar_sign ∷ open_brace ∷ (n ++ close_brace ∷ [])

abbrev pub show_all : List Segment → Bytes
show_all [] = []
show_all (g ∷ gs) = show g ++ show_all gs

-- The value of a variable, given with the template.
abbrev pub IsSegment : Context → Segment → Type 0
IsSegment context (literal s) = Lacks dollar_sign s × Lacks backslash s
IsSegment context (variable n) =
    Lacks close_brace n × Lacks backslash n × ((v : Bytes) × (context n ≡ some v))

abbrev filled : Option Bytes → Bytes → Bytes
filled none s = s
filled (some v) s = v ++ s

abbrev pub fill : Context → List Segment → Bytes
fill context [] = []
fill context (literal s ∷ gs) = s ++ fill context gs
fill context (variable n ∷ gs) = filled (context n) (fill context gs)

show_all-Lacks :
    (context : Context) (gs : List Segment)
    → All (IsSegment context) gs
    → Lacks backslash (show_all gs)
show_all-Lacks context [] h = tt
show_all-Lacks context (literal s ∷ gs) ((_, hs), hgs) =
    All-append _ s (show_all gs) hs (show_all-Lacks context gs hgs)
show_all-Lacks context (variable n ∷ gs) ((_, hn, _), hgs) =
    let name = All-append (λ b. b ≢ backslash) n (close_brace ∷ []) hn (ground arith, tt) in
    (
      ground arith,
      (
        ground arith,
        All-append _ (n ++ close_brace ∷ []) (show_all gs) name (show_all-Lacks context gs hgs),
      ),
    )

variables-show_all :
    (context : Context) (gs : List Segment) (ofs : ℕ)
    → All (IsSegment context) gs
    → variables context plain ofs (show_all gs) ≡ ok (fill context gs)
variables-show_all context [] ofs h = unfold variables in refl
variables-show_all context (literal s ∷ gs) ofs ((hs, _), hgs) = rw (
  variables-plain context s (show_all gs) ofs hs,
  variables-show_all context gs (ofs + length s) hgs,
)
variables-show_all context (variable n ∷ gs) ofs ((hn, _, (v, known)), hgs) =
    let rest = show_all gs in
    let start = ofs + 1 + 1 in
    let opened : variables context plain ofs (show (variable n) ++ rest)
        ≡ variables context (naming start []) start ((n ++ close_brace ∷ []) ++ rest) =
      unfold variables in refl in
    opened
    ∙ rw (
      append_assoc n (close_brace ∷ []) rest,
      variables-named context n rest start hn,
      known,
      variables-show_all context gs (start + length n + 1) hgs,
    )

-- A template of literal text and known variables, with no backslash and no stray dollar sign, is
-- filled in with the variables' values, where no variable stands for the empty text.
pub expand-template :
    (context : Context) (gs : List Segment)
    → IsNonEmpty context
    → All (IsSegment context) gs
    → (r : Result Cow ExpandError) × (expand (show_all gs) context ≡ some r)
      × (text r ≡ ok (fill context gs))
expand-template context gs full h =
    let (r, ends, shown) = expand-reference context full (show_all gs) in
    (
      r,
      ends,
      shown
          ∙ reference-variables context (show_all gs) 0 (show_all-Lacks context gs h)
          ∙ variables-show_all context gs 0 h,
    )

-- A backslash before each backslash and dollar sign.
abbrev pub quote : Bytes → Bytes
quote [] = []
quote (c ∷ s) = if c == dollar_sign || c == backslash then backslash ∷ c ∷ quote s else c ∷ quote s

quote-plain : (s : Bytes) → has_backslash (quote s) ≡ false → (quote s ≡ s) × Lacks dollar_sign s
quote-plain [] h = (refl, tt)
quote-plain (c ∷ s) h = ground (arith, quote-plain s)

reference-quote :
    (context : Context) (s : Bytes) (ofs : ℕ) → reference context false ofs (quote s) ≡ ok s
unfolding reference
reference-quote context [] ofs = refl
reference-quote context (c ∷ s) ofs = elim (Bool-cases (c == dollar_sign || c == backslash)) [
  | inl special ↦ rw (special, quote) (ground (arith, reference-quote context s (ofs + 2)))
  | inr other ↦
      rw (other, quote)
        (elim (Bool-cases (has_backslash (quote s))) [
          | inl ahead ↦ ground (arith, reference-quote context s (ofs + 1))
          | inr last ↦
              let (same, no_sign) = quote-plain s last in
              ground (arith, variables_text context (quote s) (ofs + 1) (rw same no_sign), same)
        ])
]

-- Text with a backslash before each backslash and dollar sign is expanded to the text itself,
-- where no variable stands for the empty text.
pub expand-quote :
    (context : Context) (s : Bytes)
    → IsNonEmpty context
    → (r : Result Cow ExpandError) × (expand (quote s) context ≡ some r) × (text r ≡ ok s)
expand-quote context s full =
    let (r, ends, shown) = expand-reference context full (quote s) in
    (r, ends, shown ∙ reference-quote context s 0)
