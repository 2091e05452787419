-- ===== src/Expand/Refines.antt =====
-- The whole loop against the reference: it ends, and gives the reference's text or error.
use porkg.Base.{
  ℕ, zero, suc, ◌+◌, ◌<◌, ◌≤◌, ◌≡◌, ◌≢◌, refl, ap, inl, inr, Bool-cases, ◌∙◌, false, [], ◌∷◌, ◌++◌,
  Option, none, some, Bytes, Result, ok, err, length, drop, drop-all, ltb, arith,
}
use porkg.Expand.{
  Context, Cow, borrowed, owned, ExpandError, Round, continue, break, fail, round, Outcome, follow,
  expand_loop, finished, expand,
}
use porkg.Expand.Reference.{Output, prepend, reference}
use porkg.Expand.Loop.{prepend-nil}
use porkg.Expand.Moves.{IsNonEmpty, Moves, round-Moves}
use porkg.Expand.Rounds.{after, round-after}

module _ (value : Bytes) where
  -- The text or the error that the loop's outcome stands for.
  abbrev output : Option Outcome → Option Output
  output none = none
  output (some (ok (ofs, result))) = some (ok (result ++ drop ofs value))
  output (some (err e)) = some (err e)

  -- An empty `result` behind the loop means that no round went on.
  abbrev Started : Option Outcome → Type 0
  Started o = (ofs : ℕ) → o ≡ some (ok (ofs, [])) → ofs ≡ 0

module _ (value : Bytes) (context : Context) (full : IsNonEmpty context) where
  follow-output :
      (more : ℕ → Bytes → Option Outcome) (ofs : ℕ) (result : Bytes) (r : Round)
      → Moves value context ofs r
      → ((ofs' : ℕ) (result' : Bytes)
          → ofs < ofs'
          → ofs' ≤ length value
          → output value (more ofs' result')
            ≡ some (after value context ofs result (continue ofs' result')))
      → output value (follow more ofs result r) ≡ some (after value context ofs result r)
  follow-output more ofs result (continue ofs' result') moves ih =
      let (forward, inside, wrote) = moves ofs' result' refl in ih ofs' result' forward inside
  follow-output more ofs result break moves ih = refl
  follow-output more ofs result (fail e) moves ih = refl

  expand_loop-output :
      (fuel ofs : ℕ) (result : Bytes)
      → ofs ≤ length value
      → length value < ofs + fuel
      → output value (expand_loop value context fuel ofs result)
        ≡ some (prepend result (reference context false ofs (drop ofs value)))
  unfolding expand_loop
  expand_loop-output zero ofs result le lt = absurd (omega arith)
  expand_loop-output (suc fuel) ofs result le lt = elim (Bool-cases (ltb ofs (length value))) [
    | inl more ↦
        rw (more, expand_loop)
          (follow-output (expand_loop value context fuel) ofs result
              (round value context ofs result) (round-Moves value context ofs result)
              (λ ofs' result' forward inside.
                expand_loop-output fuel ofs' result' inside (omega arith))
            ∙ ap some (round-after value context ofs result))
    | inr done ↦
        let nothing : drop ofs value ≡ [] = drop-all ofs value (ground arith) in
        rw (done, expand_loop, nothing) (unfold reference in refl)
  ]

  follow-Started :
      (more : ℕ → Bytes → Option Outcome) (ofs : ℕ) (result : Bytes) (r : Round)
      → (result ≡ [] → ofs ≡ 0)
      → Moves value context ofs r
      → ((ofs' : ℕ) (result' : Bytes) → result' ≢ [] → Started value (more ofs' result'))
      → Started value (follow more ofs result r)
  follow-Started more ofs result (continue ofs' result') start moves ih last e =
      let (forward, inside, wrote) = moves ofs' result' refl in ih ofs' result' (wrote full) last e
  follow-Started more ofs result break start moves ih ofs' e =
      let empty : result ≡ [] = cc in let here = start empty in ground arith
  follow-Started more ofs result (fail x) start moves ih ofs' e = cc

  expand_loop-Started :
      (fuel ofs : ℕ) (result : Bytes)
      → (result ≡ [] → ofs ≡ 0)
      → Started value (expand_loop value context fuel ofs result)
  unfolding expand_loop
  expand_loop-Started zero ofs result start ofs' e = cc
  expand_loop-Started (suc fuel) ofs result start last e =
      elim (Bool-cases (ltb ofs (length value))) [
        | inl more ↦
            follow-Started (expand_loop value context fuel) ofs result
              (round value context ofs result) start (round-Moves value context ofs result)
              (λ ofs' result' wrote.
                expand_loop-Started fuel ofs' result' (λ nil. absurd (wrote nil)))
              last (rw (more, expand_loop) at e)
        | inr done ↦
            let ends : ◌≡◌ {A = Option Outcome} (some (ok (ofs, result))) (some (ok (last, []))) =
              rw (done, expand_loop) at e in
            let empty : result ≡ [] = cc in let here = start empty in ground arith
      ]

-- The text that a result shows.
abbrev pub text : Result Cow ExpandError → Output
text (ok (borrowed s)) = ok s
text (ok (owned s)) = ok s
text (err e) = err e

some-ok : {A : Type 0} {a b : A} → ◌≡◌ {A = Option A} (some a) (some b) → a ≡ b
some-ok h = cc

finished-text :
    (value : Bytes) (o : Option Outcome) (t : Output)
    → Started value o
    → output value o ≡ some t
    → (r : Result Cow ExpandError) × (finished value o ≡ some r) × (text r ≡ t)
unfolding finished
finished-text value none t start h = cc
finished-text value (some (err e)) t start h = (err e, refl, cc)
finished-text value (some (ok (ofs, []))) t start h =
    let begin : ofs ≡ 0 = start ofs refl in (ok (borrowed value), refl, rw begin at (some-ok h))
finished-text value (some (ok (ofs, c ∷ result))) t start h =
    (ok (owned ((c ∷ result) ++ drop ofs value)), refl, cc)

module _ (value : Bytes) (context : Context) where
  follow-ends :
      (more : ℕ → Bytes → Option Outcome) (ofs : ℕ) (result : Bytes) (r : Round)
      → Moves value context ofs r
      → ((ofs' : ℕ) (result' : Bytes)
          → ofs < ofs'
          → ofs' ≤ length value
          → (o : Outcome) × (more ofs' result' ≡ some o))
      → (o : Outcome) × (follow more ofs result r ≡ some o)
  follow-ends more ofs result (continue ofs' result') moves ih =
      let (forward, inside, _) = moves ofs' result' refl in ih ofs' result' forward inside
  follow-ends more ofs result break moves ih = (ok (ofs, result), refl)
  follow-ends more ofs result (fail e) moves ih = (err e, refl)

  expand_loop_ends :
      (fuel ofs : ℕ) (result : Bytes)
      → ofs ≤ length value
      → length value < ofs + fuel
      → (o : Outcome) × (expand_loop value context fuel ofs result ≡ some o)
  unfolding expand_loop
  expand_loop_ends zero ofs result le lt = absurd (omega arith)
  expand_loop_ends (suc fuel) ofs result le lt = elim (Bool-cases (ltb ofs (length value))) [
    | inl more ↦
        rw (more, expand_loop)
          (follow-ends (expand_loop value context fuel) ofs result (round value context ofs result)
            (round-Moves value context ofs result)
            (λ ofs' result' forward inside.
              expand_loop_ends fuel ofs' result' inside (omega arith)))
    | inr done ↦ rw (done, expand_loop) ((ok (ofs, result), refl))
  ]

  finished_ends : (o : Outcome) → (r : Result Cow ExpandError) × (finished value (some o) ≡ some r)
  unfolding finished
  finished_ends (ok (ofs, result)) = (_, refl)
  finished_ends (err e) = (_, refl)

-- The `while` loop of `expand` ends on every text and for all variables, those included that stand
-- for the empty text: the rounds that `expand` has, one for each byte of the text and one more, are
-- enough for a text or an error.
pub expand_ends :
    (context : Context) (value : Bytes)
    → (r : Result Cow ExpandError) × (expand value context ≡ some r)
unfolding expand
expand_ends context [] = (ok (borrowed []), refl)
expand_ends context (c ∷ s) =
    let value = c ∷ s in
    let (o, ends) =
      expand_loop_ends value context (suc (length value)) 0 [] (omega arith) (omega arith) in
    rw ends (finished_ends value context o)

-- Where no variable stands for the empty text, `expand` ends on every text, and its output is the
-- reference's text or the reference's error with the same position.
pub expand-reference :
    (context : Context)
    → IsNonEmpty context
    → (value : Bytes)
    → (r : Result Cow ExpandError) × (expand value context ≡ some r)
      × (text r ≡ reference context false 0 value)
unfolding expand
expand-reference context full [] = (ok (borrowed []), refl, unfold reference in refl)
expand-reference context full (c ∷ s) =
    let value = c ∷ s in
    let fuel = suc (length value) in
    let shown = expand_loop-output value context full fuel 0 [] (omega arith) (omega arith) in
    finished-text value (expand_loop value context fuel 0 []) _
      (expand_loop-Started value context full fuel 0 [] (λ _. refl))
      (shown ∙ ap some (prepend-nil _))
