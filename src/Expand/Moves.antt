-- ===== src/Expand/Moves.antt =====
-- Each round of the loop that goes on moves forward.
use mathlib.Core.List.{concat-ne-nil}
use porkg.Base.{
  ℕ, suc, ◌+◌, ◌-◌, ◌<◌, ◌≤◌, ◌≡◌, ◌≢◌, refl, ap, subst, inl, inr, Bool-cases, Option-cases,
  get_elem?, get_elem?-lt, [], ◌∷◌, ◌++◌, Option, none, some, Bytes, length, length-drop,
  length-take, length-append, take, drop, slice, find, find-some, arith,
}
use porkg.Expand.{
  Context, backslash, dollar_sign, close_brace, is_open_brace, escaped, Round, continue, escape_to,
  name_to, brace_to, dollar_to, backslash_to, escape_round, name_round, dollar_round, round,
}

-- A value for a variable is never the empty text.
abbrev pub IsNonEmpty : Context → Type 0
IsNonEmpty context = (name v : Bytes) → context name ≡ some v → v ≢ []

length_pos : (s : Bytes) → s ≢ [] → 0 < length s
length_pos [] h = absurd (h refl)
length_pos (c ∷ s) h = omega arith

append-ne-nil : (s t : Bytes) → t ≢ [] → s ++ t ≢ []
append-ne-nil [] t h e = h e
append-ne-nil (c ∷ s) t h e = cc

escaped-some : (o : Option ℕ) (c : ℕ) → escaped o ≡ some c → (d : ℕ) × (o ≡ some d)
escaped-some none c h = cc
escaped-some (some d) c h = (d, refl)

found-lt : (b : ℕ) (s : Bytes) (i : ℕ) → find b s ≡ some i → i < length s
found-lt b s i h =
    let (shape, lacks, size) = find-some b s i h in
    omega (arith, ap length shape, length-append (take i s) (b ∷ drop (suc i) s))

continued : (a b : ℕ) (s t : Bytes) → continue a s ≡ continue b t → (a ≡ b) × (s ≡ t)
continued a b s t h = (cc, cc)

module _ (value : Bytes) (context : Context) where
  -- A round that goes on has moved forward, within the text, and has written something if no
  -- variable stands for the empty text.
  abbrev pub Moves : ℕ → Round → Type 0
  Moves ofs r =
      (ofs' : ℕ) (result' : Bytes)
      → r ≡ continue ofs' result'
      → (ofs < ofs') × (ofs' ≤ length value) × (IsNonEmpty context → result' ≢ [])

  escape_to-Moves :
      (ofs start : ℕ) (text : Bytes) (o : Option ℕ)
      → ofs ≤ start
      → ((c : ℕ) → o ≡ some c → start + 2 ≤ length value)
      → Moves ofs (escape_to start text o)
  escape_to-Moves ofs start text none le fits ofs' result' h = cc
  escape_to-Moves ofs start text (some c) le fits ofs' result' h =
      let bound = fits c refl in
      let (here, same) = continued (start + 2) ofs' (text ++ c ∷ []) result' h in
      (omega arith, omega arith, λ _. subst (λ t. t ≢ []) same (concat-ne-nil c text))

  name_to-Moves :
      (ofs start next : ℕ) (result name : Bytes) (o : Option Bytes)
      → context name ≡ o
      → ofs < next
      → next ≤ length value
      → Moves ofs (name_to start result name next o)
  name_to-Moves ofs start next result name none e lt le ofs' result' h = cc
  name_to-Moves ofs start next result name (some v) e lt le ofs' result' h =
      let (here, same) = continued next ofs' (result ++ v) result' h in
      (
        omega arith,
        omega arith,
        λ full. subst (λ t. t ≢ []) same (append-ne-nil result v (full name v e)),
      )

  brace_to-Moves :
      (ofs start : ℕ) (result : Bytes) (o : Option ℕ)
      → find close_brace (drop start value) ≡ o
      → ofs ≤ start
      → Moves ofs (brace_to value context start result o)
  unfolding name_round
  brace_to-Moves ofs start result none e le ofs' result' h = cc
  brace_to-Moves ofs start result (some end) e le ofs' result' h =
      let bound = found-lt close_brace (drop start value) end e in
      let size = length-drop start value in
      name_to-Moves ofs start (start + end + 1) result (slice value start (start + end)) _ refl
        (omega arith) (omega arith) ofs' result' h

  dollar_round-Moves :
      (ofs : ℕ) (result : Bytes) (index : ℕ)
      → find dollar_sign (drop ofs value) ≡ some index
      → Moves ofs (dollar_round value context ofs result index)
  unfolding dollar_round
  dollar_round-Moves ofs result index e =
      elim (Bool-cases (is_open_brace (get_elem? value (ofs + index + 1)))) [
        | inl brace ↦
            rw (brace, dollar_round)
              (brace_to-Moves ofs (ofs + index + 1 + 1) _ _ refl (omega arith))
        | inr text ↦
            rw (text, dollar_round)
              λ ofs' result' h.
                let bound = found-lt dollar_sign (drop ofs value) index e in
                let size = length-drop ofs value in
                let copied : slice value ofs (ofs + index + 1) ≢ [] = λ nil. absurd (
                  omega
                    (arith, ap length nil, length-take (ofs + index + 1 - ofs) (drop ofs value))) in
                let wrote = append-ne-nil result (slice value ofs (ofs + index + 1)) copied in
                let (here, same) = continued (ofs + index + 1) ofs' _ result' h in
                (omega arith, omega arith, λ _. subst (λ t. t ≢ []) same wrote)
      ]

  pub round-Moves : (ofs : ℕ) (result : Bytes) → Moves ofs (round value context ofs result)
  unfolding round
  round-Moves ofs result = elim (Option-cases (find backslash (drop ofs value))) [
    | inr (index, escape) ↦
        rw (escape, backslash_to, escape_round)
          (escape_to-Moves ofs (ofs + index) _ _ (omega arith) λ c good.
            let (d, there) = escaped-some (get_elem? value (ofs + index + 1)) c good in
            omega (arith, get_elem?-lt value (ofs + index + 1) there))
    | inl clean ↦
        rw (clean, backslash_to)
          (elim (Option-cases (find dollar_sign (drop ofs value))) [
            | inr (index, sign) ↦ rw (sign, dollar_to) (dollar_round-Moves ofs result index sign)
            | inl text ↦ rw (text, dollar_to) λ ofs' result' h. cc
          ])
  ]
