-- ===== src/Expand/Rounds.antt =====
-- One round of the loop against the reference: what is written so far, and what the reference makes
-- of the rest, are together unchanged by a round.
use porkg.Base.{
  ℕ, suc, ◌+◌, ◌-◌, ◌≡◌, refl, sym, ap, inl, inr, Bool-cases, Option-cases, get_elem?,
  get_elem?-drop, ◌∙◌, true, false, [], ◌∷◌, ◌++◌, append_assoc, Option, none, some, Bytes, ok, err,
  length, take, drop, drop-drop, All-drop, slice, find, find-some, find-none, take-find, Lacks,
  arith,
}
use porkg.Expand.{
  Context, backslash, dollar_sign, close_brace, is_open_brace, escaped, Round, continue, break,
  fail, escape_to, name_to, brace_to, dollar_to, backslash_to, escape_round, name_round,
  dollar_round, round,
}
use porkg.Expand.Reference.{Output, prepend, plain, naming, variables, reference, named, replaced}
use porkg.Expand.Loop.{
  prepend-prepend, reference-plain, variables-dollar, reference-variables, variables_unclosed,
  variables-named, variables_sign, variables_text, variables_brace,
}

module _ (value : Bytes) (context : Context) where
  -- What the text comes to if the loop goes on from a round's result.
  abbrev pub after : ℕ → Bytes → Round → Output
  after ofs result (continue ofs' result') =
      prepend result' (reference context false ofs' (drop ofs' value))
  after ofs result break = ok (result ++ drop ofs value)
  after ofs result (fail e) = err e

  drop_at : (ofs k n : ℕ) → n ≡ ofs + k → drop n value ≡ drop k (drop ofs value)
  drop_at ofs k n e = rw e (drop-drop k ofs value)

  get_at : (ofs k n : ℕ) → n ≡ ofs + k → get_elem? value n ≡ get_elem? (drop k (drop ofs value)) 0
  get_at ofs k n e =
      rw (← drop_at ofs k n e, ← get_elem?-drop value n 0) (ap (get_elem? value) (omega arith))

  slice_at : (ofs k n : ℕ) → n ≡ ofs + k → slice value ofs n ≡ take k (drop ofs value)
  slice_at ofs k n e = let width : n - ofs ≡ k = omega arith in rw width

  reference-escape :
      (u : Bytes) (ofs : ℕ)
      → reference context true ofs u
        ≡ replaced ofs (escaped (get_elem? u 0)) (reference context false (ofs + 2) (drop 1 u))
  unfolding reference
  reference-escape [] ofs = refl
  reference-escape (c ∷ u) ofs = refl

  -- The reference at a text whose first backslash is known.
  pub reference_at_backslash :
      (p u : Bytes) (ofs : ℕ)
      → Lacks backslash p
      → reference context false ofs (p ++ backslash ∷ u)
        ≡ prepend p (
            replaced
              (ofs + length p)
              (escaped (get_elem? u 0))
              (reference context false (ofs + length p + 2) (drop 1 u)))
  reference_at_backslash p u ofs h =
      rw (reference-plain context p (backslash ∷ u) ofs h refl)
        (ap (prepend p) (unfold reference in reference-escape u (ofs + length p)))

  escape_to-after :
      (ofs start : ℕ) (result p u : Bytes) (o : Option ℕ)
      → drop (start + 2) value ≡ drop 1 u
      → after ofs result (escape_to start (result ++ p) o)
        ≡ prepend result
            (prepend p (replaced start o (reference context false (start + 2) (drop 1 u))))
  escape_to-after ofs start result p u none next = refl
  escape_to-after ofs start result p u (some c) next =
      rw next (simp (prepend-prepend, append_assoc))

  escape_round-after :
      (ofs : ℕ) (result : Bytes) (index : ℕ)
      → find backslash (drop ofs value) ≡ some index
      → after ofs result (escape_round value context ofs result index)
        ≡ prepend result (reference context false ofs (drop ofs value))
  unfolding escape_round
  escape_round-after ofs result index h =
      let rest = drop ofs value in
      let u = drop (suc index) rest in
      let (shape, lacks, size) = find-some backslash rest index h in
      let elem : get_elem? value (ofs + index + 1) ≡ get_elem? u 0 =
        get_at ofs (suc index) (ofs + index + 1) (omega arith) in
      let p : slice value ofs (ofs + index) ≡ take index rest =
        slice_at ofs index (ofs + index) (omega arith) in
      let next : drop (ofs + index + 2) value ≡ drop 1 u =
        drop_at ofs (suc index + 1) (ofs + index + 2) (omega arith)
        ∙ drop-drop 1 (suc index) rest in
      let spec =
        ap (reference context false ofs) shape
        ∙ reference_at_backslash (take index rest) u ofs lacks in
      rw (elem, p)
        (escape_to-after ofs (ofs + index) result (take index rest) u (escaped (get_elem? u 0)) next
          ∙ ap (prepend result) (sym (rw size at spec)))

  name_to-after :
      (ofs next : ℕ) (before : Bytes) (start : ℕ) (result p name x : Bytes) (o : Option Bytes)
      → drop next value ≡ x
      → Lacks backslash x
      → after ofs before (name_to start (result ++ p) name next o)
        ≡ prepend result (prepend p (named start name o (variables context plain next x)))
  name_to-after ofs next before start result p name x none e h = refl
  name_to-after ofs next before start result p name x (some v) e h =
      rw (e, reference-variables context x next h) (simp (prepend-prepend, append_assoc))

  -- `start` is behind an opening brace, and no backslash is ahead.
  brace_to-after :
      (ofs : ℕ) (before : Bytes) (start : ℕ) (result p : Bytes) (o : Option ℕ)
      → find close_brace (drop start value) ≡ o
      → Lacks backslash (drop start value)
      → after ofs before (brace_to value context start (result ++ p) o)
        ≡ prepend result (prepend p (variables context (naming start []) start (drop start value)))
  unfolding name_round
  brace_to-after ofs before start result p none h lacks =
      rw (variables_unclosed context (drop start value) start (find-none close_brace _ h))
  brace_to-after ofs before start result p (some end) h lacks =
      let w = drop start value in
      let x = drop (suc end) w in
      let (shape, no_brace, size) = find-some close_brace w end h in
      let name : slice value start (start + end) ≡ take end w =
        slice_at start end (start + end) (omega arith) in
      let next : drop (start + end + 1) value ≡ x =
        drop_at start (suc end) (start + end + 1) (omega arith) in
      let spec =
        ap (variables context (naming start []) start) shape
        ∙ variables-named context (take end w) x start no_brace in
      rw name (
        name_to-after ofs (start + end + 1) before start result p (take end w) x
          (context (take end w)) next (All-drop _ (suc end) w lacks)
        ∙ ap (λ o. prepend result (prepend p o)) (sym (rw size at spec)))

  dollar_round-after :
      (ofs : ℕ) (result : Bytes) (index : ℕ)
      → find dollar_sign (drop ofs value) ≡ some index
      → Lacks backslash (drop ofs value)
      → after ofs result (dollar_round value context ofs result index)
        ≡ prepend result (variables context plain ofs (drop ofs value))
  unfolding dollar_round
  dollar_round-after ofs result index h lacks =
      let rest = drop ofs value in
      let u = drop (suc index) rest in
      let start = ofs + index + 1 in
      let (shape, no_sign, size) = find-some dollar_sign rest index h in
      let at_start : drop start value ≡ u = drop_at ofs (suc index) start (omega arith) in
      let elem : get_elem? value start ≡ get_elem? u 0 =
        get_at ofs (suc index) start (omega arith) in
      let p : slice value ofs (ofs + index) ≡ take index rest =
        slice_at ofs index (ofs + index) (omega arith) in
      let spec = rw size at (
        ap (variables context plain ofs) shape
        ∙ variables_sign context (take index rest) u ofs no_sign) in
      elim (Bool-cases (is_open_brace (get_elem? u 0))) [
        | inl brace ↦
            let behind : drop (start + 1) value ≡ drop 1 u =
              drop_at ofs (suc index + 1) (start + 1) (omega arith)
              ∙ drop-drop 1 (suc index) rest in
            let clean : Lacks backslash (drop (start + 1) value) =
              rw behind (All-drop _ 1 u (All-drop _ (suc index) rest lacks)) in
            let named_text =
              spec ∙ ap (prepend (take index rest)) (variables_brace context u start brace) in
            rw (elem, brace, dollar_round)
              (rw p (
                brace_to-after ofs result (start + 1) result (take index rest) _ refl clean
                ∙ ap (prepend result) (rw behind (sym named_text))))
        | inr text ↦
            let copied : slice value ofs start ≡ take index rest ++ dollar_sign ∷ [] =
              slice_at ofs (suc index) start (omega arith) ∙ take-find dollar_sign rest index h in
            let plain_text =
              spec ∙ ap (prepend (take index rest)) (variables-dollar context u start text) in
            rw (elem, text, dollar_round)
              (rw
                (
                  at_start,
                  copied,
                  reference-variables context u start (All-drop _ (suc index) rest lacks),
                )
                (sym (prepend-prepend result _ _)
                  ∙ ap (prepend result)
                      (sym (plain_text ∙ prepend-prepend (take index rest) (dollar_sign ∷ []) _))))
      ]

  pub round-after :
      (ofs : ℕ) (result : Bytes)
      → after ofs result (round value context ofs result)
        ≡ prepend result (reference context false ofs (drop ofs value))
  unfolding round
  round-after ofs result = elim (Option-cases (find backslash (drop ofs value))) [
    | inr (index, escape) ↦ rw (escape, backslash_to) (escape_round-after ofs result index escape)
    | inl clean ↦
        let lacks = find-none backslash _ clean in
        rw (clean, backslash_to, reference-variables context _ ofs lacks)
          (elim (Option-cases (find dollar_sign (drop ofs value))) [
            | inr (index, sign) ↦
                rw (sign, dollar_to) (dollar_round-after ofs result index sign lacks)
            | inl text ↦
                rw (text, dollar_to, variables_text context _ ofs (find-none dollar_sign _ text))
          ])
  ]
