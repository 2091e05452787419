-- ===== src/Linux/Script.antt =====
-- A list of calls, made one after the other until one fails, and what such a run has done.
use porkg.Base.{
  ℕ, ◌≡◌, refl, sym, ap, ◌∙◌, List, [], ◌∷◌, ◌++◌, append_assoc, append-nil, Result, ok, err,
  length, take, take-length-append, take_all,
}
use porkg.Linux.{
  Kernel, Call, Errno, Run, Action, done, and_then, resume, wrapped, mapping_err, system_call,
  ignore,
}

module _ (kernel : Kernel) where
  open kernel use {World, perform}

  unfoldable pub script : {E : Type 0} → (Errno → E) → List Call → Action kernel (Unit {0}) E
  script wrap [] = done kernel tt
  script wrap (c ∷ cs) =
      and_then kernel (mapping_err kernel wrap (system_call kernel c)) (λ _. script wrap cs)

  -- The calls succeed one after the other, from world to world.
  abbrev pub Succeed : List Call → World → World → Type 0
  Succeed [] w w' = w ≡ w'
  Succeed (c ∷ cs) w w' = (n : ℕ) × ((w1 : World) × (perform c w ≡ (ok n, w1)) × Succeed cs w1 w')

  -- All the calls were made and succeeded; or those in front of one that failed, which was the last
  -- call made, and whose error is the result.
  abbrev pub Ran :
      {E : Type 0}
      → (Errno → E)
      → List Call
      → Run kernel
      → Result (Unit {0}) E × Run kernel
      → Type 0
  Ran wrap cs (w, calls) (ok _, (w', calls')) = Succeed cs w w' × (calls' ≡ calls ++ cs)
  Ran wrap cs (w, calls) (err x, (w', calls')) =
      (before : List Call) × ((c : Call) × ((after : List Call) × ((w1 : World) × ((e : Errno) × (cs
                ≡ before ++ c ∷ after)
              × Succeed before w w1
              × (perform c w1 ≡ (err e, w'))
              × (calls' ≡ calls ++ (before ++ c ∷ []))
              × (x ≡ wrap e)))))

  Ran-cons :
      {E : Type 0} (wrap : Errno → E) (c : Call) (cs : List Call) (w w1 : World) (n : ℕ)
      (calls : List Call) (r : Result (Unit {0}) E) (s : Run kernel)
      → perform c w ≡ (ok n, w1)
      → Ran wrap cs (w1, calls ++ c ∷ []) (r, s)
      → Ran wrap (c ∷ cs) (w, calls) (r, s)
  Ran-cons wrap c cs w w1 n calls (ok _) s first (rest, made) =
      ((n, (w1, first, rest)), made ∙ append_assoc calls (c ∷ []) cs)
  Ran-cons wrap c cs w w1 n calls (err x) s first
        (before, (d, (after, (w2, (e, split, rest, fails, made, same))))) =
      (
        c ∷ before,
        (
          d,
          (
            after,
            (
              w2,
              (
                e,
                ap (◌∷◌ c) split,
                (n, (w1, first, rest)),
                fails,
                made ∙ append_assoc calls (c ∷ []) (before ++ d ∷ []),
                same,
              ),
            ),
          ),
        ),
      )

  called-Ran :
      {E : Type 0} (wrap : Errno → E) (c : Call) (cs : List Call) (w w1 : World) (calls : List Call)
      (r : Result ℕ Errno)
      → perform c w ≡ (r, w1)
      → ((s : Run kernel) → Ran wrap cs s (script wrap cs s))
      → Ran wrap
          (c ∷ cs)
          (w, calls)
          (resume kernel (wrapped kernel wrap (r, (w1, calls ++ c ∷ []))) (λ _. script wrap cs))
  called-Ran wrap c cs w w1 calls (err e) h rest =
      ([], (c, (cs, (w, (e, refl, refl, h, refl, refl)))))
  called-Ran wrap c cs w w1 calls (ok n) h rest =
      let r = script wrap cs (w1, calls ++ c ∷ []) in
      Ran-cons wrap c cs w w1 n calls r.0 r.1 h (rest (w1, calls ++ c ∷ []))

  -- A list of calls stops at the first that fails, with its error, and has made all before it.
  pub script-Ran :
      {E : Type 0} (wrap : Errno → E) (cs : List Call) (s : Run kernel)
      → Ran wrap cs s (script wrap cs s)
  unfolding script
  script-Ran wrap [] (w, calls) = (refl, sym (append-nil calls))
  script-Ran wrap (c ∷ cs) (w, calls) =
      called-Ran wrap c cs w (perform c w).1 calls (perform c w).0 refl (script-Ran wrap cs)

  -- However a list of calls ends, the calls made are its first few.
  pub Ran-take :
      {E : Type 0} (wrap : Errno → E) (cs : List Call) (s : Run kernel) (r : Result (Unit {0}) E)
      (s' : Run kernel)
      → Ran wrap cs s (r, s')
      → (k : ℕ) × (s'.1 ≡ s.1 ++ take k cs)
  Ran-take wrap cs s (ok _) s' (all, made) = (length cs, made ∙ ap (◌++◌ s.1) (sym (take_all cs)))
  Ran-take wrap cs s (err x) s' (before, (c, (after, (w1, (e, split, _, _, made, _))))) = (
    length (before ++ c ∷ []),
    made
        ∙ ap (◌++◌ s.1) (
            sym (take-length-append (before ++ c ∷ []) after)
            ∙ ap (take (length (before ++ c ∷ [])))
                (append_assoc before (c ∷ []) after ∙ sym split)),
  )

  resume_assoc :
      {A B C E : Type 0} (p : Result A E × Run kernel) (f : A → Action kernel B E)
      (g : B → Action kernel C E)
      → resume kernel (resume kernel p f) g ≡ resume kernel p (λ a s. resume kernel (f a s) g)
  resume_assoc (ok a, s) f g = refl
  resume_assoc (err e, s) f g = refl

  -- A call whose answer is not used, in front of a list of calls.
  call_then :
      {E : Type 0} (wrap : Errno → E) (c : Call) (cs : List Call)
      → and_then kernel
          (ignore kernel (mapping_err kernel wrap (system_call kernel c)))
          (λ _. script wrap cs)
        ≡ script wrap (c ∷ cs)
  unfolding script
  call_then wrap c cs i s =
      resume_assoc (mapping_err kernel wrap (system_call kernel c) s) (λ _. done kernel tt)
        (λ _. script wrap cs) i

  pub call-script :
      {E : Type 0} (wrap : Errno → E) (c : Call) (cs : List Call) (m : Action kernel (Unit {0}) E)
      → m ≡ script wrap cs
      → and_then kernel (ignore kernel (mapping_err kernel wrap (system_call kernel c))) (λ _. m)
        ≡ script wrap (c ∷ cs)
  call-script wrap c cs m h =
      ap
        (λ n.
          and_then kernel (ignore kernel (mapping_err kernel wrap (system_call kernel c))) (λ _. n))
        h
      ∙ call_then wrap c cs
