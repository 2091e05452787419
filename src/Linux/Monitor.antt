-- ===== src/Linux/Monitor.antt =====
-- Programs of crates/porkg-linux under a monitor: a state that changes with each system call and its
-- answer, and a rule on which calls are allowed in which state.
use porkg.Base.{
  ℕ, ◌≡◌, refl, sym, ap, ◌∙◌, subst, List, [], ◌∷◌, ◌++◌, append_assoc, append-nil, Result, ok, err,
}
use porkg.Linux.{Kernel, Call, Errno, Fd, close, Run, Action, resume, wrapped, system_call, closed}

module _ (kernel : Kernel) where
  open kernel use {World, perform}

  -- The world after these calls, one after the other.
  abbrev pub performed : List Call → World → World
  performed [] w = w
  performed (c ∷ cs) w = performed cs (perform c w).1

  performed-append :
      (xs ys : List Call) (w : World) → performed (xs ++ ys) w ≡ performed ys (performed xs w)
  performed-append [] ys w = refl
  performed-append (x ∷ xs) ys w = performed-append xs ys (perform x w).1

  module _ (S : Type 0) (step : S → Call → Result ℕ Errno → S) (IsAllowed : S → Call → Type 0) where
    -- The monitor's state after the calls, with the answers that the kernel gives them.
    abbrev pub monitored : S → World → List Call → S
    monitored m w [] = m
    monitored m w (c ∷ cs) = monitored (step m c (perform c w).0) (perform c w).1 cs

    -- Each call is allowed in the state in which it is made.
    abbrev pub Follows : S → World → List Call → Type 0
    Follows m w [] = Unit {0}
    Follows m w (c ∷ cs) = IsAllowed m c × Follows (step m c (perform c w).0) (perform c w).1 cs

    monitored-append :
        (m : S) (w : World) (xs ys : List Call)
        → monitored m w (xs ++ ys) ≡ monitored (monitored m w xs) (performed xs w) ys
    monitored-append m w [] ys = refl
    monitored-append m w (x ∷ xs) ys =
        monitored-append (step m x (perform x w).0) (perform x w).1 xs ys

    append-Follows :
        (m : S) (w : World) (xs ys : List Call)
        → Follows m w xs
        → Follows (monitored m w xs) (performed xs w) ys
        → Follows m w (xs ++ ys)
    append-Follows m w [] ys _ h = h
    append-Follows m w (x ∷ xs) ys (here, g) h =
        (here, append-Follows (step m x (perform x w).0) (perform x w).1 xs ys g h)

    -- What is known of the state if the program succeeds.
    abbrev pub Post : {A E : Type 0} → (A → S → Type 0) → Result A E → S → Type 0
    Post P (ok a) m = P a m
    Post P (err e) m = Unit {0}

    -- The calls that a program has added to those made: they led to its world, each was allowed, and
    -- a success leaves a state with `P`.
    abbrev pub Adds :
        {A E : Type 0} → (A → S → Type 0) → S → Run kernel → Result A E × Run kernel → Type 0
    Adds P m s (r, s') =
        (added : List Call) × (s'.1 ≡ s.1 ++ added)
        × (s'.0 ≡ performed added s.0)
        × Follows m s.0 added
        × Post P r (monitored m s.0 added)

    pub done-Adds :
        {A E : Type 0} (P : A → S → Type 0) (m : S) (s : Run kernel) (r : Result A E)
        → Post P r m
        → Adds P m s (r, s)
    done-Adds P m s r h = ([], sym (append-nil s.1), refl, tt, h)

    pub call-Adds :
        (P : ℕ → S → Type 0) (m : S) (s : Run kernel) (c : Call)
        → IsAllowed m c
        → ((n : ℕ) → P n (step m c (ok n)))
        → Adds P m s (system_call kernel c s)
    call-Adds P m s c allowed h = (c ∷ [], refl, refl, (allowed, tt), answered (perform c s.0).0)
      where
        answered : (r : Result ℕ Errno) → Post P r (step m c r)
        answered (ok n) = h n
        answered (err e) = tt

    pub wrapped-Adds :
        {A E F : Type 0} (P : A → S → Type 0) (f : E → F) (m : S) (s : Run kernel)
        (p : Result A E × Run kernel)
        → Adds P m s p
        → Adds P m s (wrapped kernel f p)
    wrapped-Adds P f m s (ok a, s1) h = h
    wrapped-Adds P f m s (err e, s1) h = h

    joined-Adds :
        {A E : Type 0} (Q : A → S → Type 0) (m : S) (s s1 : Run kernel) (added : List Call)
        (p : Result A E × Run kernel)
        → s1.1 ≡ s.1 ++ added
        → s1.0 ≡ performed added s.0
        → Follows m s.0 added
        → Adds Q (monitored m s.0 added) s1 p
        → Adds Q m s p
    joined-Adds Q m s s1 added (r, s2) made world follows (more, made', world', follows', post) =
        let m1 = monitored m s.0 added in
        (
          added ++ more,
          made' ∙ ap (λ cs. cs ++ more) made ∙ append_assoc s.1 added more,
          world' ∙ ap (performed more) world ∙ sym (performed-append added more s.0),
          append-Follows m s.0 added more follows (subst (λ w. Follows m1 w more) world follows'),
          subst (Post Q r) (sym (monitored-append m s.0 added more))
              (subst (λ w. Post Q r (monitored m1 w more)) world post),
        )

    -- One program after another, joined by the state between them.
    pub resume-Adds :
        {A B E : Type 0} (P : A → S → Type 0) (Q : B → S → Type 0) (m : S) (s : Run kernel)
        (p : Result A E × Run kernel) (next : A → Action kernel B E)
        → Adds P m s p
        → ((a : A) (m' : S) → P a m' → Adds Q m' p.1 (next a p.1))
        → Adds Q m s (resume kernel p next)
    resume-Adds P Q m s (err e, s1) next (added, made, world, follows, _) rest =
        (added, made, world, follows, tt)
    resume-Adds P Q m s (ok a, s1) next (added, made, world, follows, post) rest =
        joined-Adds Q m s s1 added (next a s1) made world follows
          (rest a (monitored m s.0 added) post)

    -- The owner of a descriptor is dropped at the end.
    pub closed-Adds :
        {A E : Type 0} (P Q : A → S → Type 0) (m : S) (s : Run kernel) (fd : Fd)
        (p : Result A E × Run kernel)
        → ((m' : S) → IsAllowed m' (close fd))
        → ((a : A) (m' : S) (r : Result ℕ Errno) → P a m' → Q a (step m' (close fd) r))
        → Adds P m s p
        → Adds Q m s (closed kernel fd p)
    closed-Adds {A = A} {E = E} P Q m s fd (r, s1) allowed keeps
          (added, made, world, follows, post) =
        joined-Adds Q m s s1 added _ made world follows (
          close fd ∷ [],
          refl,
          refl,
          (allowed (monitored m s.0 added), tt),
          after r (perform (close fd) s1.0).0 post,
        )
      where
        after :
            (r : Result A E) (x : Result ℕ Errno)
            → Post P r (monitored m s.0 added)
            → Post Q r (step (monitored m s.0 added) (close fd) x)
        after (ok a) x h = keeps a (monitored m s.0 added) x h
        after (err e) x h = tt
