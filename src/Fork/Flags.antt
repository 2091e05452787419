-- ===== src/Fork/Flags.antt =====
-- The flags that a forked test of crates/porkg-test/src/fork.rs hands on.
use porkg.Base.{
  if◌then◌else◌, ◌≡◌, ◌∙◌, ap, refl, sym, inl, inr, Bool-cases, Bool, true, false, List, [], ◌∷◌,
  ◌++◌, Option, none, some, Bytes, bytes_eq, bytes_eq_iff, ok, err,
}
use porkg.Fork.{
  FlagType, pass, drop, error, known_flag, dashes, Args, pushed, matched, get_args, child_args,
}

-- Flags that are known and handed on, each with its argument where it has one.
pub data Forwarded : List Bytes → Type 0 where
  nothing : Forwarded []
  alone :
      (arg : Bytes) (out : List Bytes)
      → known_flag arg ≡ some (pass false)
      → Forwarded out
      → Forwarded (arg ∷ out)
  with_argument :
      (arg p : Bytes) (out : List Bytes)
      → known_flag arg ≡ some (pass true)
      → Forwarded out
      → Forwarded (arg ∷ p ∷ out)

known-Separate :
    (arg : Bytes) (f : FlagType) → known_flag arg ≡ some f → bytes_eq arg dashes ≡ false
unfolding known_flag
known-Separate arg f known = elim (Bool-cases (bytes_eq arg dashes)) [
  | inl same ↦
      let is_dashes = (bytes_eq_iff arg dashes).0 same in
      let unknown : known_flag dashes ≡ none = refl in
      let known_too = ap known_flag (sym is_dashes) ∙ known in absurd (cc)
  | inr differs ↦ differs
]

pushed-ok :
    (arg : Bytes) (r : Args) (out : List Bytes)
    → pushed arg r ≡ ok out
    → (rest : List Bytes) × (r ≡ ok rest) × (out ≡ arg ∷ rest)
pushed-ok arg (ok args) out same = (args, refl, cc)
pushed-ok arg (err message) out same = absurd (cc)

matched-Forwarded :
    (o : Option FlagType) (arg : Bytes) (next : Option Bytes) (rest after : Args) (out : List Bytes)
    → known_flag arg ≡ o
    → ((args : List Bytes) → rest ≡ ok args → Forwarded args)
    → ((args : List Bytes) → after ≡ ok args → Forwarded args)
    → matched o arg next rest after ≡ ok out
    → Forwarded out
matched-Forwarded none arg next rest after out known h h' same = h out same
matched-Forwarded (some (pass false)) arg next rest after out known h h' same =
    let (args, done, split) = pushed-ok arg rest out same in
    rw split (alone arg args known (h args done))
matched-Forwarded (some (pass true)) arg none rest after out known h h' same = absurd (cc)
matched-Forwarded (some (pass true)) arg (some p) rest after out known h h' same =
    let (args, done, split) = pushed-ok arg (pushed p after) out same in
    let (args', done', split') = pushed-ok p after args done in
    rw (split, split') (with_argument arg p args' known (h' args' done'))
matched-Forwarded (some (drop false)) arg next rest after out known h h' same = h out same
matched-Forwarded (some (drop true)) arg none rest after out known h h' same = absurd (cc)
matched-Forwarded (some (drop true)) arg (some p) rest after out known h h' same = h' out same
matched-Forwarded (some (error message)) arg next rest after out known h h' same = absurd (cc)

nothing-ok : (args : List Bytes) → ◌≡◌ {A = Args} (ok []) (ok args) → Forwarded args
nothing-ok args same = let none_left : args ≡ [] = cc in rw none_left nothing

ended-Forwarded :
    (b : Bool) (r : Args) (out : List Bytes)
    → (r ≡ ok out → Forwarded out)
    → (if b then ok [] else r) ≡ ok out
    → Forwarded out
ended-Forwarded true r out h same = nothing-ok out same
ended-Forwarded false r out h same = h same

get_args-Forwarded : (args out : List Bytes) → get_args args ≡ ok out → Forwarded out
unfolding get_args
get_args-Forwarded [] out same = nothing-ok out same
get_args-Forwarded (arg ∷ []) out same =
    ended-Forwarded (bytes_eq arg dashes) _ out
      (matched-Forwarded (known_flag arg) arg none (ok []) (ok []) out refl nothing-ok nothing-ok)
      same
get_args-Forwarded (arg ∷ p ∷ args) out same =
    ended-Forwarded (bytes_eq arg dashes) _ out
      (matched-Forwarded (known_flag arg) arg (some p) (get_args (p ∷ args)) (get_args args) out
        refl (get_args-Forwarded (p ∷ args)) (get_args-Forwarded args))
      same

-- A name that is no flag is passed over.
get_args-unknown :
    (arg : Bytes) (args : List Bytes)
    → bytes_eq arg dashes ≡ false
    → known_flag arg ≡ none
    → get_args (arg ∷ args) ≡ get_args args
unfolding get_args
get_args-unknown arg [] other unknown = rw (other, unknown)
get_args-unknown arg (p ∷ args) other unknown = rw (other, unknown)

get_args-alone :
    (arg : Bytes) (args : List Bytes)
    → known_flag arg ≡ some (pass false)
    → get_args (arg ∷ args) ≡ pushed arg (get_args args)
unfolding get_args
get_args-alone arg [] known = rw (known-Separate arg (pass false) known, known)
get_args-alone arg (p ∷ args) known = rw (known-Separate arg (pass false) known, known)

get_args-with_argument :
    (arg p : Bytes) (args : List Bytes)
    → known_flag arg ≡ some (pass true)
    → get_args (arg ∷ p ∷ args) ≡ pushed arg (pushed p (get_args args))
unfolding get_args
get_args-with_argument arg p args known = rw (known-Separate arg (pass true) known, known)

-- Flags that are handed on are handed on once more.
get_args-append :
    (tail : List Bytes)
    → get_args tail ≡ ok []
    → {out : List Bytes} → Forwarded out
    → get_args (out ++ tail) ≡ ok out
get_args-append tail ends nothing = ends
get_args-append tail ends (alone arg out known f) =
    get_args-alone arg (out ++ tail) known ∙ ap (pushed arg) (get_args-append tail ends f)
get_args-append tail ends (with_argument arg p out known f) =
    get_args-with_argument arg p (out ++ tail) known
    ∙ ap (λ r. pushed arg (pushed p r)) (get_args-append tail ends f)

added-dropped : (path test : Bytes) → get_args (child_args [] path test) ≡ ok []
unfolding get_args child_args known_flag
added-dropped path test = refl

-- Whatever the arguments of a test process: where `get_args` does not panic it gives flags that are
-- known and to be handed on, with their arguments; and with the arguments that `run` gives to the new
-- process, `get_args` gives the same there, without any flag that `run` has added. The name of
-- that process is no known flag and not `--`.
pub get_args-Again :
    (args out : List Bytes) (path test exe : Bytes)
    → get_args args ≡ ok out
    → known_flag exe ≡ none
    → bytes_eq exe dashes ≡ false
    → Forwarded out × (get_args (exe ∷ child_args out path test) ≡ ok out)
unfolding child_args
get_args-Again args out path test exe done unknown other =
    let f = get_args-Forwarded args out done in
    (
      f,
      get_args-unknown exe (child_args out path test) other unknown
          ∙ get_args-append (child_args [] path test) (added-dropped path test) f,
    )
