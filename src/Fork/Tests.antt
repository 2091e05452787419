-- ===== src/Fork/Tests.antt =====
-- The flags of two test processes, and two tests.
use porkg.Base.{◌≡◌, ◌≢◌, ◌↔◌, refl, arith, List, [], ◌∷◌, Bytes, codes, ok, err}
use porkg.Fork.{known_flag, get_args, child_args, without_crate, test_name}
use porkg.Fork.Flags.{Forwarded, get_args-Again}
use porkg.Fork.Names.{module_path, harness_name, asked_name, test_name_iff}

abbrev args : List Bytes
args =
    codes "target/it"
    ∷ codes "--skip"
    ∷ codes "--ignored"
    ∷ codes "--color"
    ∷ codes "--"
    ∷ codes "--bench"
    ∷ codes "--"
    ∷ codes "--ignored"
    ∷ []

abbrev flags : List Bytes
flags = codes "--color" ∷ codes "--" ∷ codes "--bench" ∷ []

get_args-flags : get_args args ≡ ok flags
unfolding get_args known_flag
get_args-flags = refl

cut_short : get_args (codes "it" ∷ codes "--color" ∷ []) ≡ err (codes "argument expected for true")
unfolding get_args known_flag
cut_short = refl

-- At the root of a crate no test has this name.
at_root : test_name (codes "it") (codes "works") ≡ codes "::works"
unfolding test_name without_crate
at_root = refl

test_name_iff_example :
    (test_name (module_path (codes "it") (codes "unit" ∷ [])) (codes "works")
      ≡ asked_name (codes "unit" ∷ []) (codes "works"))
    × ((test_name (module_path (codes "it") (codes "unit" ∷ [])) (codes "works")
          ≡ harness_name (codes "unit" ∷ []) (codes "works"))
        ↔ (codes "unit" ∷ [] ≢ []))
test_name_iff_example =
    test_name_iff (codes "it") (codes "unit" ∷ []) (codes "works")
      ((λ e. ground arith), ((λ e. ground arith), tt))

get_args-Again_example :
    Forwarded flags
    × (get_args (codes "target/it" ∷ child_args flags (codes "it::unit") (codes "works"))
        ≡ ok flags)
get_args-Again_example =
    get_args-Again args flags (codes "it::unit") (codes "works") (codes "target/it") get_args-flags
      (unfold known_flag in refl) refl
