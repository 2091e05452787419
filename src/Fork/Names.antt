-- ===== src/Fork/Names.antt =====
-- The name of the test that `run` of crates/porkg-test/src/fork.rs asks for.
use porkg.Base.{
  ◌≡◌, ◌≢◌, ◌↔◌, ◌∙◌, ap, refl, sym, List, [], ◌∷◌, ◌++◌, append_assoc, length, length-append,
  Bytes, codes, Lacks, arith,
}
use porkg.Fork.{colon, without_crate, test_name}

-- `module_path!()` in the module with these names in a crate.
abbrev pub module_path : Bytes → List Bytes → Bytes
module_path crate_name [] = crate_name
module_path crate_name (m ∷ ms) = crate_name ++ codes "::" ++ module_path m ms

-- The name that the test harness gives a test: its path without the crate.
abbrev pub harness_name : List Bytes → Bytes → Bytes
harness_name [] test = test
harness_name (m ∷ ms) test = m ++ codes "::" ++ harness_name ms test

without_crate-Lacks : (s : Bytes) → Lacks colon s → without_crate s ≡ []
unfolding without_crate
without_crate-Lacks [] h = refl
without_crate-Lacks (c ∷ []) h = refl
without_crate-Lacks (c ∷ d ∷ s) (hc, h) = ground (arith, without_crate-Lacks (d ∷ s) h)

without_crate-append : (s t : Bytes) → Lacks colon s → without_crate (s ++ codes "::" ++ t) ≡ t
unfolding without_crate
without_crate-append [] t h = refl
without_crate-append (c ∷ []) t (hc, h) = ground arith
without_crate-append (c ∷ d ∷ s) t (hc, h) = ground (arith, without_crate-append (d ∷ s) t h)

harness_name-module_path :
    (m : Bytes) (ms : List Bytes) (test : Bytes)
    → module_path m ms ++ codes "::" ++ test ≡ harness_name (m ∷ ms) test
harness_name-module_path m [] test = refl
harness_name-module_path m (n ∷ ms) test =
    append_assoc (m ++ codes "::" ++ module_path n ms) (codes "::") test
    ∙ append_assoc (m ++ codes "::") (module_path n ms) (codes "::" ++ test)
    ∙ ap (λ s. m ++ codes "::" ++ s)
        (sym (append_assoc (module_path n ms) (codes "::") test)
          ∙ harness_name-module_path n ms test)

-- The harness's name, but with two colons in front of the name of a test at the root.
abbrev pub asked_name : List Bytes → Bytes → Bytes
asked_name [] test = codes "::" ++ test
asked_name (m ∷ ms) test = harness_name (m ∷ ms) test

-- For a crate whose name has no colon: `run` asks for the harness's name of a test in some module of
-- the crate, and for `::` and the test's name for one at the root of it; so the name that it asks
-- for is the harness's exactly if the test is in some module.
pub test_name_iff :
    (crate_name : Bytes) (ms : List Bytes) (test : Bytes)
    → Lacks colon crate_name
    → (test_name (module_path crate_name ms) test ≡ asked_name ms test)
      × ((test_name (module_path crate_name ms) test ≡ harness_name ms test) ↔ (ms ≢ []))
unfolding test_name
test_name_iff crate_name [] test no_colon = (
  ap (λ s. s ++ codes "::" ++ test) (without_crate-Lacks crate_name no_colon),
  (
    λ same. absurd (
        let shorter = ap length same in
        omega (
          arith,
          length-append (without_crate crate_name) (codes "::"),
          length-append (without_crate crate_name ++ codes "::") test,
        )),
    λ nested. absurd (nested refl),
  ),
)
test_name_iff crate_name (m ∷ ms) test no_colon =
    let named : test_name (module_path crate_name (m ∷ ms)) test ≡ harness_name (m ∷ ms) test =
      ap (λ s. s ++ codes "::" ++ test)
        (without_crate-append crate_name (module_path m ms) no_colon)
      ∙ harness_name-module_path m ms test in
    (named, ((λ same. λ at_root. absurd (cc)), λ nested. named))
