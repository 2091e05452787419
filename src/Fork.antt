-- ===== src/Fork.antt =====
-- crates/porkg-test/src/fork.rs: a test that runs itself again in a process of its own. A panic is
-- an `err` with its message, and the processes are not modelled.
pub mod Flags
pub mod Names
pub mod Macro
mod Tests
use porkg.Base.{
  ℕ, Bool, true, false, List, [], ◌∷◌, ◌++◌, ◌==◌, ◌&&◌, Option, none, some, if◌then◌else◌, Bytes,
  codes, bytes_eq, Result, ok, err,
}

pub data FlagType : Type 0 where
  pass : Bool → FlagType
  drop : Bool → FlagType
  error : Bytes → FlagType

abbrev pub known_flags : List (Bytes × FlagType)
known_flags =
    (codes "--bench", pass false)
    ∷ (codes "--color", pass true)
    ∷ (codes "--ensure-time", drop false)
    ∷ (codes "--exact", drop false)
    ∷ (codes "--exclude-should-panic", pass false)
    ∷ (codes "--force-run-in-process", pass false)
    ∷ (codes "--format", drop true)
    ∷ (codes "--help", error (codes "Tests run but --help passed to process?"))
    ∷ (codes "--ignored", pass false)
    ∷ (codes "--include-ignored", pass false)
    ∷ (codes "--list", error (codes "Tests run but --list passed to process?"))
    ∷ (codes "--logfile", drop true)
    ∷ (codes "--nocapture", drop false)
    ∷ (codes "--quiet", drop false)
    ∷ (codes "--report-time", drop false)
    ∷ (codes "--show-output", pass false)
    ∷ (codes "--skip", drop true)
    ∷ (codes "--test", pass false)
    ∷ (codes "--test-threads", drop true)
    ∷ (codes "-Z", pass true)
    ∷ (codes "-h", error (codes "Tests run but -h passed to process?"))
    ∷ (codes "-q", drop false)
    ∷ []

-- The first entry of the table with this key.
abbrev pub first_flag : List (Bytes × FlagType) → Bytes → Option FlagType
first_flag [] arg = none
first_flag ((k, v) ∷ flags) arg = if bytes_eq k arg then some v else first_flag flags arg

unfoldable pub known_flag : Bytes → Option FlagType
known_flag arg = first_flag known_flags arg

abbrev pub dashes : Bytes
dashes = codes "--"

abbrev pub Args : Type 0
Args = Result (List Bytes) Bytes

abbrev pub pushed : Bytes → Args → Args
pushed arg (ok args) = ok (arg ∷ args)
pushed arg (err panic) = err panic

-- The message shows the flag's Boolean.
abbrev pub expected : Args
expected = err (codes "argument expected for true")

-- The `match`, given the argument that is next, what comes of the rest, and what comes of the rest
-- but for that one.
abbrev pub matched : Option FlagType → Bytes → Option Bytes → Args → Args → Args
matched none arg next rest after = rest
matched (some (pass false)) arg next rest after = pushed arg rest
matched (some (pass true)) arg none rest after = expected
matched (some (pass true)) arg (some p) rest after = pushed arg (pushed p after)
matched (some (drop false)) arg next rest after = rest
matched (some (drop true)) arg none rest after = expected
matched (some (drop true)) arg (some p) rest after = after
matched (some (error message)) arg next rest after = err message

-- On the arguments of the process, its name first.
unfoldable pub get_args : List Bytes → Args
get_args [] = ok []
get_args (arg ∷ []) =
    if bytes_eq arg dashes then ok [] else matched (known_flag arg) arg none (ok []) (ok [])
get_args (arg ∷ p ∷ args) =
    let rest = get_args (p ∷ args) in
    let after = get_args args in
    if bytes_eq arg dashes then ok [] else matched (known_flag arg) arg (some p) rest after

abbrev pub colon : ℕ
colon = b':'

-- What follows the first `::`, or nothing.
unfoldable pub without_crate : Bytes → Bytes
without_crate [] = []
without_crate (c ∷ []) = []
without_crate (c ∷ d ∷ s) =
    let rest = without_crate (d ∷ s) in if (c == colon) && (d == colon) then s else rest

-- `{module}::{test}`, from `module_path!()`.
unfoldable pub test_name : Bytes → Bytes → Bytes
unfolding without_crate
test_name path test = without_crate path ++ codes "::" ++ test

-- The arguments of the new process, its name left out.
unfoldable pub child_args : List Bytes → Bytes → Bytes → List Bytes
unfolding test_name
child_args args path test =
    args
    ++ codes "--quiet"
      ∷ codes "--test-threads"
      ∷ codes "1"
      ∷ codes "--nocapture"
      ∷ codes "--exact"
      ∷ codes "--"
      ∷ test_name path test
      ∷ []
