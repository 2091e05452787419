-- ===== src/Build.antt =====
-- crates/porkg-daemon/src/backend.rs and crates/porkg-daemon/src/frontend/api/v1/build.rs: a request
-- to build a package, from its hashes as text to the validated task. The file system is a
-- parameter that does not change while a request is validated. The answer's text, the derived
-- `Debug` of the task, is the task here.
pub mod Requests
pub mod Handler
pub mod Errors
pub mod Answer
mod Tests
use porkg.Base.{
  ℕ, Bool, true, false, List, [], ◌∷◌, ◌++◌, ◌==◌, if◌then◌else◌, Bytes, codes, Result, ok, err,
  and_then,
}
use porkg.Base32.{Encoding}
use porkg.Hashing.Supported.{SupportedHash, ParseError, display, from_str}
use porkg.Package.{BTreeMap, LockDefinition}

pub record BuildTask : Type 0 where
  pub name : Bytes
  pub hash : SupportedHash
  pub dependencies : BTreeMap Bytes SupportedHash
  pub build_dependencies : BTreeMap Bytes SupportedHash

pub record BuildRequest : Type 0 where
  pub name : Bytes
  pub hash : Bytes
  pub lock : LockDefinition

pub data StartError : Type 0 where
  invalid_hash : Bytes → StartError
  invalid_dependency_hash : Bytes → Bytes → StartError
  validation_error : Bytes → StartError

abbrev slash : ℕ
slash = b'/'

abbrev is_absolute : Bytes → Bool
is_absolute [] = false
is_absolute (c ∷ s) = c == slash

-- A separator goes behind text that does not end with one.
abbrev separated : Bytes → Bytes
separated [] = []
separated (c ∷ []) = if c == slash then c ∷ [] else c ∷ slash ∷ []
separated (c ∷ d ∷ s) = c ∷ separated (d ∷ s)

-- `Path::join`.
unfoldable pub join : Bytes → Bytes → Bytes
join base path = if is_absolute path then path else separated base ++ path

module _ {X : Type 0} (e : Encoding) (try_exists : Bytes → Result Bool X) (path : Bytes) where
  -- `Result::unwrap_or_default`.
  abbrev pub unwrap_or_default : Result Bool X → Bool
  unwrap_or_default (ok b) = b
  unwrap_or_default (err x) = false

  abbrev pub exists : Bytes → Bool
  exists p = unwrap_or_default (try_exists p)

  unfoldable pub hash_dir : SupportedHash → Bytes
  unfolding join
  hash_dir hash = join (join path (codes "pkg/by-hash/")) (display e hash)

  unfoldable pub src_dir : BuildTask → Bytes
  unfolding hash_dir
  src_dir task = join (hash_dir task.hash) (codes "src")

  unfoldable pub porkg_toml : BuildTask → Bytes
  unfolding src_dir
  porkg_toml task = join (src_dir task) (codes "porkg.toml")

  -- The two loops over dependencies; `kind` is how the message starts.
  unfoldable pub validate_all : Bytes → BTreeMap Bytes SupportedHash → Result (Unit {0}) Bytes
  validate_all kind [] = ok tt
  validate_all kind ((dep, hash) ∷ deps) =
      let rest = validate_all kind deps in
      if exists (hash_dir hash) then rest else err (kind ++ (dep ++ codes " not found"))

  -- `BuildTask::validate`.
  unfoldable pub validate : BuildTask → Result (Unit {0}) Bytes
  unfolding validate_all
  validate task =
      if exists (src_dir task)
      then if exists (porkg_toml task)
        then and_then (validate_all (codes "dependency ") task.dependencies)
            (λ _. validate_all (codes "build dependency ") task.build_dependencies)
        else err (codes "porkg.toml not found")
      else err (codes "source directory not found")

  abbrev pub with_dependency :
      Bytes
      → Bytes
      → Result SupportedHash ParseError
      → Result (BTreeMap Bytes SupportedHash) StartError
      → Result (BTreeMap Bytes SupportedHash) StartError
  with_dependency name hash (err x) rest = err (invalid_dependency_hash name hash)
  with_dependency name hash (ok v) (err x) = err x
  with_dependency name hash (ok v) (ok vs) = ok ((name, v) ∷ vs)

  -- The `map` and `try_collect` over dependencies; parsing keeps their keys, so their order.
  unfoldable pub parse_dependencies :
      BTreeMap Bytes Bytes → Result (BTreeMap Bytes SupportedHash) StartError
  unfolding from_str
  parse_dependencies [] = ok []
  parse_dependencies ((name, hash) ∷ deps) =
      with_dependency name hash (from_str e hash) (parse_dependencies deps)

  abbrev pub parsed_hash : Bytes → Result SupportedHash ParseError → Result SupportedHash StartError
  parsed_hash hash (ok v) = ok v
  parsed_hash hash (err x) = err (invalid_hash hash)

  abbrev pub validated : BuildTask → Result (Unit {0}) Bytes → Result BuildTask StartError
  validated task (ok _) = ok task
  validated task (err error) = err (validation_error error)

  -- The handler `post`.
  unfoldable pub post : BuildRequest → Result BuildTask StartError
  unfolding parse_dependencies validate from_str
  post req = and_then (parse_dependencies req.lock.dependencies) λ dependencies.
      and_then (parse_dependencies req.lock.build_dependencies) λ build_dependencies.
        and_then (parsed_hash req.hash (from_str e req.hash)) λ hash.
          let task : BuildTask = record {
            name = req.name;
            hash = hash;
            dependencies = dependencies;
            build_dependencies = build_dependencies;
          } in
          validated task (validate task)
