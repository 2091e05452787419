-- ===== src/Build/Requests.antt =====
-- Which requests `post` accepts.
use porkg.Base.{
  ◌≡◌, refl, ap, Bool, true, [], ◌∷◌, Bool-cases, inl, inr, Bytes, codes, Result, ok, err,
  and_then-ok, All, arith,
}
use porkg.Base32.{Encoding}
use porkg.Hashing.Supported.{SupportedHash, ParseError, from_str}
use porkg.Package.{BTreeMap}
use porkg.Build.{
  BuildTask, StartError, exists, hash_dir, src_dir, porkg_toml, validate_all, validate,
  with_dependency, parse_dependencies,
}

-- The same names in the same order, each text the text of the hash.
abbrev pub IsParsed : Encoding → BTreeMap Bytes Bytes → BTreeMap Bytes SupportedHash → Type 0
IsParsed e [] [] = Unit {0}
IsParsed e [] (v ∷ vs) = ⊥
IsParsed e (d ∷ ds) [] = ⊥
IsParsed e ((name, hash) ∷ ds) ((name', v) ∷ vs) =
    (name ≡ name') × (from_str e hash ≡ ok v) × IsParsed e ds vs

module _ {X : Type 0} (e : Encoding) (try_exists : Bytes → Result Bool X) (path : Bytes) where
  abbrev pub IsPresent : BTreeMap Bytes SupportedHash → Type 0
  IsPresent = All (λ d. exists e try_exists path (hash_dir e try_exists path d.1) ≡ true)

  validate_all_sound :
      (kind : Bytes) (deps : BTreeMap Bytes SupportedHash)
      → validate_all e try_exists path kind deps ≡ ok tt
      → IsPresent deps
  unfolding validate_all
  validate_all_sound kind [] h = tt
  validate_all_sound kind ((dep, hash) ∷ deps) h = ground (arith, validate_all_sound kind deps)

  validate_all_complete :
      (kind : Bytes) (deps : BTreeMap Bytes SupportedHash)
      → IsPresent deps
      → validate_all e try_exists path kind deps ≡ ok tt
  unfolding validate_all
  validate_all_complete kind [] h = refl
  validate_all_complete kind ((dep, hash) ∷ deps) (here, h) =
      rw here (validate_all_complete kind deps h)

  pub validate_sound :
      (task : BuildTask)
      → validate e try_exists path task ≡ ok tt
      → (exists e try_exists path (src_dir e try_exists path task) ≡ true)
        × (exists e try_exists path (porkg_toml e try_exists path task) ≡ true)
        × IsPresent task.dependencies
        × IsPresent task.build_dependencies
  unfolding validate
  validate_sound task h =
      elim (Bool-cases (exists e try_exists path (src_dir e try_exists path task))) [
        | inr missing ↦ absurd (let clash = rw (missing, validate) at h in cc)
        | inl src ↦
            elim (Bool-cases (exists e try_exists path (porkg_toml e try_exists path task))) [
              | inr missing ↦ absurd (let clash = rw (src, missing, validate) at h in cc)
              | inl toml ↦
                  let direct =
                    validate_all e try_exists path (codes "dependency ") task.dependencies in
                  let builds =
                    validate_all e try_exists path (codes "build dependency ")
                      task.build_dependencies in
                  let (_, deps, build) =
                    and_then-ok direct (λ _. builds) (rw (src, toml, validate) at h) in
                  (
                    src,
                    toml,
                    validate_all_sound (codes "dependency ") task.dependencies deps,
                    validate_all_sound (codes "build dependency ") task.build_dependencies build,
                  )
            ]
      ]

  pub validate_complete :
      (task : BuildTask)
      → exists e try_exists path (src_dir e try_exists path task) ≡ true
      → exists e try_exists path (porkg_toml e try_exists path task) ≡ true
      → IsPresent task.dependencies
      → IsPresent task.build_dependencies
      → validate e try_exists path task ≡ ok tt
  unfolding validate
  validate_complete task src toml deps build =
      rw
        (
          src,
          toml,
          validate_all_complete (codes "dependency ") task.dependencies deps,
          validate_all_complete (codes "build dependency ") task.build_dependencies build,
        )
        refl

  with_dependency-ok :
      (name hash : Bytes) (r : Result SupportedHash ParseError)
      (rest : Result (BTreeMap Bytes SupportedHash) StartError) (vs : BTreeMap Bytes SupportedHash)
      → with_dependency e try_exists path name hash r rest ≡ ok vs
      → (v : SupportedHash) × ((ws : BTreeMap Bytes SupportedHash) × (r ≡ ok v)
          × (rest ≡ ok ws)
          × ((name, v) ∷ ws ≡ vs))
  with_dependency-ok name hash (err x) rest vs h = cc
  with_dependency-ok name hash (ok v) (err x) vs h = cc
  with_dependency-ok name hash (ok v) (ok ws) vs h = (v, (ws, refl, refl, cc))

  pub parse_dependencies_sound :
      (deps : BTreeMap Bytes Bytes) (vs : BTreeMap Bytes SupportedHash)
      → parse_dependencies e try_exists path deps ≡ ok vs
      → IsParsed e deps vs
  unfolding parse_dependencies
  parse_dependencies_sound [] vs h = let none_left : [] ≡ vs = cc in rw (← none_left) tt
  parse_dependencies_sound ((name, hash) ∷ deps) vs h =
      let (v, (ws, here, rest, shape)) = with_dependency-ok name hash _ _ vs h in
      rw (← shape) (refl, here, parse_dependencies_sound deps ws rest)

  pub parse_dependencies_complete :
      (deps : BTreeMap Bytes Bytes) (vs : BTreeMap Bytes SupportedHash)
      → IsParsed e deps vs
      → parse_dependencies e try_exists path deps ≡ ok vs
  unfolding parse_dependencies
  parse_dependencies_complete [] [] h = refl
  parse_dependencies_complete [] (v ∷ vs) h = absurd h
  parse_dependencies_complete (d ∷ deps) [] h = absurd h
  parse_dependencies_complete ((name, hash) ∷ deps) ((name', v) ∷ vs) (same, here, h) =
      rw (here, parse_dependencies_complete deps vs h) (ap (λ n. ok ((n, v) ∷ vs)) same)
