-- ===== src/Build/Errors.antt =====
-- Which error the handler `post` reports.
use porkg.Base.{
  ◌≡◌, ◌⊎◌, inl, inr, refl, [], ◌∷◌, ◌++◌, Bytes, Bool, Result, ok, err, and_then-err, All,
  All-append, subst,
}
use porkg.Base32.{Encoding}
use porkg.Hashing.Supported.{SupportedHash, ParseError, from_str}
use porkg.Package.{BTreeMap}
use porkg.Build.{
  BuildTask, BuildRequest, StartError, invalid_hash, invalid_dependency_hash, validation_error,
  with_dependency, parse_dependencies, parsed_hash, validated, post,
}
use porkg.Build.Handler.{parsed_hash-ok}

module _ (e : Encoding) where
  abbrev pub IsRead : Bytes → Type 0
  IsRead hash = (v : SupportedHash) × (from_str e hash ≡ ok v)

  abbrev pub IsBad : Bytes → Type 0
  IsBad hash = (x : ParseError) × (from_str e hash ≡ err x)

  -- The first dependency whose hash does not parse.
  abbrev pub FirstBad : BTreeMap Bytes Bytes → Bytes → Bytes → Type 0
  FirstBad [] n h = ⊥
  FirstBad ((name, hash) ∷ deps) n h =
      ((n ≡ name) × (h ≡ hash) × IsBad hash) ⊎ (IsRead hash × FirstBad deps n h)

  abbrev pub Explains : BuildRequest → StartError → Type 0
  Explains req (invalid_dependency_hash n h) =
      FirstBad (req.lock.dependencies ++ req.lock.build_dependencies) n h
  Explains req (invalid_hash h) =
      (h ≡ req.hash)
      × IsBad req.hash
      × All (λ d. IsRead d.1) (req.lock.dependencies ++ req.lock.build_dependencies)
  Explains req (validation_error m) =
      IsRead req.hash × All (λ d. IsRead d.1) (req.lock.dependencies ++ req.lock.build_dependencies)

  FirstBad-append_left :
      (ds es : BTreeMap Bytes Bytes) (n h : Bytes) → FirstBad ds n h → FirstBad (ds ++ es) n h
  FirstBad-append_left [] es n h b = absurd b
  FirstBad-append_left (d ∷ ds) es n h (inl here) = inl here
  FirstBad-append_left (d ∷ ds) es n h (inr (read, b)) =
      inr (read, FirstBad-append_left ds es n h b)

  FirstBad-append_right :
      (ds es : BTreeMap Bytes Bytes) (n h : Bytes)
      → All (λ d. IsRead d.1) ds
      → FirstBad es n h
      → FirstBad (ds ++ es) n h
  FirstBad-append_right [] es n h _ b = b
  FirstBad-append_right (d ∷ ds) es n h (read, all) b =
      inr (read, FirstBad-append_right ds es n h all b)

module _ {X : Type 0} (e : Encoding) (try_exists : Bytes → Result Bool X) (path : Bytes) where
  with_dependency-err :
      (name hash : Bytes) (r : Result SupportedHash ParseError)
      (rest : Result (BTreeMap Bytes SupportedHash) StartError) (x : StartError)
      → with_dependency e try_exists path name hash r rest ≡ err x
      → ((y : ParseError) × (r ≡ err y) × (invalid_dependency_hash name hash ≡ x))
        ⊎ ((v : SupportedHash) × (r ≡ ok v) × (rest ≡ err x))
  with_dependency-err name hash (err y) rest x h = inl (y, refl, cc)
  with_dependency-err name hash (ok v) (err y) x h = inr (v, refl, cc)
  with_dependency-err name hash (ok v) (ok vs) x h = cc

  abbrev IsFault : BTreeMap Bytes Bytes → StartError → Type 0
  IsFault deps x =
      (n : Bytes) × ((h : Bytes) × (invalid_dependency_hash n h ≡ x) × FirstBad e deps n h)

  parse_dependencies-err :
      (deps : BTreeMap Bytes Bytes) (x : StartError)
      → parse_dependencies e try_exists path deps ≡ err x
      → IsFault deps x
  unfolding parse_dependencies
  parse_dependencies-err [] x h = cc
  parse_dependencies-err ((name, hash) ∷ deps) x h =
      elim (with_dependency-err name hash (from_str e hash)
        (parse_dependencies e try_exists path deps) x h) [
          | inl (y, bad, same) ↦ (name, (hash, same, inl (refl, refl, (y, bad))))
          | inr (v, read, rest) ↦
              let (n, (t, same, later)) = parse_dependencies-err deps x rest in
              (n, (t, same, inr ((v, read), later)))
        ]

  with_dependency-ok :
      (name hash : Bytes) (r : Result SupportedHash ParseError)
      (rest : Result (BTreeMap Bytes SupportedHash) StartError) (vs : BTreeMap Bytes SupportedHash)
      → with_dependency e try_exists path name hash r rest ≡ ok vs
      → ((v : SupportedHash) × (r ≡ ok v)) × ((ws : BTreeMap Bytes SupportedHash) × (rest ≡ ok ws))
  with_dependency-ok name hash (err x) rest vs h = cc
  with_dependency-ok name hash (ok v) (err x) vs h = cc
  with_dependency-ok name hash (ok v) (ok ws) vs h = ((v, refl), (ws, refl))

  parse_dependencies-IsRead :
      (deps : BTreeMap Bytes Bytes) (vs : BTreeMap Bytes SupportedHash)
      → parse_dependencies e try_exists path deps ≡ ok vs
      → All (λ d. IsRead e d.1) deps
  unfolding parse_dependencies
  parse_dependencies-IsRead [] vs h = tt
  parse_dependencies-IsRead ((name, hash) ∷ deps) vs h =
      let (here, (ws, rest)) =
        with_dependency-ok name hash (from_str e hash) (parse_dependencies e try_exists path deps)
          vs h in
      (here, parse_dependencies-IsRead deps ws rest)

  parsed_hash-err :
      (hash : Bytes) (r : Result SupportedHash ParseError) (x : StartError)
      → parsed_hash e try_exists path hash r ≡ err x
      → (y : ParseError) × (r ≡ err y) × (invalid_hash hash ≡ x)
  parsed_hash-err hash (ok v) x h = cc
  parsed_hash-err hash (err y) x h = (y, refl, cc)

  validated-err :
      (task : BuildTask) (r : Result (Unit {0}) Bytes) (x : StartError)
      → validated e try_exists path task r ≡ err x
      → (m : Bytes) × (validation_error m ≡ x)
  validated-err task (ok _) x h = cc
  validated-err task (err m) x h = (m, cc)

  -- A refused request: the error names the first of the dependencies and build dependencies whose
  -- hash does not parse; or all of those parse and it is the request's own hash that does not; or
  -- all hashes parse and the validation failed.
  pub post-Explains :
      (req : BuildRequest) (x : StartError) → post e try_exists path req ≡ err x → Explains e req x
  unfolding post
  post-Explains req x h =
      let deps = req.lock.dependencies in
      let builds = req.lock.build_dependencies in
      elim (and_then-err (parse_dependencies e try_exists path deps) _ h) [
        | inl bad ↦
            let (n, (t, same, first)) = parse_dependencies-err deps x bad in
            subst (Explains e req) same (FirstBad-append_left e deps builds n t first)
        | inr (vs, good, h1) ↦
            let read = parse_dependencies-IsRead deps vs good in
            elim (and_then-err (parse_dependencies e try_exists path builds) _ h1) [
              | inl bad ↦
                  let (n, (t, same, first)) = parse_dependencies-err builds x bad in
                  subst (Explains e req) same (FirstBad-append_right e deps builds n t read first)
              | inr (ws, good', h2) ↦
                  let all =
                    All-append (λ d. IsRead e d.1) deps builds read
                      (parse_dependencies-IsRead builds ws good') in
                  elim (and_then-err (parsed_hash e try_exists path req.hash (from_str e req.hash))
                    _ h2) [
                      | inl bad ↦
                          let (y, wrong, same) =
                            parsed_hash-err req.hash (from_str e req.hash) x bad in
                          subst (Explains e req) same (refl, (y, wrong), all)
                      | inr (v, hash, h3) ↦
                          let (m, same) = validated-err _ _ x h3 in
                          subst (Explains e req) same
                            ((v, parsed_hash-ok e try_exists path req.hash _ v hash), all)
                    ]
            ]
      ]
