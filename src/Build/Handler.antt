-- ===== src/Build/Handler.antt =====
-- Which requests the handler `post` accepts, and with which task.
use porkg.Base.{◌≡◌, ◌↔◌, refl, subst, Bool, true, Bytes, Result, ok, err, and_then-ok}
use porkg.Base32.{Encoding}
use porkg.Hashing.Supported.{SupportedHash, ParseError, from_str}
use porkg.Build.{
  BuildTask, BuildRequest, exists, src_dir, porkg_toml, validate, parse_dependencies, parsed_hash,
  validated, post,
}
use porkg.Build.Requests.{
  IsParsed, IsPresent, validate_sound, validate_complete, parse_dependencies_sound,
  parse_dependencies_complete,
}

module _ {X : Type 0} (e : Encoding) (try_exists : Bytes → Result Bool X) (path : Bytes) where
  -- What a task must be for a request: the request with its hashes read, and all of it on disk.
  pub record IsStartable (req : BuildRequest) (task : BuildTask) : Type 0 where
    pub same_name : task.name ≡ req.name
    pub read_hash : from_str e req.hash ≡ ok task.hash
    pub read_dependencies : IsParsed e req.lock.dependencies task.dependencies
    pub read_build_dependencies : IsParsed e req.lock.build_dependencies task.build_dependencies
    pub has_source : exists e try_exists path (src_dir e try_exists path task) ≡ true
    pub has_porkg_toml : exists e try_exists path (porkg_toml e try_exists path task) ≡ true
    pub has_dependencies : IsPresent e try_exists path task.dependencies
    pub has_build_dependencies : IsPresent e try_exists path task.build_dependencies

  validated-ok :
      (t task : BuildTask) (r : Result (Unit {0}) Bytes)
      → validated e try_exists path t r ≡ ok task
      → (r ≡ ok tt) × (t ≡ task)
  validated-ok t task (ok _) h = (refl, cc)
  validated-ok t task (err x) h = cc

  pub parsed_hash-ok :
      (hash : Bytes) (r : Result SupportedHash ParseError) (v : SupportedHash)
      → parsed_hash e try_exists path hash r ≡ ok v
      → r ≡ ok v
  parsed_hash-ok hash (ok w) v h = cc
  parsed_hash-ok hash (err x) v h = cc

  post_sound :
      (req : BuildRequest) (task : BuildTask)
      → post e try_exists path req ≡ ok task
      → IsStartable req task
  unfolding post
  post_sound req task h =
      let (deps, read_deps, h1) =
        and_then-ok (parse_dependencies e try_exists path req.lock.dependencies) _ h in
      let (builds, read_builds, h2) =
        and_then-ok (parse_dependencies e try_exists path req.lock.build_dependencies) _ h1 in
      let (hash, read, h3) =
        and_then-ok (parsed_hash e try_exists path req.hash (from_str e req.hash)) _ h2 in
      let t : BuildTask = record {
        name = req.name;
        hash = hash;
        dependencies = deps;
        build_dependencies = builds;
      } in
      let (valid, same) = validated-ok t task (validate e try_exists path t) h3 in
      let (src, toml, has_deps, has_builds) = validate_sound e try_exists path t valid in
      subst (IsStartable req) same (record {
        same_name = refl;
        read_hash = parsed_hash-ok req.hash _ hash read;
        read_dependencies =
            parse_dependencies_sound e try_exists path req.lock.dependencies deps read_deps;
        read_build_dependencies =
            parse_dependencies_sound e try_exists path req.lock.build_dependencies builds
              read_builds;
        has_source = src;
        has_porkg_toml = toml;
        has_dependencies = has_deps;
        has_build_dependencies = has_builds;
      })

  post_complete :
      (req : BuildRequest) (task : BuildTask)
      → IsStartable req task
      → post e try_exists path req ≡ ok task
  unfolding post
  post_complete req task s =
      rw
        (
          parse_dependencies_complete e try_exists path req.lock.dependencies task.dependencies
              s.read_dependencies,
          parse_dependencies_complete e try_exists path req.lock.build_dependencies
              task.build_dependencies s.read_build_dependencies,
          s.read_hash,
          ← s.same_name,
          validate_complete e try_exists path task s.has_source s.has_porkg_toml s.has_dependencies
              s.has_build_dependencies,
        )
        refl

  -- A request is accepted with a task exactly when the task has the request's name and the hashes
  -- that its texts parse to, in order, and the file system has the source directory, its
  -- `porkg.toml` and the directory of every dependency and build dependency.
  pub post_iff :
      (req : BuildRequest) (task : BuildTask)
      → (post e try_exists path req ≡ ok task) ↔ IsStartable req task
  post_iff req task = (post_sound req task, post_complete req task)
