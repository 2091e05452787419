-- ===== src/Build/Answer.antt =====
-- The answer to a request to build a package: crates/porkg-daemon/src/error.rs, with the errors of
-- crates/porkg-daemon/src/frontend/api/v1/build.rs. A body is what is written to it as JSON or text.
use porkg.Base.{ℕ, ◌≡◌, ◌⊎◌, inl, inr, refl, Bool, ◌++◌, Bytes, codes, Result, ok, err}
use porkg.Base32.{Encoding}
use porkg.Build.{
  BuildTask, BuildRequest, StartError, invalid_hash, invalid_dependency_hash, validation_error,
  post,
}
use porkg.Build.Handler.{IsStartable, post_iff}
use porkg.Build.Errors.{Explains, post-Explains}

-- `ErrorData`
pub record ErrorData (X : Type 0) : Type 0 where
  pub message : Bytes
  pub data_of : X

pub data Body : Type 0 where
  debug_text : BuildTask → Body
  json : ErrorData StartError → Body

pub record Response : Type 0 where
  pub status : ℕ
  pub body : Body

abbrev pub ok_status : ℕ
ok_status = 200

abbrev pub bad_request : ℕ
bad_request = 400

-- `impl ApiError for StartError`, with the texts of its `Display`.
abbrev pub status_code : StartError → ℕ
status_code x = bad_request

unfoldable pub error_text : StartError → Bytes
error_text (invalid_hash hash) = codes "invalid hash provided: " ++ hash
error_text (invalid_dependency_hash name hash) =
    codes "invalid dependency hash provided for " ++ name ++ codes ": " ++ hash
error_text (validation_error error) = codes "failed to validate the build"

-- `AppError::into_response`: the response that is made from the data, with its status changed.
unfoldable pub error_response : StartError → Response
unfolding error_text
error_response x =
    let r : Response = record {
      status = ok_status;
      body = json (record { message = error_text x; data_of = x });
    } in
    record { status = status_code x; body = r.body }

-- `into_response` of the handler's result.
unfoldable pub into_response : Result BuildTask StartError → Response
unfolding error_response
into_response (ok task) = record { status = ok_status; body = debug_text task }
into_response (err x) = error_response x

module _ {X : Type 0} (e : Encoding) (try_exists : Bytes → Result Bool X) (path : Bytes) where
  unfoldable pub answer : BuildRequest → Response
  unfolding post into_response
  answer req = into_response (post e try_exists path req)

  -- A request that can be started with some task, and its answer; or one that cannot, and its answer.
  abbrev pub Answers : BuildRequest → Response → Type 0
  Answers req r =
      ((task : BuildTask) × IsStartable e try_exists path req task
        × (r ≡ record { status = 200; body = debug_text task }))
      ⊎ ((x : StartError) × Explains e req x
          × (r ≡ record {
            status = 400;
            body = json (record { message = error_text x; data_of = x });
          }))

  into_response-Answers :
      (req : BuildRequest) (r : Result BuildTask StartError)
      → post e try_exists path req ≡ r
      → Answers req (into_response r)
  unfolding into_response
  into_response-Answers req (ok task) done =
      inl (task, (post_iff e try_exists path req task).0 done, refl)
  into_response-Answers req (err x) done = inr (x, post-Explains e try_exists path req x done, refl)

  -- Every request is answered in one of two ways. Either it can be started, that is its hashes parse
  -- and the file system has what the task needs, and the answer has status 200 and shows the task;
  -- or it has status 400, and its message and data are those of an error that names the first
  -- hash that does not parse, the dependencies' before the request's own, or that says, where
  -- all hashes parse, that the task was found invalid.
  pub answer-Answers : (req : BuildRequest) → Answers req (answer req)
  unfolding answer
  answer-Answers req = into_response-Answers req (post e try_exists path req) refl
