-- ===== src/Build/Tests.antt =====
-- A request against a file system that has everything, and one that has nothing.
use porkg.Base.{◌≡◌, ◌↔◌, refl, [], ◌∷◌, ◌++◌, Bool, true, Bytes, codes, Result, ok, err, replicate}
use porkg.Base32.Sample.{sample}
use porkg.Hashing.Supported.{SupportedHash, blake3_hash}
use porkg.Build.{BuildTask, BuildRequest, invalid_dependency_hash, validation_error, post}
use porkg.Build.Answer.{json, Answers, answer, answer-Answers}
use porkg.Build.Handler.{IsStartable, post_iff}

abbrev hash_text : Bytes
hash_text = codes "blake3-" ++ replicate 64 0

abbrev request : BuildRequest
request = record {
  name = codes "tool";
  hash = hash_text;
  lock = record { dependencies = (codes "a", hash_text) ∷ []; build_dependencies = [] };
}

abbrev zero_hash : SupportedHash
zero_hash = blake3_hash (replicate 32 0)

abbrev task : BuildTask
task = record {
  name = codes "tool";
  hash = zero_hash;
  dependencies = (codes "a", zero_hash) ∷ [];
  build_dependencies = [];
}

abbrev has_all : Bytes → Result Bool Bytes
has_all p = ok true

abbrev has_none : Bytes → Result Bool Bytes
has_none p = err p

accepted : post sample has_all (codes "/store") request ≡ ok task
unfolding post
accepted = refl

refused :
    post sample has_none (codes "/store") request
    ≡ err (validation_error (codes "source directory not found"))
unfolding post
refused = refl

post_iff_example :
    (post sample has_all (codes "/store") request ≡ ok task)
    ↔ IsStartable sample has_all (codes "/store") request task
post_iff_example = post_iff sample has_all (codes "/store") request task

abbrev bad_request : BuildRequest
bad_request = record {
  name = codes "tool";
  hash = hash_text;
  lock = record {
    dependencies = (codes "a", hash_text) ∷ [];
    build_dependencies = (codes "b", codes "md5-0") ∷ [];
  };
}

names_bad_hash :
    post sample has_all (codes "/store") bad_request
    ≡ err (invalid_dependency_hash (codes "b") (codes "md5-0"))
unfolding post
names_bad_hash = refl

answer-Answers_example :
    Answers sample has_all
      (codes "/store")
      bad_request
      (answer sample has_all (codes "/store") bad_request)
answer-Answers_example = answer-Answers sample has_all (codes "/store") bad_request

says_why : answer sample has_all (codes "/store") bad_request ≡ record {
  status = 400;
  body = json (record {
    message = codes "invalid dependency hash provided for b: md5-0";
    data_of = invalid_dependency_hash (codes "b") (codes "md5-0");
  });
}
unfolding answer
says_why = refl
