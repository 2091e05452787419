-- ===== src/Settings/Tests.antt =====
-- Two configurations.
use porkg.Base.{Bool, true, ◌≡◌, refl, [], ◌∷◌, none, some, Bytes, codes, Result, ok, err}
use porkg.Base32.Sample.{sample}
use porkg.Settings.{
  sequence, invalid_length, format_error, Config, Table, visit_seq, load, default_bind,
  default_socket_path,
}
use porkg.Settings.Defaults.{Set, socket_of, StoreSet, load-Settings}

abbrev unset : Table Bytes
unset = record { bind = none; store = none }

-- As the environment gives it: `PORKG__STORE__PATH=/s` is a sequence of one.
abbrev set_store : Table Bytes
set_store = record {
  bind = some (record { socket = none; tcp = none });
  store = some (record { path = some (sequence (ok (codes "/s") ∷ [])) });
}

abbrev config : Config
config = record {
  bind = record { socket = codes "/run/porkg/porkg.sock"; tcp = [] };
  store = record { path = codes "/s" };
}

loaded : load (some (codes "/run/porkg")) set_store ≡ ok config
unfolding load
loaded = refl

not_loaded :
    load none unset ≡ ok (record { bind = default_bind none; store = record { path = [] } })
unfolding load
not_loaded = refl

-- An element that cannot be read is passed over, one that can be read is one too many.
swallowed :
    visit_seq (ok (codes "/a") ∷ err (format_error (codes "no text")) ∷ []) ≡ ok (codes "/a")
unfolding visit_seq
swallowed = refl

one_too_many : visit_seq {E = Bytes} (ok (codes "/a") ∷ ok (codes "/b") ∷ []) ≡ err invalid_length
unfolding visit_seq
one_too_many = refl

abbrev has_all : Bytes → Result Bool Bytes
has_all p = ok true

load-Settings_example :
    Set
      (default_socket_path (some (codes "/run/porkg")))
      (socket_of set_store.bind)
      config.bind.socket
    × StoreSet sample has_all set_store.store config.store.path
load-Settings_example =
    load-Settings sample has_all (some (codes "/run/porkg")) set_store config loaded
