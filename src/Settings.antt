-- ===== src/Settings.antt =====
-- crates/porkg-daemon/src/config.rs, with the paths of crates/porkg-private/src/ser.rs. What the crate
-- config finds in the environment is a parameter, as tables whose entries may be missing; what the
-- derived code does for a missing entry is what the attributes say.
pub mod Defaults
mod Tests
use porkg.Base.{
  Bool, true, false, List, [], ◌∷◌, Option, none, some, if◌then◌else◌, Bytes, codes, Result, ok,
  err, and_then,
}
use porkg.Build.{join}
use porkg.Serve.{BindConfig}

-- The errors that the code makes; `E` are those of serde and its formats.
pub data DeError (E : Type 0) : Type 0 where
  invalid_length : DeError E
  invalid_type : DeError E
  format_error : E → DeError E

-- A value: a text, a sequence, by what reading each element as a path gives, or another.
pub data Value (E : Type 0) : Type 0 where
  text : Bytes → Value E
  sequence : List (Result Bytes (DeError E)) → Value E
  other_value : Value E

pub record StoreConfig : Type 0 where
  pub path : Bytes

pub record Config : Type 0 where
  pub bind : BindConfig
  pub store : StoreConfig

module _ {E : Type 0} where
  abbrev pub visit_str : Bytes → Result Bytes (DeError E)
  visit_str v = ok v

  -- What cannot be read as a second element counts as no second element.
  unfoldable pub visit_seq : List (Result Bytes (DeError E)) → Result Bytes (DeError E)
  visit_seq [] = err invalid_length
  visit_seq (err e ∷ seq) = err e
  visit_seq (ok v ∷ []) = ok v
  visit_seq (ok v ∷ ok w ∷ seq) = err invalid_length
  visit_seq (ok v ∷ err e ∷ seq) = ok v

  -- `pathbuf::deserialize`
  unfoldable pub deserialize : Value E → Result Bytes (DeError E)
  unfolding visit_seq
  deserialize (text v) = visit_str v
  deserialize (sequence seq) = visit_seq seq
  deserialize other_value = err invalid_type

  -- `pathbuf::serialize`
  unfoldable pub serialize : (Bytes → Bool) → E → Bytes → Result (Value E) E
  serialize is_utf8 expected_utf8 val = if is_utf8 val then ok (text val) else err expected_utf8

-- By what `RUNTIME_DIRECTORY` holds, if it can be read.
unfoldable pub default_socket_path : Option Bytes → Bytes
unfolding join
default_socket_path (some dir) = join dir (codes "porkg.sock")
default_socket_path none = codes "/var/lib/porkg/porkg.sock"

abbrev pub default_store_path : Bytes
default_store_path = codes "/var/lib/porkg/store"

-- `BindConfig::default`
unfoldable pub default_bind : Option Bytes → BindConfig
unfolding default_socket_path
default_bind dir = record { socket = default_socket_path dir; tcp = [] }

-- The derived `StoreConfig::default`, whose path is `PathBuf::default()`.
abbrev pub default_store : StoreConfig
default_store = record { path = [] }

pub record BindTable (E : Type 0) : Type 0 where
  pub socket : Option (Value E)
  pub tcp : Option (Result (List Bytes) (DeError E))

pub record StoreTable (E : Type 0) : Type 0 where
  pub path : Option (Value E)

pub record Table (E : Type 0) : Type 0 where
  pub bind : Option (BindTable E)
  pub store : Option (StoreTable E)

module _ {E : Type 0} where
  -- A path of its own, or the default.
  abbrev pub path_or : Bytes → Option (Value E) → Result Bytes (DeError E)
  path_or default none = ok default
  path_or default (some v) = deserialize v

  abbrev pub tcp_or : Option (Result (List Bytes) (DeError E)) → Result (List Bytes) (DeError E)
  tcp_or none = ok []
  tcp_or (some r) = r

  -- The derived `StoreConfig::deserialize`.
  unfoldable pub deserialize_store : StoreTable E → Result StoreConfig (DeError E)
  unfolding deserialize
  deserialize_store t =
      and_then (path_or default_store_path t.path) λ path. ok (record { path = path })

  abbrev pub store_or : Option (StoreTable E) → Result StoreConfig (DeError E)
  store_or none = ok default_store
  store_or (some t) = deserialize_store t

  module _ (dir : Option Bytes) where
    -- The derived `BindConfig::deserialize`.
    unfoldable pub deserialize_bind : BindTable E → Result BindConfig (DeError E)
    unfolding deserialize default_socket_path
    deserialize_bind t =
        and_then (path_or (default_socket_path dir) t.socket)
          λ socket. and_then (tcp_or t.tcp) λ tcp. ok (record { socket = socket; tcp = tcp })

    abbrev pub bind_or : Option (BindTable E) → Result BindConfig (DeError E)
    bind_or none = ok (default_bind dir)
    bind_or (some t) = deserialize_bind t

    -- `Config::load`, given what the crate config has built.
    unfoldable pub load : Table E → Result Config (DeError E)
    unfolding deserialize_bind deserialize_store default_bind
    load t =
        and_then (bind_or t.bind)
          λ bind. and_then (store_or t.store) λ store. ok (record { bind = bind; store = store })
