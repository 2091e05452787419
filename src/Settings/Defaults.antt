-- ===== src/Settings/Defaults.antt =====
-- The paths that the daemon ends up with, by crates/porkg-daemon/src/config.rs.
use porkg.Base.{
  Bool, ◌≡◌, refl, [], ◌∷◌, ◌++◌, Option, none, some, Bytes, codes, Result, ok, err, and_then-ok,
}
use porkg.Base32.{Encoding}
use porkg.Hashing.Supported.{SupportedHash, blake3_hash, display}
use porkg.Build.{join, hash_dir}
use porkg.Serve.{BindConfig}
use porkg.Settings.{
  Value, text, sequence, other_value, visit_seq, deserialize, StoreConfig, Config,
  default_socket_path, default_store_path, default_bind, default_store, BindTable, StoreTable,
  Table, path_or, tcp_or, deserialize_bind, deserialize_store, bind_or, store_or, load,
}

hash_dir-nil :
    {X : Type 0} (e : Encoding) (try_exists : Bytes → Result Bool X) (hash : SupportedHash)
    → hash_dir e try_exists [] hash ≡ codes "pkg/by-hash/" ++ display e hash
unfolding hash_dir join display
hash_dir-nil e try_exists (blake3_hash h) = refl

module _ {E : Type 0} where
  -- How a value gives a path: as it is, or as the only element that can be read at the head of a
  -- sequence.
  abbrev pub Reads : Value E → Bytes → Type 0
  Reads (text v) path = v ≡ path
  Reads (sequence []) path = ⊥
  Reads (sequence (err e ∷ seq)) path = ⊥
  Reads (sequence (ok v ∷ [])) path = v ≡ path
  Reads (sequence (ok v ∷ ok w ∷ seq)) path = ⊥
  Reads (sequence (ok v ∷ err e ∷ seq)) path = v ≡ path
  Reads other_value path = ⊥

  deserialize-Reads : (v : Value E) (path : Bytes) → deserialize v ≡ ok path → Reads v path
  unfolding deserialize visit_seq
  deserialize-Reads (text v) path done = cc
  deserialize-Reads (sequence []) path done = absurd (cc)
  deserialize-Reads (sequence (err e ∷ seq)) path done = absurd (cc)
  deserialize-Reads (sequence (ok v ∷ [])) path done = cc
  deserialize-Reads (sequence (ok v ∷ ok w ∷ seq)) path done = absurd (cc)
  deserialize-Reads (sequence (ok v ∷ err e ∷ seq)) path done = cc
  deserialize-Reads other_value path done = absurd (cc)

  -- A setting is what the value gives, or the default.
  abbrev pub Set : Bytes → Option (Value E) → Bytes → Type 0
  Set default none path = path ≡ default
  Set default (some v) path = Reads v path

  path_or-Set :
      (default : Bytes) (o : Option (Value E)) (path : Bytes)
      → path_or default o ≡ ok path
      → Set default o path
  path_or-Set default none path done = cc
  path_or-Set default (some v) path done = deserialize-Reads v path done

  -- The entries of the tables.
  abbrev pub socket_of : Option (BindTable E) → Option (Value E)
  socket_of none = none
  socket_of (some t) = t.socket

  module _ {X : Type 0} (e : Encoding) (try_exists : Bytes → Result Bool X) where
    -- Without the table of the store its path is empty, and packages are below the directory
    -- that the daemon runs in.
    abbrev pub StoreSet : Option (StoreTable E) → Bytes → Type 0
    StoreSet none path =
        (path ≡ [])
        × ((hash : SupportedHash)
            → hash_dir e try_exists path hash ≡ codes "pkg/by-hash/" ++ display e hash)
    StoreSet (some t) path = Set default_store_path t.path path

    store_or-StoreSet :
        (o : Option (StoreTable E)) (store : StoreConfig)
        → store_or o ≡ ok store
        → StoreSet o store.path
    unfolding deserialize_store
    store_or-StoreSet none store done =
        let same : store ≡ default_store = cc in rw same (refl, hash_dir-nil e try_exists)
    store_or-StoreSet (some t) store done =
        let (path, read, built) = and_then-ok (path_or default_store_path t.path) _ done in
        let same : store ≡ record { path = path } = cc in
        rw same (path_or-Set default_store_path t.path path read)

    bind_or-Set :
        (dir : Option Bytes) (o : Option (BindTable E)) (bind : BindConfig)
        → bind_or dir o ≡ ok bind
        → Set (default_socket_path dir) (socket_of o) bind.socket
    unfolding deserialize_bind default_bind
    bind_or-Set dir none bind done = let same : bind ≡ default_bind dir = cc in rw same refl
    bind_or-Set dir (some t) bind done =
        let (socket, read, rest) =
          and_then-ok (path_or (default_socket_path dir) t.socket) _ done in
        let (tcp, read', built) = and_then-ok (tcp_or t.tcp) _ rest in
        let same : bind ≡ record { socket = socket; tcp = tcp } = cc in
        rw same (path_or-Set (default_socket_path dir) t.socket socket read)

    -- Where the configuration can be read: the socket's path is the one that is set, and otherwise
    -- the one below `RUNTIME_DIRECTORY` or the default, with a table for the listeners or without.
    -- The store's path is the one that is set, and the default if its table is there without
    -- it; without that table the path is empty, and packages are looked for below the
    -- directory that the daemon runs in.
    pub load-Settings :
        (dir : Option Bytes) (t : Table E) (config : Config)
        → load dir t ≡ ok config
        → Set (default_socket_path dir) (socket_of t.bind) config.bind.socket
          × StoreSet t.store config.store.path
    unfolding load
    load-Settings dir t config done =
        let (bind, bound, rest) = and_then-ok (bind_or dir t.bind) _ done in
        let (store, stored, built) = and_then-ok (store_or t.store) _ rest in
        let same : config ≡ record { bind = bind; store = store } = cc in
        rw same (bind_or-Set dir t.bind bind bound, store_or-StoreSet t.store store stored)
