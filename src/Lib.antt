-- ===== src/Lib.antt =====
-- A model of porkg, a package builder that runs builds in a sandbox, and its properties.
--
-- The program's parts. The library crates/porkg-model holds the data of packages and their hashes:
-- a lock file is fed to a hasher, and the hash is shown and read in Base32. The library
-- crates/porkg-private holds what daemon and sandbox share: an object pool with a pool of byte
-- buffers, messages with file descriptors over a Unix socket, which use those buffers, and the
-- expansion of variables in configuration texts. The library crates/porkg-linux makes the sandbox:
-- the daemon starts a zygote and sends it tasks, and the zygote clones a worker for each. The daemon
-- crates/porkg-daemon takes requests to build a package: it parses their hashes and looks for the
-- package and its dependencies in a store.
--
-- The files.
-- Base: names of the libraries passed on, Boolean tests, lists, results and byte strings.
-- Expand: `expand` of crates/porkg-private/src/string.rs. A round of its `while` loop is the
--   function `round`; the loop runs on fuel. Each round moves on by at least a byte, so the text's
--   length and one are enough, and `expand` gives them. Expand/Reference is what the loop computes,
--   by one pass over the text.
-- Hashing: the `StableHash` implementations of crates/porkg-model/src/hashing.rs, as functions on a
--   hasher's state; Hashing/Stream and Hashing/PrefixFree describe the byte stream they feed.
--   Hashing/Supported: crates/porkg-model/src/hashing/supported.rs.
-- Base32: crates/porkg-model/src/base32.rs, and Package: crates/porkg-model/src/package.rs.
-- Pool: `PoolBuilder`, `PoolState` and the buffer pool of crates/porkg-private/src/mem.rs. The
--   loops of `take` and `return_value` run `max_loop + 1` rounds, as they do in the code.
--   Pool/Bag: what the pool is to those who call it, a bag of bounded size.
--   Pool/Cell: `Pool`, which makes its state at the first use.
--   Pool/Threads: the same calls by many threads, one atomic operation at a time; a schedule is a
--   list that says who moves next.
--   Pool/Overlap: the threads of the buffer pool, whose return hook loads `CURRENT_SIZE` and adds to it
--   in two operations.
--   Pool/Items and Pool/OwnedItems: the wrappers of crates/porkg-private/src/mem/pooled_item.rs and
--   crates/porkg-private/src/mem/owned_pooled_item.rs.
-- Socket: crates/porkg-private/src/io.rs. A loop over the kernel's answers ends with `none` where
--   they are used up and it would go on.
-- Build: `BuildTask` of crates/porkg-daemon/src/backend.rs and the handler `post` of
--   crates/porkg-daemon/src/frontend/api/v1/build.rs. Build/Answer: its answer, with the errors of
--   crates/porkg-daemon/src/error.rs.
-- Daemon: how failing tasks end the daemon of crates/porkg-daemon/src/main.rs; Daemon/Start: its steps
--   from the first on.
-- Serve: the listeners and the loop of crates/porkg-daemon/src/frontend/serve.rs, with the future of
--   crates/porkg-private/src/future.rs. A run of the loop is over a list of rounds.
-- Fork: crates/porkg-test/src/fork.rs, and Fork/Macro: crates/porkg-test-macros/src/fork.rs, by which
--   a test of the other crates runs in a process of its own.
-- Settings: crates/porkg-daemon/src/config.rs, with the paths of crates/porkg-private/src/ser.rs.
-- Debug: the printed buffers of crates/porkg-private/src/debug.rs.
-- Child: `ChildProcess` of crates/porkg-private/src/os/proc.rs. A wait of `n` milliseconds has fuel for
--   `n + 1` rounds; each round sleeps, so that the deadline is passed before the fuel is used up.
-- Linux: crates/porkg-linux as programs of system calls, whose calls are written down in order.
--   Linux/Fs: fs.rs of that crate; Linux/Mappings: its proc.rs; Linux/Clone: its clone.rs.
--   Linux/Monitor: a state that follows the calls and their answers, and the calls that it allows.
--   Linux/Sandbox: its sandbox.rs, with crates/porkg-private/src/sandbox.rs; the controller talks to the
--   zygote over the socket of Socket, and the zygote makes a worker with Linux/Clone and
--   Linux/Mappings. Linux/Sandbox/Lock: calls of the controller at once, a packet at a time, and its
--   lock. Linux/Sandbox/Joint: the two processes that come of the start of a worker, their
--   calls in any order. The zygote's loop has fuel for one round more than the kernel has answers, and a
--   round uses an answer at least.
--
-- Texts and buffers are lists of bytes, each a number below 256. A `usize` has 64 bits; where it
-- wraps, the wrap is written out.
--
-- Parameters. The crates flume (Pool/Channels), bytes (Pool/Buffers), blake3, data_encoding
-- (Base32), bincode and the kernel's socket calls (Socket), the file system (Build), the calls on
-- a child and the clock (Child), the kernel, `procfs` and `caps` (Linux), the host of the daemon
-- (Serve), the tables of the crate config (Settings) and a task of the sandbox (Linux/Sandbox)
-- are records of functions, lists of answers or functions; what the crates document stands in
-- records of laws, and the modules Sample and Tests hold functions that keep them.
--
-- Not modelled: log output, the TOML and JSON forms that serde derives, the routes and the
-- answers to HTTP requests but for `post`, and the reading of the environment in
-- crates/porkg-daemon.
pub mod Daemon
pub mod Serve
pub mod Settings
pub mod Base
pub mod Expand
pub mod Fork
pub mod Hashing
pub mod Base32
pub mod Package
pub mod Pool
pub mod Socket
pub mod Build
pub mod Debug
pub mod Child
pub mod Linux
