-- ===== src/Linux/Mappings.antt =====
-- crates/porkg-linux/src/proc.rs: user and group id mappings. What the process is allowed to do, the
-- programs that are installed and the order in which a `HashSet` gives its elements are parameters.
-- The log's text is left out, and so is `BadMapping`: writing into a `String` never fails.
pub mod Groups
pub mod Text
mod Tests
use porkg.Base.{
  ℕ, zero, suc, ◌+◌, ◌/◌, ◌%◌, Bool, true, false, List, [], ◌∷◌, ◌++◌, map, Option, none, some,
  Bytes, codes, Result, ok, err, ◌==◌, ltb, ◌&&◌, if◌then◌else◌,
}
use porkg.Linux.{
  Kernel, Call, Errno, open_file, write_all, execute, setresuid, setresgid, Action, Run, done, fail,
  and_then, mapping_err, system_call, owning, ignore,
}

-- `u32` fields.
pub record IdMapping : Type 0 where
  pub host_start : ℕ
  pub child_start : ℕ
  pub length : ℕ

-- `IdMapping::new`.
abbrev pub id_mapping : ℕ → ℕ → ℕ → IdMapping
id_mapping child_start host_start length = record {
  host_start = host_start;
  child_start = child_start;
  length = length;
}

pub record IdMappingTools : Type 0 where
  pub uid_map : Option Bytes
  pub gid_map : Option Bytes

-- `WriteMappingsErrorKind`, which `WriteMappingsError` wraps.
pub data WriteMappingsError : Type 0 where
  no_tools : WriteMappingsError
  io : Errno → WriteMappingsError
  shadow_utils : WriteMappingsError

-- The process and its surroundings: ids, the answers of `caps::has_cap` for CAP_SETUID and
-- CAP_SETGID, the search for a program, and the elements of a set in the order of its iteration.
pub record Process : Type 1 where
  pub Failure : Type 0
  pub uid : ℕ
  pub gid : ℕ
  pub pid : ℕ
  pub has_setuid : Result Bool Failure
  pub has_setgid : Result Bool Failure
  pub which : Bytes → Result Bytes Failure
  pub hash_set : List IdMapping → List IdMapping

-- A number in decimal, with at most as many digits as there is fuel. A `u32` and an `i32` have ten
-- digits at most.
unfoldable pub decimal : ℕ → ℕ → Bytes
decimal zero n = []
decimal (suc fuel) n =
    let rest = decimal fuel (n / 10) in
    if ltb n 10 then (48 + n) ∷ [] else rest ++ (48 + n % 10) ∷ []

unfoldable pub to_string : ℕ → Bytes
unfolding decimal
to_string n = decimal 10 n

-- "{child} {host} {length}".
unfoldable pub mapping_line : IdMapping → Bytes
unfolding to_string
mapping_line m =
    to_string m.child_start ++ (32 ∷ (to_string m.host_start ++ (32 ∷ to_string m.length)))

abbrev pub separate : Bytes → Bytes
separate [] = []
separate (c ∷ val) = (c ∷ val) ++ 10 ∷ []

-- The loop of `map_direct`, with the text so far.
unfoldable pub map_text : Bytes → List IdMapping → Bytes
unfolding mapping_line
map_text val [] = val
map_text val (m ∷ ms) = map_text (separate val ++ mapping_line m) ms

-- "/proc/{pid}/{file}".
unfoldable pub proc_path : ℕ → Bytes → Bytes
unfolding to_string
proc_path pid file = codes "/proc/" ++ (to_string pid ++ (47 ∷ file))

-- The arguments of `newuidmap` and `newgidmap`.
unfoldable pub tool_args : ℕ → List IdMapping → List Bytes
tool_args pid ms = to_string pid ∷ args_of ms
  where
    args_of : List IdMapping → List Bytes
    args_of [] = []
    args_of (m ∷ ms) =
        to_string m.child_start ∷ to_string m.host_start ∷ to_string m.length ∷ args_of ms

abbrev pub default_false : {X : Type 0} → Result Bool X → Bool
default_false (ok b) = b
default_false (err x) = false

-- The set has one mapping, of the current id alone.
abbrev pub maps_only : ℕ → List IdMapping → Bool
maps_only raw [] = false
maps_only raw (m ∷ []) = (m.host_start == raw) && (m.length == 1)
maps_only raw (m ∷ n ∷ ms) = false

unfoldable pub can_direct : {X : Type 0} → ℕ → Result Bool X → List IdMapping → Bool
can_direct raw cap mappings =
    if raw == 0 then true else if maps_only raw mappings then true else default_false cap

module _ (kernel : Kernel) where
  -- Opening a file, writing all of a text, and closing it; the two calls have the same `map_err`.
  abbrev pub write_file : Bytes → Bytes → Action kernel (Unit {0}) WriteMappingsError
  write_file path text =
      and_then kernel (mapping_err kernel io (system_call kernel (open_file path))) λ fd.
        owning kernel fd
          (ignore kernel (mapping_err kernel io (system_call kernel (write_all fd text))))

  unfoldable pub map_direct :
      ℕ → Bytes → List IdMapping → Action kernel (Unit {0}) WriteMappingsError
  unfolding proc_path map_text
  map_direct pid map_file mappings = write_file (proc_path pid map_file) (map_text [] mappings)

  -- The exit status of a tool.
  abbrev pub succeeded : ℕ → Action kernel (Unit {0}) WriteMappingsError
  succeeded zero = done kernel tt
  succeeded (suc status) = fail kernel shadow_utils

  unfoldable pub map_shadowutils :
      ℕ → Bytes → List IdMapping → Action kernel (Unit {0}) WriteMappingsError
  unfolding tool_args
  map_shadowutils pid tool_path mappings =
      and_then kernel
        (mapping_err kernel (λ _. shadow_utils)
          (system_call kernel (execute tool_path (tool_args pid mappings))))
        succeeded

  -- Without the direct way: the tool, if there is one.
  abbrev pub map_with :
      ℕ → Option Bytes → List IdMapping → Action kernel (Unit {0}) WriteMappingsError
  map_with pid none mappings = fail kernel no_tools
  map_with pid (some tool) mappings = map_shadowutils pid tool mappings

  abbrev pub map_users :
      ℕ → Bool → Option Bytes → List IdMapping → Action kernel (Unit {0}) WriteMappingsError
  map_users pid true tool users = map_direct pid (codes "uid_map") users
  map_users pid false tool users = map_with pid tool users

  abbrev pub map_groups :
      ℕ → Bool → Option Bytes → List IdMapping → Action kernel (Unit {0}) WriteMappingsError
  map_groups pid true tool groups =
      and_then kernel (write_file (proc_path pid (codes "setgroups")) (codes "deny"))
        (λ _. map_direct pid (codes "gid_map") groups)
  map_groups pid false tool groups = map_with pid tool groups

  module _ (process : Process) where
    abbrev pub pid_or_this : Option ℕ → ℕ
    pid_or_this none = process.pid
    pid_or_this (some pid) = pid

    unfoldable pub write_mappings :
        Option ℕ
        → List IdMapping
        → List IdMapping
        → IdMappingTools
        → Action kernel (Unit {0}) WriteMappingsError
    unfolding can_direct map_direct map_shadowutils proc_path
    write_mappings target user_list group_list tools =
        let users = process.hash_set user_list in
        let groups = process.hash_set group_list in
        let pid = pid_or_this target in
        and_then kernel
          (map_users pid (can_direct process.uid process.has_setuid users) tools.uid_map users)
          (λ _.
            map_groups pid (can_direct process.gid process.has_setgid groups) tools.gid_map groups)

  -- `set_ids`.
  unfoldable pub set_ids : ℕ → ℕ → Action kernel (Unit {0}) Errno
  set_ids uid gid =
      and_then kernel (system_call kernel (setresuid uid uid uid))
        (λ _. ignore kernel (system_call kernel (setresgid gid gid gid)))

module _ (process : Process) where
  abbrev pub found : {X : Type 0} → Result Bytes X → Option Bytes
  found (ok path) = some path
  found (err x) = none

  unfoldable pub find_tools : IdMappingTools
  find_tools = record {
    uid_map = found (process.which (codes "newuidmap"));
    gid_map = found (process.which (codes "newgidmap"));
  }

  unfoldable pub current_user_to_root : IdMapping
  current_user_to_root = record { host_start = process.uid; child_start = 0; length = 1 }

  unfoldable pub current_group_to_root : IdMapping
  current_group_to_root = record { host_start = process.gid; child_start = 0; length = 1 }
