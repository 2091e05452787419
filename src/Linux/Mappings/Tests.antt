-- ===== src/Linux/Mappings/Tests.antt =====
-- Mapping files of a process with the id 42.
use porkg.Base.{ℕ, ◌+◌, ◌≡◌, refl, false, List, [], ◌∷◌, none, codes, ok, err}
use porkg.Linux.{Kernel, open_file, write_all, close}
use porkg.Linux.Mappings.{
  IdMapping, id_mapping, IdMappingTools, Process, pid_or_this, map_text, write_mappings, no_tools,
}
use porkg.Linux.Monitor.{performed}
use porkg.Linux.Mappings.Groups.{IsCareful, write_mappings-IsCareful}

-- An ordinary user without capabilities, whose one mapping is of the own ids.
abbrev user : Process
user = record {
  Failure = ℕ;
  uid = 1000;
  gid = 100;
  pid = 42;
  has_setuid = ok false;
  has_setgid = err 1;
  which = λ name. err 2;
  hash_set = λ ms. ms;
}

abbrev kernel : Kernel
kernel = record { World = Unit {0}; perform = λ c w. (ok 5, w); pair_of = λ n. (n, n + 1) }

abbrev tools : IdMappingTools
tools = record { uid_map = none; gid_map = none }

abbrev two : List IdMapping
two = id_mapping 0 1000 1 ∷ id_mapping 1 100000 65536 ∷ []

lines : map_text [] two ≡ codes "0 1000 1\n1 100000 65536"
unfolding map_text
lines = refl

calls_made :
    (write_mappings kernel user none
      (id_mapping 0 1000 1 ∷ [])
      (id_mapping 0 100 1 ∷ [])
      tools
      (tt, [])).1.1
    ≡ open_file (codes "/proc/42/uid_map")
      ∷ write_all 5 (codes "0 1000 1")
      ∷ close 5
      ∷ open_file (codes "/proc/42/setgroups")
      ∷ write_all 5 (codes "deny")
      ∷ close 5
      ∷ open_file (codes "/proc/42/gid_map")
      ∷ write_all 5 (codes "0 100 1")
      ∷ close 5
      ∷ []
unfolding write_mappings
calls_made = refl

two_need_tools : (write_mappings kernel user none two [] tools (tt, [])).0 ≡ err no_tools
unfolding write_mappings
two_need_tools = refl

write_mappings-IsCareful_example :
    let s =
      (write_mappings kernel user none
        (id_mapping 0 1000 1 ∷ [])
        (id_mapping 0 100 1 ∷ [])
        tools
        (tt, [])).1 in
    (s.0 ≡ performed kernel s.1 tt) × IsCareful (pid_or_this kernel user none) kernel tt s.1
write_mappings-IsCareful_example =
    write_mappings-IsCareful kernel user none (id_mapping 0 1000 1 ∷ []) (id_mapping 0 100 1 ∷ [])
      tools tt
