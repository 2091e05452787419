-- ===== src/Linux/Fs.antt =====
-- crates/porkg-linux/src/fs.rs: mounts, bind mounts, and the change of the root directory. The mount
-- table of the process, as the crate `procfs` reads it, is an argument.
pub mod Pivot
pub mod Bind
pub mod Detaching
mod Tests
use porkg.Base.{
  ℕ, ◌+◌, ◌*◌, Bool, true, false, ◌||◌, List, [], ◌∷◌, ◌++◌, map, Option, none, some, Bytes, codes,
  Result, ok, err, if◌then◌else◌,
}
use porkg.Linux.{
  Kernel, Call, Errno, Fd, MsFlag, MntFlag, mount, umount2, open_directory, fchdir, pivot_root,
  ms_rdonly, ms_noatime, ms_nodiratime, ms_private, ms_slave, ms_shared, ms_relatime,
  ms_strictatime, ms_lazytime, ms_remount, ms_bind, ms_rec, mnt_force, mnt_detach, mnt_expire,
  umount_nofollow, Action, Run, done, and_then, mapping_err, system_call, owning, ignore,
}

pub data MountKind : Type 0 where
  proc sysfs tmpfs devpts overlay fuse : MountKind

-- `AsRef<OsStr>` of `MountKind`.
unfoldable pub kind_name : MountKind → Bytes
kind_name proc = codes "proc"
kind_name sysfs = codes "sysfs"
kind_name tmpfs = codes "tmpfs"
kind_name devpts = codes "devpts"
kind_name overlay = codes "overlay"
kind_name fuse = codes "fuse"

pub data DeviceKind : Type 0 where
  null_device zero_device full_device random urandom tty ptmx : DeviceKind

-- `From<DeviceKind> for u64`, as the major and the minor number that `makedev` puts together.
unfoldable pub device_numbers : DeviceKind → ℕ × ℕ
device_numbers null_device = (1, 3)
device_numbers zero_device = (1, 5)
device_numbers full_device = (1, 7)
device_numbers random = (1, 8)
device_numbers urandom = (1, 9)
device_numbers tty = (5, 0)
device_numbers ptmx = (5, 2)

-- The flags of the four operations. `CREATE_MOUNT` of the fourth is not used by any code.
pub data MountFlag : Type 0 where
  read_only no_atime no_dir_atime private slave shared relative_atime strict_atime lazy_time :
      MountFlag

unfoldable pub mount_bits : MountFlag → MsFlag
mount_bits read_only = ms_rdonly
mount_bits no_atime = ms_noatime
mount_bits no_dir_atime = ms_nodiratime
mount_bits private = ms_private
mount_bits slave = ms_slave
mount_bits shared = ms_shared
mount_bits relative_atime = ms_relatime
mount_bits strict_atime = ms_strictatime
mount_bits lazy_time = ms_lazytime

pub data UnmountFlag : Type 0 where
  force detach expire nofollow : UnmountFlag

unfoldable pub unmount_bits : UnmountFlag → MntFlag
unmount_bits force = mnt_force
unmount_bits detach = mnt_detach
unmount_bits expire = mnt_expire
unmount_bits nofollow = umount_nofollow

-- `BindFlags`: whether it contains `RECURSIVE`, and `READ_ONLY`.
pub record BindFlags : Type 0 where
  pub recursive : Bool
  pub read_only : Bool

-- `MountError`, `UnmountError`, `BindError` and `PivotError` have the same fields.
pub record FsError : Type 0 where
  pub path : Bytes
  pub source : Errno

-- `map_err` of all these operations.
abbrev pub at_path : Bytes → Errno → FsError
at_path path source = record { path = path; source = source }

-- `procfs::process::MountInfo`, with an optional field that is `Shared` or another.
pub data MountOptField : Type 0 where
  shared_peer : ℕ → MountOptField
  other_field : MountOptField

pub record MountInfo : Type 0 where
  pub mount_point : Bytes
  pub opt_fields : List MountOptField

abbrev pub is_shared : List MountOptField → Bool
is_shared [] = false
is_shared (shared_peer n ∷ fields) = true
is_shared (other_field ∷ fields) = is_shared fields

-- What `procfs` gives: the own process, its mount table, and when two paths are equal.
pub record Procfs : Type 1 where
  pub Failure : Type 0
  pub mountinfo : Result (Result (List MountInfo) Failure) Failure
  pub same_path : Bytes → Bytes → Bool

module _ (procfs : Procfs) where
  abbrev pub find_mount : Bytes → List MountInfo → Option Bool
  find_mount path [] = none
  find_mount path (mi ∷ mis) =
      if procfs.same_path path mi.mount_point
      then some (is_shared mi.opt_fields)
      else find_mount path mis

  abbrev pub in_mountinfo :
      Bytes → Result (Result (List MountInfo) procfs.Failure) procfs.Failure → Option Bool
  in_mountinfo path (err x) = none
  in_mountinfo path (ok (err x)) = none
  in_mountinfo path (ok (ok mis)) = find_mount path mis

  unfoldable pub has_existing_shared_mount : Bytes → Option Bool
  has_existing_shared_mount path = in_mountinfo path procfs.mountinfo

abbrev pub bind_flags : Bool → List MsFlag
bind_flags false = ms_bind ∷ []
bind_flags true = ms_bind ∷ ms_rec ∷ []

abbrev pub root : Bytes
root = codes "/"

module _ (kernel : Kernel) where
  -- One `nix` call with its `map_err`.
  abbrev pub calling : Bytes → Call → Action kernel (Unit {0}) FsError
  calling path c = ignore kernel (mapping_err kernel (at_path path) (system_call kernel c))

  -- `Syscall::mount` and `Syscall::unmount`.
  unfoldable pub mount_at :
      Option Bytes
      → Bytes
      → Option Bytes
      → List MountFlag
      → Option Bytes
      → Action kernel (Unit {0}) FsError
  unfolding mount_bits
  mount_at source target kind flags options =
      calling target (mount source target kind (map mount_bits flags) options)

  unfoldable pub unmount : Bytes → List UnmountFlag → Action kernel (Unit {0}) FsError
  unfolding unmount_bits
  unmount path flags = calling path (umount2 path (map unmount_bits flags))

  abbrev pub remount_if : Bool → Bytes → Action kernel (Unit {0}) FsError
  remount_if false target = done kernel tt
  remount_if true target =
      calling target (mount none target none (ms_remount ∷ ms_bind ∷ ms_rdonly ∷ []) none)

  unfoldable pub bind : Bytes → Bytes → BindFlags → Action kernel (Unit {0}) FsError
  bind source target flags =
      and_then kernel
        (calling target (mount (some source) target none (bind_flags flags.recursive) none))
        (λ _. remount_if flags.read_only target)

  -- The `match` at the start of `pivot`.
  abbrev pub make_private : Bytes → Option Bool → Action kernel (Unit {0}) FsError
  make_private new_root (some true) =
      calling new_root (mount none new_root none (ms_private ∷ ms_rec ∷ []) none)
  make_private new_root none =
      calling new_root
        (mount (some new_root) new_root none (ms_private ∷ ms_bind ∷ ms_rec ∷ []) none)
  make_private new_root (some false) = done kernel tt

  -- `pivot` from `pivot_root` on, with the open directory.
  unfoldable pub enter : Bytes → Fd → Action kernel (Unit {0}) FsError
  enter new_root fd = and_then kernel (calling new_root (pivot_root new_root new_root)) λ _.
      and_then kernel (calling new_root (mount none root none (ms_slave ∷ ms_rec ∷ []) none)) λ _.
        and_then kernel (calling new_root (umount2 root (mnt_detach ∷ [])))
          λ _. and_then kernel (calling new_root (fchdir fd)) λ _. done kernel tt

  unfoldable pub pivot : Procfs → Bytes → Action kernel (Unit {0}) FsError
  unfolding has_existing_shared_mount enter
  pivot procfs new_root =
      and_then kernel (make_private new_root (has_existing_shared_mount procfs new_root)) λ _.
        and_then kernel
          (mapping_err kernel (at_path new_root) (system_call kernel (open_directory new_root)))
          λ fd. owning kernel fd (enter new_root fd)
