-- ===== src/Linux/Fs/Bind.antt =====
-- What a bind mount does.
use porkg.Base.{◌≡◌, refl, sym, subst, Bool, true, false, List, [], ◌∷◌, none, some, Bytes}
use porkg.Linux.{Kernel, Call, mount, ms_remount, ms_bind, ms_rdonly, Run}
use porkg.Linux.Script.{script, Ran, script-Ran, call-script}
use porkg.Linux.Fs.{BindFlags, at_path, bind, bind_flags, remount_if}

-- The calls of a bind mount: the mount, and the remount that makes it read-only.
abbrev pub remounts : Bool → Bytes → List Call
remounts false target = []
remounts true target = mount none target none (ms_remount ∷ ms_bind ∷ ms_rdonly ∷ []) none ∷ []

abbrev pub bind_plan : Bytes → Bytes → BindFlags → List Call
bind_plan source target flags =
    mount (some source) target none (bind_flags flags.recursive) none
    ∷ remounts flags.read_only target

module _ (kernel : Kernel) where
  remount_if-script :
      (read_only : Bool) (target : Bytes)
      → remount_if kernel read_only target
        ≡ script kernel (at_path target) (remounts read_only target)
  unfolding script
  remount_if-script false target = refl
  remount_if-script true target = refl

  -- A bind mount makes the mount, then remounts it read-only if that was asked for, and stops at the
  -- first call that fails with that call's error and the target's path: a read-only bind mount that
  -- succeeds has been made read-only.
  pub bind-Ran :
      (source target : Bytes) (flags : BindFlags) (s : Run kernel)
      → Ran kernel
          (at_path target)
          (bind_plan source target flags)
          s
          (bind kernel source target flags s)
  unfolding bind
  bind-Ran source target flags s =
      let same : bind kernel source target flags
          ≡ script kernel (at_path target) (bind_plan source target flags) =
        call-script kernel (at_path target)
          (mount (some source) target none (bind_flags flags.recursive) none)
          (remounts flags.read_only target) (remount_if kernel flags.read_only target)
          (remount_if-script flags.read_only target) in
      subst (λ m. Ran kernel (at_path target) (bind_plan source target flags) s (m s)) (sym same)
        (script-Ran kernel (at_path target) (bind_plan source target flags) s)
