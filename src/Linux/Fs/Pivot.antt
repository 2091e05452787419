-- ===== src/Linux/Fs/Pivot.antt =====
-- What the change of the root directory does.
use porkg.Base.{
  ℕ, ◌≡◌, ◌⊎◌, Bool, true, false, List, [], ◌∷◌, ◌++◌, Option, none, some, Bytes, Result, err, take,
}
use porkg.Linux.{
  Kernel, Call, Fd, mount, umount2, open_directory, fchdir, close, pivot_root, mnt_detach,
  ms_private, ms_slave, ms_bind, ms_rec, Run,
}
use porkg.Linux.Script.{Ran}
use porkg.Linux.Fs.{FsError, at_path, root}

-- The first calls: the new root is made a private mount point, as far as it is not one, and opened.
abbrev pub privately : Bytes → Option Bool → List Call
privately new_root (some true) = mount none new_root none (ms_private ∷ ms_rec ∷ []) none ∷ []
privately new_root none =
    mount (some new_root) new_root none (ms_private ∷ ms_bind ∷ ms_rec ∷ []) none ∷ []
privately new_root (some false) = []

-- The calls with the directory open.
abbrev pub enter_plan : Bytes → Fd → List Call
enter_plan new_root fd =
    pivot_root new_root new_root
    ∷ mount none root none (ms_slave ∷ ms_rec ∷ []) none
    ∷ umount2 root (mnt_detach ∷ [])
    ∷ fchdir fd
    ∷ []

module _ (kernel : Kernel) where
  -- The whole of a change of the root: it fails before the new root is open, with the calls up to
  -- then; or it runs the calls of `enter_plan` until one fails, and closes the directory in any case.
  abbrev pub Pivoted :
      Bytes → Option Bool → Run kernel → Result (Unit {0}) FsError × Run kernel → Type 0
  Pivoted new_root shared s (r, s') =
      ((x : FsError) × (r ≡ err x)
        × ((k : ℕ) × (s'.1
              ≡ s.1 ++ take k (privately new_root shared ++ open_directory new_root ∷ []))))
      ⊎ ((fd : Fd) × ((s1 : Run kernel) × ((s2 : Run kernel) × (s1.1
                ≡ s.1 ++ (privately new_root shared ++ open_directory new_root ∷ []))
              × Ran kernel (at_path new_root) (enter_plan new_root fd) s1 (r, s2)
              × (s'.1 ≡ s2.1 ++ close fd ∷ []))))
