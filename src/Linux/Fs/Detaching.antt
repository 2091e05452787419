-- ===== src/Linux/Fs/Detaching.antt =====
-- Unmounting the old root does not reach the host.
use porkg.Base.{
  ℕ, ◌≡◌, refl, Bool, true, false, ◌&&◌, List, [], ◌∷◌, Option, none, some, Bytes, bytes_eq, Result,
  ok, err,
}
use porkg.Linux.{Kernel, Call, Errno, Fd, mount, umount2, open_directory, ms_slave, ms_rec, Run}
use porkg.Linux.Monitor.{
  performed, Follows, Adds, done-Adds, call-Adds, wrapped-Adds, resume-Adds, closed-Adds,
}
use porkg.Linux.Fs.{
  Procfs, FsError, at_path, root, calling, make_private, has_existing_shared_mount, enter, pivot,
}

-- The call that makes the mounts of the root, and those below, slaves of the host's.
abbrev enslaves : Call → Bool
enslaves (mount none path none (ms_slave ∷ ms_rec ∷ []) none) = bytes_eq path root
enslaves _ = false

abbrev succeeded : Result ℕ Errno → Bool
succeeded (ok n) = true
succeeded (err e) = false

-- Whether the last call was that one, and succeeded.
abbrev enslaved : Bool → Call → Result ℕ Errno → Bool
enslaved b c r = enslaves c && succeeded r

-- Only then may something be unmounted.
abbrev IsAllowed : Bool → Call → Type 0
IsAllowed b (umount2 path flags) = b ≡ true
IsAllowed b _ = Unit {0}

abbrev pub IsGuarded : (kernel : Kernel) → kernel.World → List Call → Type 0
IsGuarded kernel w calls = Follows kernel Bool enslaved IsAllowed false w calls

module _ (kernel : Kernel) where
  -- A program with such calls alone, and what is known where it succeeds.
  abbrev Guarded :
      {A E : Type 0} → (A → Bool → Type 0) → Bool → Run kernel → Result A E × Run kernel → Type 0
  Guarded P b s p = Adds kernel Bool enslaved IsAllowed P b s p

  abbrev Anything : {A : Type 0} → A → Bool → Type 0
  Anything a b = Unit {0}

  calling-Guarded :
      (P : Bool → Type 0) (b : Bool) (s : Run kernel) (path : Bytes) (c : Call)
      → IsAllowed b c
      → P (enslaves c && true)
      → Guarded (λ _. P) b s (calling kernel path c s)
  calling-Guarded P b s path c allowed h =
      resume-Adds kernel Bool enslaved IsAllowed (λ _. P) (λ _. P) b s _ _
        (wrapped-Adds kernel Bool enslaved IsAllowed (λ _. P) (at_path path) b s _
          (call-Adds kernel Bool enslaved IsAllowed (λ _. P) b s c allowed (λ n. h)))
        (λ _ m' post.
          done-Adds kernel Bool enslaved IsAllowed {E = FsError} (λ _. P) m' _ (ok tt) post)

  make_private-Guarded :
      (new_root : Bytes) (shared : Option Bool) (s : Run kernel)
      → Guarded Anything false s (make_private kernel new_root shared s)
  make_private-Guarded new_root none s = calling-Guarded (λ _. Unit) false s new_root _ tt tt
  make_private-Guarded new_root (some true) s = calling-Guarded (λ _. Unit) false s new_root _ tt tt
  make_private-Guarded new_root (some false) s =
      done-Adds kernel Bool enslaved IsAllowed {E = FsError} Anything false s (ok tt) tt

  enter-Guarded :
      (new_root : Bytes) (fd : Fd) (b : Bool) (s : Run kernel)
      → Guarded Anything b s (enter kernel new_root fd s)
  unfolding enter
  enter-Guarded new_root fd b s =
      resume-Adds kernel Bool enslaved IsAllowed Anything Anything b s _ _
        (calling-Guarded (λ _. Unit) b s new_root _ tt tt)
        (λ _ b1 _.
          resume-Adds kernel Bool enslaved IsAllowed (λ _ b2. b2 ≡ true) Anything b1 _ _ _
            (calling-Guarded (λ b2. b2 ≡ true) b1 _ new_root _ tt refl)
            (λ _ b2 safe.
              resume-Adds kernel Bool enslaved IsAllowed Anything Anything b2 _ _ _
                (calling-Guarded (λ _. Unit) b2 _ new_root _ safe tt)
                (λ _ b3 _.
                  resume-Adds kernel Bool enslaved IsAllowed Anything Anything b3 _ _ _
                    (calling-Guarded (λ _. Unit) b3 _ new_root _ tt tt)
                    (λ _ b4 _.
                      done-Adds kernel Bool enslaved IsAllowed {E = FsError} Anything b4 _ (ok tt)
                        tt))))

  pivot-Guarded :
      (procfs : Procfs) (new_root : Bytes) (s : Run kernel)
      → Guarded Anything false s (pivot kernel procfs new_root s)
  unfolding pivot
  pivot-Guarded procfs new_root s =
      resume-Adds kernel Bool enslaved IsAllowed Anything Anything false s _ _
        (make_private-Guarded new_root (has_existing_shared_mount procfs new_root) s)
        (λ _ b1 _.
          resume-Adds kernel Bool enslaved IsAllowed Anything Anything b1 _ _ _
            (wrapped-Adds kernel Bool enslaved IsAllowed Anything (at_path new_root) b1 _ _ (
              call-Adds kernel Bool enslaved IsAllowed Anything b1 _ (open_directory new_root) tt
                (λ _. tt)))
            (λ fd b2 _.
              closed-Adds kernel Bool enslaved IsAllowed Anything Anything b2 _ fd _ (λ _. tt)
                (λ _ _ _ _. tt) (enter-Guarded new_root fd b2 _)))

-- Whatever the kernel answers: the kernel's world after `pivot` is that after the calls listed, one
-- after the other, and `pivot` unmounts something only if the call directly before it was the one
-- that makes the root and all mounts below it slaves, and the kernel answered that with success; so
-- the unmount cannot go through to the host.
pub pivot-IsGuarded :
    (kernel : Kernel) (procfs : Procfs) (new_root : Bytes) (w : kernel.World)
    → let s = (pivot kernel procfs new_root (w, [])).1 in
      (s.0 ≡ performed kernel s.1 w) × IsGuarded kernel w s.1
pivot-IsGuarded kernel procfs new_root w =
    let (added, made, world, follows, _) = pivot-Guarded kernel procfs new_root (w, []) in
    rw made (world, follows)
