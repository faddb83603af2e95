-- ===== src/Vfs/Cwd.antt =====
-- The current directory of src/kernel/VFS/VFS.c and its path.
use amq_os.Vfs.{Vfs, Operations, file_directory, is_absolute, vfs_resolve_path, with_slash}
use amq_os.Prelude.{ℕ, ◌≤◌, ◌≡◌, ◌⊎◌, Bool, true, false, Option, none, some, List, ◌==◌, length}

-- The given path is absolute, or there is room for a slash behind the current one.
abbrev pub IsRoomy : List ℕ → List ℕ → Type 0
IsRoomy current path = (is_absolute path ≡ true) ⊎ (length (with_slash current) ≤ 255)

module _ {S N : Type 0} (o : Operations S N) (v : Vfs S N) (root : N)
    (at : v.root_node ≡ some root) where
  abbrev pub IsNoDirectory : Option N → Type 0
  IsNoDirectory none = Unit
  IsNoDirectory (some n) = (o.type n == file_directory) ≡ false

  -- What a call of `vfs_chdir` does, for what the path leads to.
  abbrev pub Chdir : S → Option N → Bool × Vfs S N → Type 0
  Chdir s target r =
      ((r.0 ≡ false) × (r.1 ≡ v) × IsNoDirectory target)
      ⊎ ((n : N) × (r.0 ≡ true)
          × (target ≡ some n)
          × (r.1.current_dir ≡ some n)
          × ((o.type n == file_directory) ≡ true)
          × (vfs_resolve_path o r.1 s r.1.current_path ≡ some n)
          × (length r.1.current_path ≤ 255)
          × (r.1.root_node ≡ v.root_node))
