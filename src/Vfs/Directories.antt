-- ===== src/Vfs/Directories.antt =====
-- `vfs_create`, `vfs_mkdir` and `vfs_resolve_path` of src/kernel/VFS/VFS.c over a file system that keeps
-- what it has when it creates a name.
use amq_os.Vfs.{create_in, Vfs, Operations, file_directory, vfs_finddir}
use amq_os.Prelude.{ℕ, ◌≡◌, true, some, List, ◌==◌}

-- What creating a name must do to a file system: the name is then found in the directory, as a directory
-- exactly if that was asked for, and what was found before is found still.
pub record CreateLaw {S N : Type 0} (o : Operations S N) (Fits : List ℕ → Type 0) : Type 0 where
  pub created :
      (s s' : S) (d : N) (name : List ℕ) (type permissions : ℕ)
      → Fits name
      → create_in o s (some d) name type permissions ≡ (true, s')
      → (n : N) × (vfs_finddir o s' d name ≡ some n)
        × ((o.type n == file_directory) ≡ (type == file_directory))
  pub kept :
      (s s' : S) (d : N) (name : List ℕ) (type permissions : ℕ)
      → Fits name
      → create_in o s (some d) name type permissions ≡ (true, s')
      → (e m : N) (t : List ℕ) → vfs_finddir o s e t ≡ some m
      → vfs_finddir o s' e t ≡ some m
