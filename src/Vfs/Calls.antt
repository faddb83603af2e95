-- ===== src/Vfs/Calls.antt =====
-- Every history of the calls on files of src/kernel/VFS/VFS.c.
use amq_os.Vfs.{
  is_absolute, full_path, file_directory, is_root, Vfs, Filesystem, Operations, FileDescriptor,
  max_open_files, vfs_init, vfs_mount, set_root, find_filesystem, vfs_resolve_path, vfs_open,
  vfs_close, vfs_read, vfs_write, vfs_seek, vfs_chdir, vfs_register_filesystem, is_root,
}
use amq_os.Vfs.Files.{
  AllFine, IsValid, vfs_init-IsValid, Moves-IsValid, allocate_fd-cases, vfs_open-IsValid,
  vfs_close-IsValid, vfs_read-Moves, vfs_write-Moves, vfs_seek-Moves,
}
use amq_os.Prelude.{
  ℕ, ◌≤◌, ◌<◌, ◌≡◌, refl, sym, subst, ◌≢◌, ◌⊎◌, inl, inr, true, false, Option, none, some, List,
  leb, ◌==◌, if◌then◌else◌, Bool-cases, Option-cases, length, update_self, update_ne,
}

module _ {S N : Type 0} (o : Operations S N) where
  -- One call, with the state of the file system, which may also change in other ways.
  pub data Call (v : Vfs S N) : Vfs S N → Type 0 where
    register : (fs : Filesystem S N) → Call v (vfs_register_filesystem v fs).1
    mount :
        (s : S) (fs_type device mountpoint : List ℕ)
        → Call v (vfs_mount v s fs_type device mountpoint).1
    opened : (s : S) (path : List ℕ) (flags : ℕ) → Call v (vfs_open o v s path flags).1
    closed : (s : S) (fd : ℕ) → Call v (vfs_close o v s fd).1
    got : (s : S) (fd size : ℕ) → Call v (vfs_read o v s fd size).2
    put : (s : S) (fd : ℕ) (buffer : List ℕ) → Call v (vfs_write o v s fd buffer).1
    sought : (s : S) (fd offset whence : ℕ) → Call v (vfs_seek o v s fd offset whence).1
    moved_to : (s : S) (path : List ℕ) → Call v (vfs_chdir o v s path).1

  pub data Calls (v : Vfs S N) : Vfs S N → Type 0 where
    here : Calls v v
    next : {u w : Vfs S N} → Calls v u → Call u w → Calls v w

  register-table :
      (v : Vfs S N) (fs : Filesystem S N) → (vfs_register_filesystem v fs).1.fd_table ≡ v.fd_table
  unfolding vfs_register_filesystem
  register-table v fs = elim (Bool-cases (leb 16 (length v.filesystems))) [
    | inl e ↦ rw e refl
    | inr e ↦ rw e refl
  ]

  set_root-table : (v : Vfs S N) (r : Option N) → (set_root v r).1.fd_table ≡ v.fd_table
  set_root-table v none = refl
  set_root-table v (some n) = refl

  mount-table :
      (v : Vfs S N) (s : S) (fs_type device mountpoint : List ℕ)
      → (vfs_mount v s fs_type device mountpoint).1.fd_table ≡ v.fd_table
  unfolding vfs_mount
  mount-table v s fs_type device mountpoint =
      elim (Option-cases (find_filesystem v.filesystems fs_type)) [
        | inl e ↦ rw (vfs_mount, e) refl
        | inr (fs, e) ↦ elim (Bool-cases (fs.mount s device).0) [
          | inr f ↦ rw (vfs_mount, e, f) refl
          | inl f ↦ elim (Bool-cases (is_root mountpoint)) [
            | inr g ↦ rw (vfs_mount, e, f, g) refl
            | inl g ↦ rw (vfs_mount, e, f, g) (set_root-table v (fs.get_root (fs.mount s device).1))
          ]
        ]
      ]

  chdir-table :
      (v : Vfs S N) (s : S) (path : List ℕ) → (vfs_chdir o v s path).1.fd_table ≡ v.fd_table
  unfolding vfs_chdir
  chdir-table v s path =
      let p = if is_absolute path then path else full_path v.current_path path in
      elim (Option-cases (vfs_resolve_path o v s p)) [
        | inl e ↦ rw (vfs_chdir, e) refl
        | inr (n, e) ↦ elim (Bool-cases (o.type n == file_directory)) [
          | inl f ↦ rw (vfs_chdir, e, f) refl
          | inr f ↦ rw (vfs_chdir, e, f) refl
        ]
      ]

  Call-IsValid : {v w : Vfs S N} → Call v w → IsValid v → IsValid w
  Call-IsValid {v} (register fs) h = subst AllFine (sym (register-table v fs)) h
  Call-IsValid {v} (mount s t d m) h = subst AllFine (sym (mount-table v s t d m)) h
  Call-IsValid {v} (opened s path flags) h = vfs_open-IsValid o v s path flags h
  Call-IsValid {v} (closed s fd) h = vfs_close-IsValid o v s fd h
  Call-IsValid {v} (got s fd size) h = Moves-IsValid v fd _ (vfs_read-Moves o v s fd size) h
  Call-IsValid {v} (put s fd buffer) h = Moves-IsValid v fd _ (vfs_write-Moves o v s fd buffer) h
  Call-IsValid {v} (sought s fd offset whence) h =
      Moves-IsValid v fd _ (vfs_seek-Moves o v s fd offset whence) h
  Call-IsValid {v} (moved_to s path) h = subst AllFine (sym (chdir-table v s path)) h

  Calls-IsValid : {v w : Vfs S N} → Calls v w → IsValid v → IsValid w
  Calls-IsValid here h = h
  Calls-IsValid (next r c) h = Call-IsValid c (Calls-IsValid r h)

  -- After `vfs_init` and any sequence of calls, every open file has a number from 3 to 255 and a node,
  -- and for a path that resolves, `vfs_open` fails exactly if the 253 numbers are in use; otherwise it
  -- returns one that is not, under which the node stands at position 0, and the other files stay.
  pub open_files :
      (v0 v : Vfs S N) (s : S) (path : List ℕ) (flags : ℕ) (n : N)
      → Calls (vfs_init v0) v
      → vfs_resolve_path o v s path ≡ some n
      → IsValid v
        × ((((vfs_open o v s path flags).0 ≡ none)
              × ((i : ℕ) → 3 ≤ i → i < max_open_files → (v.fd_table i).used ≡ true))
            ⊎ ((fd : ℕ) × (3 ≤ fd)
                × (fd < max_open_files)
                × ((v.fd_table fd).used ≡ false)
                × ((vfs_open o v s path flags).0 ≡ some fd)
                × (((vfs_open o v s path flags).1.fd_table fd)
                    ≡ record { used = true; node = some n; position = 0; flags = flags })
                × ((i : ℕ) → i ≢ fd → (vfs_open o v s path flags).1.fd_table i ≡ v.fd_table i)))
  unfolding vfs_open
  open_files v0 v s path flags n r e = (
    Calls-IsValid r (vfs_init-IsValid v0),
    elim (allocate_fd-cases v) [
      | inl (f, full) ↦ inl (rw (vfs_open, e, f) refl, full)
      | inr (fd, f, lo, hi, u) ↦
          let file : FileDescriptor N = record {
            used = true;
            node = some n;
            position = 0;
            flags = flags;
          } in
          inr (
            fd,
            lo,
            hi,
            u,
            rw (vfs_open, e, f) refl,
            rw (vfs_open, e, f) (update_self v.fd_table fd file),
            λ i ne. rw (vfs_open, e, f) (update_ne v.fd_table fd file i (λ x. ne (sym x))),
          )
    ],
  )
