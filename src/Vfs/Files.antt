-- ===== src/Vfs/Files.antt =====
-- The table of open files of src/kernel/VFS/VFS.c.
use amq_os.Prelude.{
  ℕ, ◌+◌, ◌≤◌, ◌<◌, ◌≡◌, refl, sym, subst, ◌≢◌, ◌⊎◌, inl, inr, Bool, true, false, not, Option, none,
  some, List, arith, ltb, ◌==◌, u32, Bool-cases, Option-cases, update, update_self, update_ne, scan,
  scan-some, scan-ne-none,
}
use amq_os.Vfs.{
  node_read, node_write, Vfs, Operations, FileDescriptor, max_open_files, vfs_init, allocate_fd,
  is_open, set_file, vfs_resolve_path, vfs_open, vfs_close, vfs_read, moved, vfs_seek, vfs_write,
  seek_to,
}

-- A file in use has a number from 3 on and a node.
abbrev pub IsFine : {N : Type 0} → FileDescriptor N → ℕ → Type 0
IsFine f i = f.used ≡ true → (3 ≤ i) × (f.node ≢ none)

abbrev pub AllFine : {N : Type 0} → (ℕ → FileDescriptor N) → Type 0
AllFine t = (i : ℕ) → i < max_open_files → IsFine (t i) i

module _ {S N : Type 0} where
  abbrev pub IsValid : Vfs S N → Type 0
  IsValid v = AllFine v.fd_table

  pub vfs_init-IsValid : (v : Vfs S N) → IsValid (vfs_init v)
  unfolding vfs_init
  vfs_init-IsValid v i l = rw below (λ u. absurd (ground (arith, u)))
    where
      below : ltb i max_open_files ≡ true
      below = ground arith

  pub set_file-IsValid :
      (v : Vfs S N) (fd : ℕ) (f : FileDescriptor N)
      → IsFine f fd
      → IsValid v
      → IsValid (set_file v fd f)
  set_file-IsValid v fd f h w i l = elim (Bool-cases (fd == i)) [
    | inl e ↦
        let same : fd ≡ i = ground arith in
        subst (λ j. IsFine (update v.fd_table fd f j) j) same
          (subst (λ x. IsFine x fd) (sym (update_self v.fd_table fd f)) h)
    | inr e ↦
        let ne : fd ≢ i = ground arith in
        subst (λ x. IsFine x i) (sym (update_ne v.fd_table fd f i ne)) (w i l)
  ]

  -- A call that changes nothing, or the position of a file that is open.
  abbrev Moves : Vfs S N → ℕ → Vfs S N → Type 0
  Moves v fd v' =
      (v' ≡ v)
      ⊎ ((p : ℕ) × (is_open v fd ≡ true)
          × (v' ≡ set_file v fd (record (v.fd_table fd) { position = p })))

  pub Moves-IsValid : (v : Vfs S N) (fd : ℕ) (v' : Vfs S N) → Moves v fd v' → IsValid v → IsValid v'
  Moves-IsValid v fd v' (inl e) w = subst IsValid (sym e) w
  Moves-IsValid v fd v' (inr (p, e, f)) w =
      subst IsValid (sym f) (set_file-IsValid v fd _ (λ u. w fd (ground (arith, e)) u) w)

  moved-Moves :
      (v : Vfs S N) (fd : ℕ) (count : Option ℕ)
      → is_open v fd ≡ true
      → Moves v fd (set_file v fd (moved (v.fd_table fd) count))
  moved-Moves v fd none e = inr ((v.fd_table fd).position, e, refl)
  moved-Moves v fd (some k) e = inr (u32 ((v.fd_table fd).position + k), e, refl)

  -- What `allocate_fd` finds, and that it fails only on a full table.
  pub allocate_fd-cases :
      (v : Vfs S N)
      → ((allocate_fd v ≡ none)
          × ((i : ℕ) → 3 ≤ i → i < max_open_files → (v.fd_table i).used ≡ true))
        ⊎ ((fd : ℕ) × (allocate_fd v ≡ some fd)
            × (3 ≤ fd)
            × (fd < max_open_files)
            × ((v.fd_table fd).used ≡ false))
  unfolding allocate_fd
  allocate_fd-cases v =
      let test : ℕ → Bool = λ i. not (v.fd_table i).used in
      elim (Option-cases (scan test 3 253)) [
        | inl e ↦ inl (
          e,
          λ i lo hi. elim (Bool-cases (v.fd_table i).used) [
            | inl u ↦ u
            | inr u ↦ absurd (scan-ne-none test 3 253 i lo hi (ground (arith, u)) e)
          ],
        )
        | inr (fd, e) ↦
            let hit = scan-some test 3 253 fd e in inr (fd, e, hit.0, hit.1, ground (arith, hit.2))
      ]

  module _ (o : Operations S N) where
    pub vfs_open-IsValid :
        (v : Vfs S N) (s : S) (path : List ℕ) (flags : ℕ)
        → IsValid v
        → IsValid (vfs_open o v s path flags).1
    unfolding vfs_open
    vfs_open-IsValid v s path flags w = elim (Option-cases (vfs_resolve_path o v s path)) [
      | inl e ↦ rw (vfs_open, e) w
      | inr (n, e) ↦ elim (allocate_fd-cases v) [
        | inl (f, _) ↦ rw (vfs_open, e, f) w
        | inr (fd, f, lo, hi, u) ↦
            rw (vfs_open, e, f) (set_file-IsValid v fd _ (λ _. (lo, λ z. ground (arith, z))) w)
      ]
    ]

    pub vfs_close-IsValid :
        (v : Vfs S N) (s : S) (fd : ℕ) → IsValid v → IsValid (vfs_close o v s fd).1
    unfolding vfs_close
    vfs_close-IsValid v s fd w = elim (Bool-cases (is_open v fd)) [
      | inr e ↦ rw e w
      | inl e ↦ rw e (set_file-IsValid v fd _ (λ u. absurd (ground (arith, u))) w)
    ]

    pub vfs_read-Moves : (v : Vfs S N) (s : S) (fd size : ℕ) → Moves v fd (vfs_read o v s fd size).2
    unfolding vfs_read
    vfs_read-Moves v s fd size = elim (Bool-cases (is_open v fd)) [
      | inr e ↦ inl (rw e refl)
      | inl e ↦
          subst (Moves v fd) (sym (rw e refl)) (
            moved-Moves v fd (node_read o s (v.fd_table fd).node size (v.fd_table fd).position).0 e)
    ]

    pub vfs_write-Moves :
        (v : Vfs S N) (s : S) (fd : ℕ) (buffer : List ℕ) → Moves v fd (vfs_write o v s fd buffer).1
    unfolding vfs_write
    vfs_write-Moves v s fd buffer = elim (Bool-cases (is_open v fd)) [
      | inr e ↦ inl (rw e refl)
      | inl e ↦ subst (Moves v fd) (sym (rw e refl)) (
          moved-Moves v fd (node_write o s (v.fd_table fd).node buffer (v.fd_table fd).position).0
            e)
    ]

    pub vfs_seek-Moves :
        (v : Vfs S N) (s : S) (fd offset whence : ℕ)
        → Moves v fd (vfs_seek o v s fd offset whence).1
    unfolding vfs_seek
    vfs_seek-Moves v s fd offset whence = elim (Bool-cases (is_open v fd)) [
      | inr e ↦ inl (rw e refl)
      | inl e ↦ elim (Option-cases (seek_to o s (v.fd_table fd) offset whence)) [
        | inl f ↦ inl (rw (e, f) refl)
        | inr (p, f) ↦ inr (p, e, rw (e, f) refl)
      ]
    ]
