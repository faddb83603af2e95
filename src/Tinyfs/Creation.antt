-- ===== src/Tinyfs/Creation.antt =====
-- The law of creation of src/kernel/VFS/VFS.c for the operations of src/kernel/VFS/tinyfs.c.
use amq_os.Tinyfs.Names.{finddir-new}
use amq_os.Prelude.{
  ℕ, ◌-◌, ◌<◌, ◌≡◌, refl, sym, ap, ◌∙◌, inl, inr, true, not, none, some, List, arith, ◌==◌,
  Bool-cases, length, update_self, scan, scan-some,
}
use amq_os.Tinyfs.{
  Node, tinyfs_finddir, find_free_dirent, is_entry, max_files, node_of, file_type_directory,
}
use amq_os.Tinyfs.Disk.{Layout, with_dirent, new_dirent}
use amq_os.Vfs.Directories.{CreateLaw}
use amq_os.Tinyfs.Writing.{RawBytes}
use amq_os.Vfs.{Operations, create_in, vfs_finddir}
use amq_os.Tinyfs.Mounted.{Volume, tinyfs_vfs_ops}
use amq_os.Tinyfs.Created.{
  finddir-found, finddir_at, node_of-same, is_directory-type, scan-new, create_node-done,
}

-- Names that fit into an entry.
abbrev pub FitsEntry : List ℕ → Type 0
FitsEntry name = length name < 32

module _ (L : Layout) (w : RawBytes L.Sector) where
  abbrev ops : Operations (Volume L.Sector) Node
  ops = tinyfs_vfs_ops L w

  finddir_as :
      (s : Volume L.Sector) (d : Node) (t : List ℕ)
      → vfs_finddir ops s d t ≡ tinyfs_finddir true s.tables d t
  unfolding vfs_finddir tinyfs_finddir
  finddir_as s d t = elim (Bool-cases (d.type == file_type_directory)) [
    | inl e ↦ rw e refl
    | inr e ↦ rw e refl
  ]

  -- What a creation through the table of operations has done.
  create_in-done :
      (s s' : Volume L.Sector) (d : Node) (name : List ℕ) (type permissions : ℕ)
      → create_in ops s (some d) name type permissions ≡ (true, s')
      → (i : ℕ) × ((d.type == file_type_directory) ≡ true)
        × (scan (is_entry s.tables d.inode name) 0 max_files ≡ none)
        × (find_free_dirent s.tables ≡ some i)
        × (s'.tables ≡ with_dirent s.tables i (new_dirent name type d.inode))
  create_in-done s s' d name type permissions c =
      elim (Bool-cases (d.type == file_type_directory)) [
        | inr e ↦ absurd (ground (arith, ap (λ r. r.0) (rw e at c)))
        | inl e ↦
            let c' = rw e at c in
            let (i, g, k, r) = create_node-done L s.tables s.drive d name type (ap (λ r. r.0) c') in
            (i, e, g, k, sym (ap (λ r. r.1.tables) c') ∙ r)
      ]

  -- Creation in tinyfs keeps the law of the file systems of src/kernel/VFS/VFS.c, for names of at most 31
  -- bytes.
  pub tinyfs_vfs_ops-CreateLaw : CreateLaw (tinyfs_vfs_ops L w) FitsEntry
  unfolding find_free_dirent
  tinyfs_vfs_ops-CreateLaw = record {
    created = λ s s' d name type permissions fit c.
        let (i, dir, absent, free, same) = create_in-done s s' d name type permissions c in
        let t = s.tables in
        let new = new_dirent name type d.inode in
        let d' = with_dirent t i new in
        let vacant = scan-some (λ k. not (t.dirents k).used) 1 (max_files - 1) i free in
        let found = finddir-new t d name type i dir absent (omega (arith, vacant.1)) fit in
        (
          node_of d' i,
          finddir_as s' d name ∙ ap (λ u. tinyfs_finddir true u d name) same ∙ found,
          is_directory-type (d'.dirents i).is_directory
              ∙ ap (λ x. x.is_directory) (update_self t.dirents i new),
        );
    kept = λ s s' d name type permissions fit c e m t f.
        let (i, dir, absent, free, same) = create_in-done s s' d name type permissions c in
        let d' = with_dirent s.tables i (new_dirent name type d.inode) in
        let (j, is, g, n) = finddir-found s.tables e m t (sym (finddir_as s e t) ∙ f) in
        let (g', as_before) = scan-new s.tables d.inode type i name absent free fit e.inode j t g in
        finddir_as s' e t
        ∙ ap (λ u. tinyfs_finddir true u e t) same
        ∙ finddir_at d' e t j is g'
        ∙ ap some (node_of-same s.tables d' j as_before ∙ n);
  }
