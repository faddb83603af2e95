-- ===== src/Tinyfs/Names.antt =====
-- The directory entries of src/kernel/VFS/tinyfs.c: what is created is found, and what unlinking does.
use amq_os.Prelude.{
  ℕ, zero, suc, ◌+◌, ◌-◌, ◌≤◌, ◌<◌, ◌≡◌, refl, sym, ap, ◌≢◌, inl, inr, Bool, true, false, not, none,
  some, List, [], ◌∷◌, arith, ◌==◌, u32, Bool-cases, Option-cases, length, take, update_self,
  update_ne, scan, scan-some, scan-first, scan-ne-none,
}
use amq_os.Tinyfs.{
  TinyfsData, Node, max_files, file_type_directory, same_str, is_entry, node_of, find_free_dirent,
  tinyfs_finddir,
}
use amq_os.Tinyfs.Disk.{
  Layout, Drive, write_loop, write_directory, tinyfs_create_node, tinyfs_unlink, new_dirent,
  with_dirent, keep_if, dir_sector,
}
use amq_os.Tinyfs.Persist.{IsWorking}

pub same_str_refl : (s : List ℕ) → same_str s s ≡ true
same_str_refl [] = refl
same_str_refl (c ∷ s) = ground (arith, same_str_refl s)

pub same_str-length : (s t : List ℕ) → same_str s t ≡ true → length s ≡ length t
same_str-length [] [] h = refl
same_str-length [] (d ∷ t) h = absurd (ground arith)
same_str-length (c ∷ s) [] h = absurd (ground arith)
same_str-length (c ∷ s) (d ∷ t) h = ground (arith, same_str-length s t)

pub take_all : (n : ℕ) (s : List ℕ) → length s ≤ n → take n s ≡ s
take_all zero [] h = refl
take_all zero (c ∷ s) h = absurd (omega arith)
take_all (suc n) [] h = refl
take_all (suc n) (c ∷ s) h = ap (λ t. c ∷ t) (take_all n s (omega arith))

write_loop-done :
    {Sector : Type 0} (rounds i start : ℕ) (content : ℕ → Sector) (v : Drive Sector)
    → IsWorking v
    → (write_loop rounds i start content v).0 ≡ true
unfolding write_loop
write_loop-done zero i start content v w = refl
write_loop-done (suc rounds) i start content v w =
    rw (w.writes (u32 (start + i))) (
      write_loop-done rounds (i + 1) start content _
        (record { reads = w.reads; writes = w.writes }))

keep_if-done :
    (L : Layout) (r : Bool × Drive L.Sector) (d : TinyfsData) (i : ℕ)
    → r.0 ≡ true
    → keep_if L r d i ≡ (true, d, r.1)
keep_if-done L (true, v) d i h = refl
keep_if-done L (false, v) d i h = absurd (ground arith)

pub scan-none :
    (test : ℕ → Bool) (from rounds j : ℕ)
    → scan test from rounds ≡ none
    → from ≤ j
    → j < from + rounds
    → test j ≡ false
scan-none test from rounds j h lo hi = elim (Bool-cases (test j)) [
  | inl e ↦ absurd (scan-ne-none test from rounds j lo hi e h)
  | inr e ↦ e
]

-- A lookup finds nothing only if no entry matches.
finddir-absent :
    (d : TinyfsData) (node : Node) (name : List ℕ)
    → (node.type == file_type_directory) ≡ true
    → tinyfs_finddir true d node name ≡ none
    → scan (is_entry d node.inode name) 0 max_files ≡ none
unfolding tinyfs_finddir
finddir-absent d node name dir h =
    elim (Option-cases (scan (is_entry d node.inode name) 0 max_files)) [
      | inl e ↦ e
      | inr (i, e) ↦ ground arith
    ]

-- The only entry of the directory with the name is the new one.
pub is_entry_new :
    (d : TinyfsData) (parent type i j : ℕ) (name : List ℕ)
    → scan (is_entry d parent name) 0 max_files ≡ none
    → j < max_files
    → is_entry (with_dirent d i (new_dirent name type parent)) parent name j ≡ true
    → j ≡ i
is_entry_new d parent type i j name absent small h = elim (Bool-cases (i == j)) [
  | inl e ↦ ground arith
  | inr e ↦ ground (arith, scan-none (is_entry d parent name) 0 max_files j absent)
]

pub is_entry_self :
    (d : TinyfsData) (parent type i : ℕ) (name : List ℕ)
    → length name < 32
    → is_entry (with_dirent d i (new_dirent name type parent)) parent name i ≡ true
is_entry_self d parent type i name short =
    rw
      (
        update_self d.dirents i (new_dirent name type parent),
        take_all 31 name (omega arith),
        same_str_refl name,
      )
      (ground arith)

pub finddir-new :
    (d : TinyfsData) (parent : Node) (name : List ℕ) (type i : ℕ)
    → (parent.type == file_type_directory) ≡ true
    → scan (is_entry d parent.inode name) 0 max_files ≡ none
    → i < max_files
    → length name < 32
    → let d' = with_dirent d i (new_dirent name type parent.inode) in
      tinyfs_finddir true d' parent name ≡ some (node_of d' i)
unfolding tinyfs_finddir
finddir-new d parent name type i dir absent small short =
    let d' = with_dirent d i (new_dirent name type parent.inode) in
    let test = is_entry d' parent.inode name in
    elim (Option-cases (scan test 0 max_files)) [
      | inl e ↦ absurd (
          scan-ne-none test 0 max_files i (omega arith) small
            (is_entry_self d parent.inode type i name short) e)
      | inr (j, e) ↦
          let found = scan-some test 0 max_files j e in
          let same = is_entry_new d parent.inode type i j name absent found.1 found.2 in
          rw (dir, e, same)
    ]

module _ (L : Layout) where
  -- On a working drive, creating a file or directory with a name of at most 31 bytes that the directory
  -- does not have yet, with an entry left, takes the first free entry behind the root's, leaves all others as they were,
  -- and a lookup of the name in that directory then finds it.
  pub tinyfs_finddir-tinyfs_create_node :
      (d : TinyfsData) (v : Drive L.Sector) (parent : Node) (name : List ℕ) (type i : ℕ)
      → IsWorking v
      → (parent.type == file_type_directory) ≡ true
      → tinyfs_finddir true d parent name ≡ none
      → find_free_dirent d ≡ some i
      → length name < 32
      → let (done, d', v') = tinyfs_create_node L d v parent name type in
        (done ≡ true)
        × (1 ≤ i)
        × (i < max_files)
        × ((d.dirents i).used ≡ false)
        × ((j : ℕ) → 1 ≤ j → j < i → (d.dirents j).used ≡ true)
        × (tinyfs_finddir true d' parent name ≡ some (node_of d' i))
        × ((d'.dirents i).is_directory ≡ (type == file_type_directory))
        × ((j : ℕ) → j ≢ i → d'.dirents j ≡ d.dirents j)
        × (d'.fat ≡ d.fat)
  unfolding tinyfs_create_node write_directory find_free_dirent
  tinyfs_finddir-tinyfs_create_node d v parent name type i w dir absent free short =
      let d' = with_dirent d i (new_dirent name type parent.inode) in
      let none_yet = finddir-absent d parent name dir absent in
      let bounds = scan-some (λ j. not (d.dirents j).used) 1 (max_files - 1) i free in
      let written = write_loop-done 90 0 d.sb.dir_start (dir_sector L d') v w in
      let kept = keep_if-done L (write_directory L d' v) d' i written in
      let found = finddir-new d parent name type i dir none_yet (omega (arith, bounds.1)) short in
      rw (dir, none_yet, free, kept)
        (
          refl,
          bounds.0,
          omega (arith, bounds.1),
          ground (arith, bounds.2),
          (λ j lo hi.
              ground
                (arith, scan-first (λ j. not (d.dirents j).used) 1 (max_files - 1) i j free lo hi)),
          found,
          ap (λ e. e.is_directory) (update_self d.dirents i (new_dirent name type parent.inode)),
          (λ j h. update_ne d.dirents i (new_dirent name type parent.inode) j (λ e. h (sym e))),
          refl,
        )

  -- `tinyfs_unlink` does not look at the directory that it is given: any two directories give the same
  -- result, the same file system and the same drive.
  pub unlink_ignores_directory :
      (d : TinyfsData) (v : Drive L.Sector) (p q : Node) (name : List ℕ)
      → p.type ≡ file_type_directory
      → q.type ≡ file_type_directory
      → tinyfs_unlink L d v p name ≡ tinyfs_unlink L d v q name
  unfolding tinyfs_unlink
  unlink_ignores_directory d v p q name a b = rw (a, b)

-- If every stored name has at most 31 bytes, as `strcpy_safe` cuts them, a name of 32 bytes or more is
-- found in no directory.
pub long_name-not_found :
    (alloc : Bool) (d : TinyfsData) (node : Node) (name : List ℕ)
    → ((i : ℕ) → length (d.dirents i).name ≤ 31)
    → 32 ≤ length name
    → tinyfs_finddir alloc d node name ≡ none
unfolding tinyfs_finddir
long_name-not_found alloc d node name short long =
    elim (Option-cases (scan (is_entry d node.inode name) 0 max_files)) [
      | inl e ↦ ground (arith, e)
      | inr (i, e) ↦
          let hit = (scan-some (is_entry d node.inode name) 0 max_files i e).2 in
          absurd (ground (arith, hit, same_str-length (d.dirents i).name name, short i))
    ]
