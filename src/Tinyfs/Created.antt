-- ===== src/Tinyfs/Created.antt =====
-- The entry that tinyfs_create_node of src/kernel/VFS/tinyfs.c fills, and lookups behind it.
use amq_os.Tinyfs.Names.{take_all, scan-none}
use amq_os.Prelude.{
  ℕ, ◌-◌, ◌<◌, ◌≡◌, refl, sym, ap, ◌∙◌, subst, ◌≢◌, inl, inr, Bool, true, false, not, none, some,
  List, [], ◌∷◌, arith, ◌==◌, if◌then◌else◌, Bool-cases, Option-cases, length, take, update_self,
  update_ne, scan, scan-some, scan-first, scan_is,
}
use amq_os.Tinyfs.{
  strcpy_safe, file_type_regular, Dirent, TinyfsData, Node, tinyfs_finddir, find_free_dirent,
  is_entry, max_files, node_of, file_type_directory, same_str,
}
use amq_os.Tinyfs.Disk.{
  Layout, Drive, tinyfs_create_node, with_dirent, new_dirent, keep_if, write_directory,
}
use amq_os.Vfs.{file_directory}

some-injective : {A : Type 0} {a b : A} → some a ≡ some b → a ≡ b
some-injective {A} {a} {b} e = ap (λ o. elim o [ none ↦ a | some x ↦ x ]) e

same_str-eq : (s t : List ℕ) → same_str s t ≡ true → s ≡ t
same_str-eq [] [] h = refl
same_str-eq [] (d ∷ t) h = absurd (ground arith)
same_str-eq (c ∷ s) [] h = absurd (ground arith)
same_str-eq (c ∷ s) (d ∷ t) h =
    let same : c ≡ d = ground arith in
    (λ i. same i ∷ s) ∙ ap (λ q. d ∷ q) (same_str-eq s t (ground arith))

keep_if-true :
    (L : Layout) (r : Bool × Drive L.Sector) (d : TinyfsData) (i : ℕ)
    → (keep_if L r d i).0 ≡ true
    → (keep_if L r d i).1 ≡ d
keep_if-true L (true, v) d i h = refl
keep_if-true L (false, v) d i h = absurd (ground arith)

-- What a lookup that finds an entry has found.
pub finddir-found :
    (d : TinyfsData) (node m : Node) (t : List ℕ)
    → tinyfs_finddir true d node t ≡ some m
    → (j : ℕ) × ((node.type == file_type_directory) ≡ true)
      × (scan (is_entry d node.inode t) 0 max_files ≡ some j)
      × (node_of d j ≡ m)
unfolding tinyfs_finddir
finddir-found d node m t e = elim (Bool-cases (node.type == file_type_directory)) [
  | inr f ↦ absurd (ground (arith, f, e))
  | inl f ↦ elim (Option-cases (scan (is_entry d node.inode t) 0 max_files)) [
    | inl g ↦ absurd (ground (arith, f, g, e))
    | inr (j, g) ↦ (j, f, g, some-injective (rw (f, g) at e))
  ]
]

pub finddir_at :
    (d : TinyfsData) (node : Node) (t : List ℕ) (j : ℕ)
    → (node.type == file_type_directory) ≡ true
    → scan (is_entry d node.inode t) 0 max_files ≡ some j
    → tinyfs_finddir true d node t ≡ some (node_of d j)
unfolding tinyfs_finddir
finddir_at d node t j e f = rw (e, f) refl

pub node_of-same :
    (d d' : TinyfsData) (j : ℕ) → d'.dirents j ≡ d.dirents j → node_of d' j ≡ node_of d j
node_of-same d d' j e = ap from_entry e
  where
    from_entry : Dirent → Node
    from_entry x = record {
      name = strcpy_safe x.name 256;
      type = if x.is_directory then file_type_directory else file_type_regular;
      permissions = 3;
      size = x.size;
      inode = j;
      entry = some j;
    }

pub is_directory-type :
    (b : Bool) → ((if b then file_type_directory else file_type_regular) == file_directory) ≡ b
is_directory-type true = refl
is_directory-type false = refl

-- The new entry is found only in its directory and by its name.
new_entry-matches :
    (d : TinyfsData) (parent type i : ℕ) (name : List ℕ) (p : ℕ) (t : List ℕ)
    → length name < 32
    → is_entry (with_dirent d i (new_dirent name type parent)) p t i ≡ true
    → (parent ≡ p) × (name ≡ t)
new_entry-matches d parent type i name p t short h =
    let at = rw (update_self d.dirents i (new_dirent name type parent)) at h in
    let whole = take_all 31 name (omega arith) in
    (ground (arith, at), sym whole ∙ same_str-eq (take 31 name) t (ground (arith, at)))

-- A new entry with a name of at most 31 bytes that its directory does not have hides no other one.
pub scan-new :
    (d : TinyfsData) (parent type i : ℕ) (name : List ℕ)
    → scan (is_entry d parent name) 0 max_files ≡ none
    → find_free_dirent d ≡ some i
    → length name < 32
    → (p j : ℕ) (t : List ℕ) → scan (is_entry d p t) 0 max_files ≡ some j
    → let d' = with_dirent d i (new_dirent name type parent) in
      (scan (is_entry d' p t) 0 max_files ≡ some j) × (d'.dirents j ≡ d.dirents j)
unfolding find_free_dirent
scan-new d parent type i name absent free short p j t found =
    let d' = with_dirent d i (new_dirent name type parent) in
    let hit = scan-some (is_entry d p t) 0 max_files j found in
    let vacant = scan-some (λ k. not (d.dirents k).used) 1 (max_files - 1) i free in
    let ne : i ≢ j = λ x. used_twice i j x hit.2 vacant.2 in
    let same = update_ne d.dirents i (new_dirent name type parent) j ne in
    (
      scan_is (is_entry d' p t) 0 max_files j hit.0 hit.1 (rw same hit.2) (λ k lo l.
          elim (Bool-cases (i == k)) [
            | inl e ↦
                let same : i ≡ k = ground arith in
                subst (λ k. is_entry d' p t k ≡ false) same
                  (elim (Bool-cases (is_entry d' p t i)) [
                    | inr f ↦ f
                    | inl f ↦
                        let (a, b) = new_entry-matches d parent type i name p t short f in
                        absurd (
                          ground (
                            arith,
                            hit.2,
                            subst (λ q. is_entry d q t j ≡ false) a
                                (subst (λ s. is_entry d parent s j ≡ false) b
                                  (scan-none (is_entry d parent name) 0 max_files j absent hit.0
                                    hit.1)),
                          ))
                  ])
            | inr e ↦
                let other = update_ne d.dirents i (new_dirent name type parent) k (ground arith) in
                rw other (scan-first (is_entry d p t) 0 max_files j k found lo l)
          ]),
      same,
    )
  where
    used_twice : (i j : ℕ) → i ≡ j → is_entry d p t j ≡ true → not (d.dirents i).used ≡ true → ⊥
    used_twice i j x a b = ground (arith, subst (λ k. not (d.dirents k).used ≡ true) x b)

-- `tinyfs_create_node` that succeeds has filled the first free entry.
pub create_node-done :
    (L : Layout) (d : TinyfsData) (v : Drive L.Sector) (parent : Node) (name : List ℕ) (type : ℕ)
    → (tinyfs_create_node L d v parent name type).0 ≡ true
    → (i : ℕ) × (scan (is_entry d parent.inode name) 0 max_files ≡ none)
      × (find_free_dirent d ≡ some i)
      × ((tinyfs_create_node L d v parent name type).1
          ≡ with_dirent d i (new_dirent name type parent.inode))
unfolding tinyfs_create_node
create_node-done L d v parent name type h = elim (Bool-cases (parent.type == file_type_directory)) [
  | inr f ↦ absurd (ground (arith, rw f at h))
  | inl f ↦ elim (Option-cases (scan (is_entry d parent.inode name) 0 max_files)) [
    | inr (j, g) ↦ absurd (ground (arith, rw (f, g) at h))
    | inl g ↦ elim (Option-cases (find_free_dirent d)) [
      | inl k ↦ absurd (ground (arith, rw (f, g, k) at h))
      | inr (i, k) ↦
          let d' = with_dirent d i (new_dirent name type parent.inode) in
          (i, g, k, rw (f, g, k) (keep_if-true L (write_directory L d' v) d' i (rw (f, g, k) at h)))
    ]
  ]
]
