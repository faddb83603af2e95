-- ===== src/Vfs.antt =====
-- src/kernel/VFS/VFS.c and includes/vfs.h: paths, open files and directories over the operations of a
-- file system. Strings are the characters before the NUL. A number for a file that is negative is one
-- that is out of range. The arrays of a path are taken to be long enough for it.
pub mod Paths
pub mod Files
pub mod Calls
pub mod Reading
pub mod Slashes
pub mod Directories
pub mod Cwd
use amq_os.Prelude.{
  ℕ, zero, suc, ◌+◌, ◌-◌, ◌*◌, ◌/◌, ◌%◌, ◌^◌, ◌≤◌, ◌<◌, ◌≡◌, refl, sym, ap, ◌∙◌, subst, ◌≢◌, ◌↔◌,
  ◌⊎◌, inl, inr, Bool, true, false, not, ◌&&◌, ◌||◌, Option, none, some, List, [], ◌∷◌, ◌++◌, map,
  arith, ltb, leb, ◌==◌, if◌then◌else◌, u8, u16, u32, u64, sub16, sub32, sub64, Bool-cases,
  Option-cases, ==_iff, length, take, drop, update, update_self, update_ne, scan, scan-some,
  scan-first, scan-ne-none, contains, Distinct, without, AllBelow, contains-ne, without-absent,
  contains-without, without-Distinct, contains-append, append-Distinct, length-le_bound, replicate,
  length-append, length-take, length-drop, length-replicate, take-append-drop, get_elem?, get_or,
  if_both, contains-join, scan_is, Distinct-split,
}

-- `vfs_operations_t` and the fields of a node that this layer reads; `none` is a NULL among the pointers
-- that lead to the operation. The state of a file system is `S`, its nodes are `N`.
pub record Operations (S N : Type 0) : Type 0 where
  pub type : N → ℕ
  pub size : S → N → ℕ
  pub open_op : N → Option (S → ℕ → S)
  pub close_op : N → Option (S → S)
  -- The bytes are given back with their number, which is `none` for a negative result.
  pub read : N → Option (S → ℕ → ℕ → Option ℕ × List ℕ)
  pub write : N → Option (S → List ℕ → ℕ → Option ℕ × S)
  pub readdir : N → Option (S → ℕ → Option N)
  pub finddir : N → Option (S → List ℕ → Option N)
  -- The result is true for 0.
  pub create : N → Option (S → List ℕ → ℕ → ℕ → Bool × S)
  pub unlink : N → Option (S → List ℕ → Bool × S)

-- `filesystem_t` with the operations that this layer calls.
pub record Filesystem (S N : Type 0) : Type 0 where
  pub name : List ℕ
  pub mount : S → List ℕ → Bool × S
  pub get_root : S → Option N

abbrev pub max_open_files : ℕ
max_open_files = 256

-- `MAX_FILENAME`
abbrev pub max_filename : ℕ
max_filename = 256

abbrev pub file_regular : ℕ
file_regular = 1

abbrev pub file_directory : ℕ
file_directory = 2

abbrev pub slash : ℕ
slash = 47

-- `file_descriptor_t`
pub record FileDescriptor (N : Type 0) : Type 0 where
  pub used : Bool
  pub node : Option N
  pub position : ℕ
  pub flags : ℕ

-- The variables of the layer; a file system that is registered is never NULL.
pub record Vfs (S N : Type 0) : Type 0 where
  pub root_node : Option N
  pub current_dir : Option N
  pub current_path : List ℕ
  pub fd_table : ℕ → FileDescriptor N
  pub filesystems : List (Filesystem S N)

-- Whether `s` starts with a slash, and whether it is "/".
abbrev pub is_absolute : List ℕ → Bool
is_absolute [] = false
is_absolute (c ∷ s) = c == slash

abbrev pub is_root : List ℕ → Bool
is_root [] = false
is_root (c ∷ []) = c == slash
is_root (c ∷ d ∷ s) = false

-- `str_cmp(s, t) == 0`
abbrev pub str_eq : List ℕ → List ℕ → Bool
str_eq [] [] = true
str_eq [] (d ∷ t) = false
str_eq (c ∷ s) [] = false
str_eq (c ∷ s) (d ∷ t) = if c == d then str_eq s t else false

-- The loop of `tokenize_path` with the token that is being read; a token is cut after 255 characters.
unfoldable pub tokens_from : List ℕ → List ℕ → List (List ℕ)
tokens_from [] token = if length token == 0 then [] else token ∷ []
tokens_from (c ∷ s) token =
    let next = tokens_from s [] in
    let more =
      tokens_from s (if ltb (length token) (max_filename - 1) then token ++ c ∷ [] else token) in
    if c == slash then if length token == 0 then next else token ∷ next else more

unfoldable pub tokenize_path : List ℕ → List (List ℕ)
unfolding tokens_from
tokenize_path path = tokens_from (if is_absolute path then drop 1 path else path) []

-- The index of the last slash of `s`, which starts at index `i`, or what was found before.
unfoldable pub last_slash : List ℕ → ℕ → Option ℕ → Option ℕ
last_slash [] i found = found
last_slash (c ∷ s) i found = last_slash s (i + 1) (if c == slash then some i else found)

-- The path up to the last slash, at `i`, and the name behind it.
abbrev pub parent_path : List ℕ → ℕ → List ℕ
parent_path path i = if i == 0 then slash ∷ [] else take i path

abbrev pub name_in : List ℕ → ℕ → List ℕ
name_in path i = take (max_filename - 1) (drop (i + 1) path)

-- The path that `vfs_chdir` builds from a relative one, in at most 255 characters. Where a current path
-- of 255 has no slash at its end, the list has 256: the code writes behind its array there.
abbrev pub with_slash : List ℕ → List ℕ
with_slash [] = []
with_slash (c ∷ []) = if c == slash then c ∷ [] else c ∷ slash ∷ []
with_slash (c ∷ d ∷ s) = c ∷ with_slash (d ∷ s)

abbrev pub full_path : List ℕ → List ℕ → List ℕ
full_path current path =
    let start = with_slash (take 255 current) in
    if is_absolute path then take 255 path else start ++ take (255 - length start) path

-- A slash at the end is dropped, unless it is the whole path.
abbrev pub drop_last_slash : List ℕ → List ℕ
drop_last_slash [] = []
drop_last_slash (c ∷ []) = c ∷ []
drop_last_slash (c ∷ d ∷ []) = if d == slash then c ∷ [] else c ∷ d ∷ []
drop_last_slash (c ∷ d ∷ e ∷ s) = c ∷ drop_last_slash (d ∷ e ∷ s)

abbrev pub no_file : {N : Type 0} → FileDescriptor N
no_file = record { used = false; node = none; position = 0; flags = 0 }

-- The position moves by what was read or written, if that is positive.
abbrev pub moved : {N : Type 0} → FileDescriptor N → Option ℕ → FileDescriptor N
moved f none = f
moved f (some k) = record f { position = u32 (f.position + k) }

module _ {S N : Type 0} where
  -- `vfs_init`; the current directory and its path stay.
  unfoldable pub vfs_init : Vfs S N → Vfs S N
  vfs_init v = record v {
    root_node = none;
    fd_table = λ i. if ltb i max_open_files then no_file else v.fd_table i;
    filesystems = [];
  }

  -- True for 0.
  unfoldable pub vfs_register_filesystem : Vfs S N → Filesystem S N → Bool × Vfs S N
  vfs_register_filesystem v fs =
      if leb 16 (length v.filesystems)
      then (false, v)
      else (true, record v { filesystems = v.filesystems ++ fs ∷ [] })

  -- The first file system of the type.
  abbrev pub find_filesystem : List (Filesystem S N) → List ℕ → Option (Filesystem S N)
  find_filesystem [] fs_type = none
  find_filesystem (fs ∷ rest) fs_type =
      if str_eq fs_type fs.name then some fs else find_filesystem rest fs_type

  -- What `vfs_mount` does once the mount has succeeded.
  abbrev pub set_root : Vfs S N → Option N → Bool × Vfs S N
  set_root v none = (false, record v { root_node = none })
  set_root v (some n) = (true, record v { root_node = some n; current_dir = some n })

  -- True for 0.
  unfoldable pub vfs_mount : Vfs S N → S → List ℕ → List ℕ → List ℕ → Bool × Vfs S N × S
  vfs_mount v s fs_type device mountpoint = elim (find_filesystem v.filesystems fs_type) [
    | none ↦ (false, v, s)
    | some fs ↦
        let (mounted, s') = fs.mount s device in
        let (rooted, v') = set_root v (fs.get_root s') in
        if mounted
        then if is_root mountpoint then (rooted, v', s') else (true, v, s')
        else (false, v, s')
  ]

  -- `allocate_fd`
  unfoldable pub allocate_fd : Vfs S N → Option ℕ
  allocate_fd v = scan (λ i. not (v.fd_table i).used) 3 (max_open_files - 3)

  -- The guard of the calls on an open file.
  abbrev pub is_open : Vfs S N → ℕ → Bool
  is_open v fd = ltb fd max_open_files && (v.fd_table fd).used

  abbrev pub set_file : Vfs S N → ℕ → FileDescriptor N → Vfs S N
  set_file v fd f = record v { fd_table = update v.fd_table fd f }

  -- `vfs_get_cwd`
  abbrev pub vfs_get_cwd : Vfs S N → Option N
  vfs_get_cwd v = elim v.current_dir [ none ↦ v.root_node | some n ↦ some n ]

  module _ (o : Operations S N) where
    unfoldable pub vfs_readdir : S → N → ℕ → Option N
    vfs_readdir s node index =
        if not (o.type node == file_directory)
        then none
        else elim (o.readdir node) [ none ↦ none | some f ↦ f s index ]

    unfoldable pub vfs_finddir : S → N → List ℕ → Option N
    vfs_finddir s node name =
        if not (o.type node == file_directory)
        then none
        else elim (o.finddir node) [ none ↦ none | some f ↦ f s name ]

    -- The loop of `vfs_resolve_path`.
    unfoldable pub resolve_from : S → N → List (List ℕ) → Option N
    resolve_from s node [] = some node
    resolve_from s node (t ∷ ts) =
        if not (o.type node == file_directory)
        then none
        else elim (vfs_finddir s node t) [ none ↦ none | some n ↦ resolve_from s n ts ]

    unfoldable pub vfs_resolve_path : Vfs S N → S → List ℕ → Option N
    vfs_resolve_path v s path = elim v.root_node [
      | none ↦ none
      | some root ↦
          if is_root path
          then some root
          else if not (is_absolute path)
          then none
          else resolve_from s root (tokenize_path path)
    ]

    -- The number of the file, or `none` for -1.
    unfoldable pub vfs_open : Vfs S N → S → List ℕ → ℕ → Option ℕ × Vfs S N × S
    unfolding allocate_fd
    vfs_open v s path flags = elim (vfs_resolve_path v s path) [
      | none ↦ (none, v, s)
      | some n ↦ elim (allocate_fd v) [
        | none ↦ (none, v, s)
        | some fd ↦ (
          some fd,
          set_file v fd (record { used = true; node = some n; position = 0; flags = flags }),
          elim (o.open_op n) [ none ↦ s | some f ↦ f s flags ],
        )
      ]
    ]

    -- The call of the file system, if the node is there.
    abbrev pub close_node : Option N → S → S
    close_node none s = s
    close_node (some n) s = elim (o.close_op n) [ none ↦ s | some f ↦ f s ]

    -- True for 0.
    unfoldable pub vfs_close : Vfs S N → S → ℕ → Bool × Vfs S N × S
    vfs_close v s fd =
        let f = v.fd_table fd in
        if not (is_open v fd) then (false, v, s) else (
          true,
          set_file v fd (record f { used = false; node = none; position = 0 }),
          close_node f.node s,
        )

    -- The operation of a node, with -1 where there is none.
    abbrev pub node_read : S → Option N → ℕ → ℕ → Option ℕ × List ℕ
    node_read s none size position = (none, [])
    node_read s (some n) size position = elim (o.read n) [
      | none ↦ (none, [])
      | some r ↦ r s size position
    ]

    abbrev pub node_write : S → Option N → List ℕ → ℕ → Option ℕ × S
    node_write s none buffer position = (none, s)
    node_write s (some n) buffer position = elim (o.write n) [
      | none ↦ (none, s)
      | some w ↦ w s buffer position
    ]

    unfoldable pub vfs_read : Vfs S N → S → ℕ → ℕ → Option ℕ × List ℕ × Vfs S N
    vfs_read v s fd size =
        let f = v.fd_table fd in
        let (count, bytes) = node_read s f.node size f.position in
        if not (is_open v fd) then (none, [], v) else (count, bytes, set_file v fd (moved f count))

    unfoldable pub vfs_write : Vfs S N → S → ℕ → List ℕ → Option ℕ × Vfs S N × S
    vfs_write v s fd buffer =
        let f = v.fd_table fd in
        let (count, s') = node_write s f.node buffer f.position in
        if not (is_open v fd) then (none, v, s) else (count, set_file v fd (moved f count), s')

    -- The new position; the offset is a 32-bit word, a negative one in two's complement.
    abbrev pub seek_to : S → FileDescriptor N → ℕ → ℕ → Option ℕ
    seek_to s f offset whence =
        if whence == 0
        then some (u32 offset)
        else if whence == 1
        then some (u32 (f.position + offset))
        else if whence == 2
        then elim f.node [ none ↦ none | some n ↦ some (u32 (o.size s n + offset)) ]
        else none

    unfoldable pub vfs_seek : Vfs S N → S → ℕ → ℕ → ℕ → Option ℕ × Vfs S N
    vfs_seek v s fd offset whence =
        let f = v.fd_table fd in
        if not (is_open v fd) then (none, v) else elim (seek_to s f offset whence) [
          | none ↦ (none, v)
          | some p ↦ (some p, set_file v fd (record f { position = p }))
        ]

    -- Creation in the directory that was found.
    abbrev pub create_in : S → Option N → List ℕ → ℕ → ℕ → Bool × S
    create_in s none name type permissions = (false, s)
    create_in s (some parent) name type permissions =
        if not (o.type parent == file_directory)
        then (false, s)
        else elim (o.create parent) [ none ↦ (false, s) | some f ↦ f s name type permissions ]

    -- `vfs_create` and `vfs_mkdir`, which differ in the type that they pass on. True for 0.
    unfoldable pub create_at : Vfs S N → S → List ℕ → ℕ → ℕ → Bool × S
    create_at v s path type permissions =
        if not (is_absolute path) then (false, s) else elim (last_slash path 0 none) [
          | none ↦ (false, s)
          | some i ↦
              create_in s (vfs_resolve_path v s (parent_path path i)) (name_in path i) type
                permissions
        ]

    abbrev pub vfs_create : Vfs S N → S → List ℕ → ℕ → Bool × S
    vfs_create v s path permissions = create_at v s path file_regular permissions

    abbrev pub vfs_mkdir : Vfs S N → S → List ℕ → ℕ → Bool × S
    vfs_mkdir v s path permissions = create_at v s path file_directory permissions

    -- Removal from the directory that was found.
    abbrev pub unlink_in : S → Option N → List ℕ → Bool × S
    unlink_in s none name = (false, s)
    unlink_in s (some parent) name =
        if not (o.type parent == file_directory)
        then (false, s)
        else elim (o.unlink parent) [ none ↦ (false, s) | some f ↦ f s name ]

    -- True for 0.
    unfoldable pub vfs_unlink : Vfs S N → S → List ℕ → Bool × S
    vfs_unlink v s path =
        if not (is_absolute path) then (false, s) else elim (last_slash path 0 none) [
          | none ↦ (false, s)
          | some i ↦ unlink_in s (vfs_resolve_path v s (parent_path path i)) (name_in path i)
        ]

    -- An absolute path is resolved as it is given. True for 0.
    unfoldable pub vfs_chdir : Vfs S N → S → List ℕ → Bool × Vfs S N
    vfs_chdir v s path =
        let full = full_path v.current_path path in
        elim (vfs_resolve_path v s (if is_absolute path then path else full)) [
          | none ↦ (false, v)
          | some target ↦ if not (o.type target == file_directory) then (false, v) else (
            true,
            record v { current_dir = some target; current_path = drop_last_slash (take 255 full) },
          )
        ]
