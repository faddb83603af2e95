-- ===== src/Tinyfs.antt =====
-- src/kernel/VFS/tinyfs.c and includes/tinyfs.h: the superblock, the allocation table and the directory
-- entries in memory. A name is the text up to its NUL. Messages on the screen are left out.
pub mod Blocks
pub mod Chains
pub mod Disk
pub mod Persist
pub mod Names
pub mod Content
pub mod Reading
pub mod Writing
pub mod Appending
pub mod Growing
pub mod Kept
pub mod WriteRead
pub mod Mounted
pub mod Held
pub mod Created
pub mod Creation
pub mod Format
use amq_os.Prelude.{
  ℕ, zero, suc, ◌+◌, ◌-◌, ◌*◌, ◌/◌, ◌%◌, ◌^◌, ◌≤◌, ◌<◌, ◌≡◌, refl, sym, ap, ◌∙◌, subst, ◌≢◌, ◌↔◌,
  ◌⊎◌, inl, inr, Bool, true, false, not, ◌&&◌, ◌||◌, Option, none, some, List, [], ◌∷◌, ◌++◌, map,
  arith, ltb, leb, ◌==◌, if◌then◌else◌, u8, u16, u32, u64, sub16, sub32, sub64, Bool-cases,
  Option-cases, ==_iff, length, take, drop, update, update_self, update_ne, scan, scan-some,
  scan-first, scan-ne-none, contains, Distinct, without, AllBelow, contains-ne, without-absent,
  contains-without, without-Distinct, contains-append, append-Distinct, length-le_bound,
}

abbrev pub block_size : ℕ
block_size = 512

abbrev pub max_files : ℕ
max_files = 256

abbrev pub tinyfs_magic : ℕ
tinyfs_magic = 0x54494E59

-- tinyfs.c defines `EOF` as the colour WHITE of includes/print.h.
abbrev pub eof : ℕ
eof = 0xFFFFFF

abbrev pub file_type_regular : ℕ
file_type_regular = 1

abbrev pub file_type_directory : ℕ
file_type_directory = 2

-- `tinyfs_superblock_t`
pub record Superblock : Type 0 where
  pub magic : ℕ
  pub total_blocks : ℕ
  pub fat_start : ℕ
  pub dir_start : ℕ
  pub data_start : ℕ
  pub free_blocks : ℕ

-- `tinyfs_dirent_t`
pub record Dirent : Type 0 where
  pub name : List ℕ
  pub first_block : ℕ
  pub size : ℕ
  pub is_directory : Bool
  pub used : Bool
  pub parent_inode : ℕ

-- `tinyfs_data_t`
pub record TinyfsData : Type 0 where
  pub sb : Superblock
  pub fat : ℕ → ℕ
  pub dirents : ℕ → Dirent
  pub device : List ℕ

-- `vfs_node_t` of includes/vfs.h; `entry` is `private_data`, the entry that the node stands for.
pub record Node : Type 0 where
  pub name : List ℕ
  pub type : ℕ
  pub permissions : ℕ
  pub size : ℕ
  pub inode : ℕ
  pub entry : Option ℕ

-- `strcmp_safe(s, t) == 0`
abbrev pub same_str : List ℕ → List ℕ → Bool
same_str [] [] = true
same_str [] (d ∷ t) = false
same_str (c ∷ s) [] = false
same_str (c ∷ s) (d ∷ t) = if c == d then same_str s t else false

-- `strcpy_safe(dest, src, max_len)`
abbrev pub strcpy_safe : List ℕ → ℕ → List ℕ
strcpy_safe src max_len = take (max_len - 1) src

-- The block, or `none` for -1. Nothing is scanned if the data starts behind the last block.
unfoldable pub allocate_block : TinyfsData → Option ℕ × TinyfsData
allocate_block d =
    elim (scan (λ i. d.fat i == 0) d.sb.data_start (d.sb.total_blocks - d.sb.data_start)) [
      | none ↦ (none, d)
      | some i ↦ (
        some i,
        record d {
          fat = update d.fat i eof;
          sb = record d.sb { free_blocks = sub32 d.sb.free_blocks 1 };
        },
      )
    ]

abbrev pub free_one : TinyfsData → ℕ → TinyfsData
free_one d current = record d {
  fat = update d.fat current 0;
  sb = record d.sb { free_blocks = u32 (d.sb.free_blocks + 1) };
}

-- The loop of `free_block_chain`; every round frees an entry, so the 1024 entries bound the rounds.
unfoldable pub free_chain : ℕ → TinyfsData → ℕ → TinyfsData
free_chain zero d current = d
free_chain (suc fuel) d current =
    let rest = free_chain fuel (free_one d current) (d.fat current) in
    if current == eof then d else if current == 0 then d else rest

unfoldable pub free_block_chain : TinyfsData → ℕ → TinyfsData
unfolding free_chain
free_block_chain d first_block = free_chain 1025 d first_block

-- Entry 0 is never handed out.
unfoldable pub find_free_dirent : TinyfsData → Option ℕ
find_free_dirent d = scan (λ i. not (d.dirents i).used) 1 (max_files - 1)

-- The test of the loops over the entries of a directory, and of `tinyfs_unlink`, which does not look
-- at the directory.
abbrev pub is_entry : TinyfsData → ℕ → List ℕ → ℕ → Bool
is_entry d parent name i =
    (d.dirents i).used && ((d.dirents i).parent_inode == parent && same_str (d.dirents i).name name)

abbrev pub is_named : TinyfsData → List ℕ → ℕ → Bool
is_named d name i = (d.dirents i).used && same_str (d.dirents i).name name

-- The node that `tinyfs_readdir` and `tinyfs_finddir` make for entry `i`.
abbrev pub node_of : TinyfsData → ℕ → Node
node_of d i = record {
  name = strcpy_safe (d.dirents i).name 256;
  type = if (d.dirents i).is_directory then file_type_directory else file_type_regular;
  permissions = 3;
  size = (d.dirents i).size;
  inode = i;
  entry = some i;
}

-- `alloc` tells whether `kmalloc` gives memory for the node.
unfoldable pub tinyfs_finddir : Bool → TinyfsData → Node → List ℕ → Option Node
tinyfs_finddir alloc d node name =
    if not (node.type == file_type_directory)
    then none
    else elim (scan (is_entry d node.inode name) 0 max_files) [
      | none ↦ none
      | some i ↦ if alloc then some (node_of d i) else none
    ]

-- The `count`-th used entry of a directory, counted from `i` on.
unfoldable pub nth_entry : TinyfsData → ℕ → ℕ → ℕ → ℕ → Option ℕ
nth_entry d parent count i zero = none
nth_entry d parent count i (suc rounds) =
    let mine = (d.dirents i).used && (d.dirents i).parent_inode == parent in
    let rest = nth_entry d parent (if mine then count - 1 else count) (i + 1) rounds in
    if mine && count == 0 then some i else rest

unfoldable pub tinyfs_readdir : Bool → TinyfsData → Node → ℕ → Option Node
unfolding nth_entry
tinyfs_readdir alloc d node index =
    if not (node.type == file_type_directory)
    then none
    else elim (nth_entry d node.inode index 0 max_files) [
      | none ↦ none
      | some i ↦ if alloc then some (node_of d i) else none
    ]

-- `tinyfs_get_root`, when its `kmalloc` succeeds.
abbrev pub root_node : Node
root_node = record {
  name = b'/' ∷ [];
  type = file_type_directory;
  permissions = 3;
  size = 0;
  inode = 0;
  entry = none;
}

-- `fs_stats_t`
pub record FsStats : Type 0 where
  pub total_blocks : ℕ
  pub free_blocks : ℕ
  pub block_size : ℕ

unfoldable pub tinyfs_get_stats : TinyfsData → FsStats
tinyfs_get_stats d = record {
  total_blocks = d.sb.total_blocks;
  free_blocks = d.sb.free_blocks;
  block_size = 512;
}
