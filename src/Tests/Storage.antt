-- ===== src/Tests/Storage.antt =====
-- Concrete runs of src/kernel/VFS/tinyfs.c.
use amq_os.Tinyfs.{
  Dirent, Node, Superblock, TinyfsData, allocate_block, eof, find_free_dirent, free_block_chain,
  max_files, node_of, root_node, tinyfs_finddir, tinyfs_magic,
}
use amq_os.Tinyfs.Blocks.{IsCounted, allocate_block_lem}
use amq_os.Tinyfs.Chains.{Freed, free_block_chain_lem}
use amq_os.Tinyfs.Disk.{
  fresh_superblock, tinyfs_format, Drive, Layout, no_dirent, tinyfs_create_node, tinyfs_mount,
  tinyfs_unlink, tinyfs_unmount,
}
use amq_os.Tinyfs.Names.{
  long_name-not_found, tinyfs_finddir-tinyfs_create_node, unlink_ignores_directory,
}
use amq_os.Tinyfs.Content.{tinyfs_read}
use amq_os.Tinyfs.Reading.{Covers, nth_block, IsRead, tinyfs_read_lem}
use amq_os.Tinyfs.Format.{tinyfs_mount-tinyfs_format}
use amq_os.Tinyfs.Persist.{IsWorking, tinyfs_mount-tinyfs_unmount}
use amq_os.Prelude.{
  ℕ, zero, suc, ◌+◌, ◌*◌, ◌≤◌, ◌<◌, ◌≡◌, refl, ◌≢◌, ◌⊎◌, true, false, none, some, List, [], ◌∷◌,
  arith, ◌==◌, if◌then◌else◌, scan, replicate,
}

-- A sector that remembers what was put into it.
pub data Content : Type 0 where
  of_superblock : Superblock → Content
  of_words : (ℕ → ℕ) → Content
  of_dirents : (ℕ → Dirent) → Content

abbrev pub no_superblock : Superblock
no_superblock = record {
  magic = 0;
  total_blocks = 0;
  fat_start = 0;
  dir_start = 0;
  data_start = 0;
  free_blocks = 0;
}

abbrev pub superblock_of : Content → Superblock
superblock_of (of_superblock b) = b
superblock_of _ = no_superblock

abbrev pub word_of : Content → ℕ → ℕ
word_of (of_words w) = w
word_of _ = λ j. 0

abbrev pub dirent_of : Content → ℕ → Dirent
dirent_of (of_dirents t) = t
dirent_of _ = λ j. no_dirent

abbrev pub layout : Layout
layout = record {
  Sector = Content;
  put_superblock = of_superblock;
  get_superblock = superblock_of;
  put_words = of_words;
  get_word = word_of;
  put_dirents = of_dirents;
  get_dirent = dirent_of;
  superblock_law = λ b. refl;
  words_law = λ w j h. refl;
  dirents_law = λ t j h. refl;
}

abbrev pub drive : Drive Content
drive = record {
  sector = λ lba. of_words (λ j. 0);
  read_fails = λ lba. false;
  write_fails = λ lba. false;
}

pub drive-IsWorking : IsWorking drive
drive-IsWorking = record { reads = λ lba. refl; writes = λ lba. refl }

-- A file of two blocks, 101 and 102, in a data area of four; block 103 is a file of its own.
abbrev pub disk : TinyfsData
disk = record {
  sb = record {
    magic = tinyfs_magic;
    total_blocks = 105;
    fat_start = 1;
    dir_start = 11;
    data_start = 101;
    free_blocks = 1;
  };
  fat = λ b. if b == 104 then 0 else if b == 101 then 102 else eof;
  dirents = λ i. no_dirent;
  device = [];
}

pub disk-IsCounted : IsCounted disk
disk-IsCounted = record { small = omega arith; start = omega arith; counted = refl }

abbrev pub notes : List ℕ
notes = b'n' ∷ b'o' ∷ b't' ∷ b'e' ∷ b's' ∷ []

abbrev subdirectory : Node
subdirectory = record root_node { inode = 7 }

tinyfs_mount_example :
    (d' : TinyfsData) × (tinyfs_mount layout (some disk) [] (tinyfs_unmount layout disk drive)
      ≡ some d')
    × (d'.sb ≡ disk.sb)
    × ((k : ℕ) → k < 1024 → d'.fat k ≡ disk.fat k)
    × ((k : ℕ) → k < max_files → d'.dirents k ≡ disk.dirents k)
tinyfs_mount_example =
    tinyfs_mount-tinyfs_unmount layout disk disk [] drive drive-IsWorking refl refl refl

pub notes_absent : tinyfs_finddir true disk root_node notes ≡ none
unfolding tinyfs_finddir scan
notes_absent = refl

pub entry_free : find_free_dirent disk ≡ some 1
unfolding find_free_dirent scan
entry_free = refl

tinyfs_create_node_example :
    let (done, d', v') = tinyfs_create_node layout disk drive root_node notes 2 in
    (done ≡ true)
    × (1 ≤ 1)
    × (1 < max_files)
    × (false ≡ false)
    × ((j : ℕ) → 1 ≤ j → j < 1 → (disk.dirents j).used ≡ true)
    × (tinyfs_finddir true d' root_node notes ≡ some (node_of d' 1))
    × ((d'.dirents 1).is_directory ≡ true)
    × ((j : ℕ) → j ≢ 1 → d'.dirents j ≡ no_dirent)
    × (d'.fat ≡ disk.fat)
tinyfs_create_node_example =
    tinyfs_finddir-tinyfs_create_node layout disk drive root_node notes 2 1 drive-IsWorking refl
      notes_absent entry_free (omega arith)

free_block_chain_example : Freed disk (101 ∷ 102 ∷ []) (free_block_chain disk 101)
free_block_chain_example =
    free_block_chain_lem disk 101 (101 ∷ 102 ∷ []) disk-IsCounted (ground arith)
      (omega arith, omega arith, (omega arith, omega arith, tt))
      (refl, omega arith, omega arith, (refl, omega arith, omega arith, refl))

allocate_block_example :
    ((allocate_block disk ≡ (none, disk)) × (disk.sb.free_blocks ≡ 0))
    ⊎ ((b : ℕ) × (d' : TinyfsData) × (allocate_block disk ≡ (some b, d'))
        × (101 ≤ b)
        × (b < 105)
        × (disk.fat b ≡ 0)
        × ((j : ℕ) → 101 ≤ j → j < b → disk.fat j ≢ 0)
        × (d'.fat b ≡ eof)
        × ((j : ℕ) → j ≢ b → d'.fat j ≡ disk.fat j)
        × (d'.sb.free_blocks + 1 ≡ disk.sb.free_blocks)
        × IsCounted d')
allocate_block_example = allocate_block_lem disk disk-IsCounted

long_name_example : tinyfs_finddir true disk root_node (replicate 40 b'x') ≡ none
long_name_example =
    long_name-not_found true disk root_node (replicate 40 b'x') (λ i. omega arith) (omega arith)

unlink_example :
    tinyfs_unlink layout disk drive root_node notes
    ≡ tinyfs_unlink layout disk drive subdirectory notes
unlink_example = unlink_ignores_directory layout disk drive root_node subdirectory notes refl refl

-- The disk with a file of 600 bytes in the blocks 101 and 102.
abbrev pub with_file : TinyfsData
with_file = record disk {
  dirents = λ i. record no_dirent { name = notes; first_block = 101; size = 600; used = true };
}

pub with_file-Covers : Covers with_file drive 101 600
with_file-Covers = record { linked = linked; readable = λ k lt. refl }
  where
    linked : (k : ℕ) → k * 512 < 600 → nth_block with_file.fat 101 k ≢ eof
    linked zero lt = λ e. omega arith
    linked (suc zero) lt = λ e. omega arith
    linked (suc (suc k)) lt = absurd (omega arith)

tinyfs_read_example :
    IsRead word_of with_file drive 101 580 0 20
      (λ j. 7)
      (tinyfs_read word_of with_file drive (some 1) (λ j. 7) 50 580)
tinyfs_read_example =
    tinyfs_read_lem word_of with_file drive 101 1 50 580 (λ j. 7) refl with_file-Covers
      (omega arith) (omega arith)

tinyfs_format_example :
    let (done, v') = tinyfs_format layout drive in
    (done ≡ true)
    × (d : TinyfsData) × (tinyfs_mount layout (some disk) [] v' ≡ some d)
    × (d.sb ≡ fresh_superblock layout)
    × ((k : ℕ) → k < 101 → d.fat k ≡ eof)
    × ((k : ℕ) → 101 ≤ k → k < 1024 → d.fat k ≡ 0)
    × ((k : ℕ) → k < max_files → d.dirents k ≡ no_dirent)
tinyfs_format_example = tinyfs_mount-tinyfs_format layout disk [] drive drive-IsWorking
