-- ===== src/Tinyfs/Disk.antt =====
-- src/kernel/VFS/tinyfs.c: what is read from and written to the drive, and the operations that do so.
use amq_os.Prelude.{
  ℕ, zero, suc, ◌+◌, ◌-◌, ◌*◌, ◌/◌, ◌%◌, ◌<◌, ◌≡◌, Bool, true, false, not, ◌&&◌, Option, none, some,
  List, [], ltb, ◌==◌, if◌then◌else◌, u32, update, scan,
}
use amq_os.Tinyfs.{
  TinyfsData, Superblock, Dirent, Node, tinyfs_magic, eof, max_files, file_type_directory,
  strcpy_safe, is_entry, is_named, find_free_dirent, free_block_chain,
}

-- A buffer of 512 bytes read as the structures that the code casts it to. `put` fills a zeroed buffer,
-- `get` reads it through the cast.
pub record Layout : Type 1 where
  pub Sector : Type 0
  pub put_superblock : Superblock → Sector
  pub get_superblock : Sector → Superblock
  pub put_words : (ℕ → ℕ) → Sector
  pub get_word : Sector → ℕ → ℕ
  pub put_dirents : (ℕ → Dirent) → Sector
  pub get_dirent : Sector → ℕ → Dirent
  pub superblock_law : (b : Superblock) → get_superblock (put_superblock b) ≡ b
  pub words_law : (w : ℕ → ℕ) (j : ℕ) → j < 128 → get_word (put_words w) j ≡ w j
  pub dirents_law : (t : ℕ → Dirent) (j : ℕ) → j < 9 → get_dirent (put_dirents t) j ≡ t j

-- The drive behind ata.c: its sectors, and the sectors at which an access fails.
pub record Drive (Sector : Type 0) : Type 0 where
  pub sector : ℕ → Sector
  pub read_fails : ℕ → Bool
  pub write_fails : ℕ → Bool

module _ {Sector : Type 0} where
  -- `ata_write_sectors(lba, 1, buffer)`, true for 0.
  abbrev pub write_sector : Drive Sector → ℕ → Sector → Bool × Drive Sector
  write_sector v lba x =
      if v.write_fails lba then (false, v) else (true, record v { sector = update v.sector lba x })

  -- The sectors `start + i` on, in order, up to the first that fails.
  unfoldable pub write_loop : ℕ → ℕ → ℕ → (ℕ → Sector) → Drive Sector → Bool × Drive Sector
  write_loop zero i start content v = (true, v)
  write_loop (suc rounds) i start content v =
      let (done, v') = write_sector v (u32 (start + i)) (content i) in
      let rest = write_loop rounds (i + 1) start content v' in if done then rest else (false, v')

  -- Sector `i` of a table with `per` entries in each is read into the entries from `i * per` on, as
  -- far as the table goes; `none` for the first sector that fails.
  unfoldable pub read_loop {ℓ} :
      {A : Type ℓ} → ℕ → ℕ → ℕ → ℕ → ℕ → (Sector → ℕ → A) → Drive Sector → (ℕ → A) → Option (ℕ → A)
  read_loop zero i start per limit get v t = some t
  read_loop (suc rounds) i start per limit get v t =
      let rest = read_loop rounds (i + 1) start per limit get v (λ k.
        if k / per == i && ltb k limit then get (v.sector (u32 (start + i))) (k % per) else t k) in
      if v.read_fails (u32 (start + i)) then none else rest

abbrev pub no_dirent : Dirent
no_dirent = record {
  name = [];
  first_block = 0;
  size = 0;
  is_directory = false;
  used = false;
  parent_inode = 0;
}

-- The entry that `tinyfs_create_node` fills; its `padding` is not modelled.
abbrev pub new_dirent : List ℕ → ℕ → ℕ → Dirent
new_dirent name type parent = record {
  name = strcpy_safe name 32;
  first_block = 0;
  size = 0;
  is_directory = type == file_type_directory;
  used = true;
  parent_inode = parent;
}

abbrev pub with_dirent : TinyfsData → ℕ → Dirent → TinyfsData
with_dirent d i e = record d { dirents = update d.dirents i e }

-- The entry `i` is freed with its blocks, and everything is written.
unfoldable pub unlink_entry : TinyfsData → ℕ → TinyfsData
unfolding free_block_chain
unlink_entry d i =
    let d' =
      if (d.dirents i).first_block == 0 then d else free_block_chain d (d.dirents i).first_block in
    with_dirent d' i (record (d'.dirents i) { used = false; name = []; first_block = 0; size = 0 })

-- The data of a mount, once both tables have been read.
abbrev pub loaded : Superblock → List ℕ → Option (ℕ → ℕ) → Option (ℕ → Dirent) → Option TinyfsData
loaded sb device none dirents = none
loaded sb device (some f) none = none
loaded sb device (some f) (some t) =
    some (record { sb = sb; fat = f; dirents = t; device = strcpy_safe device 32 })

module _ (L : Layout) where
  open L use {Sector, put_superblock, get_superblock, put_words, get_word, put_dirents, get_dirent}

  unfoldable pub write_superblock : TinyfsData → Drive Sector → Bool × Drive Sector
  write_superblock d v = write_sector v 0 (put_superblock d.sb)

  -- Ten sectors of 128 words; the table has 1024.
  abbrev pub fat_sector : TinyfsData → ℕ → Sector
  fat_sector d i = put_words (λ j. if ltb (i * 128 + j) 1024 then d.fat (i * 128 + j) else 0)

  unfoldable pub write_fat : TinyfsData → Drive Sector → Bool × Drive Sector
  write_fat d v = write_loop 10 0 d.sb.fat_start (fat_sector d) v

  -- Ninety sectors of 9 entries, of 52 bytes each; the directory has 256.
  abbrev pub dir_sector : TinyfsData → ℕ → Sector
  dir_sector d i =
      put_dirents (λ j. if ltb (i * 9 + j) max_files then d.dirents (i * 9 + j) else no_dirent)

  unfoldable pub write_directory : TinyfsData → Drive Sector → Bool × Drive Sector
  write_directory d v = write_loop 90 0 d.sb.dir_start (dir_sector d) v

  abbrev pub fresh_superblock : Superblock
  fresh_superblock = record {
    magic = tinyfs_magic;
    total_blocks = 1024;
    fat_start = 1;
    dir_start = 11;
    data_start = 101;
    free_blocks = 1024 - 101;
  }

  -- The blocks of the file system itself are marked as ends of chains, the others are free.
  abbrev pub fresh_fat_sector : ℕ → Sector
  fresh_fat_sector i =
      put_words
        (λ j. if ltb (i * 128 + j) 1024 then if ltb (i * 128 + j) 101 then eof else 0 else 0)

  -- The steps of `tinyfs_format`, each after the success of the one before.
  abbrev pub then_write :
      Bool × Drive Sector → (Drive Sector → Bool × Drive Sector) → Bool × Drive Sector
  then_write (true, v) k = k v
  then_write (false, v) k = (false, v)

  unfoldable pub tinyfs_format : Drive Sector → Bool × Drive Sector
  tinyfs_format v = then_write (write_sector v 0 (put_superblock fresh_superblock)) (λ v'.
      then_write (write_loop 10 0 1 fresh_fat_sector v')
        (λ v''. write_loop 90 0 11 (λ i. put_dirents (λ j. no_dirent)) v''))

  -- `tinyfs_mount`: `memory` is what `kmalloc` gave for the data, with whatever it holds.
  unfoldable pub tinyfs_mount : Option TinyfsData → List ℕ → Drive Sector → Option TinyfsData
  tinyfs_mount none device v = none
  tinyfs_mount (some m) device v =
      let sb = get_superblock (v.sector 0) in
      let fat = read_loop 10 0 sb.fat_start 128 1024 get_word v m.fat in
      let dirents = read_loop 90 0 sb.dir_start 9 max_files get_dirent v m.dirents in
      if v.read_fails 0
      then none
      else if not (sb.magic == tinyfs_magic)
      then none
      else loaded sb device fat dirents

  -- `tinyfs_unmount` of a mounted file system: a failing write is not looked at.
  unfoldable pub tinyfs_unmount : TinyfsData → Drive Sector → Drive Sector
  unfolding write_superblock write_fat write_directory
  tinyfs_unmount d v = (write_directory d (write_fat d (write_superblock d v).1).1).1

  -- A directory that cannot be written takes the entry back.
  abbrev pub keep_if : Bool × Drive Sector → TinyfsData → ℕ → Bool × TinyfsData × Drive Sector
  keep_if (true, v) d i = (true, d, v)
  keep_if (false, v) d i = (false, with_dirent d i (record (d.dirents i) { used = false }), v)

  -- `tinyfs_create_node` in the directory `parent` of a mounted file system, true for 0.
  unfoldable pub tinyfs_create_node :
      TinyfsData → Drive Sector → Node → List ℕ → ℕ → Bool × TinyfsData × Drive Sector
  unfolding write_directory find_free_dirent
  tinyfs_create_node d v parent name type =
      if not (parent.type == file_type_directory)
      then (false, d, v)
      else elim (scan (is_entry d parent.inode name) 0 max_files) [
        | some i ↦ (false, d, v)
        | none ↦ elim (find_free_dirent d) [
          | none ↦ (false, d, v)
          | some i ↦
              let d' = with_dirent d i (new_dirent name type parent.inode) in
              keep_if (write_directory d' v) d' i
        ]
      ]

  -- `tinyfs_unlink`, true for 0. The results of the writes are not looked at.
  unfoldable pub tinyfs_unlink :
      TinyfsData → Drive Sector → Node → List ℕ → Bool × TinyfsData × Drive Sector
  unfolding unlink_entry write_fat write_directory write_superblock
  tinyfs_unlink d v parent name =
      if not (parent.type == file_type_directory)
      then (false, d, v)
      else elim (scan (is_named d name) 0 max_files) [
        | none ↦ (false, d, v)
        | some i ↦
            let d' = unlink_entry d i in
            (true, d', (write_superblock d' (write_directory d' (write_fat d' v).1).1).1)
      ]
