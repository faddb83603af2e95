-- ===== src/Tinyfs/Writing.antt =====
-- src/kernel/VFS/tinyfs.c: writing the contents of a file.
use amq_os.Tinyfs.{TinyfsData, eof, allocate_block}
use amq_os.Tinyfs.Disk.{
  Layout, Drive, write_sector, with_dirent, write_directory, write_fat, write_superblock,
}
use amq_os.Tinyfs.Content.{least, copy_into}
use amq_os.Prelude.{
  ℕ, zero, suc, ◌+◌, ◌-◌, ◌/◌, ◌%◌, ◌<◌, ◌≡◌, Bool, not, ◌&&◌, ◌||◌, Option, none, some, ltb, ◌==◌,
  if◌then◌else◌, u32, update,
}

-- A sector as 512 bytes.
pub record RawBytes (Sector : Type 0) : Type 0 where
  pub bytes : Sector → ℕ → ℕ
  pub put_bytes : (ℕ → ℕ) → Sector
  pub bytes_law : (b : ℕ → ℕ) (j : ℕ) → j < 512 → bytes (put_bytes b) j ≡ b j

-- The step to the next block of a chain, which is allocated at its end; `none` when no block is free.
unfoldable pub extend : TinyfsData → ℕ → Option ℕ × TinyfsData
extend d current =
    let (block, d') = allocate_block d in
    if d.fat current == eof
    then elim block [
      | none ↦ (none, d')
      | some n ↦ (some n, record d' { fat = update d'.fat current n })
    ]
    else (some (d.fat current), d)

-- The first loop of `tinyfs_write`.
unfoldable pub seek_block : ℕ → TinyfsData → ℕ → Option ℕ × TinyfsData
seek_block zero d current = (some current, d)
seek_block (suc rounds) d current =
    let (next, d') = extend d current in
    elim next [ none ↦ (none, d') | some c ↦ seek_block rounds d' c ]

-- `dirent->first_block`, allocated for a file that has none.
unfoldable pub with_first_block : TinyfsData → ℕ → Option ℕ × TinyfsData
with_first_block d e =
    let (block, d') = allocate_block d in
    if (d.dirents e).first_block == 0
    then elim block [
      | none ↦ (none, d')
      | some n ↦ (some n, with_dirent d' e (record (d'.dirents e) { first_block = n }))
    ]
    else (some (d.dirents e).first_block, d)

module _ {Sector : Type 0} (w : RawBytes Sector) where
  -- The buffer of the block, read unless all of it is written; a read that fails leaves it.
  abbrev pub fetch : Drive Sector → ℕ → Bool → (ℕ → ℕ) → ℕ → ℕ
  fetch v current partial block =
      if partial && not (v.read_fails current) then w.bytes (v.sector current) else block

  -- The second loop: the number of bytes written, or `none` for the -1 of a write that fails.
  unfoldable pub write_blocks :
      ℕ
      → TinyfsData
      → Drive Sector
      → (ℕ → ℕ)
      → ℕ
      → ℕ
      → ℕ
      → ℕ
      → (ℕ → ℕ)
      → Option ℕ × TinyfsData × Drive Sector
  write_blocks zero d v buffer size written byte_offset current block = (some written, d, v)
  write_blocks (suc fuel) d v buffer size written byte_offset current block =
      let partial = ltb 0 byte_offset || ltb (size - written) 512 in
      let to_write = least (512 - byte_offset) (size - written) in
      let block' = copy_into (fetch v current partial block) byte_offset buffer written to_write in
      let (done, v') = write_sector v current (w.put_bytes block') in
      let total = written + to_write in
      let (next, d') = extend d current in
      if not (ltb written size)
      then (some written, d, v)
      else if not done
      then (none, d, v')
      else if not (ltb total size)
      then (some total, d, v')
      else elim next [
        | none ↦ (some total, d', v')
        | some c ↦ write_blocks fuel d' v' buffer size total 0 c block'
      ]

-- The size grows to the end of what was written.
abbrev pub grown : TinyfsData → ℕ → ℕ → TinyfsData
grown d e end =
    if ltb (d.dirents e).size end then with_dirent d e (record (d.dirents e) { size = end }) else d

module _ (L : Layout) (w : RawBytes L.Sector) where
  -- The end of `tinyfs_write`: the tables are written, and the results of that are not looked at.
  abbrev pub close_write :
      ℕ → ℕ → Option ℕ × TinyfsData × Drive L.Sector → Option ℕ × TinyfsData × Drive L.Sector
  close_write e offset (none, d, v) = (none, d, v)
  close_write e offset (some k, d, v) =
      let d' = grown d e (u32 (offset + k)) in
      (some k, d', (write_superblock L d' (write_fat L d' (write_directory L d' v).1).1).1)

  -- `tinyfs_write` of the entry that the node stands for; the copy of the size in the node is not
  -- modelled. Every round writes a byte at least, so that `size` rounds are enough. `block` is what the
  -- buffer on the stack holds.
  unfoldable pub tinyfs_write :
      TinyfsData
      → Drive L.Sector
      → Option ℕ
      → (ℕ → ℕ)
      → ℕ
      → ℕ
      → (ℕ → ℕ)
      → Option ℕ × TinyfsData × Drive L.Sector
  tinyfs_write d v none buffer size offset block = (none, d, v)
  tinyfs_write d v (some e) buffer size offset block =
      let (first, d1) = with_first_block d e in
      elim first [
        | none ↦ (none, d1, v)
        | some b ↦
            let (start, d2) = seek_block (offset / 512) d1 b in
            elim start [
              | none ↦ (some 0, d2, v)
              | some c ↦
                  close_write e offset
                    (write_blocks w size d2 v buffer size 0 (offset % 512) c block)
            ]
      ]
