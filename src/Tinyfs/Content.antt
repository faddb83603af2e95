-- ===== src/Tinyfs/Content.antt =====
-- src/kernel/VFS/tinyfs.c: reading the contents of a file. A sector is read as 512 bytes by an argument,
-- and the buffer of the caller is a function from the position.
use amq_os.Tinyfs.{TinyfsData, eof}
use amq_os.Tinyfs.Disk.{Drive}
use amq_os.Prelude.{
  ℕ, zero, suc, ◌+◌, ◌-◌, ◌/◌, ◌%◌, not, ◌&&◌, Option, none, some, ltb, leb, ◌==◌, if◌then◌else◌,
  u32,
}

-- The first loop of `tinyfs_read`.
unfoldable pub skip_blocks : ℕ → (ℕ → ℕ) → ℕ → ℕ
skip_blocks zero fat current = current
skip_blocks (suc rounds) fat current =
    let rest = skip_blocks rounds fat (fat current) in if current == eof then current else rest

abbrev pub least : ℕ → ℕ → ℕ
least a b = if ltb b a then b else a

-- `for (i = 0; i < count; i++) buffer[at + i] = block[from + i];`
abbrev pub copy_into : (ℕ → ℕ) → ℕ → (ℕ → ℕ) → ℕ → ℕ → ℕ → ℕ
copy_into buffer at block from count j =
    if leb at j && ltb j (at + count) then block (from + (j - at)) else buffer j

module _ {Sector : Type 0} (bytes : Sector → ℕ → ℕ) where
  -- The second loop: how many bytes were read, and the buffer; `none` for the -1 of a failing access.
  unfoldable pub read_blocks :
      ℕ → TinyfsData → Drive Sector → ℕ → ℕ → ℕ → ℕ → (ℕ → ℕ) → Option (ℕ × (ℕ → ℕ))
  read_blocks zero d v size bytes_read byte_offset current buffer = some (bytes_read, buffer)
  read_blocks (suc fuel) d v size bytes_read byte_offset current buffer =
      let to_copy = least (512 - byte_offset) (size - bytes_read) in
      let rest =
        read_blocks fuel d v size (bytes_read + to_copy) 0 (d.fat current)
          (copy_into buffer bytes_read (bytes (v.sector current)) byte_offset to_copy) in
      if ltb bytes_read size && not (current == eof)
      then if v.read_fails current then none else rest
      else some (bytes_read, buffer)

  -- How much of the request lies in the file; the sum of the code is one of 32-bit words.
  abbrev pub clipped : ℕ → ℕ → ℕ → ℕ
  clipped file_size size offset =
      if ltb file_size (u32 (offset + size)) then file_size - offset else size

  -- `tinyfs_read` of the entry that the node stands for. Every round reads a byte at least, so that
  -- `size` rounds are enough.
  unfoldable pub tinyfs_read :
      TinyfsData → Drive Sector → Option ℕ → (ℕ → ℕ) → ℕ → ℕ → Option (ℕ × (ℕ → ℕ))
  unfolding skip_blocks
  tinyfs_read d v none buffer size offset = some (0, buffer)
  tinyfs_read d v (some e) buffer size offset =
      let dirent = d.dirents e in
      if leb dirent.size offset
      then some (0, buffer)
      else let n = clipped dirent.size size offset in
        read_blocks n d v n 0 (offset % 512) (skip_blocks (offset / 512) d.fat dirent.first_block)
          buffer
