-- ===== src/Tests/Files.antt =====
-- Concrete runs of src/kernel/VFS/VFS.c, over tinyfs and over a file system of one file.
use amq_os.Vfs.{
  vfs_register_filesystem, Vfs, Operations, Filesystem, no_file, vfs_init, vfs_open, vfs_read,
  vfs_resolve_path, create_at, vfs_mount, max_open_files, tokenize_path,
}
use amq_os.Vfs.Paths.{IsName, join_path, tokenize_path-join_path}
use amq_os.Vfs.Files.{IsValid}
use amq_os.Vfs.Calls.{register, Calls, here, next, mount, open_files}
use amq_os.Vfs.Reading.{vfs_read-twice}
use amq_os.Vfs.Reading.{piece}
use amq_os.Tinyfs.{Node, root_node, node_of}
use amq_os.Tinyfs.Held.{content_of, length-content_of, tinyfs_vfs_ops-Holds}
use amq_os.Tinyfs.Mounted.{Volume, tinyfs_vfs_ops}
use amq_os.Tinyfs.Writing.{RawBytes}
use amq_os.Tests.Storage.{
  Content, of_words, word_of, layout, drive, disk, notes, with_file, with_file-Covers,
}
use amq_os.Prelude.{
  ℕ, ◌^◌, ◌≤◌, ◌<◌, ◌≡◌, refl, ◌≢◌, ◌⊎◌, true, false, Option, none, some, List, [], ◌∷◌, ◌++◌,
  arith, ◌==◌, if◌then◌else◌, length,
}

abbrev pub raw : RawBytes Content
raw = record { bytes = word_of; put_bytes = of_words; bytes_law = λ b j h. refl }

abbrev volume : Volume Content
volume = record { tables = disk; drive = drive }

abbrev operations : Operations (Volume Content) Node
operations = tinyfs_vfs_ops layout raw

-- Before anything is mounted.
abbrev empty : Vfs (Volume Content) Node
empty = record {
  root_node = none;
  current_dir = none;
  current_path = b'/' ∷ [];
  fd_table = λ i. no_file;
  filesystems = [];
}

abbrev mounted : Vfs (Volume Content) Node
mounted = record empty { root_node = some root_node; current_dir = some root_node }

notes-IsName : IsName notes
notes-IsName = record { some_length = omega arith; fits = omega arith; plain = refl }

tokenize_path_example : tokenize_path (join_path (notes ∷ notes ∷ [])) ≡ notes ∷ notes ∷ []
tokenize_path_example =
    tokenize_path-join_path (notes ∷ notes ∷ []) (notes-IsName, (notes-IsName, tt))

-- The volume with a directory for notes.
abbrev with_notes : Volume Content
with_notes = (create_at operations mounted volume (join_path (notes ∷ [])) 2 0).1

abbrev three : List ℕ
three = b'a' ∷ b'b' ∷ b'c' ∷ []

abbrev piece_read : List ℕ → Option ℕ × List ℕ
piece_read p = (some (length p), p)

-- A file system with one node, whose content is three bytes.
abbrev one_file : Operations Unit Unit
one_file = record {
  type = λ n. 1;
  size = λ s n. 3;
  open_op = λ n. none;
  close_op = λ n. none;
  read = λ n. some (λ s size position. piece_read (piece three size position));
  write = λ n. none;
  readdir = λ n. none;
  finddir = λ n. none;
  create = λ n. none;
  unlink = λ n. none;
}

-- With the node open as file 3.
abbrev reading : Vfs Unit Unit
reading = record {
  root_node = some tt;
  current_dir = some tt;
  current_path = b'/' ∷ [];
  fd_table = λ i.
      if i == 3 then record { used = true; node = some tt; position = 1; flags = 0 } else no_file;
  filesystems = [];
}

-- A file of 600 bytes in two blocks of tinyfs, open as file 3 at a position in the first one.
abbrev notes_volume : Volume Content
notes_volume = record { tables = with_file; drive = drive }

abbrev notes_open : Vfs (Volume Content) Node
notes_open = record mounted {
  fd_table = λ i.
      if i == 3
      then record { used = true; node = some (node_of with_file 1); position = 500; flags = 0 }
      else no_file;
}

content-short : length (content_of layout raw notes_volume 1) < 2 ^ 31
content-short = omega (arith, length-content_of layout raw notes_volume 1)

vfs_read_example :
    let (first, x, v') = vfs_read operations notes_open notes_volume 3 40 in
    let (second, y, v'') = vfs_read operations v' notes_volume 3 90 in
    let (whole, z, w) = vfs_read operations notes_open notes_volume 3 130 in
    (x ++ y ≡ z) × ((v''.fd_table 3).position ≡ (w.fd_table 3).position)
vfs_read_example =
    vfs_read-twice operations notes_volume notes_open 3 40 90 (node_of with_file 1)
      (content_of layout raw notes_volume 1) refl refl
      (tinyfs_vfs_ops-Holds layout raw notes_volume 1 (node_of with_file 1) refl with_file-Covers)
      content-short (omega arith)

-- After a mount of the file system of one file.
abbrev one_filesystem : Filesystem Unit Unit
one_filesystem = record { name = b'o' ∷ []; mount = λ s device. (true, s); get_root = λ s. some tt }

abbrev fresh : Vfs Unit Unit
fresh =
    (vfs_mount (vfs_register_filesystem (vfs_init reading) one_filesystem).1 tt (b'o' ∷ []) []
      (b'/' ∷ [])).1

fresh-Calls : Calls one_file (vfs_init reading) fresh
fresh-Calls = next (next here (register one_filesystem)) (mount tt (b'o' ∷ []) [] (b'/' ∷ []))

root_resolves : vfs_resolve_path one_file fresh tt (b'/' ∷ []) ≡ some tt
unfolding vfs_resolve_path vfs_mount vfs_register_filesystem vfs_init
root_resolves = refl

open_files_example :
    IsValid fresh
    × ((((vfs_open one_file fresh tt (b'/' ∷ []) 1).0 ≡ none)
          × ((i : ℕ) → 3 ≤ i → i < max_open_files → (fresh.fd_table i).used ≡ true))
        ⊎ ((fd : ℕ) × (3 ≤ fd)
            × (fd < max_open_files)
            × ((fresh.fd_table fd).used ≡ false)
            × ((vfs_open one_file fresh tt (b'/' ∷ []) 1).0 ≡ some fd)
            × (((vfs_open one_file fresh tt (b'/' ∷ []) 1).1.fd_table fd)
                ≡ record { used = true; node = some tt; position = 0; flags = 1 })
            × ((i : ℕ)
                → i ≢ fd
                → (vfs_open one_file fresh tt (b'/' ∷ []) 1).1.fd_table i ≡ fresh.fd_table i)))
open_files_example = open_files one_file reading fresh tt (b'/' ∷ []) 1 tt fresh-Calls root_resolves
