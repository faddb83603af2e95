-- ===== src/Tinyfs/Mounted.antt =====
-- tinyfs as a file system of src/kernel/VFS/VFS.c: the table `tinyfs_vfs_ops` of src/kernel/VFS/tinyfs.c.
use amq_os.Prelude.{ℕ, zero, suc, ◌+◌, true, Option, none, some, List, [], ◌∷◌, length, get_or}
use amq_os.Tinyfs.{TinyfsData, Node, tinyfs_finddir, tinyfs_readdir}
use amq_os.Tinyfs.Disk.{Layout, Drive, tinyfs_create_node, tinyfs_unlink}
use amq_os.Tinyfs.Content.{tinyfs_read}
use amq_os.Tinyfs.Writing.{RawBytes, tinyfs_write}
use amq_os.Vfs.{Operations}

-- The tables in memory and the drive behind them.
pub record Volume (Sector : Type 0) : Type 0 where
  pub tables : TinyfsData
  pub drive : Drive Sector

-- The first `n` bytes of a buffer, and a list of bytes as a buffer.
abbrev pub bytes_from : (ℕ → ℕ) → ℕ → ℕ → List ℕ
bytes_from b i zero = []
bytes_from b i (suc n) = b i ∷ bytes_from b (i + 1) n

abbrev pub bytes_read : Option (ℕ × (ℕ → ℕ)) → Option ℕ × List ℕ
bytes_read none = (none, [])
bytes_read (some (n, b)) = (some n, bytes_from b 0 n)

abbrev pub volume_of : {Sector A : Type 0} → A × TinyfsData × Drive Sector → A × Volume Sector
volume_of (a, d, v) = (a, record { tables = d; drive = v })

module _ (L : Layout) (w : RawBytes L.Sector) where
  -- Where `kmalloc` gives memory for the nodes. The size of a node is that of its entry.
  abbrev pub tinyfs_vfs_ops : Operations (Volume L.Sector) Node
  tinyfs_vfs_ops = record {
    type = λ n. n.type;
    size = λ s n. elim n.entry [ none ↦ n.size | some e ↦ (s.tables.dirents e).size ];
    open_op = λ n. some (λ s flags. s);
    close_op = λ n. some (λ s. s);
    read = λ n. some (λ s size offset.
        bytes_read (tinyfs_read w.bytes s.tables s.drive n.entry (λ i. 0) size offset));
    write = λ n. some (λ s buffer offset. volume_of (
        tinyfs_write L w s.tables s.drive n.entry (λ i. get_or buffer i 0) (length buffer) offset
          (λ i. 0)));
    readdir = λ n. some (λ s index. tinyfs_readdir true s.tables n index);
    finddir = λ n. some (λ s name. tinyfs_finddir true s.tables n name);
    create = λ n.
        some (λ s name type permissions.
          volume_of (tinyfs_create_node L s.tables s.drive n name type));
    unlink = λ n. some (λ s name. volume_of (tinyfs_unlink L s.tables s.drive n name));
  }
