-- ===== src/Tests/Writes.antt =====
-- A file of src/kernel/VFS/tinyfs.c written and read.
use amq_os.Tinyfs.Writing.{tinyfs_write}
use amq_os.Tinyfs.WriteRead.{ReadsBack, tinyfs_read-tinyfs_write}
use amq_os.Tinyfs.Kept.{IsLaid}
use amq_os.Tinyfs.Appending.{IsArea}
use amq_os.Tests.Storage.{drive-IsWorking, layout, drive, disk}
use amq_os.Tests.Files.{raw}
use amq_os.Prelude.{ℕ, ◌*◌, refl, some, arith}

-- The square numbers.
abbrev buffer : ℕ → ℕ
buffer j = j * j

disk-IsArea : IsArea disk
disk-IsArea = record { start = omega arith; ends = omega arith }

disk-IsLaid : IsLaid disk
disk-IsLaid = record { fat = omega arith; dir = omega arith; small = omega arith }

-- 600 bytes are more than a block.
write_read_example :
    ReadsBack layout raw disk 1 buffer 600
      (tinyfs_write layout raw disk drive (some 1) buffer 600 0 (λ j. 0))
write_read_example =
    tinyfs_read-tinyfs_write layout raw disk drive 1 buffer 600 (λ j. 0) drive-IsWorking disk-IsArea
      disk-IsLaid (record { first = refl; size = refl }) (omega arith) (omega arith)
