-- ===== src/Tinyfs/Format.antt =====
-- src/kernel/VFS/tinyfs.c: what `tinyfs_format` leaves on the drive.
use amq_os.Tinyfs.{TinyfsData, eof, max_files}
use amq_os.Tinyfs.Disk.{
  Layout, Drive, fresh_superblock, fresh_fat_sector, fat_sector, dir_sector, no_dirent, write_loop,
  write_sector, then_write, tinyfs_format, tinyfs_mount, tinyfs_unmount,
}
use amq_os.Tinyfs.Persist.{IsWorking, write_loop-Written, tinyfs_mount-tinyfs_unmount}
use amq_os.Prelude.{
  ℕ, ◌+◌, ◌*◌, ◌≤◌, ◌<◌, ◌≡◌, refl, sym, ap, ◌∙◌, Bool, true, false, some, List, [], arith, ltb,
  if◌then◌else◌, update,
}

then_write-done :
    (L : Layout) (r : Bool × Drive L.Sector) (k : Drive L.Sector → Bool × Drive L.Sector)
    → r.0 ≡ true
    → then_write L r k ≡ k r.1
then_write-done L (true, v) k h = refl
then_write-done L (false, v) k h = absurd (ground arith)

pair_done : {A : Type 0} (r : Bool × A) → r.0 ≡ true → r ≡ (true, r.1)
pair_done (true, v) h = refl
pair_done (false, v) h = absurd (ground arith)

if_same : {A : Type 0} (b : Bool) (x : A) → (if b then x else x) ≡ x
if_same true x = refl
if_same false x = refl

module _ (L : Layout) where
  -- The file system that `tinyfs_format` writes.
  abbrev pub fresh : TinyfsData
  fresh = record {
    sb = fresh_superblock L;
    fat = λ b. if ltb b 101 then eof else 0;
    dirents = λ i. no_dirent;
    device = [];
  }

  dir_sector-fresh : (i : ℕ) → dir_sector L fresh i ≡ L.put_dirents (λ j. no_dirent)
  dir_sector-fresh i = λ k. L.put_dirents (λ j. if_same (ltb (i * 9 + j) max_files) no_dirent k)

  format-unmount :
      (v : Drive L.Sector) → IsWorking v → tinyfs_format L v ≡ (true, tinyfs_unmount L fresh v)
  unfolding tinyfs_format tinyfs_unmount
  format-unmount v w =
      let v1 : Drive L.Sector = record v {
        sector = update v.sector 0 (L.put_superblock (fresh_superblock L));
      } in
      let r1 : write_sector v 0 (L.put_superblock (fresh_superblock L)) ≡ (true, v1) =
        rw (w.writes 0) in
      let w1 : IsWorking v1 = record { reads = w.reads; writes = w.writes } in
      let fats = write_loop-Written 10 0 1 (fresh_fat_sector L) v1 w1 (omega arith) in
      let v2 = (write_loop 10 0 1 (fresh_fat_sector L) v1).1 in
      let dirs = write_loop-Written 90 0 11 (dir_sector L fresh) v2 fats.working (omega arith) in
      let then_dirs : Drive L.Sector → Bool × Drive L.Sector =
        λ q. write_loop 90 0 11 (λ i. L.put_dirents (λ j. no_dirent)) q in
      let then_all : Drive L.Sector → Bool × Drive L.Sector =
        λ q. then_write L (write_loop 10 0 1 (fresh_fat_sector L) q) then_dirs in
      ap (λ r. then_write L r then_all) r1
      ∙ then_write-done L (write_loop 10 0 1 (fresh_fat_sector L) v1) then_dirs fats.done
      ∙ (λ k. write_loop 90 0 11 (λ i. sym (dir_sector-fresh i) k) v2)
      ∙ pair_done (write_loop 90 0 11 (dir_sector L fresh) v2) dirs.done
      ∙ ap
          (λ r. (
            true,
            (write_loop 90 0 11 (dir_sector L fresh)
                (write_loop 10 0 1 (fat_sector L fresh) r.1).1).1,
          ))
          (sym r1)

  -- On a working drive `tinyfs_format` succeeds, and what it leaves mounts as an empty file system with
  -- 1024 blocks, of which the first 101 are taken and the other 923 are free, whatever the memory held
  -- that `kmalloc` gave.
  pub tinyfs_mount-tinyfs_format :
      (m : TinyfsData) (device : List ℕ) (v : Drive L.Sector)
      → IsWorking v
      → let (done, v') = tinyfs_format L v in
        (done ≡ true)
        × (d : TinyfsData) × (tinyfs_mount L (some m) device v' ≡ some d)
        × (d.sb ≡ fresh_superblock L)
        × ((k : ℕ) → k < 101 → d.fat k ≡ eof)
        × ((k : ℕ) → 101 ≤ k → k < 1024 → d.fat k ≡ 0)
        × ((k : ℕ) → k < max_files → d.dirents k ≡ no_dirent)
  tinyfs_mount-tinyfs_format m device v w =
      let all = format-unmount v w in
      let (d, found, sb, fat, dirents) =
        tinyfs_mount-tinyfs_unmount L fresh m device v w refl refl refl in
      (
        ap (λ r. r.0) all,
        d,
        ap (λ r. tinyfs_mount L (some m) device r.1) all ∙ found,
        sb,
        λ k h. fat k (omega arith) ∙ ground arith,
        λ k lo hi. fat k hi ∙ ground arith,
        dirents,
      )
