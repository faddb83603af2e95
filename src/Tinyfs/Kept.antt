-- ===== src/Tinyfs/Kept.antt =====
-- src/kernel/VFS/tinyfs.c: the tables are written beside the data area.
use amq_os.Tinyfs.{TinyfsData}
use amq_os.Tinyfs.Disk.{
  Layout, Drive, write_directory, write_fat, write_superblock, dir_sector, fat_sector,
}
use amq_os.Tinyfs.Persist.{IsWorking, write_loop-Written}
use amq_os.Prelude.{
  ℕ, ◌+◌, ◌^◌, ◌≤◌, ◌<◌, ◌≡◌, sym, ap, ◌∙◌, subst, inr, Bool, true, false, arith, if◌then◌else◌,
  update, update_ne,
}

-- The tables lie below the data area.
pub record IsLaid (d : TinyfsData) : Type 0 where
  pub fat : d.sb.fat_start + 10 ≤ d.sb.data_start
  pub dir : d.sb.dir_start + 90 ≤ d.sb.data_start
  pub small : d.sb.data_start < 2 ^ 32

module _ (L : Layout) where
  -- The tables are written without touching the data area.
  abbrev pub Keeps : TinyfsData → Drive L.Sector → Drive L.Sector → Type 0
  Keeps d v v' = IsWorking v' × ((b : ℕ) → d.sb.data_start ≤ b → v'.sector b ≡ v.sector b)

  write_directory-Keeps :
      (d : TinyfsData) (v : Drive L.Sector)
      → IsLaid d
      → IsWorking v
      → Keeps d v (write_directory L d v).1
  unfolding write_directory
  write_directory-Keeps d v a h =
      let r =
        write_loop-Written 90 0 d.sb.dir_start (dir_sector L d) v h
          (omega (arith, a.dir, a.small)) in
      (r.working, λ b lo. r.outside b (inr (omega (arith, a.dir))))

  write_fat-Keeps :
      (d : TinyfsData) (v : Drive L.Sector) → IsLaid d → IsWorking v → Keeps d v (write_fat L d v).1
  unfolding write_fat
  write_fat-Keeps d v a h =
      let r =
        write_loop-Written 10 0 d.sb.fat_start (fat_sector L d) v h
          (omega (arith, a.fat, a.small)) in
      (r.working, λ b lo. r.outside b (inr (omega (arith, a.fat))))

  write_superblock-Keeps :
      (d : TinyfsData) (v : Drive L.Sector)
      → 0 < d.sb.data_start
      → IsWorking v
      → Keeps d v (write_superblock L d v).1
  unfolding write_superblock
  write_superblock-Keeps d v a h =
      let done : v.write_fails 0 ≡ false = h.writes 0 in
      subst (λ r. Keeps d v r.1) (sym (ap step done))
        (
          record { reads = h.reads; writes = h.writes },
          λ b lo. update_ne v.sector 0 (L.put_superblock d.sb) b (λ e. omega (arith, a)),
        )
    where
      step : Bool → Bool × Drive L.Sector
      step fails =
          if fails
          then (false, v)
          else (true, record v { sector = update v.sector 0 (L.put_superblock d.sb) })

  pub tables-Keeps :
      (d : TinyfsData) (v : Drive L.Sector)
      → IsLaid d
      → 0 < d.sb.data_start
      → IsWorking v
      → Keeps d v (write_superblock L d (write_fat L d (write_directory L d v).1).1).1
  tables-Keeps d v l a h =
      let r = write_directory-Keeps d v l h in
      let s = write_fat-Keeps d (write_directory L d v).1 l r.0 in
      let t = write_superblock-Keeps d (write_fat L d (write_directory L d v).1).1 a s.0 in
      (t.0, λ b lo. t.1 b lo ∙ s.1 b lo ∙ r.1 b lo)
