-- ===== src/Tinyfs/Persist.antt =====
-- What src/kernel/VFS/tinyfs.c writes is what it reads back.
use amq_os.Prelude.{
  ℕ, zero, suc, ◌+◌, ◌*◌, ◌/◌, ◌%◌, ◌^◌, ◌≤◌, ◌<◌, ◌≡◌, refl, sym, ap, ◌∙◌, subst, ◌⊎◌, inl, inr,
  Bool, true, false, ◌&&◌, some, List, arith, ltb, ◌==◌, if◌then◌else◌, u32, Bool-cases, ==_iff,
  update, update_self,
}
use amq_os.Tinyfs.{TinyfsData, Superblock, Dirent, tinyfs_magic, max_files, strcpy_safe}
use amq_os.Tinyfs.Disk.{
  Layout, Drive, write_loop, read_loop, write_superblock, fat_sector, write_fat, dir_sector,
  write_directory, tinyfs_mount, tinyfs_unmount, no_dirent,
}

-- No access fails.
pub record IsWorking {Sector : Type 0} (v : Drive Sector) : Type 0 where
  pub reads : (lba : ℕ) → v.read_fails lba ≡ false
  pub writes : (lba : ℕ) → v.write_fails lba ≡ false

-- The sectors from `start + i` on hold the content, and the others are as before.
pub record Written {Sector : Type 0} (v : Drive Sector) (i rounds start : ℕ) (content : ℕ → Sector)
    (r : Bool × Drive Sector) : Type 0 where
  pub done : r.0 ≡ true
  pub inside : (j : ℕ) → i ≤ j → j < i + rounds → r.1.sector (start + j) ≡ content j
  pub outside :
      (lba : ℕ) → (lba < start + i) ⊎ (start + i + rounds ≤ lba) → r.1.sector lba ≡ v.sector lba
  pub working : IsWorking r.1

-- The entry of a sector at its place in the table.
word_at :
    (d : TinyfsData) (k : ℕ)
    → k < 1024
    → (if ltb (k / 128 * 128 + k % 128) 1024 then d.fat (k / 128 * 128 + k % 128) else 0) ≡ d.fat k
word_at d k h = let e : k / 128 * 128 + k % 128 ≡ k = omega arith in rw e (ground arith)

dirent_at :
    (d : TinyfsData) (k : ℕ)
    → k < max_files
    → (if ltb (k / 9 * 9 + k % 9) max_files then d.dirents (k / 9 * 9 + k % 9) else no_dirent)
      ≡ d.dirents k
dirent_at d k h = let e : k / 9 * 9 + k % 9 ≡ k = omega arith in rw e (ground arith)

-- The entry that a round reads.
here_entry {ℓ} :
    {A : Type ℓ} (f : ℕ → A) (x y : A) (q i k limit : ℕ)
    → k < limit
    → q ≡ i
    → x ≡ (if q == i && ltb k limit then f i else y)
    → x ≡ f q
here_entry f x y q i k limit s e h = h ∙ ground arith

module _ {Sector : Type 0} where
  first_Written :
      (rounds i start : ℕ) (content : ℕ → Sector) (v : Drive Sector) (r : Bool × Drive Sector)
      → IsWorking v
      → start + i + suc rounds < 2 ^ 32
      → Written
          (record v { sector = update v.sector (u32 (start + i)) (content i) })
          (i + 1)
          rounds
          start
          content
          r
      → Written v i (suc rounds) start content r
  first_Written rounds i start content v r w small rest = record {
    done = rest.done;
    inside = λ j lo hi. elim (Bool-cases (i == j)) [
      | inl e ↦ ground (arith, rest.outside (start + j) (inl (ground arith)))
      | inr e ↦ rest.inside j (ground arith) (omega arith)
    ];
    outside = λ lba h. ground (arith, rest.outside lba (omega arith));
    working = rest.working;
  }

  pub write_loop-Written :
      (rounds i start : ℕ) (content : ℕ → Sector) (v : Drive Sector)
      → IsWorking v
      → start + i + rounds < 2 ^ 32
      → Written v i rounds start content (write_loop rounds i start content v)
  unfolding write_loop
  write_loop-Written zero i start content v w small = record {
    done = refl;
    inside = λ j lo hi. absurd (omega arith);
    outside = λ lba h. refl;
    working = w;
  }
  write_loop-Written (suc rounds) i start content v w small = rw (w.writes (u32 (start + i))) (
      first_Written rounds i start content v _ w small (
        write_loop-Written rounds (i + 1) start content
          (record v { sector = update v.sector (u32 (start + i)) (content i) })
          (record { reads = w.reads; writes = w.writes }) (omega arith)))

  -- Without failures the entries of the rounds are read, and those before are left.
  read_loop-some {ℓ} :
      {A : Type ℓ} (rounds i start per limit : ℕ) (get : Sector → ℕ → A) (v : Drive Sector)
      (t : ℕ → A)
      → IsWorking v
      → (t' : ℕ → A) × (read_loop rounds i start per limit get v t ≡ some t')
        × ((k : ℕ)
            → k < limit
            → i ≤ k / per
            → k / per < i + rounds
            → t' k ≡ get (v.sector (u32 (start + k / per))) (k % per))
        × ((k : ℕ) → k / per < i → t' k ≡ t k)
  unfolding read_loop
  read_loop-some zero i start per limit get v t w =
      (t, refl, λ k s lo hi. absurd (omega arith), λ k h. refl)
  read_loop-some (suc rounds) i start per limit get v t w =
      let (t', e, inside, before) =
        read_loop-some rounds (i + 1) start per limit get v
          (λ k.
            if k / per == i && ltb k limit then get (v.sector (u32 (start + i))) (k % per) else t k)
          w in
      (
        t',
        rw (w.reads (u32 (start + i))) e,
        λ k s lo hi. elim (Bool-cases (k / per == i)) [
          | inl h ↦
              here_entry (λ q. get (v.sector (u32 (start + q))) (k % per)) (t' k) (t k) (k / per) i
                k limit s ((==_iff (k / per) i).0 h) (before k (ground arith))
          | inr h ↦ inside k s (ground arith) (omega arith)
        ],
        λ k h. before k (omega arith) ∙ ground arith,
      )

module _ (L : Layout) where
  open L use {Sector, get_superblock, get_word, get_dirent, superblock_law, words_law, dirents_law}

  -- The drive after an unmount of `d`.
  record Saved (d : TinyfsData) (v : Drive Sector) : Type 0 where
    superblock : v.sector 0 ≡ L.put_superblock d.sb
    fat : (j : ℕ) → j < 10 → v.sector (1 + j) ≡ fat_sector L d j
    dirents : (j : ℕ) → j < 90 → v.sector (11 + j) ≡ dir_sector L d j
    working : IsWorking v

  tinyfs_unmount-Saved :
      (d : TinyfsData) (v : Drive Sector)
      → IsWorking v
      → d.sb.fat_start ≡ 1
      → d.sb.dir_start ≡ 11
      → Saved d (tinyfs_unmount L d v)
  unfolding tinyfs_unmount write_superblock write_fat write_directory
  tinyfs_unmount-Saved d v w f g =
      let v1 : Drive Sector = record v { sector = update v.sector 0 (L.put_superblock d.sb) } in
      let r1 : write_superblock L d v ≡ (true, v1) = rw (w.writes 0) in
      let w1 : IsWorking v1 = record { reads = w.reads; writes = w.writes } in
      let fats = write_loop-Written 10 0 1 (fat_sector L d) v1 w1 (omega arith) in
      let v2 = (write_loop 10 0 1 (fat_sector L d) v1).1 in
      let dirs = write_loop-Written 90 0 11 (dir_sector L d) v2 fats.working (omega arith) in
      let v3 = (write_loop 90 0 11 (dir_sector L d) v2).1 in
      let all : tinyfs_unmount L d v ≡ v3 =
        ap
          (λ q.
            (write_loop 90 0 d.sb.dir_start (dir_sector L d)
              (write_loop 10 0 d.sb.fat_start (fat_sector L d) q).1).1)
          (ap (λ r. r.1) r1)
        ∙ ap
            (λ a.
              (write_loop 90 0 d.sb.dir_start (dir_sector L d)
                (write_loop 10 0 a (fat_sector L d) v1).1).1)
            f
        ∙ ap (λ a. (write_loop 90 0 a (dir_sector L d) v2).1) g in
      subst (Saved d) (sym all) (record {
        superblock =
            dirs.outside 0 (inl (omega arith))
            ∙ fats.outside 0 (inl (omega arith))
            ∙ update_self v.sector 0 _;
        fat = λ j h.
            dirs.outside (1 + j) (inl (omega arith)) ∙ fats.inside j (omega arith) (omega arith);
        dirents = λ j h. dirs.inside j (omega arith) (omega arith);
        working = dirs.working;
      })

  -- A mount that meets no failure and finds the magic number.
  mount_found :
      (m : TinyfsData) (device : List ℕ) (v : Drive Sector) (sb : Superblock) (fat : ℕ → ℕ)
      (dirents : ℕ → Dirent)
      → v.read_fails 0 ≡ false
      → get_superblock (v.sector 0) ≡ sb
      → (sb.magic == tinyfs_magic) ≡ true
      → read_loop 10 0 sb.fat_start 128 1024 get_word v m.fat ≡ some fat
      → read_loop 90 0 sb.dir_start 9 max_files get_dirent v m.dirents ≡ some dirents
      → tinyfs_mount L (some m) device v
        ≡ some (record { sb = sb; fat = fat; dirents = dirents; device = strcpy_safe device 32 })
  unfolding tinyfs_mount
  mount_found m device v sb fat dirents r e =
      subst
        (λ b.
          (b.magic == tinyfs_magic) ≡ true
          → read_loop 10 0 b.fat_start 128 1024 get_word v m.fat ≡ some fat
          → read_loop 90 0 b.dir_start 9 max_files get_dirent v m.dirents ≡ some dirents
          → tinyfs_mount L (some m) device v
            ≡ some
                (record { sb = b; fat = fat; dirents = dirents; device = strcpy_safe device 32 }))
        e (λ magic f t. rw r (rw magic (rw (f, t))))

  -- A file system that was unmounted on a working drive, with the magic number and the tables where
  -- `tinyfs_format` puts them, mounts again with the same superblock, allocation table and directory,
  -- whatever the memory held that `kmalloc` gave.
  pub tinyfs_mount-tinyfs_unmount :
      (d m : TinyfsData) (device : List ℕ) (v : Drive Sector)
      → IsWorking v
      → d.sb.magic ≡ tinyfs_magic
      → d.sb.fat_start ≡ 1
      → d.sb.dir_start ≡ 11
      → (d' : TinyfsData) × (tinyfs_mount L (some m) device (tinyfs_unmount L d v) ≡ some d')
        × (d'.sb ≡ d.sb)
        × ((k : ℕ) → k < 1024 → d'.fat k ≡ d.fat k)
        × ((k : ℕ) → k < max_files → d'.dirents k ≡ d.dirents k)
  tinyfs_mount-tinyfs_unmount d m device v w magic f g =
      let v' = tinyfs_unmount L d v in
      let sv = tinyfs_unmount-Saved d v w f g in
      let (fat, fe, fat_read, _) =
        read_loop-some 10 0 d.sb.fat_start 128 1024 get_word v' m.fat sv.working in
      let (dirents, de, dir_read, _) =
        read_loop-some 90 0 d.sb.dir_start 9 max_files get_dirent v' m.dirents sv.working in
      (
        record { sb = d.sb; fat = fat; dirents = dirents; device = strcpy_safe device 32 },
        mount_found m device v' d.sb fat dirents (sv.working.reads 0)
            (ap get_superblock sv.superblock ∙ superblock_law d.sb)
            ((==_iff d.sb.magic tinyfs_magic).1 magic) fe de,
        refl,
        λ k h.
            fat_read k h (omega arith) (omega arith)
            ∙ ap (λ x. get_word (v'.sector x) (k % 128)) (omega arith)
            ∙ ap (λ x. get_word x (k % 128)) (sv.fat (k / 128) (omega arith))
            ∙ words_law _ (k % 128) (omega arith)
            ∙ word_at d k h,
        λ k h.
            dir_read k h (omega arith) (omega arith)
            ∙ ap (λ x. get_dirent (v'.sector x) (k % 9)) (omega arith)
            ∙ ap (λ x. get_dirent x (k % 9)) (sv.dirents (k / 9) (omega arith))
            ∙ dirents_law _ (k % 9) (omega arith)
            ∙ dirent_at d k h,
      )
