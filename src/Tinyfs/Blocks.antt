-- ===== src/Tinyfs/Blocks.antt =====
-- The blocks of src/kernel/VFS/tinyfs.c: `free_blocks` counts the free entries of the table, and a
-- chain that is freed is free as a whole.
use amq_os.Prelude.{
  ℕ, zero, suc, ◌+◌, ◌-◌, ◌≤◌, ◌<◌, ◌≡◌, refl, ◌∙◌, ◌≢◌, ◌⊎◌, inl, inr, none, some, arith, ◌==◌,
  if◌then◌else◌, sub32, Bool-cases, Option-cases, update, scan, scan-some, scan-first,
}
use amq_os.Tinyfs.{TinyfsData, allocate_block, eof}

-- The free entries among `rounds` entries from `i` on.
abbrev pub count_free : (ℕ → ℕ) → ℕ → ℕ → ℕ
count_free fat i zero = 0
count_free fat i (suc rounds) = (if fat i == 0 then 1 else 0) + count_free fat (i + 1) rounds

count_free-update_outside :
    (fat : ℕ → ℕ) (i rounds b v : ℕ)
    → (b < i) ⊎ (i + rounds ≤ b)
    → count_free (update fat b v) i rounds ≡ count_free fat i rounds
count_free-update_outside fat i zero b v h = refl
count_free-update_outside fat i (suc rounds) b v h =
    ground (arith, count_free-update_outside fat (i + 1) rounds b v (omega arith))

-- Writing an entry of the range changes the count by that entry alone.
pub count_free-update :
    (fat : ℕ → ℕ) (i rounds b v : ℕ)
    → i ≤ b
    → b < i + rounds
    → count_free (update fat b v) i rounds + (if fat b == 0 then 1 else 0)
      ≡ count_free fat i rounds + (if v == 0 then 1 else 0)
count_free-update fat i zero b v lo hi = absurd (omega arith)
count_free-update fat i (suc rounds) b v lo hi = elim (Bool-cases (i == b)) [
  | inl e ↦ ground (arith, count_free-update_outside fat (i + 1) rounds b v (inl (ground arith)))
  | inr e ↦ ground (arith, count_free-update fat (i + 1) rounds b v (ground arith) (ground arith))
]

-- The superblock's count is that of the table, and all blocks have an entry in it.
pub record IsCounted (d : TinyfsData) : Type 0 where
  pub small : d.sb.total_blocks ≤ 1024
  pub start : d.sb.data_start ≤ d.sb.total_blocks
  pub counted :
      d.sb.free_blocks ≡ count_free d.fat d.sb.data_start (d.sb.total_blocks - d.sb.data_start)

pub count_free-le : (fat : ℕ → ℕ) (i rounds : ℕ) → count_free fat i rounds ≤ rounds
count_free-le fat i zero = omega arith
count_free-le fat i (suc rounds) = ground (arith, count_free-le fat (i + 1) rounds)

count_free-none :
    (fat : ℕ → ℕ) (i rounds : ℕ)
    → scan (λ j. fat j == 0) i rounds ≡ none
    → count_free fat i rounds ≡ 0
unfolding scan
count_free-none fat i zero h = refl
count_free-none fat i (suc rounds) h = ground (arith, count_free-none fat (i + 1) rounds)

-- The number of data blocks.
abbrev pub area : TinyfsData → ℕ
area d = d.sb.total_blocks - d.sb.data_start

abbrev allocated : TinyfsData → ℕ → TinyfsData
allocated d b = record d {
  fat = update d.fat b eof;
  sb = record d.sb { free_blocks = sub32 d.sb.free_blocks 1 };
}

-- If the superblock counts the free blocks, allocation fails only if no block is free, and then changes nothing. Otherwise it returns the first
-- free block of the data area, marks the end of a chain there and nothing else in the table, and the
-- superblock still counts the free blocks.
pub allocate_block_lem :
    (d : TinyfsData)
    → IsCounted d
    → ((allocate_block d ≡ (none, d)) × (d.sb.free_blocks ≡ 0))
      ⊎ ((b : ℕ) × (d' : TinyfsData) × (allocate_block d ≡ (some b, d'))
          × (d.sb.data_start ≤ b)
          × (b < d.sb.total_blocks)
          × (d.fat b ≡ 0)
          × ((j : ℕ) → d.sb.data_start ≤ j → j < b → d.fat j ≢ 0)
          × (d'.fat b ≡ eof)
          × ((j : ℕ) → j ≢ b → d'.fat j ≡ d.fat j)
          × (d'.sb.free_blocks + 1 ≡ d.sb.free_blocks)
          × IsCounted d')
unfolding allocate_block
allocate_block_lem d v = elim (Option-cases (scan (λ i. d.fat i == 0) d.sb.data_start (area d))) [
  | inl e ↦
      inl
        (rw (e, allocate_block) refl, v.counted ∙ count_free-none d.fat d.sb.data_start (area d) e)
  | inr (b, e) ↦
      let found = scan-some (λ i. d.fat i == 0) d.sb.data_start (area d) b e in
      let before = count_free-update d.fat d.sb.data_start (area d) b eof found.0 found.1 in
      let size = count_free-le d.fat d.sb.data_start (area d) in
      inr (
        b,
        allocated d b,
        rw (e, allocate_block) refl,
        found.0,
        omega (arith, found.1, v.start),
        ground (arith, found.2),
        λ j lo hi.
            ground (arith, scan-first (λ i. d.fat i == 0) d.sb.data_start (area d) b j e lo hi),
        ground arith,
        λ j n. ground arith,
        ground (arith, before, size, found.2, v.counted, v.small),
        record {
          small = v.small;
          start = v.start;
          counted = ground (arith, before, size, found.2, v.counted, v.small);
        },
      )
]
