-- ===== src/Tinyfs/WriteRead.antt =====
-- `tinyfs_write` and `tinyfs_read` of src/kernel/VFS/tinyfs.c one after the other.
use amq_os.Tinyfs.{Superblock, TinyfsData, allocate_block, eof}
use amq_os.Tinyfs.Disk.{Layout, Drive, with_dirent, write_directory, write_fat, write_superblock}
use amq_os.Tinyfs.Content.{skip_blocks, clipped, read_blocks, tinyfs_read}
use amq_os.Tinyfs.Persist.{IsWorking}
use amq_os.Tinyfs.Writing.{
  with_first_block, RawBytes, tinyfs_write, close_write, seek_block, grown, write_blocks,
}
use amq_os.Tinyfs.Appending.{IsFull, IsBlock, IsArea, taken, allocate_block-cases, Wrote}
use amq_os.Tinyfs.Growing.{write_blocks-Wrote}
use amq_os.Tinyfs.Kept.{IsLaid, Keeps, tables-Keeps}
use amq_os.Prelude.{
  ℕ, ◌+◌, ◌-◌, ◌^◌, ◌≤◌, ◌<◌, ◌≡◌, refl, sym, ap, ◌∙◌, subst, ◌⊎◌, inl, inr, Bool, true, false,
  Option, none, some, arith, ltb, leb, ◌==◌, if◌then◌else◌, u32, Option-cases, update_self, scan,
}

-- The file of an entry that has no block.
pub record IsEmptyFile (d : TinyfsData) (e : ℕ) : Type 0 where
  pub first : (d.dirents e).first_block ≡ 0
  pub size : (d.dirents e).size ≡ 0

IsFull-scan :
    (d : TinyfsData)
    → IsFull d
    → scan (λ i. d.fat i == 0) d.sb.data_start (d.sb.total_blocks - d.sb.data_start) ≡ none
unfolding allocate_block
IsFull-scan d full =
    elim (Option-cases
      (scan (λ i. d.fat i == 0) d.sb.data_start (d.sb.total_blocks - d.sb.data_start))) [
        | inl e ↦ e
        | inr (b, e) ↦
            let taking : allocate_block d ≡ (some b, taken d b) = rw (allocate_block, e) refl in
            absurd (cc (ap (λ r. r.0) (sym taking ∙ full)))
      ]

-- Only the superblock and the table decide whether a block is free.
IsFull-same : (d d' : TinyfsData) → d'.sb ≡ d.sb → d'.fat ≡ d.fat → IsFull d → IsFull d'
unfolding allocate_block
IsFull-same d d' s f full =
    rw
      (
        allocate_block,
        ap (λ x. first_free x d'.fat) s ∙ ap (λ x. first_free d.sb x) f ∙ IsFull-scan d full,
      )
      refl
  where
    first_free : Superblock → (ℕ → ℕ) → Option ℕ
    first_free sb fat = scan (λ i. fat i == 0) sb.data_start (sb.total_blocks - sb.data_start)

-- The block that a file gets.
with_first_block-cases :
    (d : TinyfsData) (e : ℕ)
    → IsArea d
    → IsEmptyFile d e
    → ((with_first_block d e ≡ (none, d)) × IsFull d)
      ⊎ ((b : ℕ) × (with_first_block d e
            ≡ (some b, with_dirent (taken d b) e (record (d.dirents e) { first_block = b })))
          × IsBlock d b)
unfolding with_first_block
with_first_block-cases d e a h = elim (allocate_block-cases d) [
  | inl f ↦ inl (ap (λ t. step t (allocate_block d)) new ∙ ap (step true) f, f)
  | inr (b, f, lo, hi, z) ↦ inr (
    b,
    ap (λ t. step t (allocate_block d)) new ∙ ap (step true) f,
    record { behind = lo; mark = λ x. omega (arith, a.ends); nonzero = λ x. omega (arith, a) },
  )
]
  where
    new : ((d.dirents e).first_block == 0) ≡ true
    new = ground (arith, h.first)

    step : Bool → Option ℕ × TinyfsData → Option ℕ × TinyfsData
    step t r =
        if t
        then elim r.0 [
          | none ↦ (none, r.1)
          | some n ↦ (some n, with_dirent r.1 e (record (r.1.dirents e) { first_block = n }))
        ]
        else (some (d.dirents e).first_block, d)

module _ {Sector : Type 0} (bytes : Sector → ℕ → ℕ) where
  -- Reading a file of `k` bytes from its start.
  read_file :
      (d : TinyfsData) (v : Drive Sector) (e k size : ℕ) (out : ℕ → ℕ)
      → (d.dirents e).size ≡ k
      → 0 < k
      → k ≤ size
      → size < 2 ^ 32
      → tinyfs_read bytes d v (some e) out size 0
        ≡ read_blocks bytes k d v k 0 0 (d.dirents e).first_block out
  unfolding tinyfs_read skip_blocks
  read_file d v e k size out s pos le small =
      ap (λ t. step t (clipped bytes (d.dirents e).size size 0)) some_left ∙ ap (step false) whole
    where
      some_left : leb (d.dirents e).size 0 ≡ false
      some_left = ground (arith, s)

      whole : clipped bytes (d.dirents e).size size 0 ≡ k
      whole = ground (arith, s)

      step : Bool → ℕ → Option (ℕ × (ℕ → ℕ))
      step t n =
          if t then some (0, out) else read_blocks bytes n d v n 0 0 (d.dirents e).first_block out

module _ (L : Layout) (w : RawBytes L.Sector) where
  -- What `tinyfs_write` left: nothing, as no block was free, or `k` bytes, all or as many as there were
  -- blocks for, which `tinyfs_read` reads.
  abbrev pub ReadsBack :
      TinyfsData → ℕ → (ℕ → ℕ) → ℕ → Option ℕ × TinyfsData × Drive L.Sector → Type 0
  ReadsBack d e buffer size r =
      ((r.0 ≡ none) × IsFull d)
      ⊎ ((k : ℕ) × (r.0 ≡ some k)
          × (0 < k)
          × ((k ≡ size) ⊎ IsFull r.1)
          × ((r.1.dirents e).size ≡ k)
          × ((out : ℕ → ℕ)
              → (out' : ℕ → ℕ) × (tinyfs_read w.bytes r.1 r.2 (some e) out size 0 ≡ some (k, out'))
                × ((j : ℕ) → j < k → out' j ≡ buffer j)))

  -- The end of `tinyfs_write` behind the loop.
  close_write-ReadsBack :
      (d0 d : TinyfsData) (v : Drive L.Sector) (e : ℕ) (buffer : ℕ → ℕ) (size b k : ℕ)
      (d' : TinyfsData) (v' : Drive L.Sector)
      → IsLaid d
      → 0 < d.sb.data_start
      → size < 2 ^ 32
      → (d.dirents e).size ≡ 0
      → (d.dirents e).first_block ≡ b
      → 0 < k
      → Wrote w d v buffer size 0 b k d' v'
      → ReadsBack d0 e buffer size (close_write L w e 0 (some k, d', v'))
  close_write-ReadsBack d0 d v e buffer size b k d' v' l a small none_yet first pos r =
      subst (λ x. ReadsBack d0 e buffer size (some k, x, tables x)) (sym whole)
        (inr (
          k,
          refl,
          pos,
          full r.all,
          ap (λ t. t.size) entry,
          λ out.
              let (out', f, inside, outside) =
                r.reads k d3 (tables d3) out (λ x. refl)
                  (λ x lo. keeps.1 x (omega (arith, r.start))) keeps.0 (omega arith) in
              (
                out',
                read_file w.bytes d3 (tables d3) e k size out (ap (λ t. t.size) entry) pos r.less
                      small
                    ∙ ap (λ n. read_blocks w.bytes k d3 (tables d3) k 0 0 n out) (kept ∙ first)
                    ∙ f,
                λ j lt. inside j (omega arith) lt,
              ),
        ))
    where
      word : u32 (0 + k) ≡ k
      word = omega (arith, r.less)

      dirent : d'.dirents e ≡ d.dirents e
      dirent = ap (λ t. t e) r.dirents

      d3 : TinyfsData
      d3 = with_dirent d' e (record (d'.dirents e) { size = k })

      grows : ltb (d'.dirents e).size (u32 (0 + k)) ≡ true
      grows = ground (arith, ap (λ t. t.size) dirent, none_yet, word)

      whole : grown d' e (u32 (0 + k)) ≡ d3
      whole =
          ap
            (λ t. if t then with_dirent d' e (record (d'.dirents e) { size = u32 (0 + k) }) else d')
            grows
          ∙ ap (λ n. with_dirent d' e (record (d'.dirents e) { size = n })) word

      entry : d3.dirents e ≡ record (d'.dirents e) { size = k }
      entry = update_self d'.dirents e (record (d'.dirents e) { size = k })

      kept : (d3.dirents e).first_block ≡ (d.dirents e).first_block
      kept = ap (λ t. t.first_block) entry ∙ ap (λ t. t.first_block) dirent

      tables : TinyfsData → Drive L.Sector
      tables x = (write_superblock L x (write_fat L x (write_directory L x v').1).1).1

      laid : IsLaid d3
      laid = record {
        fat = omega (arith, l.fat, r.fat, r.start);
        dir = omega (arith, l.dir, r.dir, r.start);
        small = omega (arith, l.small, r.start);
      }

      keeps : Keeps L d3 v' (tables d3)
      keeps = tables-Keeps L d3 v' laid (omega (arith, r.start)) r.working

      full : (k ≡ size) ⊎ IsFull d' → (k ≡ size) ⊎ IsFull d3
      full (inl h) = inl h
      full (inr h) = inr (IsFull-same d' d3 refl refl h)

  tinyfs_write-first :
      (d : TinyfsData) (v : Drive L.Sector) (e : ℕ) (buffer : ℕ → ℕ) (size : ℕ) (block : ℕ → ℕ)
      → tinyfs_write L w d v (some e) buffer size 0 block ≡ elim (with_first_block d e).0 [
        | none ↦ (none, (with_first_block d e).1, v)
        | some b ↦
            close_write L w e 0
              (write_blocks w size (with_first_block d e).1 v buffer size 0 0 b block)
      ]
  unfolding tinyfs_write seek_block
  tinyfs_write-first d v e buffer size block = refl

  -- Bytes are written to an empty file from its start, on a drive without failures, the tables of
  -- which lie below the data area. `tinyfs_write` fails only if no block is free; else it returns a
  -- positive number `k` of bytes, the size of the file after it, which is the number asked for unless
  -- no block is free any more, and `tinyfs_read` from the start of the file returns `k` and those bytes.
  pub tinyfs_read-tinyfs_write :
      (d : TinyfsData) (v : Drive L.Sector) (e : ℕ) (buffer : ℕ → ℕ) (size : ℕ) (block : ℕ → ℕ)
      → IsWorking v
      → IsArea d
      → IsLaid d
      → IsEmptyFile d e
      → 0 < size
      → size < 2 ^ 32
      → ReadsBack d e buffer size (tinyfs_write L w d v (some e) buffer size 0 block)
  tinyfs_read-tinyfs_write d v e buffer size block h a l empty pos small =
      subst (ReadsBack d e buffer size) (sym (tinyfs_write-first d v e buffer size block))
        (elim (with_first_block-cases d e a empty) [
          | inl (f, full) ↦
              subst (λ r. ReadsBack d e buffer size (after r)) (sym f) (inl (refl, full))
          | inr (b, f, is_block) ↦
              let d1 = with_dirent (taken d b) e (record (d.dirents e) { first_block = b }) in
              let entry : d1.dirents e ≡ record (d.dirents e) { first_block = b } =
                update_self d.dirents e (record (d.dirents e) { first_block = b }) in
              let (k, d', v', ran, further, wrote) =
                write_blocks-Wrote w size d1 v buffer size 0 b block pos (omega arith) h
                  (record { start = a.start; ends = a.ends })
                  (record {
                    behind = is_block.behind;
                    mark = is_block.mark;
                    nonzero = is_block.nonzero;
                  })
                  (update_self d.fat b eof) in
              subst (λ r. ReadsBack d e buffer size (after r)) (sym f)
                (subst (λ r. ReadsBack d e buffer size (close_write L w e 0 r)) (sym ran)
                  (close_write-ReadsBack d d1 v e buffer size b k d' v'
                    (record { fat = l.fat; dir = l.dir; small = l.small }) a.start small
                    (ap (λ t. t.size) entry ∙ empty.size) (ap (λ t. t.first_block) entry) further
                    wrote))
        ])
    where
      after : Option ℕ × TinyfsData → Option ℕ × TinyfsData × Drive L.Sector
      after r = elim r.0 [
        | none ↦ (none, r.1, v)
        | some b ↦ close_write L w e 0 (write_blocks w size r.1 v buffer size 0 0 b block)
      ]
