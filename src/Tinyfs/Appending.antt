-- ===== src/Tinyfs/Appending.antt =====
-- What `tinyfs_write` of src/kernel/VFS/tinyfs.c leaves on the drive when it extends a chain.
use amq_os.Tinyfs.{TinyfsData, eof, allocate_block}
use amq_os.Tinyfs.Disk.{Drive}
use amq_os.Tinyfs.Content.{least, copy_into, read_blocks}
use amq_os.Tinyfs.Persist.{IsWorking}
use amq_os.Tinyfs.Writing.{RawBytes, extend}
use amq_os.Prelude.{
  ℕ, zero, suc, ◌+◌, ◌-◌, ◌≤◌, ◌<◌, ◌≡◌, refl, ap, ◌∙◌, ◌≢◌, ◌⊎◌, inl, inr, Bool, true, false, not,
  ◌&&◌, Option, none, some, arith, ltb, leb, ◌==◌, if◌then◌else◌, sub32, Bool-cases, Option-cases,
  update, scan, scan-some,
}

-- No block of the data area is free.
abbrev pub IsFull : TinyfsData → Type 0
IsFull d = allocate_block d ≡ (none, d)

-- What `allocate_block` does to the tables.
abbrev pub taken : TinyfsData → ℕ → TinyfsData
taken d b = record d {
  fat = update d.fat b eof;
  sb = record d.sb { free_blocks = sub32 d.sb.free_blocks 1 };
}

pub allocate_block-cases :
    (d : TinyfsData)
    → IsFull d
      ⊎ ((b : ℕ) × (allocate_block d ≡ (some b, taken d b))
          × (d.sb.data_start ≤ b)
          × (b < d.sb.data_start + (d.sb.total_blocks - d.sb.data_start))
          × (d.fat b ≡ 0))
unfolding allocate_block
allocate_block-cases d =
    let test : ℕ → Bool = λ i. d.fat i == 0 in
    let rounds = d.sb.total_blocks - d.sb.data_start in
    elim (Option-cases (scan test d.sb.data_start rounds)) [
      | inl e ↦ inl (rw (allocate_block, e) refl)
      | inr (b, e) ↦
          let hit = scan-some test d.sb.data_start rounds b e in
          inr (b, rw (allocate_block, e) refl, hit.0, hit.1, ground (arith, hit.2))
    ]

-- A block of the data area that is none of the marks.
pub record IsBlock (d : TinyfsData) (b : ℕ) : Type 0 where
  pub behind : d.sb.data_start ≤ b
  pub mark : b ≢ eof
  pub nonzero : b ≢ 0

-- The data area starts behind block 0 and ends below the mark.
pub record IsArea (d : TinyfsData) : Type 0 where
  pub start : 0 < d.sb.data_start
  pub ends : d.sb.data_start + (d.sb.total_blocks - d.sb.data_start) ≤ eof

-- The step to a new block at the end of a chain.
pub extend-cases :
    (d : TinyfsData) (current : ℕ)
    → IsArea d
    → d.fat current ≡ eof
    → ((extend d current ≡ (none, d)) × IsFull d)
      ⊎ ((n : ℕ) × IsBlock d n
          × (d.fat n ≡ 0)
          × (current ≢ n)
          × (extend d current
              ≡ (some n, record (taken d n) { fat = update (update d.fat n eof) current n })))
unfolding extend
extend-cases d current a e = elim (allocate_block-cases d) [
  | inl f ↦ inl (ap step f ∙ at_end (none, d), f)
  | inr (n, f, lo, hi, z) ↦ inr (
    n,
    record {
      behind = lo;
      mark = λ x. omega (arith, a.ends);
      nonzero = λ x. omega (arith, a.start);
    },
    z,
    λ x. absurd (omega (arith, e, z, ap d.fat x)),
    ap step f ∙ at_end (some n, taken d n),
  )
]
  where
    is_end : (d.fat current == eof) ≡ true
    is_end = ground (arith, e)

    linked : Option ℕ × TinyfsData → Option ℕ × TinyfsData
    linked r = elim r.0 [
      | none ↦ (none, r.1)
      | some n ↦ (some n, record r.1 { fat = update r.1.fat current n })
    ]

    step : Option ℕ × TinyfsData → Option ℕ × TinyfsData
    step r = if d.fat current == eof then linked r else (some (d.fat current), d)

    at_end : (r : Option ℕ × TinyfsData) → step r ≡ linked r
    at_end r = rw is_end refl

module _ {Sector : Type 0} (w : RawBytes Sector) where
  -- The buffer from `written` on, up to `k`, stands in the chain from `current` on, and reading it takes
  -- as many rounds as there are bytes at most.
  abbrev pub Reads : ℕ → (ℕ → ℕ) → (ℕ → Sector) → (ℕ → ℕ) → ℕ → ℕ → ℕ → Type 0
  Reads start fat sector buffer written k current =
      (fuel : ℕ) (d : TinyfsData) (v : Drive Sector) (out : ℕ → ℕ)
      → ((b : ℕ) → d.fat b ≡ fat b)
      → ((b : ℕ) → start ≤ b → v.sector b ≡ sector b)
      → IsWorking v
      → k ≤ written + fuel
      → (out' : ℕ → ℕ) × (read_blocks w.bytes fuel d v k written 0 current out ≡ some (k, out'))
        × ((j : ℕ) → written ≤ j → j < k → out' j ≡ buffer j)
        × ((j : ℕ) → j < written → out' j ≡ out j)

  -- What a run of `write_blocks` from block `current` on has done: `k` bytes are written, all or as many
  -- as there were blocks for, they can be read, and the blocks in use before are as they were.
  pub record Wrote (d : TinyfsData) (v : Drive Sector) (buffer : ℕ → ℕ) (size written current k : ℕ)
      (d' : TinyfsData) (v' : Drive Sector) : Type 0 where
    pub more : written ≤ k
    pub less : k ≤ size
    pub all : (k ≡ size) ⊎ IsFull d'
    pub reads : Reads d.sb.data_start d'.fat v'.sector buffer written k current
    pub kept :
        (b : ℕ) → b ≢ current → d.fat b ≢ 0 → (d'.fat b ≡ d.fat b) × (v'.sector b ≡ v.sector b)
    pub start : d'.sb.data_start ≡ d.sb.data_start
    pub fat : d'.sb.fat_start ≡ d.sb.fat_start
    pub dir : d'.sb.dir_start ≡ d.sb.dir_start
    pub dirents : d'.dirents ≡ d.dirents
    pub working : IsWorking v'

  -- A round that reads `c` bytes.
  read_round :
      (fuel : ℕ) (d : TinyfsData) (v : Drive Sector) (k written current c : ℕ) (out : ℕ → ℕ)
      → written < k
      → current ≢ eof
      → IsWorking v
      → least 512 (k - written) ≡ c
      → read_blocks w.bytes (suc fuel) d v k written 0 current out
        ≡ read_blocks w.bytes fuel d v k
            (written + c)
            0
            (d.fat current)
            (copy_into out written (w.bytes (v.sector current)) 0 c)
  unfolding read_blocks
  read_round fuel d v k written current c out lt mark h e =
      rw (goes_on, h.reads current) (ap next e)
    where
      goes_on : (ltb written k && not (current == eof)) ≡ true
      goes_on = ground arith

      next : ℕ → Option (ℕ × (ℕ → ℕ))
      next c =
          read_blocks w.bytes fuel d v k (written + c) 0 (d.fat current)
            (copy_into out written (w.bytes (v.sector current)) 0 c)

  read_end :
      (fuel : ℕ) (d : TinyfsData) (v : Drive Sector) (k current : ℕ) (out : ℕ → ℕ)
      → read_blocks w.bytes fuel d v k k 0 current out ≡ some (k, out)
  unfolding read_blocks
  read_end zero d v k current out = refl
  read_end (suc fuel) d v k current out = rw done refl
    where
      done : (ltb k k && not (current == eof)) ≡ false
      done = ground arith

  -- The bytes of a block at their place in the buffer.
  copied :
      (sector : Sector) (buffer out : ℕ → ℕ) (written c j : ℕ)
      → ((j : ℕ) → j < c → w.bytes sector j ≡ buffer (written + j))
      → written ≤ j
      → j < written + c
      → copy_into out written (w.bytes sector) 0 c j ≡ buffer j
  copied sector buffer out written c j stored lo hi =
      rw inside (ap (w.bytes sector) start ∙ stored (j - written) (omega arith) ∙ ap buffer place)
    where
      inside : (leb written j && ltb j (written + c)) ≡ true
      inside = ground arith

      start : 0 + (j - written) ≡ j - written
      start = omega arith

      place : written + (j - written) ≡ j
      place = omega arith

  before :
      (sector : Sector) (out : ℕ → ℕ) (written c j : ℕ)
      → j < written
      → copy_into out written (w.bytes sector) 0 c j ≡ out j
  before sector out written c j lt = rw outside refl
    where
      outside : (leb written j && ltb j (written + c)) ≡ false
      outside = ground arith

  -- The last block: nothing is left to write behind it.
  pub read_last :
      (start : ℕ) (fat : ℕ → ℕ) (sector : ℕ → Sector) (buffer : ℕ → ℕ) (written k current : ℕ)
      → written < k
      → k ≤ written + 512
      → start ≤ current
      → current ≢ eof
      → ((j : ℕ) → j < k - written → w.bytes (sector current) j ≡ buffer (written + j))
      → Reads start fat sector buffer written k current
  read_last start fat sector buffer written k current lt near behind mark stored zero d v out f g h
        e =
      absurd (omega arith)
  read_last start fat sector buffer written k current lt near behind mark stored (suc fuel) d v out
        f g h e =
      let c = k - written in
      let rest : least 512 (k - written) ≡ c = ground arith in
      let total : written + c ≡ k = omega arith in
      let same = g current behind in
      let out' = copy_into out written (w.bytes (v.sector current)) 0 c in
      (
        out',
        read_round fuel d v k written current c out lt mark h rest
            ∙ ap (λ t. read_blocks w.bytes fuel d v k t 0 (d.fat current) out') total
            ∙ read_end fuel d v k (d.fat current) out',
        λ j lo hi.
            ap (λ x. copy_into out written (w.bytes x) 0 c j) same
            ∙ copied (sector current) buffer out written c j stored lo (omega arith),
        λ j l. before (v.sector current) out written c j l,
      )

  -- A block and the rest of the chain.
  pub read_more :
      (start : ℕ) (fat : ℕ → ℕ) (sector : ℕ → Sector) (buffer : ℕ → ℕ) (written k current : ℕ)
      → written + 512 < k
      → start ≤ current
      → current ≢ eof
      → ((j : ℕ) → j < 512 → w.bytes (sector current) j ≡ buffer (written + j))
      → Reads start fat sector buffer (written + 512) k (fat current)
      → Reads start fat sector buffer written k current
  read_more start fat sector buffer written k current le behind mark stored rest zero d v out f g h
        e =
      absurd (omega arith)
  read_more start fat sector buffer written k current le behind mark stored rest (suc fuel) d v out
        f g h e =
      let full : least 512 (k - written) ≡ 512 = ground arith in
      let same = g current behind in
      let out1 = copy_into out written (w.bytes (v.sector current)) 0 512 in
      let (out', r, inside, outside) = rest fuel d v out1 f g h (omega arith) in
      (
        out',
        read_round fuel d v k written current 512 out (omega arith) mark h full
            ∙ ap (λ n. read_blocks w.bytes fuel d v k (written + 512) 0 n out1) (f current)
            ∙ r,
        λ j lo hi. elim (Bool-cases (ltb j (written + 512))) [
          | inl t ↦
              outside j (ground arith)
              ∙ ap (λ x. copy_into out written (w.bytes x) 0 512 j) same
              ∙ copied (sector current) buffer out written 512 j stored lo (ground arith)
          | inr t ↦ inside j (ground arith) hi
        ],
        λ j l. outside j (omega arith) ∙ before (v.sector current) out written 512 j l,
      )
