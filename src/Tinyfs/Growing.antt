-- ===== src/Tinyfs/Growing.antt =====
-- The second loop of `tinyfs_write` of src/kernel/VFS/tinyfs.c on a chain that it extends.
use amq_os.Tinyfs.{TinyfsData, eof}
use amq_os.Tinyfs.Disk.{Drive}
use amq_os.Tinyfs.Content.{least, copy_into}
use amq_os.Tinyfs.Persist.{IsWorking}
use amq_os.Tinyfs.Writing.{RawBytes, extend, fetch, write_blocks}
use amq_os.Tinyfs.Appending.{
  IsFull, IsBlock, IsArea, taken, extend-cases, Reads, Wrote, read_last, read_more,
}
use amq_os.Prelude.{
  ℕ, zero, suc, ◌+◌, ◌-◌, ◌≤◌, ◌<◌, ◌≡◌, refl, sym, ap, ◌∙◌, subst, ◌≢◌, ◌⊎◌, inl, inr, Bool, true,
  false, not, ◌&&◌, ◌||◌, Option, none, some, arith, ltb, leb, if◌then◌else◌, Bool-cases, update,
  update_self, update_ne,
}

module _ {Sector : Type 0} (w : RawBytes Sector) where
  -- The block that a round writes.
  abbrev filled : Drive Sector → (ℕ → ℕ) → ℕ → ℕ → ℕ → (ℕ → ℕ) → ℕ → ℕ
  filled v buffer size written current block =
      copy_into (fetch w v current (ltb 0 0 || ltb (size - written) 512) block) 0 buffer written
        (least 512 (size - written))

  abbrev with_block : Drive Sector → ℕ → (ℕ → ℕ) → Drive Sector
  with_block v current block = record v { sector = update v.sector current (w.put_bytes block) }

  -- What follows the write of a block.
  abbrev after :
      ℕ
      → Drive Sector
      → (ℕ → ℕ)
      → ℕ
      → ℕ
      → (ℕ → ℕ)
      → Option ℕ × TinyfsData
      → Option ℕ × TinyfsData × Drive Sector
  after fuel v1 buffer size total block' r = elim r.0 [
    | none ↦ (some total, r.1, v1)
    | some n ↦ write_blocks w fuel r.1 v1 buffer size total 0 n block'
  ]

  write_step :
      (fuel : ℕ) (d : TinyfsData) (v : Drive Sector) (buffer : ℕ → ℕ) (size written current : ℕ)
      (block : ℕ → ℕ)
      → written < size
      → IsWorking v
      → let block' = filled v buffer size written current block in
        let v1 = with_block v current block' in
        let total = written + least 512 (size - written) in
        write_blocks w (suc fuel) d v buffer size written 0 current block ≡ (
          if not (ltb total size)
          then (some total, d, v1)
          else after fuel v1 buffer size total block' (extend d current))
  unfolding write_blocks
  write_step fuel d v buffer size written current block lt h =
      ap (λ c. run c (ltb written size) (v.write_fails current)) whole_block
      ∙ ap (λ t. run 512 t (v.write_fails current)) goes_on
      ∙ ap (λ f. run 512 true f) (h.writes current)
    where
      whole_block : 512 - 0 ≡ 512
      whole_block = omega arith

      goes_on : ltb written size ≡ true
      goes_on = ground arith

      run : ℕ → Bool → Bool → Option ℕ × TinyfsData × Drive Sector
      run c going fails =
          let to_write = least c (size - written) in
          let block' =
            copy_into (fetch w v current (ltb 0 0 || ltb (size - written) 512) block) 0 buffer
              written to_write in
          let r : Bool × Drive Sector =
            if fails then (false, v) else (true, with_block v current block') in
          if not going
          then (some written, d, v)
          else if not r.0
          then (none, d, r.1)
          else if not (ltb (written + to_write) size)
          then (some (written + to_write), d, r.1)
          else after fuel r.1 buffer size (written + to_write) block' (extend d current)

  -- The block holds the next bytes of the buffer.
  filled-stored :
      (v : Drive Sector) (buffer : ℕ → ℕ) (size written current : ℕ) (block : ℕ → ℕ) (j : ℕ)
      → j < least 512 (size - written)
      → j < 512
      → w.bytes
          ((with_block v current (filled v buffer size written current block)).sector current)
          j
        ≡ buffer (written + j)
  filled-stored v buffer size written current block j lt small =
      ap (λ x. w.bytes x j) (update_self v.sector current (w.put_bytes block'))
      ∙ w.bytes_law block' j small
      ∙ filled_at
    where
      block' : ℕ → ℕ
      block' = filled v buffer size written current block

      inside : (leb 0 j && ltb j (0 + least 512 (size - written))) ≡ true
      inside = ground arith

      from_start : j - 0 ≡ j
      from_start = omega arith

      filled_at : block' j ≡ buffer (written + j)
      filled_at = rw inside (ap (λ i. buffer (written + i)) from_start)

  with_block-IsWorking :
      (v : Drive Sector) (current : ℕ) (block : ℕ → ℕ)
      → IsWorking v
      → IsWorking (with_block v current block)
  with_block-IsWorking v current block h = record { reads = h.reads; writes = h.writes }

  -- What holds when the loop ends behind its first block.
  ends_here :
      (d : TinyfsData) (v : Drive Sector) (buffer : ℕ → ℕ) (size written current : ℕ)
      (block : ℕ → ℕ)
      → written < size
      → IsWorking v
      → IsBlock d current
      → let total = written + least 512 (size - written) in
        let v1 = with_block v current (filled v buffer size written current block) in
        (total ≡ size) ⊎ IsFull d
        → (written < total) × Wrote w d v buffer size written current total d v1
  ends_here d v buffer size written current block lt h b all =
      let total = written + least 512 (size - written) in
      let v1 = with_block v current (filled v buffer size written current block) in
      let grows : written < total = ground arith in
      let near : total ≤ written + 512 = ground arith in
      (
        grows,
        record {
          more = omega arith;
          less = ground arith;
          all = all;
          reads =
              read_last w d.sb.data_start d.fat v1.sector buffer written total current grows near
                b.behind b.mark
                (λ j l.
                  filled-stored v buffer size written current block j (omega arith) (omega arith));
          kept = λ x ne used. (
            refl,
            update_ne v.sector current (w.put_bytes (filled v buffer size written current block)) x
                (λ e. ne (sym e)),
          );
          start = refl;
          fat = refl;
          dir = refl;
          dirents = refl;
          working = with_block-IsWorking v current (filled v buffer size written current block) h;
        },
      )

  -- What holds when the rest of the loop has run from the block that was linked.
  goes_further :
      (d : TinyfsData) (v : Drive Sector) (buffer : ℕ → ℕ) (size written current n k : ℕ)
      (block : ℕ → ℕ) (d' : TinyfsData) (v' : Drive Sector)
      → written + 512 < size
      → IsBlock d current
      → d.fat n ≡ 0
      → current ≢ n
      → n ≢ 0
      → written + 512 < k
      → let v1 = with_block v current (filled v buffer size written current block) in
        let d2 = record (taken d n) { fat = update (update d.fat n eof) current n } in
        Wrote w d2 v1 buffer size (written + 512) n k d' v'
        → Wrote w d v buffer size written current k d' v'
  goes_further d v buffer size written current n k block d' v' lt b z ne nz further r =
      let v1 = with_block v current (filled v buffer size written current block) in
      let fat2 = update (update d.fat n eof) current n in
      let linked : fat2 current ≡ n = update_self (update d.fat n eof) current n in
      let here = r.kept current ne (λ x. nz (sym linked ∙ x)) in
      record {
        more = omega arith;
        less = r.less;
        all = r.all;
        reads =
            read_more w d.sb.data_start d'.fat v'.sector buffer written k current further b.behind
              b.mark
              (λ j l.
                ap (λ x. w.bytes x j) here.1
                ∙ filled-stored v buffer size written current block j (ground arith) l)
              (subst (λ x. Reads w d.sb.data_start d'.fat v'.sector buffer (written + 512) k x)
                (sym (here.0 ∙ linked)) r.reads);
        kept = λ x other used.
            let new : x ≢ n = λ e. used (ap d.fat e ∙ z) in
            let same : fat2 x ≡ d.fat x =
              update_ne (update d.fat n eof) current n x (λ e. other (sym e))
              ∙ update_ne d.fat n eof x (λ e. new (sym e)) in
            let rest = r.kept x new (λ e. used (sym same ∙ e)) in
            (
              rest.0 ∙ same,
              rest.1
                  ∙ update_ne v.sector current
                      (w.put_bytes (filled v buffer size written current block)) x
                      (λ e. other (sym e)),
            );
        start = r.start;
        fat = r.fat;
        dir = r.dir;
        dirents = r.dirents;
        working = r.working;
      }

  -- The loop from a block at the end of a chain writes all that there are blocks for.
  pub write_blocks-Wrote :
      (fuel : ℕ) (d : TinyfsData) (v : Drive Sector) (buffer : ℕ → ℕ) (size written current : ℕ)
      (block : ℕ → ℕ)
      → written < size
      → size ≤ written + fuel
      → IsWorking v
      → IsArea d
      → IsBlock d current
      → d.fat current ≡ eof
      → (k : ℕ) × (d' : TinyfsData) × (v' : Drive Sector) × (write_blocks w fuel d v buffer size
            written 0 current block
          ≡ (some k, d', v'))
        × (written < k)
        × Wrote w d v buffer size written current k d' v'
  write_blocks-Wrote zero d v buffer size written current block lt e h a b end =
      absurd (omega arith)
  write_blocks-Wrote (suc fuel) d v buffer size written current block lt e h a b end =
      elim (Bool-cases (ltb (written + least 512 (size - written)) size)) [
        | inr f ↦
            let here =
              ends_here d v buffer size written current block lt h b (inl (ground arith)) in
            (total, d, v1, step ∙ rw f refl, here.0, here.1)
        | inl f ↦ elim (extend-cases d current a end) [
          | inl (g, full) ↦
              let here = ends_here d v buffer size written current block lt h b (inr full) in
              (
                total,
                d,
                v1,
                step ∙ rw f (ap (after fuel v1 buffer size total block') g),
                here.0,
                here.1,
              )
          | inr (n, bn, z, ne, g) ↦
              let d2 = record (taken d n) { fat = update (update d.fat n eof) current n } in
              let whole : total ≡ written + 512 = ground arith in
              let (k, d', v', r, further, wrote) =
                write_blocks-Wrote fuel d2 v1 buffer size total n block' (ground arith)
                  (ground arith) (with_block-IsWorking v current block' h)
                  (record { start = a.start; ends = a.ends })
                  (record { behind = bn.behind; mark = bn.mark; nonzero = bn.nonzero })
                  (update_ne (update d.fat n eof) current n n ne ∙ update_self d.fat n eof) in
              (
                k,
                d',
                v',
                step ∙ rw f (ap (after fuel v1 buffer size total block') g ∙ r),
                omega arith,
                goes_further d v buffer size written current n k block d' v' (ground arith) b z ne
                    bn.nonzero (omega arith)
                    (subst (λ x. Wrote w d2 v1 buffer size x n k d' v') whole wrote),
              )
        ]
      ]
    where
      block' : ℕ → ℕ
      block' = filled v buffer size written current block

      v1 : Drive Sector
      v1 = with_block v current block'

      total : ℕ
      total = written + least 512 (size - written)

      step : write_blocks w (suc fuel) d v buffer size written 0 current block ≡ (
          if not (ltb total size)
          then (some total, d, v1)
          else after fuel v1 buffer size total block' (extend d current))
      step = write_step fuel d v buffer size written current block lt h
