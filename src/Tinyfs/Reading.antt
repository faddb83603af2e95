-- ===== src/Tinyfs/Reading.antt =====
-- What `tinyfs_read` of src/kernel/VFS/tinyfs.c reads, as a list of the bytes of the file.
use amq_os.Tinyfs.{TinyfsData, eof}
use amq_os.Tinyfs.Disk.{Drive}
use amq_os.Tinyfs.Content.{skip_blocks, least, copy_into, read_blocks, clipped, tinyfs_read}
use amq_os.Prelude.{
  ℕ, zero, suc, ◌+◌, ◌-◌, ◌*◌, ◌/◌, ◌%◌, ◌^◌, ◌≤◌, ◌<◌, ◌≡◌, refl, sym, ap, ◌∙◌, subst, ◌≢◌, ◌⊎◌,
  inl, inr, true, false, not, ◌&&◌, Option, some, arith, ltb, leb, ◌==◌, Bool-cases,
}

-- The block at a place of a chain.
abbrev pub nth_block : (ℕ → ℕ) → ℕ → ℕ → ℕ
nth_block fat first zero = first
nth_block fat first (suc k) = fat (nth_block fat first k)

nth_block-next :
    (fat : ℕ → ℕ) (first k : ℕ) → nth_block fat (fat first) k ≡ nth_block fat first (suc k)
nth_block-next fat first zero = refl
nth_block-next fat first (suc k) = ap fat (nth_block-next fat first k)

-- The chain has a readable block for each of the first `size` bytes.
pub record Covers {Sector : Type 0} (d : TinyfsData) (v : Drive Sector) (first size : ℕ)
    : Type 0 where
  pub linked : (k : ℕ) → k * 512 < size → nth_block d.fat first k ≢ eof
  pub readable : (k : ℕ) → k * 512 < size → v.read_fails (nth_block d.fat first k) ≡ false

skip_blocks-nth :
    (rounds : ℕ) (fat : ℕ → ℕ) (first : ℕ)
    → ((k : ℕ) → k < rounds → nth_block fat first k ≢ eof)
    → skip_blocks rounds fat first ≡ nth_block fat first rounds
unfolding skip_blocks
skip_blocks-nth zero fat first h = refl
skip_blocks-nth (suc rounds) fat first h =
    let start : first ≢ eof = h 0 (omega arith) in
    let more =
      skip_blocks-nth rounds fat (fat first)
        (λ k lt e. h (suc k) (omega arith) (sym (nth_block-next fat first k) ∙ e)) in
    let next = nth_block-next fat first rounds in ground arith

module _ {Sector : Type 0} (bytes : Sector → ℕ → ℕ) (d : TinyfsData) (v : Drive Sector)
    (first : ℕ) where
  -- A byte of the file.
  abbrev pub byte_at : ℕ → ℕ
  byte_at j = bytes (v.sector (nth_block d.fat first (j / 512))) (j % 512)

  -- The bytes from `start + from` on are put into the buffer, from `from` to `size`.
  pub record IsRead (start from size : ℕ) (buffer : ℕ → ℕ) (r : Option (ℕ × (ℕ → ℕ))) : Type 0 where
    pub filled : ℕ → ℕ
    pub whole : r ≡ some (size, filled)
    pub inside : (j : ℕ) → from ≤ j → j < size → filled j ≡ byte_at (start + j)
    pub outside : (j : ℕ) → (j < from) ⊎ (size ≤ j) → filled j ≡ buffer j

  read_blocks-done :
      (fuel size byte_offset current : ℕ) (buffer : ℕ → ℕ)
      → read_blocks bytes fuel d v size size byte_offset current buffer ≡ some (size, buffer)
  unfolding read_blocks
  read_blocks-done zero size byte_offset current buffer = refl
  read_blocks-done (suc fuel) size byte_offset current buffer = ground arith

  read_blocks-step :
      (fuel size from byte_offset current : ℕ) (buffer : ℕ → ℕ)
      → from < size
      → current ≢ eof
      → v.read_fails current ≡ false
      → let n = least (512 - byte_offset) (size - from) in
        read_blocks bytes (suc fuel) d v size from byte_offset current buffer
        ≡ read_blocks bytes fuel d v size
            (from + n)
            0
            (d.fat current)
            (copy_into buffer from (bytes (v.sector current)) byte_offset n)
  unfolding read_blocks
  read_blocks-step fuel size from byte_offset current buffer lt linked readable =
      rw (going, readable) refl
    where
      going : (ltb from size && not (current == eof)) ≡ true
      going = ground arith

  -- What one round copies.
  copied-at :
      (start from n : ℕ) (buffer : ℕ → ℕ) (j : ℕ)
      → n ≤ 512 - (start + from) % 512
      → from ≤ j
      → j < from + n
      → copy_into buffer from
          (bytes (v.sector (nth_block d.fat first ((start + from) / 512))))
          ((start + from) % 512)
          n
          j
        ≡ byte_at (start + j)
  copied-at start from n buffer j small lo hi =
      let here : (leb from j && ltb j (from + n)) ≡ true = ground arith in
      let block : (start + from) / 512 ≡ (start + j) / 512 = omega arith in
      let place : (start + from) % 512 + (j - from) ≡ (start + j) % 512 = omega arith in
      rw here (
        ap (λ k. bytes (v.sector (nth_block d.fat first k)) ((start + from) % 512 + (j - from)))
          block
        ∙ ap (bytes (v.sector (nth_block d.fat first ((start + j) / 512)))) place)

  module _ (total start size : ℕ) (c : Covers d v first total) (fits : start + size ≤ total) where
    finished :
        (fuel from byte_offset current : ℕ) (buffer : ℕ → ℕ)
        → from ≡ size
        → IsRead start from size buffer
            (read_blocks bytes fuel d v size from byte_offset current buffer)
    finished fuel from byte_offset current buffer e = record {
      filled = buffer;
      whole =
          ap (λ n. read_blocks bytes fuel d v size n byte_offset current buffer) e
          ∙ read_blocks-done fuel size byte_offset current buffer;
      inside = λ j lo hi. absurd (omega arith);
      outside = λ j h. refl;
    }

    read_blocks-IsRead :
        (fuel from : ℕ) (buffer : ℕ → ℕ)
        → from ≤ size
        → size ≤ from + fuel
        → IsRead start from size buffer (
            read_blocks bytes fuel d v size from
              ((start + from) % 512)
              (nth_block d.fat first ((start + from) / 512))
              buffer)
    read_blocks-IsRead zero from buffer le enough = finished zero from _ _ buffer (omega arith)
    read_blocks-IsRead (suc fuel) from buffer le enough = elim (Bool-cases (from == size)) [
      | inl e ↦ finished (suc fuel) from _ _ buffer (ground arith)
      | inr e ↦
          let lt : from < size = ground arith in
          subst (IsRead start from size buffer)
            (sym (
              read_blocks-step fuel size from offset current buffer lt
                (c.linked place (omega arith)) (c.readable place (omega arith))))
            (elim (Bool-cases (ltb (size - from) (512 - offset))) [
              | inl f ↦
                  let all : least (512 - offset) (size - from) ≡ size - from = ground arith in
                  subst (λ n. IsRead start from size buffer (behind n)) (sym all)
                    (last (ground arith))
              | inr f ↦
                  let all : least (512 - offset) (size - from) ≡ 512 - offset = ground arith in
                  subst (λ n. IsRead start from size buffer (behind n)) (sym all)
                    (more lt (ground arith) (
                      read_blocks-IsRead fuel (from + (512 - offset)) (copied (512 - offset))
                        (ground arith) (omega arith)))
            ])
    ]
      where
        offset : ℕ
        offset = (start + from) % 512

        place : ℕ
        place = (start + from) / 512

        current : ℕ
        current = nth_block d.fat first place

        copied : ℕ → ℕ → ℕ
        copied n = copy_into buffer from (bytes (v.sector current)) offset n

        behind : ℕ → Option (ℕ × (ℕ → ℕ))
        behind n = read_blocks bytes fuel d v size (from + n) 0 (d.fat current) (copied n)

        last : size - from ≤ 512 - offset → IsRead start from size buffer (behind (size - from))
        last short =
            let r =
              finished fuel (from + (size - from)) 0 (d.fat current) (copied (size - from))
                (omega arith) in
            record {
              filled = r.filled;
              whole = r.whole;
              inside = λ j lo hi.
                  r.outside j (inl (omega arith))
                  ∙ copied-at start from (size - from) buffer j short lo (omega arith);
              outside = λ j h. r.outside j (omega arith) ∙ ground arith;
            }

        more :
            from < size
            → 512 - offset ≤ size - from
            → (let next = from + (512 - offset) in
                IsRead start next size (copied (512 - offset)) (
                  read_blocks bytes fuel d v size next
                    ((start + next) % 512)
                    (nth_block d.fat first ((start + next) / 512))
                    (copied (512 - offset))))
            → IsRead start from size buffer (behind (512 - offset))
        more lt long r =
            let next = from + (512 - offset) in
            let zero_offset : 0 ≡ (start + next) % 512 = omega arith in
            let one_more : suc place ≡ (start + next) / 512 = omega arith in
            record {
              filled = r.filled;
              whole =
                  ap
                    (λ o.
                      read_blocks bytes fuel d v size next o (d.fat current)
                        (copied (512 - offset)))
                    zero_offset
                  ∙ ap
                      (λ k.
                        read_blocks bytes fuel d v size next ((start + next) % 512)
                          (nth_block d.fat first k) (copied (512 - offset)))
                      one_more
                  ∙ r.whole;
              inside = λ j lo hi. elim (Bool-cases (ltb j next)) [
                | inl e ↦
                    r.outside j (inl (ground arith))
                    ∙ copied-at start from (512 - offset) buffer j (omega arith) lo (ground arith)
                | inr e ↦ r.inside j (ground arith) hi
              ];
              outside = λ j h. r.outside j (omega arith) ∙ ground arith;
            }

  -- For a file whose chain has a readable block for each of its bytes, and a request inside the file
  -- whose end is a 32-bit word: as many bytes are read as were asked for and lie in the file. They are
  -- the bytes of the file from the offset on, and the buffer behind them is left alone.
  pub tinyfs_read_lem :
      (e size offset : ℕ) (buffer : ℕ → ℕ)
      → (d.dirents e).first_block ≡ first
      → Covers d v first (d.dirents e).size
      → offset < (d.dirents e).size
      → offset + size < 2 ^ 32
      → IsRead offset 0
          (least size ((d.dirents e).size - offset))
          buffer
          (tinyfs_read bytes d v (some e) buffer size offset)
  unfolding tinyfs_read
  tinyfs_read_lem e size offset buffer f c inside word =
      let n = least size ((d.dirents e).size - offset) in
      let clip : clipped bytes (d.dirents e).size size offset ≡ n = ground arith in
      let here : leb (d.dirents e).size offset ≡ false = ground arith in
      let start : skip_blocks (offset / 512) d.fat (d.dirents e).first_block
          ≡ nth_block d.fat first ((offset + 0) / 512) =
        ap (skip_blocks (offset / 512) d.fat) f
        ∙ skip_blocks-nth (offset / 512) d.fat first (λ k lt. c.linked k (omega arith))
        ∙ ap (nth_block d.fat first) (omega arith) in
      let byte : offset % 512 ≡ (offset + 0) % 512 = omega arith in
      subst (IsRead offset 0 n buffer)
        (sym (
          rw here refl
          ∙ ap
              (λ m.
                read_blocks bytes m d v m 0 (offset % 512)
                  (skip_blocks (offset / 512) d.fat (d.dirents e).first_block) buffer)
              clip
          ∙ ap
              (λ o.
                read_blocks bytes n d v n 0 o
                  (skip_blocks (offset / 512) d.fat (d.dirents e).first_block) buffer)
              byte
          ∙ ap (λ k. read_blocks bytes n d v n 0 ((offset + 0) % 512) k buffer) start))
        (read_blocks-IsRead (d.dirents e).size offset n c (ground arith) n 0 buffer (omega arith)
          (omega arith))
