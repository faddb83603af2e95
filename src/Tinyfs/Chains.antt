-- ===== src/Tinyfs/Chains.antt =====
-- Freeing the blocks of a file, src/kernel/VFS/tinyfs.c.
use amq_os.Prelude.{
  ℕ, zero, suc, ◌+◌, ◌≤◌, ◌<◌, ◌≡◌, refl, sym, ◌∙◌, ◌≢◌, true, false, List, [], ◌∷◌, arith, ◌==◌,
  length, update, update_ne, contains, Distinct, AllBelow, length-le_bound,
}
use amq_os.Tinyfs.{TinyfsData, free_chain, free_block_chain, free_one, eof}
use amq_os.Tinyfs.Blocks.{IsCounted, area, count_free-update, count_free-le}

-- The blocks of a file: from `b` the table leads through them to the mark of the end.
abbrev pub FileChain : (ℕ → ℕ) → ℕ → List ℕ → Type 0
FileChain fat b [] = b ≡ eof
FileChain fat b (k ∷ bs) = (b ≡ k) × (k ≢ eof) × (k ≢ 0) × FileChain fat (fat k) bs

abbrev pub InArea : TinyfsData → List ℕ → Type 0
InArea d [] = Unit
InArea d (k ∷ bs) = (d.sb.data_start ≤ k) × (k < d.sb.total_blocks) × InArea d bs

FileChain-update :
    (fat : ℕ → ℕ) (b k v : ℕ) (bs : List ℕ)
    → contains k bs ≡ false
    → FileChain fat b bs
    → FileChain (update fat k v) b bs
FileChain-update fat b k v [] h c = c
FileChain-update fat b k v (m ∷ bs) h c = (
  c.0,
  c.1,
  c.2,
  rw (update_ne fat k v m (ground arith)) (FileChain-update fat (fat m) k v bs (ground arith) c.3),
)

InArea-same :
    (d d' : TinyfsData) (bs : List ℕ)
    → d'.sb.data_start ≡ d.sb.data_start
    → d'.sb.total_blocks ≡ d.sb.total_blocks
    → InArea d bs
    → InArea d' bs
InArea-same d d' [] e f a = tt
InArea-same d d' (k ∷ bs) e f a = (omega arith, omega arith, InArea-same d d' bs e f a.2)

InArea-below :
    (d : TinyfsData) (bs : List ℕ) → d.sb.total_blocks ≤ 1024 → InArea d bs → AllBelow 1024 bs
InArea-below d [] s a = tt
InArea-below d (k ∷ bs) s a = (omega arith, InArea-below d bs s a.2)

-- In a chain no entry that leads on is free.
FileChain-ne-zero : (fat : ℕ → ℕ) (b : ℕ) (bs : List ℕ) → FileChain fat b bs → b ≢ 0
FileChain-ne-zero fat b [] c h = omega arith
FileChain-ne-zero fat b (k ∷ bs) c h = c.2 (sym c.0 ∙ h)

free_one-IsCounted :
    (d : TinyfsData) (k : ℕ)
    → IsCounted d
    → d.sb.data_start ≤ k
    → k < d.sb.total_blocks
    → d.fat k ≢ 0
    → IsCounted (free_one d k) × ((free_one d k).sb.free_blocks ≡ d.sb.free_blocks + 1)
free_one-IsCounted d k v lo hi n =
    let before = count_free-update d.fat d.sb.data_start (area d) k 0 lo (omega (arith, v.start)) in
    let size = count_free-le (free_one d k).fat d.sb.data_start (area d) in
    (
      record {
        small = v.small;
        start = v.start;
        counted = ground (arith, before, size, v.counted, v.small);
      },
      ground (arith, before, size, v.counted, v.small),
    )

-- What freeing the blocks has done.
pub record Freed (d : TinyfsData) (bs : List ℕ) (d' : TinyfsData) : Type 0 where
  pub free : (k : ℕ) → contains k bs ≡ true → d'.fat k ≡ 0
  pub others : (k : ℕ) → contains k bs ≡ false → d'.fat k ≡ d.fat k
  pub total : d'.sb.free_blocks ≡ d.sb.free_blocks + length bs
  pub counted : IsCounted d'
  pub dirents : d'.dirents ≡ d.dirents

free_one-Freed :
    (d d' : TinyfsData) (k : ℕ) (bs : List ℕ)
    → contains k bs ≡ false
    → (free_one d k).sb.free_blocks ≡ d.sb.free_blocks + 1
    → Freed (free_one d k) bs d'
    → Freed d (k ∷ bs) d'
free_one-Freed d d' k bs n e v = record {
  free = λ j h. ground (arith, v.free j, v.others j);
  others = λ j h. ground (arith, v.others j);
  total = omega (arith, v.total);
  counted = v.counted;
  dirents = v.dirents;
}

free_chain-Freed :
    (fuel : ℕ) (d : TinyfsData) (b : ℕ) (bs : List ℕ)
    → length bs < fuel
    → IsCounted d
    → Distinct bs
    → InArea d bs
    → FileChain d.fat b bs
    → Freed d bs (free_chain fuel d b)
unfolding free_chain
free_chain-Freed zero d b bs enough v u a c = absurd (omega arith)
free_chain-Freed (suc fuel) d b [] enough v u a c = rw c (record {
  free = λ k h. absurd (ground arith);
  others = λ k h. refl;
  total = omega arith;
  counted = v;
  dirents = refl;
})
free_chain-Freed (suc fuel) d b (k ∷ bs) enough v u a c =
    let one = free_one-IsCounted d k v a.0 a.1 (FileChain-ne-zero d.fat (d.fat k) bs c.3) in
    let rest =
      free_chain-Freed fuel (free_one d k) (d.fat k) bs (omega arith) one.0 u.1
        (InArea-same d (free_one d k) bs refl refl a.2)
        (FileChain-update d.fat (d.fat k) k 0 bs u.0 c.3) in
    rw (c.0, ne_test k eof c.1, ne_test k 0 c.2) (free_one-Freed d _ k bs u.0 one.1 rest)
  where
    ne_test : (a b : ℕ) → a ≢ b → (a == b) ≡ false
    ne_test a b h = ground arith

-- If the superblock counts the free blocks, and the blocks of a file are distinct and in the data area,
-- freeing the chain of the file ends, frees exactly its blocks, leaves every other entry of the table
-- and all directory entries as they were, and adds their number to the count, which stays right.
pub free_block_chain_lem :
    (d : TinyfsData) (b : ℕ) (bs : List ℕ)
    → IsCounted d
    → Distinct bs
    → InArea d bs
    → FileChain d.fat b bs
    → Freed d bs (free_block_chain d b)
unfolding free_block_chain
free_block_chain_lem d b bs v u a c =
    free_chain-Freed 1025 d b bs
      (omega (arith, length-le_bound 1024 bs u (InArea-below d bs v.small a))) v u a c
