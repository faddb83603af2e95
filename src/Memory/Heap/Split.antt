-- ===== src/Memory/Heap/Split.antt =====
-- How `split_block` of src/kernel/memory/memory.c cuts a block.
use amq_os.Memory.Heap.{
  Heap, HeapBlock, split_block, split_at, new_block_of, remaining_of, header_size, min_block_size,
  free_block,
}
use amq_os.Prelude.{
  ℕ, ◌+◌, ◌-◌, ◌^◌, ◌≤◌, ◌<◌, ◌≡◌, refl, sym, ap, ◌∙◌, subst, ◌≢◌, true, false, arith, leb,
  if◌then◌else◌, update, update_self, update_ne,
}

-- Where a block ends.
abbrev pub end_of : Heap → ℕ → ℕ
end_of h a = a + header_size + (h.blocks a).size

module _ (h : Heap) (a size left new : ℕ) (ne : a ≢ new) where
  abbrev rest : HeapBlock
  rest = free_block left (h.blocks a).next

  abbrev first : HeapBlock → HeapBlock
  first b = record b { size = size; next = new }

  pub split_at_new : (split_at h a size left new).blocks new ≡ rest
  split_at_new =
      let t = update h.blocks new rest in
      update_ne t a (first (t a)) new ne ∙ update_self h.blocks new rest

  pub split_at_self : (split_at h a size left new).blocks a ≡ first (h.blocks a)
  split_at_self =
      let t = update h.blocks new rest in
      update_self t a (first (t a)) ∙ ap first (update_ne h.blocks new rest a (λ e. ne (sym e)))

  pub split_at_other :
      (i : ℕ) → i ≢ a → i ≢ new → (split_at h a size left new).blocks i ≡ h.blocks i
  split_at_other i n m =
      let t = update h.blocks new rest in
      update_ne t a (first (t a)) i (λ e. n (sym e))
      ∙ update_ne h.blocks new rest i (λ e. m (sym e))

pub split_block-room :
    (h : Heap) (a size : ℕ)
    → end_of h a < 2 ^ 64
    → size + header_size ≤ (h.blocks a).size
    → split_block h a size ≡ (
        if leb (size + header_size + min_block_size) (h.blocks a).size
        then split_at h a size ((h.blocks a).size - (size + header_size)) (a + header_size + size)
        else h)
unfolding split_block
split_block-room h a size k room =
    ap (λ r. if leb min_block_size r then split_at h a size r (new_block_of a size) else h)
      remaining
    ∙ ap (λ n. if leb min_block_size left then split_at h a size left n else h) new
    ∙ ap (λ b. if b then split_at h a size left (a + header_size + size) else h) same
  where
    left : ℕ
    left = (h.blocks a).size - (size + header_size)

    remaining : remaining_of h a size ≡ left
    remaining = omega arith

    new : new_block_of a size ≡ a + header_size + size
    new = omega arith

    same : leb min_block_size left ≡ leb (size + header_size + min_block_size) (h.blocks a).size
    same = ground arith

-- The two blocks that a cut leaves in the place of one.
pub record IsCut (h : Heap) (a size : ℕ) (h' : Heap) : Type 0 where
  pub first : end_of h' a ≡ a + header_size + size
  pub second : end_of h' (end_of h' a) ≡ end_of h a
  pub link : (h'.blocks a).next ≡ end_of h' a
  pub next_link : (h'.blocks (end_of h' a)).next ≡ (h.blocks a).next
  pub free : (h'.blocks (end_of h' a)).is_free ≡ true
  pub others : (i : ℕ) → i ≢ a → i ≢ end_of h' a → h'.blocks i ≡ h.blocks i

-- Where a block ends before the last address and has room for the request and one more header,
-- `split_block` cuts it, exactly if the rest has 32 bytes or more, in two blocks that fill its place,
-- linked in this order in front of its successor, and leaves the others alone; else it does nothing.
pub split_block_lem :
    (h : Heap) (a size : ℕ)
    → end_of h a < 2 ^ 64
    → size + header_size ≤ (h.blocks a).size
    → (size + header_size + min_block_size ≤ (h.blocks a).size
        → IsCut h a size (split_block h a size))
      × ((h.blocks a).size < size + header_size + min_block_size → split_block h a size ≡ h)
split_block_lem h a size k room = (
  λ big. subst (IsCut h a size) (sym (whole (ground arith))) (record {
    first = at_first;
    second = rw at_first (ap (λ b. new + header_size + b.size) at_new ∙ omega arith);
    link = rw at_first (ap (λ b. b.next) at_self);
    next_link = rw at_first (ap (λ b. b.next) at_new);
    free = rw at_first (ap (λ b. b.is_free) at_new);
    others = rw at_first (split_at_other h a size left new ne);
  }),
  λ small. split_block-room h a size k room ∙ rw (not_leb small) refl,
)
  where
    left : ℕ
    left = (h.blocks a).size - (size + header_size)

    new : ℕ
    new = a + header_size + size

    ne : a ≢ new
    ne e = omega arith

    at_new : (split_at h a size left new).blocks new ≡ free_block left (h.blocks a).next
    at_new = split_at_new h a size left new ne

    at_self :
        (split_at h a size left new).blocks a ≡ record (h.blocks a) { size = size; next = new }
    at_self = split_at_self h a size left new ne

    at_first : end_of (split_at h a size left new) a ≡ new
    at_first = ap (λ b. a + header_size + b.size) at_self

    whole :
        leb (size + header_size + min_block_size) (h.blocks a).size ≡ true
        → split_block h a size ≡ split_at h a size left (a + header_size + size)
    whole e = split_block-room h a size k room ∙ rw e refl

    not_leb :
        (h.blocks a).size < size + header_size + min_block_size
        → leb (size + header_size + min_block_size) (h.blocks a).size ≡ false
    not_leb l = ground arith

-- Where a block has room for the request but not for one more header, the size of the rest wraps:
-- `split_block` links a free block of nearly 2^64 bytes whose header starts at most 23 bytes before
-- the end of the block, and so ends behind it.
pub split_block_no_room :
    (h : Heap) (a size : ℕ)
    → end_of h a + header_size < 2 ^ 64
    → size ≤ (h.blocks a).size
    → (h.blocks a).size < size + header_size
    → let h' = split_block h a size in
      let new = a + header_size + size in
      ((h'.blocks a).next ≡ new)
      × (h'.blocks new
          ≡ free_block (2 ^ 64 + (h.blocks a).size - (size + header_size)) (h.blocks a).next)
      × (end_of h a < new + header_size)
unfolding split_block
split_block_no_room h a size k fit room =
    subst
      (λ h'.
        ((h'.blocks a).next ≡ new)
        × (h'.blocks new ≡ free_block left (h.blocks a).next)
        × (end_of h a < new + header_size))
      (sym whole)
      (
        ap (λ b. b.next) (split_at_self h a size left new ne),
        split_at_new h a size left new ne,
        omega arith,
      )
  where
    left : ℕ
    left = 2 ^ 64 + (h.blocks a).size - (size + header_size)

    new : ℕ
    new = a + header_size + size

    ne : a ≢ new
    ne e = omega arith

    wraps : remaining_of h a size ≡ left
    wraps = omega arith

    wide : leb min_block_size left ≡ true
    wide = ground arith

    in_range : new_block_of a size ≡ new
    in_range = omega arith

    whole : split_block h a size ≡ split_at h a size left new
    whole =
        ap (λ r. if leb min_block_size r then split_at h a size r (new_block_of a size) else h)
          wraps
        ∙ ap (λ b. if b then split_at h a size left (new_block_of a size) else h) wide
        ∙ ap (split_at h a size left) in_range
