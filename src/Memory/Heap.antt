-- ===== src/Memory/Heap.antt =====
-- src/kernel/memory/memory.c: the heap. A block header is looked up by its address; the bytes that
-- callers keep in their blocks, and the clearing of fresh pages, are not modelled. Loops that follow
-- links in memory take a number of rounds.
pub mod Split
pub mod Walk
pub mod FirstFit
pub mod Coalesce
use amq_os.Memory.{Pmm, pmm_alloc_pages}
use amq_os.Prelude.{
  ℕ, zero, suc, ◌+◌, ◌-◌, ◌*◌, ◌/◌, ◌%◌, ◌^◌, ◌≤◌, ◌<◌, ◌≡◌, refl, sym, ap, ◌∙◌, subst, ◌≢◌, ◌↔◌,
  ◌⊎◌, inl, inr, Bool, true, false, not, ◌&&◌, ◌||◌, Option, none, some, List, [], ◌∷◌, ◌++◌, map,
  arith, ltb, leb, ◌==◌, if◌then◌else◌, u8, u16, u32, u64, sub16, sub32, sub64, Bool-cases,
  Option-cases, ==_iff, length, take, drop, update, update_self, update_ne, scan, scan-some,
  scan-first, scan-ne-none, contains, Distinct, without, AllBelow, contains-ne, without-absent,
  contains-without, without-Distinct, contains-append, append-Distinct, length-le_bound, replicate,
  length-append, length-take, length-drop, length-replicate, take-append-drop, get_elem?, get_or,
}

abbrev pub heap_magic : ℕ
heap_magic = 3735928559

-- `sizeof(HeapBlock)`.
abbrev pub header_size : ℕ
header_size = 24

abbrev pub min_block_size : ℕ
min_block_size = 32

-- `next` is an address, with 0 for NULL.
pub record HeapBlock : Type 0 where
  pub size : ℕ
  pub next : ℕ
  pub is_free : Bool
  pub magic : ℕ

pub record Heap : Type 0 where
  pub blocks : ℕ → HeapBlock
  pub kernel_heap_base : ℕ
  pub kernel_heap_size : ℕ
  pub kernel_heap_used : ℕ
  pub heap_free_list : ℕ
  pub alloc_count : ℕ
  pub free_count : ℕ
  pub split_count : ℕ
  pub coalesce_count : ℕ
  pub pages : Pmm

-- A block of free memory with its header.
abbrev pub free_block : ℕ → ℕ → HeapBlock
free_block size next = record { size = size; next = next; is_free = true; magic = heap_magic }

abbrev pub write_block : Heap → ℕ → HeapBlock → Heap
write_block h a b = record h { blocks = update h.blocks a b }

unfoldable pub init_kernel_heap : Heap → Heap
init_kernel_heap h =
    let (base, pages) = pmm_alloc_pages h.pages 16 in
    elim base [
      | none ↦ record h { pages = pages }
      | some a ↦ record h {
        blocks = update h.blocks a (free_block (sub64 (16 * 4096) header_size) 0);
        kernel_heap_base = a;
        kernel_heap_size = 16 * 4096;
        kernel_heap_used = 0;
        heap_free_list = a;
        pages = pages;
      }
    ]

-- Rounds up to a multiple of 16.
abbrev pub align_size : ℕ → ℕ
align_size size = u64 (size + 15) / 16 * 16

abbrev pub remaining_of : Heap → ℕ → ℕ → ℕ
remaining_of h block size = sub64 (sub64 (h.blocks block).size size) header_size

abbrev pub new_block_of : ℕ → ℕ → ℕ
new_block_of block size = u64 (block + header_size + size)

-- The writes of `split_block`.
abbrev pub split_at : Heap → ℕ → ℕ → ℕ → ℕ → Heap
split_at h block size remaining new_block =
    let with_new = write_block h new_block (free_block remaining (h.blocks block).next) in
    record with_new {
      blocks =
          update with_new.blocks block
            (record (with_new.blocks block) { size = size; next = new_block });
      split_count = u64 (h.split_count + 1);
    }

unfoldable pub split_block : Heap → ℕ → ℕ → Heap
split_block h block size =
    let remaining = remaining_of h block size in
    if leb min_block_size remaining
    then split_at h block size remaining (new_block_of block size)
    else h

-- How the walk along the free list ends; `lost` is a walk that has not ended yet.
pub data Fit : Type 0 where
  fits : Option ℕ → ℕ → Fit
  corrupt : Fit
  no_fit : Fit
  lost : Fit

unfoldable pub walk : ℕ → Heap → Option ℕ → ℕ → ℕ → Fit
walk zero h prev current size = lost
walk (suc rounds) h prev current size =
    let rest = walk rounds h (some current) (h.blocks current).next size in
    if current == 0
    then no_fit
    else if not ((h.blocks current).magic == heap_magic)
    then corrupt
    else if (h.blocks current).is_free && leb size (h.blocks current).size
    then fits prev current
    else rest

-- The new link to what follows the block.
abbrev pub link_past : Option ℕ → ℕ → Heap → Heap
link_past none next h = record h { heap_free_list = next }
link_past (some prev) next h = record h {
  blocks = update h.blocks prev (record (h.blocks prev) { next = next });
}

unfoldable pub take_block : Heap → Option ℕ → ℕ → ℕ → Heap
unfolding split_block
take_block h prev current size =
    let h1 = split_block h current size in
    let h2 = write_block h1 current (record (h1.blocks current) { is_free = false }) in
    let h3 = link_past prev (h2.blocks current).next h2 in
    record h3 {
      kernel_heap_used = u64 (h3.kernel_heap_used + (header_size + size));
      alloc_count = u64 (h3.alloc_count + 1);
    }

-- More pages, as one free block at the head of the list; `none` when there are no more.
unfoldable pub grow : Heap → ℕ → Bool × Heap
grow h size =
    let new_pages = u64 (size + header_size + 4095) / 4096 in
    let (new_mem, pages) = pmm_alloc_pages h.pages new_pages in
    elim new_mem [
      | none ↦ (false, record h { pages = pages })
      | some a ↦ (
        true,
        record h {
          blocks =
              update h.blocks a
                (free_block (sub64 (u64 (new_pages * 4096)) header_size) h.heap_free_list);
          heap_free_list = a;
          kernel_heap_size = u64 (h.kernel_heap_size + new_pages * 4096);
          pages = pages;
        },
      )
    ]

-- What `kmalloc` returns: an address, NULL, or nothing yet.
pub data Result : Type 0 where
  got : ℕ → Result
  null : Result
  running : Result

-- `calls` bounds the calls of `kmalloc` by itself, `rounds` each of its walks.
unfoldable pub kmalloc : ℕ → ℕ → Heap → ℕ → Result × Heap
unfolding walk take_block grow
kmalloc zero rounds h size = (running, h)
kmalloc (suc calls) rounds h size =
    let n = align_size size in
    let (more, h') = grow h n in
    let again = kmalloc calls rounds h' n in
    if size == 0 then (null, h) else elim (walk rounds h none h.heap_free_list n) [
      | fits prev current ↦ (got (u64 (current + header_size)), take_block h prev current n)
      | corrupt ↦ (null, h)
      | no_fit ↦ if more then again else (null, h')
      | lost ↦ (running, h)
    ]

-- Whether the block after `current` is free and below the end of what is used.
abbrev pub can_merge : Heap → ℕ → Bool
can_merge h current =
    let next = u64 (current + header_size + (h.blocks current).size) in
    (h.blocks current).is_free
    && (ltb next (u64 (h.kernel_heap_base + h.kernel_heap_used))
        && ((h.blocks next).magic == heap_magic && (h.blocks next).is_free))

abbrev pub merged : HeapBlock → HeapBlock → HeapBlock
merged b next = record b { size = u64 (b.size + (header_size + next.size)); next = next.next }

abbrev pub merge : Heap → ℕ → Heap
merge h current =
    let b = h.blocks current in
    let next = h.blocks (u64 (current + header_size + b.size)) in
    record h {
      blocks = update h.blocks current (merged b next);
      coalesce_count = u64 (h.coalesce_count + 1);
    }

-- `none` when the rounds were not enough.
unfoldable pub coalesce_loop : ℕ → Heap → ℕ → Option Heap
coalesce_loop zero h current = none
coalesce_loop (suc rounds) h current =
    let merged = coalesce_loop rounds (merge h current) current in
    let advanced = coalesce_loop rounds h (u64 (current + header_size + (h.blocks current).size)) in
    if not (ltb current (u64 (h.kernel_heap_base + h.kernel_heap_used)))
    then some h
    else if not ((h.blocks current).magic == heap_magic)
    then some h
    else if can_merge h current
    then merged
    else advanced

unfoldable pub coalesce_blocks : ℕ → Heap → Option Heap
coalesce_blocks rounds h = coalesce_loop rounds h h.kernel_heap_base

-- The block goes to the head of the free list.
abbrev pub put_back : Heap → ℕ → Heap
put_back h block =
    let b = h.blocks block in
    record h {
      blocks = update h.blocks block (record b { is_free = true; next = h.heap_free_list });
      heap_free_list = block;
      kernel_heap_used = sub64 h.kernel_heap_used (header_size + b.size);
      free_count = u64 (h.free_count + 1);
    }

unfoldable pub kfree : ℕ → Heap → ℕ → Option Heap
unfolding coalesce_blocks
kfree rounds h ptr =
    let block = sub64 ptr header_size in
    if ptr == 0
    then some h
    else if not ((h.blocks block).magic == heap_magic)
    then some h
    else if (h.blocks block).is_free
    then some h
    else coalesce_blocks rounds (put_back h block)
