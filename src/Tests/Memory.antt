-- ===== src/Tests/Memory.antt =====
-- Concrete runs of src/kernel/memory/memory.c.
use amq_os.Memory.{Pmm, Descriptor, pmm_init, pmm_alloc_page, pmm_get_free_pages}
use amq_os.Memory.Init.{pages_of}
use amq_os.Memory.Pages.{IsMap}
use amq_os.Memory.Reach.{Run, boot, alloc, pmm_alloc_page_is_new}
use amq_os.Memory.Heap.{
  Heap, kmalloc, kfree, split_block, header_size, heap_magic, free_block, min_block_size,
  coalesce_loop,
}
use amq_os.Memory.Heap.Split.{end_of, IsCut, split_block_lem, split_block_no_room}
use amq_os.Memory.Heap.Coalesce.{NoWrap, refuses, kfree_ends}
use amq_os.Prelude.{
  ℕ, ◌+◌, ◌-◌, ◌^◌, ◌≤◌, ◌<◌, ◌≡◌, refl, subst, ◌≢◌, ◌↔◌, ◌⊎◌, inl, inr, true, false, Option, none,
  some, List, [], ◌∷◌, arith, ◌==◌, if◌then◌else◌, Bool-cases, length, contains,
}

-- One region of two pages, and a reserved one.
abbrev two_pages : List Descriptor
two_pages =
    record { conventional = true; physical_start = 4096; number_of_pages = 2 }
    ∷ record { conventional = false; physical_start = 65536; number_of_pages = 9 }
    ∷ []

two_pages-IsMap : IsMap (pages_of two_pages)
two_pages-IsMap = record { distinct = ground arith; nonzero = refl; small = omega arith }

-- After one allocation.
abbrev one_taken : Pmm
one_taken = record { free_list = 4096 ∷ []; total_pages = 2; used_pages = 1 }

abbrev one_out : List ℕ
one_out = 8192 ∷ []

one_taken-Run : Run two_pages one_taken one_out
unfolding pmm_init pmm_alloc_page
one_taken-Run = alloc 8192 boot refl

pmm_alloc_page_is_new_example :
    ((page : ℕ)
      → (pmm_alloc_page one_taken).0 ≡ some page
      → (contains page one_out ≡ false) × (contains page (pages_of two_pages) ≡ true) × (page ≢ 0))
    × (((pmm_alloc_page one_taken).0 ≡ none) ↔ (length one_out ≡ length (pages_of two_pages)))
    × (pmm_get_free_pages one_taken ≡ length one_taken.free_list)
pmm_alloc_page_is_new_example =
    pmm_alloc_page_is_new two_pages one_taken one_out two_pages-IsMap one_taken-Run

-- A heap at 4096 with one free block, of 1000 bytes.
abbrev one_block : Heap
one_block = record {
  blocks = λ a.
      if a == 4096
      then free_block 1000 0
      else record { size = 0; next = 0; is_free = false; magic = 0 };
  kernel_heap_base = 4096;
  kernel_heap_size = 1024;
  kernel_heap_used = 0;
  heap_free_list = 4096;
  alloc_count = 0;
  free_count = 0;
  split_count = 0;
  coalesce_count = 0;
  pages = record { free_list = []; total_pages = 0; used_pages = 0 };
}

split_block_example :
    (100 + header_size + min_block_size ≤ 1000
      → IsCut one_block 4096 100 (split_block one_block 4096 100))
    × (1000 < 100 + header_size + min_block_size → split_block one_block 4096 100 ≡ one_block)
split_block_example = split_block_lem one_block 4096 100 (omega arith) (omega arith)

-- 112 bytes are asked for, 120 are there.
abbrev tight : Heap
tight = record one_block {
  blocks = λ a.
      if a == 4096
      then free_block 120 0
      else record { size = 0; next = 0; is_free = false; magic = 0 };
}

split_block_no_room_example :
    let h' = split_block tight 4096 112 in
    ((h'.blocks 4096).next ≡ 4232)
    × (h'.blocks 4232 ≡ free_block (2 ^ 64 + 120 - (112 + header_size)) 0)
    × (end_of tight 4096 < 4232 + header_size)
split_block_no_room_example =
    split_block_no_room tight 4096 112 (omega arith) (omega arith) (omega arith)

-- The block of `one_block`, in use.
abbrev in_use : Heap
in_use = record one_block {
  blocks = λ a.
      if a == 4096
      then record { size = 1000; next = 0; is_free = false; magic = heap_magic }
      else record { size = 0; next = 0; is_free = false; magic = 0 };
  kernel_heap_used = 1024;
  heap_free_list = 0;
}

in_use-NoWrap : NoWrap in_use
in_use-NoWrap a m = elim (Bool-cases (a == 4096)) [
  | inl e ↦
      let same : 4096 ≡ a = ground arith in subst (λ i. end_of in_use i < 2 ^ 64) same (omega arith)
  | inr e ↦ absurd (ground (arith, m))
]

kfree_example :
    (h' : Heap) × (kfree 45 in_use 4120 ≡ some h')
    × NoWrap h'
    × (((refuses in_use 4120 ≡ true) × (h' ≡ in_use))
        ⊎ ((refuses in_use 4120 ≡ false)
            × (h'.heap_free_list ≡ 4096)
            × ((h'.blocks 4096).is_free ≡ true)))
kfree_example =
    kfree_ends 43 in_use 4120 in_use-NoWrap (omega arith) (omega arith) (λ e. omega arith)

-- Four blocks of 32 bytes, one behind the other.
abbrev four_blocks : Heap
four_blocks = (kmalloc 1 2 (kmalloc 1 2 (kmalloc 1 2 (kmalloc 1 2 one_block 32).1 32).1 32).1 32).1

abbrev free_first_two : Option Heap
free_first_two = elim (kfree 10 four_blocks 4120) [ none ↦ none | some h ↦ kfree 10 h 4176 ]

abbrev next_of : Option Heap → ℕ → Option ℕ
next_of none a = none
next_of (some h) a = some (h.blocks a).next

-- Giving back the first block and then the second one links the first one to itself.
kfree_links_to_itself : next_of free_first_two 4096 ≡ some 4096
unfolding kmalloc kfree coalesce_loop
kfree_links_to_itself = refl
