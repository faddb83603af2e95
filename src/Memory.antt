-- ===== src/Memory.antt =====
-- src/kernel/memory/memory.c: the list of free pages. The list is linked through the first words of the
-- pages; here it is a list of their addresses. Clearing a page is not modelled.
pub mod Init
pub mod Pages
pub mod Runs
pub mod Reach
pub mod Heap
use amq_os.Prelude.{
  ℕ, zero, suc, ◌+◌, ◌-◌, ◌*◌, ◌/◌, ◌%◌, ◌^◌, ◌≤◌, ◌<◌, ◌≡◌, refl, sym, ap, ◌∙◌, subst, ◌≢◌, ◌↔◌,
  ◌⊎◌, inl, inr, Bool, true, false, not, ◌&&◌, ◌||◌, Option, none, some, List, [], ◌∷◌, ◌++◌, map,
  arith, ltb, leb, ◌==◌, if◌then◌else◌, u8, u16, u32, u64, sub16, sub32, sub64, Bool-cases,
  Option-cases, ==_iff, length, take, drop, update, update_self, update_ne, scan, scan-some,
  scan-first, scan-ne-none, contains, Distinct, without, AllBelow, contains-ne, without-absent,
  contains-without, without-Distinct, contains-append, append-Distinct, length-le_bound, replicate,
}

-- What `pmm_init` reads of an `EFI_MEMORY_DESCRIPTOR`; `conventional` tells the type.
pub record Descriptor : Type 0 where
  pub conventional : Bool
  pub physical_start : ℕ
  pub number_of_pages : ℕ

-- `free_list`, `total_pages` and `used_pages`.
pub record Pmm : Type 0 where
  pub free_list : List ℕ
  pub total_pages : ℕ
  pub used_pages : ℕ

abbrev pub push_page : Pmm → ℕ → Pmm
push_page m page = record m {
  free_list = page ∷ m.free_list;
  total_pages = u64 (m.total_pages + 1);
}

-- The inner loop of `pmm_init`: the pages from page `p` of the region on.
unfoldable pub add_region : ℕ → ℕ → ℕ → Pmm → Pmm
add_region zero p base m = m
add_region (suc rounds) p base m =
    add_region rounds (p + 1) base (push_page m (u64 (base + p * 4096)))

unfoldable pub add_descriptors : List Descriptor → Pmm → Pmm
unfolding add_region
add_descriptors [] m = m
add_descriptors (d ∷ ds) m =
    add_descriptors ds
      (if d.conventional then add_region d.number_of_pages 0 d.physical_start m else m)

unfoldable pub pmm_init : List Descriptor → Pmm
unfolding add_descriptors
pmm_init ds = add_descriptors ds (record { free_list = []; total_pages = 0; used_pages = 0 })

-- The head of the list and the rest; `none` is NULL.
abbrev pub take_page : Pmm → List ℕ → Option ℕ × Pmm
take_page m [] = (none, m)
take_page m (page ∷ pages) =
    (some page, record m { free_list = pages; used_pages = u64 (m.used_pages + 1) })

unfoldable pub pmm_alloc_page : Pmm → Option ℕ × Pmm
pmm_alloc_page m = take_page m m.free_list

-- The address 0 is NULL.
unfoldable pub pmm_free_page : Pmm → ℕ → Pmm
pmm_free_page m addr =
    if addr == 0
    then m
    else record m { free_list = addr ∷ m.free_list; used_pages = sub64 m.used_pages 1 }

-- The rounds of `pmm_alloc_pages` after its first page; pages that were taken are not given back.
unfoldable pub alloc_more : ℕ → Pmm → Bool × Pmm
alloc_more zero m = (true, m)
alloc_more (suc rounds) m =
    let (page, m') = pmm_alloc_page m in
    let rest = alloc_more rounds m' in elim page [ none ↦ (false, m') | some p ↦ rest ]

unfoldable pub pmm_alloc_pages : Pmm → ℕ → Option ℕ × Pmm
unfolding alloc_more pmm_alloc_page
pmm_alloc_pages m count =
    if count == 0
    then (none, m)
    else let (first, m') = pmm_alloc_page m in
      let (done, m'') = alloc_more (count - 1) m' in
      elim first [ none ↦ (none, m') | some p ↦ (if done then some p else none, m'') ]

unfoldable pub pmm_get_free_pages : Pmm → ℕ
pmm_get_free_pages m = sub64 m.total_pages m.used_pages
