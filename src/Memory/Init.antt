-- ===== src/Memory/Init.antt =====
-- What `pmm_init` of src/kernel/memory/memory.c collects, and where a run of pages lies.
use amq_os.Memory.{push_page, Pmm, Descriptor, pmm_init, add_region, add_descriptors}
use mathlib.Core.List.{append_assoc, append-nil}
use amq_os.Prelude.{
  ℕ, zero, suc, ◌+◌, ◌*◌, ◌^◌, ◌<◌, ◌≡◌, refl, sym, ap, ◌∙◌, inl, inr, List, [], ◌∷◌, ◌++◌, arith,
  if◌then◌else◌, u64, Bool-cases, length, length-append,
}

-- The addresses of `n` pages of a region from page `p` on, the last one first.
abbrev pub region_pages : ℕ → ℕ → ℕ → List ℕ
region_pages zero p base = []
region_pages (suc n) p base = region_pages n (p + 1) base ++ u64 (base + p * 4096) ∷ []

-- The pages of a memory map, the last one first.
abbrev pub pages_of : List Descriptor → List ℕ
pages_of [] = []
pages_of (d ∷ ds) =
    pages_of ds
    ++ (if d.conventional then region_pages d.number_of_pages 0 d.physical_start else [])

-- The state with the pages in front of those that it had.
abbrev with_pages : Pmm → List ℕ → Pmm
with_pages m q = record m {
  free_list = q ++ m.free_list;
  total_pages = u64 (m.total_pages + length q);
}

with_pages-push :
    (m : Pmm) (q : List ℕ) (page : ℕ)
    → with_pages (push_page m page) q ≡ with_pages m (q ++ page ∷ [])
with_pages-push m q page = λ k. record m {
  free_list = sym (append_assoc q (page ∷ []) m.free_list) k;
  total_pages = same k;
}
  where
    same : u64 (u64 (m.total_pages + 1) + length q) ≡ u64 (m.total_pages + length (q ++ page ∷ []))
    same = omega (arith, length-append q (page ∷ []))

with_pages-with_pages :
    (m : Pmm) (p q : List ℕ) → with_pages (with_pages m p) q ≡ with_pages m (q ++ p)
with_pages-with_pages m p q =
    λ k. record m { free_list = sym (append_assoc q p m.free_list) k; total_pages = same k }
  where
    same : u64 (u64 (m.total_pages + length p) + length q) ≡ u64 (m.total_pages + length (q ++ p))
    same = omega (arith, length-append q p)

add_region_lem :
    (n p base : ℕ) (m : Pmm)
    → m.total_pages < 2 ^ 64
    → add_region n p base m ≡ with_pages m (region_pages n p base)
unfolding add_region
add_region_lem zero p base m h = ap (λ t. record m { total_pages = t }) (omega arith)
add_region_lem (suc n) p base m h =
    let page = u64 (base + p * 4096) in
    let q = region_pages n (p + 1) base in
    add_region_lem n (p + 1) base (push_page m page) (omega arith) ∙ with_pages-push m q page

add_descriptors_lem :
    (ds : List Descriptor) (m : Pmm)
    → m.total_pages < 2 ^ 64
    → add_descriptors ds m ≡ with_pages m (pages_of ds)
unfolding add_descriptors
add_descriptors_lem [] m h = ap (λ t. record m { total_pages = t }) (omega arith)
add_descriptors_lem (d ∷ ds) m h = elim (Bool-cases d.conventional) [
  | inl e ↦
      let q = region_pages d.number_of_pages 0 d.physical_start in
      rw e (
        ap (add_descriptors ds) (add_region_lem d.number_of_pages 0 d.physical_start m h)
        ∙ add_descriptors_lem ds (with_pages m q) (omega arith)
        ∙ with_pages-with_pages m q (pages_of ds))
  | inr e ↦ rw e (add_descriptors_lem ds m h ∙ ap (with_pages m) (sym (append-nil (pages_of ds))))
]

-- `pmm_init` collects each page of the conventional regions, the last one first, and counts them.
pub pmm_init_lem :
    (ds : List Descriptor)
    → length (pages_of ds) < 2 ^ 64
    → pmm_init ds
      ≡ record { free_list = pages_of ds; total_pages = length (pages_of ds); used_pages = 0 }
unfolding pmm_init
pmm_init_lem ds h =
    let m : Pmm = record { free_list = []; total_pages = 0; used_pages = 0 } in
    add_descriptors_lem ds m (omega arith) ∙ (λ k. record {
      free_list = append-nil (pages_of ds) k;
      total_pages = small k;
      used_pages = 0;
    })
  where
    small : u64 (0 + length (pages_of ds)) ≡ length (pages_of ds)
    small = omega arith

-- The last page of a region is its first one in the list.
pub region_pages_head :
    (n p base : ℕ)
    → region_pages (suc n) p base ≡ u64 (base + (p + n) * 4096) ∷ region_pages n p base
region_pages_head zero p base = ap (λ i. u64 (base + i * 4096) ∷ []) (omega arith)
region_pages_head (suc n) p base =
    ap (λ q. q ++ u64 (base + p * 4096) ∷ []) (region_pages_head n (p + 1) base)
    ∙ ap (λ i. u64 (base + i * 4096) ∷ region_pages (suc n) p base) (omega arith)

pub length-region_pages : (n p base : ℕ) → length (region_pages n p base) ≡ n
length-region_pages zero p base = refl
length-region_pages (suc n) p base =
    length-append (region_pages n (p + 1) base) (u64 (base + p * 4096) ∷ [])
    ∙ omega (arith, length-region_pages n (p + 1) base)
