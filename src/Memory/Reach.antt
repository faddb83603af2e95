-- ===== src/Memory/Reach.antt =====
-- Every history of the calls of src/kernel/memory/memory.c for single pages.
use amq_os.Memory.{
  Pmm, Descriptor, pmm_alloc_page, pmm_free_page, pmm_init, pmm_get_free_pages, take_page,
}
use amq_os.Memory.Init.{pages_of, pmm_init_lem}
use amq_os.Memory.Pages.{IsOwned, IsMap, take_page-IsOwned, pmm_free_page-IsOwned}
use amq_os.Prelude.{
  ℕ, ◌+◌, ◌≡◌, refl, sym, ap, subst, ◌≢◌, ◌↔◌, ◌⊎◌, inl, inr, true, false, none, some, List, [],
  ◌∷◌, arith, u64, Bool-cases, length, contains, without,
}

-- The states and the pages in use after `pmm_init` and any calls; a page in use is freed.
pub data Run (ds : List Descriptor) : Pmm → List ℕ → Type 0 where
  boot : Run ds (pmm_init ds) []
  alloc :
      {m : Pmm} {out : List ℕ} (page : ℕ)
      → Run ds m out
      → (pmm_alloc_page m).0 ≡ some page
      → Run ds (pmm_alloc_page m).1 (page ∷ out)
  refuse :
      {m : Pmm} {out : List ℕ}
      → Run ds m out
      → (pmm_alloc_page m).0 ≡ none
      → Run ds (pmm_alloc_page m).1 out
  free :
      {m : Pmm} {out : List ℕ} (page : ℕ)
      → Run ds m out
      → contains page out ≡ true
      → Run ds (pmm_free_page m page) (without page out)

-- What an allocation does by the list of free pages.
pmm_alloc_page-cases :
    (m : Pmm)
    → ((m.free_list ≡ []) × (pmm_alloc_page m ≡ (none, m)))
      ⊎ ((page : ℕ) × (rest : List ℕ) × (m.free_list ≡ page ∷ rest)
          × (pmm_alloc_page m
              ≡ (some page, record m { free_list = rest; used_pages = u64 (m.used_pages + 1) })))
unfolding pmm_alloc_page
pmm_alloc_page-cases m = split m.free_list
  where
    split :
        (q : List ℕ)
        → ((q ≡ []) × (take_page m q ≡ (none, m)))
          ⊎ ((page : ℕ) × (rest : List ℕ) × (q ≡ page ∷ rest)
              × (take_page m q ≡ (
                some page,
                record m { free_list = rest; used_pages = u64 (m.used_pages + 1) },
              )))
    split [] = inl (refl, refl)
    split (page ∷ rest) = inr (page, rest, refl, refl)

Run-IsOwned :
    (ds : List Descriptor) {m : Pmm} {out : List ℕ}
    → IsMap (pages_of ds)
    → Run ds m out
    → IsOwned (pages_of ds) m out
Run-IsOwned ds g boot =
    subst (λ m. IsOwned (pages_of ds) m []) (sym (pmm_init_lem ds g.small))
      (record {
        free = g.distinct;
        held = tt;
        apart = λ i h. absurd (ground arith);
        free_within = λ i h. h;
        held_within = λ i h. absurd (ground arith);
        split = omega arith;
        total = refl;
        used = refl;
      })
Run-IsOwned ds g (alloc {m} {out} page r e) = elim (pmm_alloc_page-cases m) [
  | inl (_, f) ↦ absurd (ground (arith, e, ap (λ x. x.0) f))
  | inr (page', rest, q, f) ↦
      let same : page' ≡ page = ground (arith, e, ap (λ x. x.0) f) in
      rw (f, sym same) (take_page-IsOwned (pages_of ds) g m out page' rest (Run-IsOwned ds g r) q)
]
Run-IsOwned ds g (refuse {m} {out} r e) = elim (pmm_alloc_page-cases m) [
  | inl (_, f) ↦ rw f (Run-IsOwned ds g r)
  | inr (page, rest, q, f) ↦ absurd (ground (arith, e, ap (λ x. x.0) f))
]
Run-IsOwned ds g (free {m} {out} page r h) =
    pmm_free_page-IsOwned (pages_of ds) g m out page (Run-IsOwned ds g r) h

-- If the pages of the memory map are distinct, none is at address 0 and their number is a 64-bit
-- word, then after any sequence of allocations and frees of pages in use, a page that is allocated is
-- a page of the map, not NULL and not in use already; an allocation fails exactly when all the pages
-- of the map are in use; and the count of free pages is the length of the list.
pub pmm_alloc_page_is_new :
    (ds : List Descriptor) (m : Pmm) (out : List ℕ)
    → IsMap (pages_of ds)
    → Run ds m out
    → ((page : ℕ)
        → (pmm_alloc_page m).0 ≡ some page
        → (contains page out ≡ false) × (contains page (pages_of ds) ≡ true) × (page ≢ 0))
      × (((pmm_alloc_page m).0 ≡ none) ↔ (length out ≡ length (pages_of ds)))
      × (pmm_get_free_pages m ≡ length m.free_list)
unfolding pmm_get_free_pages
pmm_alloc_page_is_new ds m out g r =
    let v = Run-IsOwned ds g r in
    elim (pmm_alloc_page-cases m) [
      | inl (q, f) ↦
          let none_left = ap length q in
          (
            λ page e. absurd (ground (arith, e, ap (λ x. x.0) f)),
            (λ e. omega (arith, v.split, none_left), λ e. ap (λ x. x.0) f),
            omega (arith, v.split, v.total, v.used, g.small),
          )
      | inr (page, rest, q, f) ↦
          let one_left = ap length q in
          let found = ap (λ x. x.0) f in
          let mem : contains page m.free_list ≡ true = rw q (ground arith) in
          (
            λ page' e.
                let same : page ≡ page' = ground (arith, e, found) in
                subst (λ p. (contains p out ≡ false) × (contains p (pages_of ds) ≡ true) × (p ≢ 0))
                  same
                  (
                    ground (arith, Bool-cases (contains page out), v.apart page, mem),
                    v.free_within page mem,
                    λ z. ground (arith, v.free_within page mem, g.nonzero),
                  ),
            (
              λ e. absurd (ground (arith, e, found)),
              λ e. absurd (omega (arith, v.split, one_left)),
            ),
            omega (arith, v.split, v.total, v.used, g.small),
          )
    ]
