-- ===== src/Memory/Runs.antt =====
-- What `pmm_alloc_pages` of src/kernel/memory/memory.c takes and returns.
use amq_os.Memory.{Pmm, pmm_alloc_page, pmm_alloc_pages, alloc_more}
use Prim.Native.Nat.{min}
use amq_os.Prelude.{
  ℕ, zero, suc, ◌+◌, ◌-◌, ◌^◌, ◌<◌, ◌≡◌, ap, ◌∙◌, true, false, ◌||◌, Option, none, some, List, [],
  ◌∷◌, arith, ltb, leb, ◌==◌, if◌then◌else◌, u64, length, drop, if_both,
}

-- The state once up to `k` pages are taken off its list.
abbrev taken : ℕ → Pmm → Pmm
taken k m = record m {
  free_list = drop k m.free_list;
  used_pages = u64 (m.used_pages + min k (length m.free_list));
}

alloc_more_lem :
    (k : ℕ) (q : List ℕ) (t u : ℕ)
    → u < 2 ^ 64
    → let m : Pmm = record { free_list = q; total_pages = t; used_pages = u } in
      alloc_more k m ≡ (leb k (length q), taken k m)
unfolding alloc_more pmm_alloc_page
alloc_more_lem zero q t u h =
    λ i. (same i, record { free_list = q; total_pages = t; used_pages = used i })
  where
    same : true ≡ leb 0 (length q)
    same = ground arith

    used : u ≡ u64 (u + min 0 (length q))
    used = omega arith
alloc_more_lem (suc k) [] t u h =
    λ i. (same i, record { free_list = []; total_pages = t; used_pages = used i })
  where
    same : false ≡ leb (suc k) 0
    same = ground arith

    used : u ≡ u64 (u + min (suc k) 0)
    used = omega arith
alloc_more_lem (suc k) (x ∷ q) t u h =
    alloc_more_lem k q t (u64 (u + 1)) (omega arith)
    ∙ (λ i. (same i, record { free_list = drop k q; total_pages = t; used_pages = used i }))
  where
    same : leb k (length q) ≡ leb (suc k) (suc (length q))
    same = ground arith

    used : u64 (u64 (u + 1) + min k (length q)) ≡ u64 (u + min (suc k) (suc (length q)))
    used = omega arith

-- The address of the first page of a list.
abbrev head_of : List ℕ → Option ℕ
head_of [] = none
head_of (x ∷ q) = some x

taken_zero : (m : Pmm) → m.used_pages < 2 ^ 64 → m ≡ taken 0 m
taken_zero m h = ap (λ u. record m { used_pages = u }) same
  where
    same : m.used_pages ≡ u64 (m.used_pages + min 0 (length m.free_list))
    same = omega arith

-- The code for one page or more.
pmm_alloc_pages-suc :
    (m : Pmm) (k : ℕ)
    → pmm_alloc_pages m (suc k) ≡ (
        let (first, m') = pmm_alloc_page m in
        let (done, m'') = alloc_more k m' in
        elim first [ none ↦ (none, m') | some p ↦ (if done then some p else none, m'') ])
unfolding pmm_alloc_pages
pmm_alloc_pages-suc m k = rw some_round (ap rounds one_less)
  where
    rounds : ℕ → Option ℕ × Pmm
    rounds j =
        let (first, m') = pmm_alloc_page m in
        let (done, m'') = alloc_more j m' in
        elim first [ none ↦ (none, m') | some p ↦ (if done then some p else none, m'') ]

    some_round : (suc k == 0) ≡ false
    some_round = ground arith

    one_less : suc k - 1 ≡ k
    one_less = omega arith

alloc_pages-suc :
    (k : ℕ) (q : List ℕ) (t u : ℕ)
    → u < 2 ^ 64
    → let m : Pmm = record { free_list = q; total_pages = t; used_pages = u } in
      pmm_alloc_pages m (suc k)
      ≡ (if (suc k == 0) || ltb (length q) (suc k) then none else head_of q, taken (suc k) m)
unfolding pmm_alloc_page
alloc_pages-suc k [] t u h = pmm_alloc_pages-suc _ k ∙ (λ i. (
  if_both ((suc k == 0) || ltb 0 (suc k)) none i,
  record { free_list = []; total_pages = t; used_pages = used i },
))
  where
    used : u ≡ u64 (u + min (suc k) 0)
    used = omega arith
alloc_pages-suc k (x ∷ q) t u h =
    pmm_alloc_pages-suc _ k
    ∙ ap (λ r. (if r.0 then some x else none, r.1))
        (alloc_more_lem k q t (u64 (u + 1)) (omega arith))
    ∙ (λ i. (same i, record { free_list = drop k q; total_pages = t; used_pages = used i }))
  where
    same :
        (if leb k (length q) then some x else none)
        ≡ (if (suc k == 0) || ltb (suc (length q)) (suc k) then none else some x)
    same = ground arith

    used : u64 (u64 (u + 1) + min k (length q)) ≡ u64 (u + min (suc k) (suc (length q)))
    used = omega arith

-- `pmm_alloc_pages` returns the first page of the list if there are as many pages as asked for, and
-- takes them off the list; where there are fewer it fails, and all that there were are taken anyway.
-- It fails for no pages, and then changes nothing.
pub pmm_alloc_pages_lem :
    (m : Pmm) (count : ℕ)
    → m.used_pages < 2 ^ 64
    → pmm_alloc_pages m count ≡ (
      if (count == 0) || ltb (length m.free_list) count then none else head_of m.free_list,
      taken count m,
    )
unfolding pmm_alloc_pages
pmm_alloc_pages_lem m zero h = λ i. (none, taken_zero m h i)
pmm_alloc_pages_lem m (suc k) h = alloc_pages-suc k m.free_list m.total_pages m.used_pages h
