-- ===== src/Memory/Pages.antt =====
-- Who owns the pages of src/kernel/memory/memory.c.
use amq_os.Memory.{Pmm, pmm_free_page}
use amq_os.Prelude.{
  ℕ, suc, ◌+◌, ◌^◌, ◌<◌, ◌≡◌, ap, ◌∙◌, subst, ◌≢◌, inl, inr, true, false, List, [], ◌∷◌, arith,
  ◌==◌, if◌then◌else◌, u64, Bool-cases, length, contains, Distinct, without, without-absent,
  without-Distinct,
}

length-without_held :
    (i : ℕ) (q : List ℕ) → Distinct q → contains i q ≡ true → length (without i q) + 1 ≡ length q
length-without_held i [] d h = absurd (ground arith)
length-without_held i (j ∷ q) d h = elim (Bool-cases (j == i)) [
  | inl e ↦ rw e (omega (arith, ap length (without-absent i q (ground arith))))
  | inr e ↦ rw e (omega (arith, length-without_held i q d.1 (ground arith)))
]

contains-without_iff :
    (i j : ℕ) (q : List ℕ) → contains j (without i q) ≡ (if i == j then false else contains j q)
contains-without_iff i j [] = ground arith
contains-without_iff i j (k ∷ q) = ground (arith, contains-without_iff i j q)

==_ne : (a b : ℕ) → a ≢ b → (a == b) ≡ false
==_ne a b h = ground arith

-- The free pages and the pages that are handed out are the pages of `all`, each of them once; the
-- counters count them.
pub record IsOwned (all : List ℕ) (m : Pmm) (out : List ℕ) : Type 0 where
  pub free : Distinct m.free_list
  pub held : Distinct out
  pub apart : (i : ℕ) → contains i out ≡ true → contains i m.free_list ≡ false
  pub free_within : (i : ℕ) → contains i m.free_list ≡ true → contains i all ≡ true
  pub held_within : (i : ℕ) → contains i out ≡ true → contains i all ≡ true
  pub split : length all ≡ length m.free_list + length out
  pub total : m.total_pages ≡ length all
  pub used : m.used_pages ≡ length out

-- The pages that a memory map can give: distinct, none of them NULL, and a 64-bit number of them.
pub record IsMap (all : List ℕ) : Type 0 where
  pub distinct : Distinct all
  pub nonzero : contains 0 all ≡ false
  pub small : length all < 2 ^ 64

module _ (all : List ℕ) (g : IsMap all) where
  -- An allocation that finds a page.
  pub take_page-IsOwned :
      (m : Pmm) (out : List ℕ) (page : ℕ) (rest : List ℕ)
      → IsOwned all m out
      → m.free_list ≡ page ∷ rest
      → IsOwned all
          (record m { free_list = rest; used_pages = u64 (m.used_pages + 1) })
          (page ∷ out)
  take_page-IsOwned m out page rest v e =
      let free : Distinct (page ∷ rest) = subst Distinct e v.free in
      let within : (i : ℕ) → contains i (page ∷ rest) ≡ true → contains i all ≡ true =
        λ i. subst (λ q. contains i q ≡ true → contains i all ≡ true) e (v.free_within i) in
      let apart : (i : ℕ) → contains i out ≡ true → contains i (page ∷ rest) ≡ false =
        λ i h. subst (λ q. contains i q ≡ false) e (v.apart i h) in
      let new : contains page out ≡ false =
        ground (arith, Bool-cases (contains page out), apart page) in
      let count : length all ≡ suc (length rest) + length out =
        v.split ∙ ap (λ q. length q + length out) e in
      record {
        free = free.1;
        held = (new, v.held);
        apart = λ i h. ground (arith, apart i, free.0);
        free_within = λ i h. ground (arith, within i);
        held_within = λ i h. ground (arith, within i, v.held_within i);
        split = omega (arith, count);
        total = v.total;
        used = omega (arith, v.used, count, g.small);
      }

  pub pmm_free_page-IsOwned :
      (m : Pmm) (out : List ℕ) (page : ℕ)
      → IsOwned all m out
      → contains page out ≡ true
      → IsOwned all (pmm_free_page m page) (without page out)
  unfolding pmm_free_page
  pmm_free_page-IsOwned m out page v h =
      let nonzero : page ≢ 0 = λ e. ground (arith, v.held_within page h, g.nonzero) in
      let count = length-without_held page out v.held h in
      rw (==_ne page 0 nonzero) (record {
        free = (v.apart page h, v.free);
        held = without-Distinct page out v.held;
        apart = λ i k. ground (arith, contains-without_iff page i out, v.apart i);
        free_within = λ i k. ground (arith, v.free_within i, v.held_within page h);
        held_within = λ i k. ground (arith, contains-without_iff page i out, v.held_within i);
        split = omega (arith, v.split, count);
        total = v.total;
        used = omega (arith, v.used, v.split, count, g.small);
      })
