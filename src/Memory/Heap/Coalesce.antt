-- ===== src/Memory/Heap/Coalesce.antt =====
-- The end of `coalesce_blocks` of src/kernel/memory/memory.c.
use amq_os.Memory.Heap.{
  Heap, coalesce_loop, coalesce_blocks, can_merge, merge, header_size, heap_magic, put_back, kfree,
  merged,
}
use amq_os.Memory.Heap.Split.{end_of}
use amq_os.Prelude.{
  ℕ, zero, suc, ◌+◌, ◌*◌, ◌^◌, ◌≤◌, ◌<◌, ◌≡◌, refl, sym, ap, ◌∙◌, subst, ◌≢◌, ◌⊎◌, inl, inr, Bool,
  true, false, not, ◌||◌, some, arith, ltb, ◌==◌, if◌then◌else◌, u64, sub64, Bool-cases,
  update_self, update_ne, if_both,
}

abbrev pub has_magic : Heap → ℕ → Bool
has_magic h a = (h.blocks a).magic == heap_magic

-- No block reaches the end of the address space.
abbrev pub NoWrap : Heap → Type 0
NoWrap h = (a : ℕ) → has_magic h a ≡ true → end_of h a < 2 ^ 64

abbrev limit : Heap → ℕ
limit h = u64 (h.kernel_heap_base + h.kernel_heap_used)

module _ (h : Heap) (a : ℕ) (v : NoWrap h) (m : has_magic h a ≡ true) where
  in_range : u64 (end_of h a) ≡ end_of h a
  in_range = omega (arith, v a m)

  merge-same : (merge h a).blocks a ≡ merged (h.blocks a) (h.blocks (end_of h a))
  merge-same =
      update_self h.blocks a (merged (h.blocks a) (h.blocks (u64 (end_of h a))))
      ∙ ap (λ n. merged (h.blocks a) (h.blocks n)) in_range

  end_of-merge : has_magic h (end_of h a) ≡ true → end_of (merge h a) a ≡ end_of h (end_of h a)
  end_of-merge m' = ap (λ b. a + header_size + b.size) merge-same ∙ omega (arith, v (end_of h a) m')

  merge-NoWrap : has_magic h (end_of h a) ≡ true → NoWrap (merge h a)
  merge-NoWrap m' i = elim (Bool-cases (a == i)) [
    | inl e ↦
        let same : a ≡ i = ground arith in
        subst (λ j. has_magic (merge h a) j ≡ true → end_of (merge h a) j < 2 ^ 64) same
          (λ k. omega (arith, end_of-merge m', v (end_of h a) m'))
    | inr e ↦
        let b = merged (h.blocks a) (h.blocks (u64 (end_of h a))) in
        let ne : a ≢ i = ground arith in
        subst (λ b. (b.magic == heap_magic) ≡ true → i + header_size + b.size < 2 ^ 64)
          (sym (update_ne h.blocks a b i ne)) (v i)
  ]

-- One round: the loop stops, merges or goes on.
coalesce_loop-suc :
    (rounds : ℕ) (h : Heap) (a : ℕ)
    → coalesce_loop (suc rounds) h a ≡ (
        if not (ltb a (limit h))
        then some h
        else if not (has_magic h a)
        then some h
        else if can_merge h a
        then coalesce_loop rounds (merge h a) a
        else coalesce_loop rounds h (u64 (end_of h a)))
unfolding coalesce_loop
coalesce_loop-suc rounds h a = refl

merge-free :
    (h : Heap) (a i : ℕ) → (h.blocks i).is_free ≡ true → ((merge h a).blocks i).is_free ≡ true
merge-free h a i e = elim (Bool-cases (a == i)) [
  | inl f ↦
      let same : a ≡ i = ground arith in
      subst (λ j. ((merge h a).blocks j).is_free ≡ true) same
        (ap (λ b. b.is_free)
            (update_self h.blocks a (merged (h.blocks a) (h.blocks (u64 (end_of h a)))))
          ∙ ap (λ j. (h.blocks j).is_free) same
          ∙ e)
  | inr f ↦
      ap (λ b. b.is_free)
        (update_ne h.blocks a (merged (h.blocks a) (h.blocks (u64 (end_of h a)))) i (ground arith))
      ∙ e
]

-- The pointer is NULL, or not that of a block, or that of a free block.
abbrev pub refuses : Heap → ℕ → Bool
refuses h ptr =
    let block = sub64 ptr header_size in
    ptr == 0 || not (has_magic h block) || (h.blocks block).is_free

-- What a run of the loop leaves: the limits and the list as they were.
pub record Coalesced (h h' : Heap) : Type 0 where
  pub no_wrap : NoWrap h'
  pub base : h'.kernel_heap_base ≡ h.kernel_heap_base
  pub used : h'.kernel_heap_used ≡ h.kernel_heap_used
  pub list : h'.heap_free_list ≡ h.heap_free_list
  pub free : (i : ℕ) → (h.blocks i).is_free ≡ true → (h'.blocks i).is_free ≡ true

coalesce_loop-stop :
    (rounds : ℕ) (h : Heap) (a : ℕ)
    → (limit h ≤ a) ⊎ (has_magic h a ≡ false)
    → coalesce_loop (suc rounds) h a ≡ some h
coalesce_loop-stop rounds h a (inl e) = coalesce_loop-suc rounds h a ∙ rw (not_ltb) refl
  where
    not_ltb : ltb a (limit h) ≡ false
    not_ltb = ground arith
coalesce_loop-stop rounds h a (inr e) =
    coalesce_loop-suc rounds h a ∙ rw e (sym (if_both (not (ltb a (limit h))) (some h)))

-- The two ways in which the loop goes on.
abbrev Merges : ℕ → Heap → ℕ → Type 0
Merges rounds h a =
    (has_magic h (end_of h a) ≡ true)
    × (end_of h a < limit h)
    × (coalesce_loop (suc rounds) h a ≡ coalesce_loop rounds (merge h a) a)

abbrev Advances : ℕ → Heap → ℕ → Type 0
Advances rounds h a = coalesce_loop (suc rounds) h a ≡ coalesce_loop rounds h (end_of h a)

coalesce_loop-go :
    (rounds : ℕ) (h : Heap) (a : ℕ)
    → NoWrap h
    → a < limit h
    → has_magic h a ≡ true
    → Merges rounds h a ⊎ Advances rounds h a
coalesce_loop-go rounds h a v l m = elim (Bool-cases (can_merge h a)) [
  | inl c ↦ inl ((next c).0, ground (arith, (next c).1), whole ∙ rw c refl)
  | inr c ↦ inr (whole ∙ rw c (ap (coalesce_loop rounds h) (in_range h a v m)))
]
  where
    next :
        can_merge h a ≡ true
        → (has_magic h (end_of h a) ≡ true) × (ltb (end_of h a) (limit h) ≡ true)
    next =
        subst (λ n. can_merge h a ≡ true → (has_magic h n ≡ true) × (ltb n (limit h) ≡ true))
          (in_range h a v m) (λ c. ground arith)

    below : ltb a (limit h) ≡ true
    below = ground arith

    whole : coalesce_loop (suc rounds) h a ≡ (
        if can_merge h a
        then coalesce_loop rounds (merge h a) a
        else coalesce_loop rounds h (u64 (end_of h a)))
    whole = coalesce_loop-suc rounds h a ∙ rw (below, m) refl

coalesce_loop-cases :
    (rounds : ℕ) (h : Heap) (a : ℕ)
    → NoWrap h
    → (coalesce_loop (suc rounds) h a ≡ some h)
      ⊎ ((a < limit h) × (has_magic h a ≡ true) × (Merges rounds h a ⊎ Advances rounds h a))
coalesce_loop-cases rounds h a v = elim (Bool-cases (ltb a (limit h))) [
  | inr f ↦ inl (coalesce_loop-stop rounds h a (inl (ground arith)))
  | inl f ↦ elim (Bool-cases (has_magic h a)) [
    | inr g ↦ inl (coalesce_loop-stop rounds h a (inr g))
    | inl g ↦ inr (ground arith, g, coalesce_loop-go rounds h a v (ground arith) g)
  ]
]

Coalesced-refl : (h : Heap) → NoWrap h → Coalesced h h
Coalesced-refl h v = record { no_wrap = v; base = refl; used = refl; list = refl; free = λ i e. e }

-- The loop ends, since the end of the current block moves up by a header or more in each round.
coalesce_loop_ends :
    (k : ℕ) (h : Heap) (a : ℕ)
    → NoWrap h
    → (a < limit h → has_magic h a ≡ true → limit h ≤ k * header_size + end_of h a)
    → (h' : Heap) × (coalesce_loop (suc (suc k)) h a ≡ some h') × Coalesced h h'
coalesce_loop_ends zero h a v e = elim (coalesce_loop-cases 1 h a v) [
  | inl s ↦ (h, s, Coalesced-refl h v)
  | inr (l, m, inl (_, below, _)) ↦ absurd (omega (arith, e l m))
  | inr (l, m, inr s) ↦
      (h, s ∙ coalesce_loop-stop 0 h (end_of h a) (inl (omega (arith, e l m))), Coalesced-refl h v)
]
coalesce_loop_ends (suc k) h a v e = elim (coalesce_loop-cases (suc (suc k)) h a v) [
  | inl s ↦ (h, s, Coalesced-refl h v)
  | inr (l, m, inl (m', below, s)) ↦
      let far = end_of-merge h a v m m' in
      let (h', r, c) =
        coalesce_loop_ends k (merge h a) a (merge-NoWrap h a v m m')
          (λ _ _. omega (arith, far, e l m)) in
      (
        h',
        s ∙ r,
        record {
          no_wrap = c.no_wrap;
          base = c.base;
          used = c.used;
          list = c.list;
          free = λ i e. c.free i (merge-free h a i e);
        },
      )
  | inr (l, m, inr s) ↦
      let (h', r, c) = coalesce_loop_ends k h (end_of h a) v (λ _ _. omega (arith, e l m)) in
      (h', s ∙ r, c)
]

put_back-NoWrap : (h : Heap) (a : ℕ) → NoWrap h → NoWrap (put_back h a)
put_back-NoWrap h a v i =
    let b = record (h.blocks a) { is_free = true; next = h.heap_free_list } in
    elim (Bool-cases (a == i)) [
      | inl e ↦
          let same : a ≡ i = ground arith in
          subst (λ j. has_magic (put_back h a) j ≡ true → end_of (put_back h a) j < 2 ^ 64) same
            (subst (λ c. (c.magic == heap_magic) ≡ true → a + header_size + c.size < 2 ^ 64)
              (sym (update_self h.blocks a b)) (v a))
      | inr e ↦
          let ne : a ≢ i = ground arith in
          subst (λ c. (c.magic == heap_magic) ≡ true → i + header_size + c.size < 2 ^ 64)
            (sym (update_ne h.blocks a b i ne)) (v i)
    ]

coalesce_blocks_lem :
    (rounds : ℕ) (h : Heap) → coalesce_blocks rounds h ≡ coalesce_loop rounds h h.kernel_heap_base
unfolding coalesce_blocks
coalesce_blocks_lem rounds h = refl

-- Where no block reaches the end of the address space, the heap does not either and the block that is
-- given back is counted as used, `kfree` ends: its walk takes no more rounds than two more than there
-- is room for headers in the used part. If the pointer is NULL, or not that of a block, or that of a
-- free one, nothing changes; otherwise the block becomes the head of the free list and is free.
pub kfree_ends :
    (k : ℕ) (h : Heap) (ptr : ℕ)
    → NoWrap h
    → h.kernel_heap_base + h.kernel_heap_used < 2 ^ 64
    → h.kernel_heap_used ≤ k * header_size
    → (let b = h.blocks (sub64 ptr header_size) in
        b.is_free ≡ false → header_size + b.size ≤ h.kernel_heap_used)
    → (h' : Heap) × (kfree (suc (suc k)) h ptr ≡ some h')
      × NoWrap h'
      × (((refuses h ptr ≡ true) × (h' ≡ h))
          ⊎ ((refuses h ptr ≡ false)
              × (h'.heap_free_list ≡ sub64 ptr header_size)
              × ((h'.blocks (sub64 ptr header_size)).is_free ≡ true)))
unfolding kfree
kfree_ends k h ptr v base used counted = elim (Bool-cases (ptr == 0)) [
  | inl e ↦ (h, rw e refl, v, inl (rw e refl, refl))
  | inr e ↦ elim (Bool-cases (has_magic h block)) [
    | inr f ↦ (h, rw (e, f) refl, v, inl (rw (e, f) refl, refl))
    | inl f ↦ elim (Bool-cases (h.blocks block).is_free) [
      | inl g ↦ (h, rw (e, f, g) refl, v, inl (rw (e, f, g) refl, refl))
      | inr g ↦
          let n = put_back h block in
          let (h', r, c) =
            coalesce_loop_ends k n n.kernel_heap_base (put_back-NoWrap h block v)
              (λ _ _. omega (arith, counted g)) in
          (
            h',
            rw (e, f, g) (coalesce_blocks_lem (suc (suc k)) n ∙ r),
            c.no_wrap,
            inr (
              rw (e, f, g) refl,
              c.list,
              c.free block (
                  ap (λ b. b.is_free)
                    (update_self h.blocks block
                      (record (h.blocks block) { is_free = true; next = h.heap_free_list }))),
            ),
          )
    ]
  ]
]
  where
    block : ℕ
    block = sub64 ptr header_size
