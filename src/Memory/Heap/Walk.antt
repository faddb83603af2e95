-- ===== src/Memory/Heap/Walk.antt =====
-- `kmalloc` of src/kernel/memory/memory.c on the list of free blocks.
use amq_os.Memory.Heap.{Heap, HeapBlock, fits, walk, link_past, heap_magic}
use amq_os.Prelude.{
  ℕ, zero, suc, ◌≤◌, ◌<◌, ◌≡◌, refl, sym, ap, ◌∙◌, subst, ◌≢◌, true, false, Option, none, some,
  List, [], ◌∷◌, ◌++◌, arith, leb, ◌==◌, if◌then◌else◌, length, update_self, update_ne, contains,
  Distinct,
}

-- A block that the list may hold, linked to `next`.
abbrev pub IsFree : HeapBlock → ℕ → Type 0
IsFree b next = (b.magic ≡ heap_magic) × (b.is_free ≡ true) × (b.next ≡ next)

-- The blocks are linked in this order from `start` up to `stop`.
abbrev pub Linked : Heap → ℕ → List ℕ → ℕ → Type 0
Linked h start [] stop = start ≡ stop
Linked h start (a ∷ q) stop =
    (start ≡ a)
    × (a ≢ 0)
    × ((h.blocks a).magic ≡ heap_magic)
    × ((h.blocks a).is_free ≡ true)
    × Linked h (h.blocks a).next q stop

-- The last block of a list, for the link to what follows it.
abbrev pub last_of : Option ℕ → List ℕ → Option ℕ
last_of prev [] = prev
last_of prev (a ∷ q) = last_of (some a) q

-- Every block of the list is too small.
abbrev pub TooSmall : Heap → List ℕ → ℕ → Type 0
TooSmall h [] n = Unit
TooSmall h (a ∷ q) n = ((h.blocks a).size < n) × TooSmall h q n

-- One round at a block of the list.
walk-suc :
    (rounds : ℕ) (h : Heap) (prev : Option ℕ) (a n : ℕ)
    → a ≢ 0
    → (h.blocks a).magic ≡ heap_magic
    → (h.blocks a).is_free ≡ true
    → walk (suc rounds) h prev a n ≡ (
        if leb n (h.blocks a).size then fits prev a else walk rounds h (some a) (h.blocks a).next n)
unfolding walk
walk-suc rounds h prev a n z m f = rw (nonzero, magic, f) refl
  where
    nonzero : (a == 0) ≡ false
    nonzero = ground arith

    magic : ((h.blocks a).magic == heap_magic) ≡ true
    magic = ground arith

-- The walk passes the blocks that are too small.
pub walk-first :
    (rounds : ℕ) (h : Heap) (prev : Option ℕ) (start : ℕ) (p : List ℕ) (a n : ℕ)
    → Linked h start p a
    → a ≢ 0
    → (h.blocks a).magic ≡ heap_magic
    → (h.blocks a).is_free ≡ true
    → TooSmall h p n
    → n ≤ (h.blocks a).size
    → length p < rounds
    → walk rounds h prev start n ≡ fits (last_of prev p) a
walk-first zero h prev start p a n l z m f t e r = absurd (omega arith)
walk-first (suc k) h prev start [] a n l z m f t e r =
    ap (λ i. walk (suc k) h prev i n) l ∙ walk-suc k h prev a n z m f ∙ rw enough refl
  where
    enough : leb n (h.blocks a).size ≡ true
    enough = ground arith
walk-first (suc k) h prev start (b ∷ p) a n (s, zb, mb, fb, l) z m f t e r =
    ap (λ i. walk (suc k) h prev i n) s
    ∙ walk-suc k h prev b n zb mb fb
    ∙ rw little (walk-first k h (some b) (h.blocks b).next p a n l z m f t.1 e (omega arith))
  where
    little : leb n (h.blocks b).size ≡ false
    little = ground (arith, t.0)

-- A linked list only reads the blocks in it.
pub Linked-ext :
    (h h' : Heap) (start : ℕ) (q : List ℕ) (stop : ℕ)
    → ((i : ℕ) → contains i q ≡ true → h'.blocks i ≡ h.blocks i)
    → Linked h start q stop
    → Linked h' start q stop
Linked-ext h h' start [] stop e l = l
Linked-ext h h' start (a ∷ q) stop e (s, z, m, f, l) =
    let same = e a (ground arith) in
    (
      s,
      z,
      ap (λ b. b.magic) same ∙ m,
      ap (λ b. b.is_free) same ∙ f,
      subst (λ n. Linked h' n q stop) (sym (ap (λ b. b.next) same))
          (Linked-ext h h' (h.blocks a).next q stop (λ i c. e i (ground arith)) l),
    )

pub Linked-append :
    (h : Heap) (start : ℕ) (p q : List ℕ) (mid stop : ℕ)
    → Linked h start p mid
    → Linked h mid q stop
    → Linked h start (p ++ q) stop
Linked-append h start [] q mid stop e l = subst (λ s. Linked h s q stop) (sym e) l
Linked-append h start (a ∷ p) q mid stop (s, z, m, f, k) l =
    (s, z, m, f, Linked-append h (h.blocks a).next p q mid stop k l)

pub Linked-split :
    (h : Heap) (start : ℕ) (p q : List ℕ) (stop : ℕ)
    → Linked h start (p ++ q) stop
    → (mid : ℕ) × Linked h start p mid × Linked h mid q stop
Linked-split h start [] q stop l = (start, refl, l)
Linked-split h start (a ∷ p) q stop (s, z, m, f, l) =
    let (mid, k, r) = Linked-split h (h.blocks a).next p q stop l in (mid, (s, z, m, f, k), r)

-- Setting the link of the last block of a list leaves the blocks outside of it alone.
pub link_past-other :
    (h : Heap) (a : ℕ) (p : List ℕ) (next i : ℕ)
    → contains i (a ∷ p) ≡ false
    → (link_past (last_of (some a) p) next h).blocks i ≡ h.blocks i
link_past-other h a [] next i c =
    let ne : a ≢ i = ground arith in update_ne h.blocks a (record (h.blocks a) { next = next }) i ne
link_past-other h a (b ∷ p) next i c = link_past-other h b p next i (ground arith)

-- The link of the last block set to `next`.
link_past-Linked :
    (h : Heap) (start a : ℕ) (p : List ℕ) (mid next : ℕ)
    → Distinct (a ∷ p)
    → Linked h start (a ∷ p) mid
    → Linked (link_past (last_of (some a) p) next h) start (a ∷ p) next
link_past-Linked h start a [] mid next d (s, z, m, f, l) =
    let new = record (h.blocks a) { next = next } in
    let same = update_self h.blocks a new in
    (s, z, ap (λ b. b.magic) same ∙ m, ap (λ b. b.is_free) same ∙ f, ap (λ b. b.next) same)
link_past-Linked h start a (b ∷ p) mid next d (s, z, m, f, l) =
    let same = link_past-other h b p next a d.0 in
    (
      s,
      z,
      ap (λ b. b.magic) same ∙ m,
      ap (λ b. b.is_free) same ∙ f,
      subst (λ n. Linked (link_past (last_of (some b) p) next h) n (b ∷ p) next)
          (sym (ap (λ b. b.next) same)) (link_past-Linked h (h.blocks a).next b p mid next d.1 l),
    )

-- With the head of the list.
pub link_past_lem :
    (h : Heap) (p : List ℕ) (mid next : ℕ)
    → Distinct p
    → Linked h h.heap_free_list p mid
    → let h' = link_past (last_of none p) next h in Linked h' h'.heap_free_list p next
link_past_lem h [] mid next d l = refl
link_past_lem h (a ∷ p) mid next d l =
    subst (λ s. Linked (link_past (last_of (some a) p) next h) s (a ∷ p) next) (sym (kept p a))
      (link_past-Linked h h.heap_free_list a p mid next d l)
  where
    kept :
        (p : List ℕ) (a : ℕ)
        → (link_past (last_of (some a) p) next h).heap_free_list ≡ h.heap_free_list
    kept [] a = refl
    kept (b ∷ p) a = kept p b
