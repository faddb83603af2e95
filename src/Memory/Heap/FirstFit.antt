-- ===== src/Memory/Heap/FirstFit.antt =====
-- `kmalloc` of src/kernel/memory/memory.c takes the first block that is large enough.
use amq_os.Memory.Heap.{Heap, header_size, min_block_size}
use amq_os.Prelude.{ℕ, ◌+◌, ◌≤◌, ◌≡◌, ◌≢◌, false, List, ◌∷◌, ◌++◌, leb, if◌then◌else◌, u64}
use amq_os.Memory.Heap.Walk.{Linked}

-- What follows block `a` in the list once `n` bytes of it are taken.
abbrev pub rest_of : Heap → ℕ → ℕ → List ℕ → List ℕ
rest_of h a n q =
    if leb (n + header_size + min_block_size) (h.blocks a).size
    then (a + header_size + n) ∷ q
    else q

-- `split_block` on a block of the list.
record Halved (h : Heap) (a n : ℕ) (q : List ℕ) (h' : Heap) : Type 0 where
  rest : Linked h' (h'.blocks a).next (rest_of h a n q) 0
  others : (i : ℕ) → i ≢ a → i ≢ a + header_size + n → h'.blocks i ≡ h.blocks i
  list : h'.heap_free_list ≡ h.heap_free_list
  used : h'.kernel_heap_used ≡ h.kernel_heap_used
  large : n ≤ (h'.blocks a).size

-- The heap once `n` bytes of block `a` are taken, which stood between `p` and `q`.
pub record IsTaken (h : Heap) (p : List ℕ) (a n : ℕ) (q : List ℕ) (h' : Heap) : Type 0 where
  pub list : Linked h' h'.heap_free_list (p ++ rest_of h a n q) 0
  pub in_use : (h'.blocks a).is_free ≡ false
  pub large : n ≤ (h'.blocks a).size
  pub used : h'.kernel_heap_used ≡ u64 (h.kernel_heap_used + (header_size + n))
