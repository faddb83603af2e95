-- ===== src/Scheduler/Unlink.antt =====
-- `ready_queue_remove` of src/kernel/Processes/scheduler.c against the list of the waiting threads.
use amq_os.Prelude.{
  ℕ, zero, suc, ◌≡◌, refl, ◌∙◌, subst, inl, inr, false, Option, none, some, List, [], ◌∷◌, arith,
  ◌==◌, if◌then◌else◌, Bool-cases, Option-cases, ==_iff, contains, without, without-absent,
  without-Distinct,
}
use amq_os.Scheduler.{
  Sched, set_next, ptr_eq, unlink_after, remove_loop, remove_from, ready_queue_remove,
  max_threads_global,
}
use amq_os.Scheduler.Queue.{
  last?, Chain, IsQueue, OnlyLinks, Chain-ext, without-AllSmall, contains-last?,
}
use amq_os.Scheduler.Links.{remove_loop-Removed}
use amq_os.Scheduler.Bounds.{length-le_table}

remove_loop-OnlyLinks :
    (fuel : ℕ) (s : Sched) (i c : ℕ) (next : Option ℕ) → OnlyLinks s (remove_loop fuel s i c next)
unfolding remove_loop unlink_after
remove_loop-OnlyLinks zero s i c next = record { thread = λ j. refl; rest = refl }
remove_loop-OnlyLinks (suc fuel) s i c none = record { thread = λ j. refl; rest = refl }
remove_loop-OnlyLinks (suc fuel) s i c (some n) = elim (Bool-cases (n == i)) [
  | inl e ↦ rw e (record { thread = λ j. ground arith; rest = refl })
  | inr e ↦ rw e (remove_loop-OnlyLinks fuel s i n (s.thread_table n).next)
]

remove_from-OnlyLinks : (s : Sched) (i : ℕ) (head : Option ℕ) → OnlyLinks s (remove_from s i head)
unfolding remove_from
remove_from-OnlyLinks s i none = record { thread = λ j. refl; rest = refl }
remove_from-OnlyLinks s i (some h) = elim (Bool-cases (h == i)) [
  | inl e ↦ rw e (record { thread = λ j. ground arith; rest = refl })
  | inr e ↦ rw e (remove_loop-OnlyLinks max_threads_global s i h (s.thread_table h).next)
]

-- The last of the threads, when the first is taken off.
pub tail_behind_first :
    (i : ℕ) (q : List ℕ)
    → contains i q ≡ false
    → (if ptr_eq (last? (i ∷ q)) (some i) then none else last? (i ∷ q)) ≡ last? q
tail_behind_first i [] h = ground arith
tail_behind_first i (j ∷ q) h = elim (Option-cases (last? (j ∷ q))) [
  | inl e ↦ rw e
  | inr (t, e) ↦ ground (arith, contains-last? (j ∷ q) t e)
]

abbrev unlink_first : Sched → ℕ → Sched
unlink_first s i =
    set_next
      (record s {
        ready_queue_head = (s.thread_table i).next;
        ready_queue_tail = if ptr_eq s.ready_queue_tail (some i) then none else s.ready_queue_tail;
      })
      i none

remove_first :
    (s : Sched) (i k : ℕ) (q : List ℕ)
    → k ≡ i
    → IsQueue s (k ∷ q)
    → Chain (unlink_first s i).thread_table (s.thread_table i).next (without i q)
      × ((if ptr_eq s.ready_queue_tail (some i) then none else s.ready_queue_tail)
          ≡ last? (without i q))
remove_first s i k q e v =
    let absent : contains i q ≡ false = ground (arith, v.distinct) in
    rw (without-absent i q absent) (
      Chain-ext s.thread_table (unlink_first s i).thread_table (s.thread_table i).next q
          (λ j m. ground arith)
          (subst (λ n. Chain s.thread_table (s.thread_table n).next q) e v.chain.1),
      ground (arith, v.tail, tail_behind_first i q absent),
    )

remove_later :
    (s : Sched) (i k : ℕ) (q : List ℕ)
    → (k == i) ≡ false
    → IsQueue s (k ∷ q)
    → let s' = remove_loop max_threads_global s i k (s.thread_table k).next in
      Chain s'.thread_table s'.ready_queue_head (k ∷ without i q)
      × (s'.ready_queue_tail ≡ last? (k ∷ without i q))
remove_later s i k q e v =
    let done =
      remove_loop-Removed max_threads_global s i k q
        (omega (arith, length-le_table (k ∷ q) v.distinct v.small)) (ground arith) v.distinct v.tail
        v.chain.1 in
    ((done.head ∙ v.chain.0, done.chain), done.tail)

remove_from-IsQueue :
    (s : Sched) (i : ℕ) (q : List ℕ) (head : Option ℕ)
    → s.ready_queue_head ≡ head
    → IsQueue s q
    → let s' = remove_from s i head in
      Chain s'.thread_table s'.ready_queue_head (without i q)
      × (s'.ready_queue_tail ≡ last? (without i q))
unfolding remove_from
remove_from-IsQueue s i [] none e v = (e, v.tail)
remove_from-IsQueue s i [] (some h) e v = absurd (ground (arith, v.chain))
remove_from-IsQueue s i (k ∷ q) none e v = absurd (ground (arith, v.chain))
remove_from-IsQueue s i (k ∷ q) (some h) e v =
    let hk : h ≡ k = ground (arith, v.chain) in
    rw hk (elim (Bool-cases (k == i)) [
      | inl p ↦ rw p (remove_first s i k q ((==_iff k i).0 p) v)
      | inr p ↦ rw p (remove_later s i k q p v)
    ])

-- Removing a thread from a well-formed queue takes it out, wherever it stands in it, and changes
-- nothing but links; the other threads keep their order.
pub ready_queue_remove_refines :
    (s : Sched) (q : List ℕ) (i : ℕ)
    → IsQueue s q
    → IsQueue (ready_queue_remove s i) (without i q) × OnlyLinks s (ready_queue_remove s i)
unfolding ready_queue_remove
ready_queue_remove_refines s q i v =
    let both = remove_from-IsQueue s i q s.ready_queue_head refl v in
    (
      record {
        chain = both.0;
        tail = both.1;
        distinct = without-Distinct i q v.distinct;
        small = without-AllSmall i q v.small;
      },
      remove_from-OnlyLinks s i s.ready_queue_head,
    )
