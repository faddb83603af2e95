-- ===== src/Scheduler/Links.antt =====
-- `ready_queue_add` and `ready_queue_remove` of src/kernel/Processes/scheduler.c against the list of
-- the waiting threads.
use amq_os.Prelude.{
  ℕ, zero, suc, ◌<◌, ◌≡◌, refl, sym, ◌∙◌, subst, ◌≢◌, inl, inr, false, Option, none, some, List, [],
  ◌∷◌, ◌++◌, arith, ◌==◌, if◌then◌else◌, Bool-cases, Option-cases, ==_iff, length, contains,
  Distinct, without, without-absent, append-Distinct,
}
use amq_os.Scheduler.{
  Sched, set_next, ptr_eq, link_last, ready_queue_add, unlink_after, remove_loop,
  max_threads_global,
}
use amq_os.Scheduler.Queue.{
  last?, Chain, IsQueue, OnlyLinks, Chain-ext, append-AllSmall, last?-append, contains-last?,
  Chain-append,
}

link_last-OnlyLinks :
    (s : Sched) (i : ℕ) (head tail : Option ℕ)
    → OnlyLinks s (link_last (set_next s i none) i head tail)
unfolding link_last
link_last-OnlyLinks s i none tail = record { thread = λ j. ground arith; rest = refl }
link_last-OnlyLinks s i (some h) none = record { thread = λ j. ground arith; rest = refl }
link_last-OnlyLinks s i (some h) (some t) = record { thread = λ j. ground arith; rest = refl }

pub ready_queue_add-OnlyLinks : (s : Sched) (i : ℕ) → OnlyLinks s (ready_queue_add s i)
unfolding ready_queue_add
ready_queue_add-OnlyLinks s i = link_last-OnlyLinks s i s.ready_queue_head s.ready_queue_tail

last?-ne-none : (k : ℕ) (q : List ℕ) → last? (k ∷ q) ≢ none
last?-ne-none k [] h = ground arith
last?-ne-none k (j ∷ q) h = last?-ne-none j q h

link_last-IsQueue :
    (s : Sched) (i : ℕ) (q : List ℕ) (head tail : Option ℕ)
    → s.ready_queue_head ≡ head
    → Chain s.thread_table head q
    → tail ≡ last? q
    → Distinct q
    → contains i q ≡ false
    → let s' = link_last (set_next s i none) i head tail in
      Chain s'.thread_table s'.ready_queue_head (q ++ i ∷ []) × (s'.ready_queue_tail ≡ some i)
unfolding link_last
link_last-IsQueue s i [] none tail e c l d a = ground arith
link_last-IsQueue s i [] (some h) tail e c l d a = absurd (ground arith)
link_last-IsQueue s i (k ∷ q) none tail e c l d a = absurd (ground arith)
link_last-IsQueue s i (k ∷ q) (some h) none e c l d a = absurd (last?-ne-none k q (sym l))
link_last-IsQueue s i (k ∷ q) (some h) (some t) e c l d a = (
  Chain-append s.thread_table (link_last (set_next s i none) i (some h) (some t)).thread_table
      s.ready_queue_head (k ∷ q) i t (sym l) d (ground (arith, contains-last? (k ∷ q) t (sym l)))
      (ground arith) (λ j m ne. ground arith)
      (subst (λ p. Chain s.thread_table p (k ∷ q)) (sym e) c),
  refl,
)

-- Adding a thread of the table that is not in the queue appends it, and changes nothing but links.
pub ready_queue_add_refines :
    (s : Sched) (q : List ℕ) (i : ℕ)
    → IsQueue s q
    → i < max_threads_global
    → contains i q ≡ false
    → IsQueue (ready_queue_add s i) (q ++ i ∷ []) × OnlyLinks s (ready_queue_add s i)
unfolding ready_queue_add
ready_queue_add_refines s q i v small absent =
    let both =
      link_last-IsQueue s i q s.ready_queue_head s.ready_queue_tail refl v.chain v.tail v.distinct
        absent in
    (
      record {
        chain = both.0;
        tail = both.1 ∙ sym (last?-append i q);
        distinct = append-Distinct i q absent v.distinct;
        small = append-AllSmall i q small v.small;
      },
      ready_queue_add-OnlyLinks s i,
    )

-- What the loop has done to the threads behind `c`.
pub record Removed (s : Sched) (i c : ℕ) (r : List ℕ) (s' : Sched) : Type 0 where
  pub chain : Chain s'.thread_table (s'.thread_table c).next (without i r)
  pub tail : s'.ready_queue_tail ≡ last? (c ∷ without i r)
  pub head : s'.ready_queue_head ≡ s.ready_queue_head
  pub before :
      (j : ℕ)
      → j ≢ i
      → contains j (c ∷ r) ≡ false
      → (s'.thread_table j).next ≡ (s.thread_table j).next

without-head : (i : ℕ) (r : List ℕ) → without i (i ∷ r) ≡ without i r
without-head i r = ground arith

-- The last of the threads, when `i` is taken out between `c` and the others.
new_tail :
    (i c : ℕ) (r : List ℕ)
    → contains i r ≡ false
    → (if ptr_eq (last? (i ∷ r)) (some i) then some c else last? (i ∷ r)) ≡ last? (c ∷ r)
new_tail i c [] h = ground arith
new_tail i c (j ∷ r) h = elim (Option-cases (last? (j ∷ r))) [
  | inl e ↦ absurd (last?-ne-none j r e)
  | inr (t, e) ↦ ground (arith, contains-last? (j ∷ r) t e)
]

unlink_after-Removed :
    (s : Sched) (i c : ℕ) (r : List ℕ)
    → i ≢ c
    → contains c r ≡ false
    → contains i r ≡ false
    → s.ready_queue_tail ≡ last? (i ∷ r)
    → Chain s.thread_table (s.thread_table i).next r
    → Removed s i c (i ∷ r) (unlink_after s i c)
unfolding unlink_after
unlink_after-Removed s i c r ne nc ni l ch = record {
  chain =
      rw (without-head i r, without-absent i r ni)
        (Chain-ext s.thread_table (unlink_after s i c).thread_table
          ((unlink_after s i c).thread_table c).next r (λ j m. ground arith) (ground (arith, ch)));
  tail = rw (without-head i r, without-absent i r ni) (ground (arith, new_tail i c r ni));
  head = refl;
  before = λ j k h. ground arith;
}

-- The step over a thread that stays.
skip-Removed :
    (s s' : Sched) (i c n : ℕ) (r : List ℕ)
    → (n == i) ≡ false
    → i ≢ c
    → contains c (n ∷ r) ≡ false
    → (s.thread_table c).next ≡ some n
    → Removed s i n r s'
    → Removed s i c (n ∷ r) s'
skip-Removed s s' i c n r e ne nc ch v = record {
  chain = rw e (v.before c (λ p. ne (sym p)) nc ∙ ch, v.chain);
  tail = rw e v.tail;
  head = v.head;
  before = λ j k h. v.before j k (ground arith);
}

pub remove_loop-Removed :
    (fuel : ℕ) (s : Sched) (i c : ℕ) (r : List ℕ)
    → length r < fuel
    → i ≢ c
    → Distinct (c ∷ r)
    → s.ready_queue_tail ≡ last? (c ∷ r)
    → Chain s.thread_table (s.thread_table c).next r
    → Removed s i c r (remove_loop fuel s i c (s.thread_table c).next)
unfolding remove_loop
remove_loop-Removed zero s i c r enough ne d l ch = absurd (omega arith)
remove_loop-Removed (suc fuel) s i c [] enough ne d l ch =
    rw ch (record { chain = ch; tail = l; head = refl; before = λ j k h. refl })
remove_loop-Removed (suc fuel) s i c (n ∷ r) enough ne d l ch =
    rw ch.0 (elim (Bool-cases (n == i)) [
      | inl e ↦ rw e (
          rw ((==_iff n i).0 e) (
            unlink_after-Removed s i c r ne (ground arith) (ground arith) (ground arith)
              (ground (arith, ch.1))))
      | inr e ↦ rw e (
          skip-Removed s _ i c n r e ne d.0 ch.0
            (remove_loop-Removed fuel s i n r (omega arith) (ground arith) d.1 l ch.1))
    ])
