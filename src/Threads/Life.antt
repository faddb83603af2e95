-- ===== src/Threads/Life.antt =====
-- Making and ending a thread, src/kernel/Processes/scheduler.c.
use amq_os.Prelude.{
  ℕ, ◌<◌, ◌≡◌, refl, sym, ap, ◌∙◌, subst, inl, inr, false, not, ◌&&◌, Option, none, some, List, [],
  ◌∷◌, ◌++◌, arith, leb, ◌==◌, Bool-cases, Option-cases, scan-some, contains, contains-append,
}
use amq_os.Scheduler.{
  Sched, max_threads_global, ptr_eq, ready_queue_add, find_free_thread_slot, terminated, running,
  schedule,
}
use amq_os.Scheduler.Queue.{IsQueue, Chain-ext}
use amq_os.Scheduler.Links.{ready_queue_add_refines}
use amq_os.Scheduler.Invariant.{
  IsSound, OnlyLinks-state, OnlyLinks-used, OnlyLinks-current, IsQueue-ext,
}
use amq_os.Scheduler.Preserve.{Sound, schedule-Sound}
use amq_os.Scheduler.{Outcome, returned, started, switched, halted, stopped}
use amq_os.Threads.{
  free_stack, detach_parent, no_return, exit_of, Params, fill_slot, start_if_idle, create_in,
  retire, thread_create, free_stack, get_process, max_threads_per_process, set_thread, thread_exit,
}

-- A free slot is not in the queue, and filling it leaves the queue as it is.
fill_slot-IsQueue :
    (w : ℕ) (s : Sched) (q : List ℕ) (i p entry : ℕ) (k : Params) (base : ℕ)
    → IsQueue s q
    → contains i q ≡ false
    → IsQueue (fill_slot w s i p entry k base) q
unfolding fill_slot
fill_slot-IsQueue w s q i p entry k base v absent = record {
  chain =
      Chain-ext s.thread_table (fill_slot w s i p entry k base).thread_table s.ready_queue_head q
        (λ j m. ground arith) v.chain;
  tail = v.tail;
  distinct = v.distinct;
  small = v.small;
}

-- Filling a free slot and putting it into the queue keeps the invariant.
pub fill_slot-IsSound :
    (w : ℕ) (s : Sched) (q : List ℕ) (i p entry : ℕ) (k : Params) (base : ℕ)
    → IsSound s q
    → i < max_threads_global
    → (s.thread_table i).used ≡ false
    → IsSound (ready_queue_add (fill_slot w s i p entry k base) i) (q ++ i ∷ [])
unfolding fill_slot
fill_slot-IsSound w s q i p entry k base v small u =
    let absent : contains i q ≡ false = ground (arith, v.waiting_used i) in
    let done =
      ready_queue_add_refines (fill_slot w s i p entry k base) q i
        (fill_slot-IsQueue w s q i p entry k base v.queue absent) small absent in
    record {
      queue = done.0;
      waiting = λ j m. ground (arith, OnlyLinks-state done.1 j, contains-append j i q, v.waiting j);
      waiting_used =
          λ j m. ground (arith, OnlyLinks-used done.1 j, contains-append j i q, v.waiting_used j);
      only_current = λ j m.
          ground (arith, OnlyLinks-state done.1 j, OnlyLinks-current done.1, v.only_current j);
      current_small = λ c e. ground (arith, OnlyLinks-current done.1, v.current_small c);
      current_used = λ c e.
          ground (arith, OnlyLinks-current done.1, OnlyLinks-used done.1 c, v.current_used c);
    }

start_if_idle-Sound : (s : Sched) → Sound s → Sound (start_if_idle s).1
unfolding start_if_idle
start_if_idle-Sound s v = elim (Bool-cases (s.scheduler_enabled && ptr_eq s.current_thread none)) [
  | inl e ↦ rw e (schedule-Sound s v)
  | inr e ↦ rw e v
]

create_in-Sound :
    (w : ℕ) (s : Sched) (i p entry : ℕ) (k : Params) (alloc : Option ℕ)
    → Sound s
    → i < max_threads_global
    → (s.thread_table i).used ≡ false
    → Sound (create_in w s i p entry k alloc).2
unfolding create_in
create_in-Sound w s i p entry k (some base) (q, v) small u =
    start_if_idle-Sound _ (q ++ i ∷ [], fill_slot-IsSound w s q i p entry k base v small u)
create_in-Sound w s i p entry k none (q, v) small u = (
  q,
  record {
    queue = IsQueue-ext s _ q (λ j. ground arith) refl refl v.queue;
    waiting = λ j m. ground (arith, v.waiting j);
    waiting_used = λ j m. ground (arith, v.waiting_used j);
    only_current = λ j m. ground (arith, v.only_current j);
    current_small = v.current_small;
    current_used = λ c e. ground (arith, v.current_used c);
  },
)

-- The slot that `thread_create` takes is a free one of the table.
free_slot :
    (s : Sched) (i : ℕ)
    → find_free_thread_slot s ≡ some i
    → (i < max_threads_global) × ((s.thread_table i).used ≡ false)
unfolding find_free_thread_slot
free_slot s i e =
    ground (arith, scan-some (λ j. not (s.thread_table j).used) 0 max_threads_global i e)

-- `thread_create` keeps the invariant on every path, the failing ones and the start of the new
-- thread on an idle processor included.
pub thread_create-Sound :
    (w : ℕ) (s : Sched) (pid entry : ℕ) (k : Params) (alloc : Option ℕ)
    → Sound s
    → Sound (thread_create w s pid entry k alloc).2
unfolding thread_create
thread_create-Sound w s pid entry k alloc v = elim (Bool-cases (entry == 0)) [
  | inl e ↦ rw e v
  | inr e ↦ rw e (elim (Option-cases (get_process s.processes pid)) [
    | inl g ↦ rw g v
    | inr (p, g) ↦
        rw g (elim (Bool-cases (leb max_threads_per_process (s.processes.table p).thread_count)) [
          | inl f ↦ rw f v
          | inr f ↦ rw f (elim (Option-cases (find_free_thread_slot s)) [
            | inl n ↦ rw n v
            | inr (i, n) ↦
                rw n
                  (create_in-Sound w s i p entry k alloc v (free_slot s i n).0 (free_slot s i n).1)
          ])
        ])
  ])
]

-- The thread table and the queue are the same.
record SameThreads (s s' : Sched) : Type 0 where
  table : s'.thread_table ≡ s.thread_table
  head : s'.ready_queue_head ≡ s.ready_queue_head
  tail : s'.ready_queue_tail ≡ s.ready_queue_tail

free_stack-SameThreads : (s : Sched) (b : Option ℕ) → SameThreads s (free_stack s b)
free_stack-SameThreads s none = record { table = refl; head = refl; tail = refl }
free_stack-SameThreads s (some b) = record { table = refl; head = refl; tail = refl }

detach_parent-SameThreads : (s : Sched) (i : ℕ) (p : Option ℕ) → SameThreads s (detach_parent s i p)
detach_parent-SameThreads s i none = record { table = refl; head = refl; tail = refl }
detach_parent-SameThreads s i (some p) = record { table = refl; head = refl; tail = refl }

abbrev dead : Sched → ℕ → Sched
dead s i =
    set_thread s i
      (record (s.thread_table i) { state = terminated; used = false; stack_base = none })

abbrev freed_dead : Sched → ℕ → Sched
freed_dead s i = free_stack (dead s i) (s.thread_table i).stack_base

retire-SameThreads : (s : Sched) (i : ℕ) → SameThreads (dead s i) (retire s i)
unfolding retire
retire-SameThreads s i =
    let a = free_stack-SameThreads (dead s i) (s.thread_table i).stack_base in
    let b = detach_parent-SameThreads (freed_dead s i) i (s.thread_table i).parent in
    record { table = b.table ∙ a.table; head = b.head ∙ a.head; tail = b.tail ∙ a.tail }

-- After the current thread has been retired, the queue is as before, and there is no current thread.
retire-IsSound :
    (s : Sched) (q : List ℕ) (i : ℕ)
    → IsSound s q
    → s.current_thread ≡ some i
    → (s.thread_table i).state ≡ running
    → IsSound (retire s i) q
unfolding retire
retire-IsSound s q i v c r =
    let same = retire-SameThreads s i in
    let absent : contains i q ≡ false = ground (arith, v.waiting i) in
    let at : (j : ℕ) → (retire s i).thread_table j ≡ (dead s i).thread_table j =
      λ j. ap (λ t. t j) same.table in
    record {
      queue = IsQueue-ext s (retire s i) q (λ j. ground (arith, at j)) same.head same.tail v.queue;
      waiting = λ j m. ground (arith, at j, v.waiting j);
      waiting_used = λ j m. ground (arith, at j, v.waiting_used j);
      only_current = λ j m. ground (arith, at j, v.only_current j);
      current_small = λ k h. absurd (ground (arith, retire-current s i));
      current_used = λ k h. absurd (ground (arith, retire-current s i));
    }
  where
    retire-current : (s : Sched) (i : ℕ) → (retire s i).current_thread ≡ none
    retire-current s i = refl

no_return-state : (r : Outcome × Sched) → (no_return r).1 ≡ r.1
no_return-state (returned, s) = refl
no_return-state (started n, s) = refl
no_return-state (switched p n, s) = refl
no_return-state (halted, s) = refl
no_return-state (stopped, s) = refl

exit_of-Sound :
    (s : Sched) (c : Option ℕ)
    → Sound s
    → s.current_thread ≡ c
    → ((i : ℕ) → s.current_thread ≡ some i → (s.thread_table i).state ≡ running)
    → Sound (exit_of s c).1
exit_of-Sound s none v e r = v
exit_of-Sound s (some i) (q, v) e r =
    subst Sound (sym (no_return-state (schedule (retire s i))))
      (schedule-Sound (retire s i) (q, retire-IsSound s q i v e (r i e)))

-- `thread_exit`, called by the running thread, keeps the invariant.
pub thread_exit-Sound :
    (s : Sched)
    → Sound s
    → ((i : ℕ) → s.current_thread ≡ some i → (s.thread_table i).state ≡ running)
    → Sound (thread_exit s).1
unfolding thread_exit
thread_exit-Sound s v r = exit_of-Sound s s.current_thread v refl r
