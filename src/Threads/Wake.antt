-- ===== src/Threads/Wake.antt =====
-- Blocking and waking a thread, src/kernel/Processes/scheduler.c.
use amq_os.Prelude.{
  ℕ, ◌<◌, ◌≡◌, refl, ◌≢◌, inl, inr, true, false, ◌&&◌, some, List, [], ◌∷◌, ◌++◌, arith, ◌==◌,
  Bool-cases, Option-cases, scan-some, contains, without, contains-append,
}
use amq_os.Scheduler.{
  Sched, ready, blocked, max_threads_global, set_state, state_eq, ptr_eq, get_thread,
  ready_queue_add, ready_queue_remove,
}
use amq_os.Scheduler.Links.{ready_queue_add_refines}
use amq_os.Scheduler.Unlink.{ready_queue_remove_refines}
use amq_os.Scheduler.Invariant.{
  IsSound, state_eq_iff, OnlyLinks-state, OnlyLinks-used, OnlyLinks-current, IsQueue-ext,
}
use amq_os.Scheduler.Preserve.{Sound, schedule-Sound}
use amq_os.Threads.{block_slot, thread_block, thread_unblock}

-- What a lookup by tid finds is a slot of the table that is in use and has the tid.
pub get_thread-some :
    (s : Sched) (tid i : ℕ)
    → get_thread s tid ≡ some i
    → (i < max_threads_global) × ((s.thread_table i).used ≡ true) × ((s.thread_table i).tid ≡ tid)
unfolding get_thread
get_thread-some s tid i e =
    let found =
      scan-some (λ j. (s.thread_table j).used && (s.thread_table j).tid == tid) 0 max_threads_global
        i e in
    ground (arith, found)

contains-without_sub :
    (i j : ℕ) (q : List ℕ) → contains j (without i q) ≡ true → (contains j q ≡ true) × (j ≢ i)
contains-without_sub i j [] h = absurd (ground arith)
contains-without_sub i j (k ∷ q) h = ground (arith, contains-without_sub i j q)

-- Blocking, before the switch to another thread: the thread leaves the queue.
abbrev pub set_blocked : Sched → ℕ → Sched
set_blocked s i = ready_queue_remove (set_state s i blocked) i

pub set_blocked-IsSound :
    (s : Sched) (q : List ℕ) (i : ℕ) → IsSound s q → IsSound (set_blocked s i) (without i q)
set_blocked-IsSound s q i v =
    let s1 : Sched = set_state s i blocked in
    let done =
      ready_queue_remove_refines s1 q i
        (IsQueue-ext s s1 q (λ j. ground arith) refl refl v.queue) in
    record {
      queue = done.0;
      waiting = λ j m.
          ground (arith, OnlyLinks-state done.1 j, contains-without_sub i j q m, v.waiting j);
      waiting_used = λ j m.
          ground (arith, OnlyLinks-used done.1 j, contains-without_sub i j q m, v.waiting_used j);
      only_current = λ j m.
          ground (arith, OnlyLinks-state done.1 j, OnlyLinks-current done.1, v.only_current j);
      current_small = λ c e. ground (arith, OnlyLinks-current done.1, v.current_small c);
      current_used = λ c e.
          ground (arith, OnlyLinks-current done.1, OnlyLinks-used done.1 c, v.current_used c);
    }

block_slot-Sound : (s : Sched) (i : ℕ) → Sound s → Sound (block_slot s i).1
unfolding block_slot
block_slot-Sound s i (q, v) = elim (Bool-cases (state_eq (s.thread_table i).state blocked)) [
  | inl e ↦ rw e (q, v)
  | inr e ↦ rw e (elim (Bool-cases (ptr_eq (some i) (set_blocked s i).current_thread)) [
    | inl p ↦ rw p (schedule-Sound (set_blocked s i) (without i q, set_blocked-IsSound s q i v))
    | inr p ↦ rw p (without i q, set_blocked-IsSound s q i v)
  ])
]

-- `thread_block` keeps the invariant, also where it switches to another thread.
pub thread_block-Sound : (s : Sched) (tid : ℕ) → Sound s → Sound (thread_block s tid).1
unfolding thread_block
thread_block-Sound s tid v = elim (Option-cases (get_thread s tid)) [
  | inl e ↦ rw (e, thread_block) v
  | inr (i, e) ↦ rw (e, thread_block) (block_slot-Sound s i v)
]

-- Waking a blocked thread puts it at the end of the queue.
pub unblock_slot-IsSound :
    (s : Sched) (q : List ℕ) (i : ℕ)
    → IsSound s q
    → i < max_threads_global
    → (s.thread_table i).used ≡ true
    → (s.thread_table i).state ≡ blocked
    → IsSound (ready_queue_add (set_state s i ready) i) (q ++ i ∷ [])
unblock_slot-IsSound s q i v small u b =
    let s1 : Sched = set_state s i ready in
    let absent : contains i q ≡ false = ground (arith, v.waiting i) in
    let done =
      ready_queue_add_refines s1 q i (IsQueue-ext s s1 q (λ j. ground arith) refl refl v.queue)
        small absent in
    record {
      queue = done.0;
      waiting = λ j m. ground (arith, OnlyLinks-state done.1 j, contains-append j i q, v.waiting j);
      waiting_used =
          λ j m. ground (arith, OnlyLinks-used done.1 j, contains-append j i q, v.waiting_used j);
      only_current = λ j m.
          ground (arith, OnlyLinks-state done.1 j, OnlyLinks-current done.1, v.only_current j);
      current_small = λ c e. ground (arith, OnlyLinks-current done.1, v.current_small c);
      current_used = λ c e.
          ground (arith, OnlyLinks-current done.1, OnlyLinks-used done.1 c, v.current_used c);
    }

-- `thread_unblock` keeps the invariant.
pub thread_unblock-Sound : (s : Sched) (tid : ℕ) → Sound s → Sound (thread_unblock s tid)
unfolding thread_unblock
thread_unblock-Sound s tid (q, v) = elim (Option-cases (get_thread s tid)) [
  | inl e ↦ rw (e, thread_unblock) (q, v)
  | inr (i, e) ↦
      rw (e, thread_unblock)
        (elim (Bool-cases (state_eq (s.thread_table i).state blocked)) [
          | inr r ↦ rw r (q, v)
          | inl b ↦ rw b (
            q ++ i ∷ [],
            unblock_slot-IsSound s q i v (get_thread-some s tid i e).0 (get_thread-some s tid i e).1
                (state_eq_iff _ _ b),
          )
        ])
]
