-- ===== src/Scheduler/Choice.antt =====
-- `schedule` of src/kernel/Processes/scheduler.c: round robin over the ready queue.
use amq_os.Prelude.{
  ℕ, ◌≡◌, refl, ◌≢◌, inl, inr, true, false, Option, none, some, List, [], ◌∷◌, ◌++◌, arith,
  if◌then◌else◌, Bool-cases, contains, contains-append,
}
use amq_os.Scheduler.{Sched, ready, running, set_state, state_eq, ready_queue_add, requeue}
use amq_os.Scheduler.Queue.{IsQueue}
use amq_os.Scheduler.Links.{ready_queue_add_refines}
use amq_os.Scheduler.Invariant.{
  IsSound, state_eq_iff, OnlyLinks-state, OnlyLinks-used, OnlyLinks-current, IsQueue-ext,
}

-- The queue after a running current thread has gone to its end.
unfoldable pub queue_with : Sched → Option ℕ → List ℕ → List ℕ
queue_with s none q = q
queue_with s (some p) q = if state_eq (s.thread_table p).state running then q ++ p ∷ [] else q

-- What `requeue` leaves: as `IsSound`, and no thread runs.
pub record IsPaused (s s' : Sched) (w : List ℕ) : Type 0 where
  pub queue : IsQueue s' w
  pub waiting : (j : ℕ) → contains j w ≡ true → (s'.thread_table j).state ≡ ready
  pub used : (j : ℕ) → (s'.thread_table j).used ≡ (s.thread_table j).used
  pub waiting_used : (j : ℕ) → contains j w ≡ true → (s'.thread_table j).used ≡ true
  pub idle : (j : ℕ) → (s'.thread_table j).state ≢ running
  pub kept :
      (j : ℕ)
      → (s.thread_table j).state ≢ running
      → (s'.thread_table j).state ≡ (s.thread_table j).state
  pub current : s'.current_thread ≡ s.current_thread

requeue_running-IsPaused :
    (s : Sched) (q : List ℕ) (p : ℕ)
    → IsSound s q
    → s.current_thread ≡ some p
    → (s.thread_table p).state ≡ running
    → IsPaused s
        (ready_queue_add (set_state (record s { in_scheduler = true }) p ready) p)
        (q ++ p ∷ [])
requeue_running-IsPaused s q p v c r =
    let s1 : Sched = set_state (record s { in_scheduler = true }) p ready in
    let absent : contains p q ≡ false = ground (arith, v.waiting p) in
    let done =
      ready_queue_add_refines s1 q p (IsQueue-ext s s1 q (λ j. ground arith) refl refl v.queue)
        (v.current_small p c) absent in
    record {
      queue = done.0;
      waiting = λ j m. ground (arith, OnlyLinks-state done.1 j, contains-append j p q, v.waiting j);
      used = λ j. ground (arith, OnlyLinks-used done.1 j);
      waiting_used = λ j m. ground (
        arith,
        OnlyLinks-used done.1 j,
        contains-append j p q,
        v.waiting_used j,
        v.current_used p c,
      );
      idle = λ j m. ground (arith, OnlyLinks-state done.1 j, v.only_current j);
      kept = λ j m. ground (arith, OnlyLinks-state done.1 j);
      current = OnlyLinks-current done.1;
    }

pub requeue-IsPaused :
    (s : Sched) (q : List ℕ) (prev : Option ℕ)
    → IsSound s q
    → s.current_thread ≡ prev
    → IsPaused s (requeue (record s { in_scheduler = true }) prev) (queue_with s prev q)
unfolding requeue queue_with
requeue-IsPaused s q none v c = record {
  queue = IsQueue-ext s _ q (λ j. refl) refl refl v.queue;
  waiting = v.waiting;
  used = λ j. refl;
  waiting_used = v.waiting_used;
  idle = λ j m. ground (arith, v.only_current j);
  kept = λ j m. refl;
  current = refl;
}
requeue-IsPaused s q (some p) v c = elim (Bool-cases (state_eq (s.thread_table p).state running)) [
  | inl e ↦ rw e (requeue_running-IsPaused s q p v c (state_eq_iff _ _ e))
  | inr e ↦ rw e (record {
    queue = IsQueue-ext s (record s { in_scheduler = true }) q (λ j. refl) refl refl v.queue;
    waiting = v.waiting;
    used = λ j. refl;
    waiting_used = v.waiting_used;
    idle = λ j m. ground (arith, v.only_current j);
    kept = λ j m. refl;
    current = refl;
  })
]
