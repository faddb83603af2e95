-- ===== src/Threads/Reach.antt =====
-- Every history of the calls of src/kernel/Processes/scheduler.c keeps the invariant of the scheduler.
use amq_os.Prelude.{
  ℕ, ◌≤◌, ◌≡◌, refl, ◌≢◌, Bool, true, false, not, ◌&&◌, Option, none, some, List, [], arith,
  if◌then◌else◌, contains,
}
use amq_os.Scheduler.{
  Outcome, Sched, ready, running, ptr_eq, max_threads_global, schedule_after_hlt, scheduler_init,
}
use amq_os.Scheduler.Queue.{IsQueue}
use amq_os.Scheduler.Invariant.{IsSound, IsQueue-ext}
use amq_os.Scheduler.Preserve.{Sound, schedule-Sound}
use amq_os.Threads.{
  Params, thread_create, thread_block, thread_unblock, thread_exit, thread_yield, scheduler_tick,
  scheduler_enable, scheduler_disable,
}
use amq_os.Threads.Wake.{thread_block-Sound, thread_unblock-Sound}
use amq_os.Threads.Life.{thread_create-Sound, thread_exit-Sound}

-- One call, by the running thread or from an interrupt. `thread_exit` is called only while the current
-- thread is running: a thread that has blocked itself while the scheduler is disabled goes on, and may
-- not exit before it runs again.
pub data Step (s : Sched) : Sched → Type 0 where
  create :
      (w pid entry : ℕ) (k : Params) (alloc : Option ℕ)
      → Step s (thread_create w s pid entry k alloc).2
  block : (tid : ℕ) → Step s (thread_block s tid).1
  unblock : (tid : ℕ) → Step s (thread_unblock s tid)
  exit :
      ((i : ℕ) → s.current_thread ≡ some i → (s.thread_table i).state ≡ running)
      → Step s (thread_exit s).1
  yield : Step s (thread_yield s).1
  tick : Step s (scheduler_tick s).1
  enable : Step s (scheduler_enable s).1
  disable : Step s (scheduler_disable s)
  wake : Step s (schedule_after_hlt s).1

pub data Reach (s : Sched) : Sched → Type 0 where
  here : Reach s s
  next : {t u : Sched} → Reach s t → Step t u → Reach s u

-- The flags are no part of the invariant.
flags-Sound :
    (s : Sched) (on busy : Bool)
    → Sound s
    → Sound (record s { scheduler_enabled = on; in_scheduler = busy })
flags-Sound s on busy (q, v) = (
  q,
  record {
    queue = IsQueue-ext s _ q (λ j. refl) refl refl v.queue;
    waiting = v.waiting;
    waiting_used = v.waiting_used;
    only_current = v.only_current;
    current_small = v.current_small;
    current_used = v.current_used;
  },
)

if-Sound : (b : Bool) (x y : Outcome × Sched) → Sound x.1 → Sound y.1 → Sound (if b then x else y).1
if-Sound true x y v w = v
if-Sound false x y v w = w

thread_yield-Sound : (s : Sched) → Sound s → Sound (thread_yield s).1
unfolding thread_yield
thread_yield-Sound s v = if-Sound (not s.scheduler_enabled) _ _ v (
    if-Sound (ptr_eq s.current_thread none) _ _
      (if-Sound (ptr_eq s.ready_queue_head none) _ _ v (schedule-Sound s v)) (schedule-Sound s v))

scheduler_tick-Sound : (s : Sched) → Sound s → Sound (scheduler_tick s).1
unfolding scheduler_tick
scheduler_tick-Sound s v = if-Sound (not s.scheduler_enabled) _ _ v (
    if-Sound s.in_scheduler _ _ v
      (if-Sound (ptr_eq s.ready_queue_head none) _ _ v (schedule-Sound s v)))

scheduler_enable-Sound : (s : Sched) → Sound s → Sound (scheduler_enable s).1
unfolding scheduler_enable
scheduler_enable-Sound s v =
    let v' = flags-Sound s true s.in_scheduler v in
    if-Sound (ptr_eq s.current_thread none && not (ptr_eq s.ready_queue_head none)) _ _
      (schedule-Sound _ v') v'

Step-Sound : {s t : Sched} → Step s t → Sound s → Sound t
unfolding scheduler_disable schedule_after_hlt
Step-Sound {s} (create w pid entry k alloc) v = thread_create-Sound w s pid entry k alloc v
Step-Sound {s} (block tid) v = thread_block-Sound s tid v
Step-Sound {s} (unblock tid) v = thread_unblock-Sound s tid v
Step-Sound {s} (exit r) v = thread_exit-Sound s v r
Step-Sound {s} yield v = thread_yield-Sound s v
Step-Sound {s} tick v = scheduler_tick-Sound s v
Step-Sound {s} enable v = scheduler_enable-Sound s v
Step-Sound {s} disable v = flags-Sound s false s.in_scheduler v
Step-Sound {s} wake v = schedule-Sound _ (flags-Sound s s.scheduler_enabled false v)

Reach-Sound : {s t : Sched} → Reach s t → Sound s → Sound t
Reach-Sound here v = v
Reach-Sound (next r st) v = Step-Sound st (Reach-Sound r v)

-- `scheduler_init` sets the invariant up: nothing waits and nothing runs, whatever was in the table.
scheduler_init-IsSound :
    (s : Sched)
    → ((j : ℕ) → max_threads_global ≤ j → (s.thread_table j).state ≢ running)
    → IsSound (scheduler_init s) []
unfolding scheduler_init
scheduler_init-IsSound s outside = record {
  queue = record { chain = refl; tail = refl; distinct = tt; small = tt };
  waiting = λ j m. absurd (ground arith);
  waiting_used = λ j m. absurd (ground arith);
  only_current = λ j m. absurd (ground (arith, outside j));
  current_small = λ c e. absurd (ground arith);
  current_used = λ c e. absurd (ground arith);
}

-- From a table with no running thread outside its 256 slots, after `scheduler_init` and any sequence
-- of calls in which `thread_exit` is called only while the current thread is running, at most one thread is running, and it is the current one; the queue is a list of distinct
-- threads in the table, all ready and in use.
pub at_most_one_running :
    (s : Sched) {t : Sched}
    → ((j : ℕ) → max_threads_global ≤ j → (s.thread_table j).state ≢ running)
    → Reach (scheduler_init s) t
    → (q : List ℕ) × IsQueue t q
      × ((i j : ℕ)
          → (t.thread_table i).state ≡ running
          → (t.thread_table j).state ≡ running
          → (i ≡ j) × (t.current_thread ≡ some i))
      × ((j : ℕ)
          → contains j q ≡ true
          → ((t.thread_table j).state ≡ ready) × ((t.thread_table j).used ≡ true))
at_most_one_running s outside r =
    let (q, v) = Reach-Sound r ([], scheduler_init-IsSound s outside) in
    (
      q,
      v.queue,
      λ i j a b. (ground (arith, v.only_current i a, v.only_current j b), v.only_current i a),
      λ j m. (v.waiting j m, v.waiting_used j m),
    )
