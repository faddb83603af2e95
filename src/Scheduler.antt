-- ===== src/Scheduler.antt =====
-- src/kernel/Processes/scheduler.c and includes/process.h: threads, the ready queue and the choice of
-- the next thread. Messages on the screen are left out.
pub mod Queue
pub mod Bounds
pub mod Links
pub mod Unlink
pub mod Invariant
pub mod Choice
pub mod RoundRobin
pub mod Idle
pub mod Preserve
use amq_os.Prelude.{
  ℕ, zero, suc, ◌+◌, Bool, true, false, not, ◌&&◌, Option, none, some, List, ltb, ◌==◌,
  if◌then◌else◌, update, scan,
}
use amq_os.Process.{Processes}

abbrev pub max_threads_global : ℕ
max_threads_global = 256

pub data ThreadState : Type 0 where
  ready running blocked terminated : ThreadState

-- `cpu_context_t`
pub record Context : Type 0 where
  pub rsp : ℕ
  pub rbp : ℕ
  pub rbx : ℕ
  pub r12 : ℕ
  pub r13 : ℕ
  pub r14 : ℕ
  pub r15 : ℕ
  pub rip : ℕ
  pub rflags : ℕ
  pub cs : ℕ
  pub ss : ℕ

-- `deadline_params_t`
pub record DeadlineParams : Type 0 where
  pub runtime : ℕ
  pub deadline : ℕ
  pub period : ℕ
  pub absolute_deadline : ℕ
  pub remaining_runtime : ℕ

-- `thread_t`. Pointers to threads and processes are their indices, `none` is NULL.
pub record Thread : Type 0 where
  pub tid : ℕ
  pub parent : Option ℕ
  pub state : ThreadState
  pub context : Context
  pub stack_base : Option ℕ
  pub stack_size : ℕ
  pub stack_pointer : ℕ
  pub sched : DeadlineParams
  pub last_scheduled : ℕ
  pub next : Option ℕ
  pub used : Bool
  pub private_data : Option ℕ
  pub entry_point : ℕ
  pub sleep_until : ℕ

-- The variables of scheduler.c, the process table that it writes to, the stacks that it has given to
-- `kfree`, the last one first, and the 64-bit words in memory by their address.
pub record Sched : Type 0 where
  pub thread_table : ℕ → Thread
  pub current_thread : Option ℕ
  pub idle_thread : Option ℕ
  pub next_tid : ℕ
  pub scheduler_enabled : Bool
  pub in_scheduler : Bool
  pub ready_queue_head : Option ℕ
  pub ready_queue_tail : Option ℕ
  pub processes : Processes
  pub freed : List ℕ
  pub memory : ℕ → ℕ

-- Equality of pointers.
abbrev pub ptr_eq : Option ℕ → Option ℕ → Bool
ptr_eq none none = true
ptr_eq (some i) (some j) = i == j
ptr_eq _ _ = false

abbrev pub state_eq : ThreadState → ThreadState → Bool
state_eq ready ready = true
state_eq running running = true
state_eq blocked blocked = true
state_eq terminated terminated = true
state_eq _ _ = false

-- `thread_table[i].next = p` and `thread_table[i].state = st`
abbrev pub set_next : Sched → ℕ → Option ℕ → Sched
set_next s i p = record s {
  thread_table = update s.thread_table i (record (s.thread_table i) { next = p });
}

abbrev pub set_state : Sched → ℕ → ThreadState → Sched
set_state s i st = record s {
  thread_table = update s.thread_table i (record (s.thread_table i) { state = st });
}

-- The slots from 0 to 255 are cleared. The fields that the code does not write stay.
unfoldable pub scheduler_init : Sched → Sched
scheduler_init s = record s {
  thread_table = λ i.
      if ltb i max_threads_global
      then record (s.thread_table i) {
        used = false;
        tid = 0;
        parent = none;
        state = terminated;
        next = none;
        stack_base = none;
        stack_pointer = 0;
        stack_size = 0;
        private_data = none;
        entry_point = 0;
      }
      else s.thread_table i;
  ready_queue_head = none;
  ready_queue_tail = none;
  current_thread = none;
  idle_thread = none;
  scheduler_enabled = false;
  in_scheduler = false;
}

unfoldable pub find_free_thread_slot : Sched → Option ℕ
find_free_thread_slot s = scan (λ i. not (s.thread_table i).used) 0 max_threads_global

unfoldable pub get_thread : Sched → ℕ → Option ℕ
get_thread s tid =
    scan (λ i. (s.thread_table i).used && (s.thread_table i).tid == tid) 0 max_threads_global

-- The two branches of `ready_queue_add`, after `thread->next = NULL`. A tail that is NULL beside a
-- head that is not would be a write through NULL; `Queue` shows that this does not happen.
unfoldable pub link_last : Sched → ℕ → Option ℕ → Option ℕ → Sched
link_last s i none tail = record s { ready_queue_head = some i; ready_queue_tail = some i }
link_last s i (some h) none = s
link_last s i (some h) (some t) = record (set_next s t (some i)) { ready_queue_tail = some i }

unfoldable pub ready_queue_add : Sched → ℕ → Sched
unfolding link_last
ready_queue_add s i = link_last (set_next s i none) i s.ready_queue_head s.ready_queue_tail

-- `thread_table[i]` is taken out of the list behind `current`.
unfoldable pub unlink_after : Sched → ℕ → ℕ → Sched
unlink_after s i current =
    set_next
      (record (set_next s current (s.thread_table i).next) {
        ready_queue_tail =
            if ptr_eq s.ready_queue_tail (some i) then some current else s.ready_queue_tail;
      })
      i none

-- The loop of `ready_queue_remove`, where `next` is the `next` of `current`.
unfoldable pub remove_loop : ℕ → Sched → ℕ → ℕ → Option ℕ → Sched
remove_loop zero s i current next = s
remove_loop (suc fuel) s i current none = s
remove_loop (suc fuel) s i current (some n) =
    let rest = remove_loop fuel s i n (s.thread_table n).next in
    if n == i then unlink_after s i current else rest

-- The head is unlinked here; the rest of the list is `remove_loop`, with fuel for every thread.
unfoldable pub remove_from : Sched → ℕ → Option ℕ → Sched
remove_from s i none = s
remove_from s i (some h) =
    let rest = remove_loop max_threads_global s i h (s.thread_table h).next in
    if h == i
    then set_next
        (record s {
          ready_queue_head = (s.thread_table i).next;
          ready_queue_tail =
              if ptr_eq s.ready_queue_tail (some i) then none else s.ready_queue_tail;
        })
        i none
    else rest

unfoldable pub ready_queue_remove : Sched → ℕ → Sched
unfolding remove_from remove_loop unlink_after
ready_queue_remove s i = remove_from s i s.ready_queue_head

-- How a call of `schedule` ends: it returns to its caller, starts a thread where none was current,
-- switches stacks, or waits in `hlt` for an interrupt. `stopped` is the endless loop of `thread_exit`.
pub data Outcome : Type 0 where
  returned : Outcome
  started : ℕ → Outcome
  switched : ℕ → ℕ → Outcome
  halted : Outcome
  stopped : Outcome

-- A current thread that is running goes back to the end of the queue.
unfoldable pub requeue : Sched → Option ℕ → Sched
requeue s none = s
requeue s (some p) =
    if state_eq (s.thread_table p).state running then ready_queue_add (set_state s p ready) p else s

-- No thread is ready. A blocked current thread is given up, and the processor waits.
unfoldable pub dispatch_none : Sched → Option ℕ → Outcome × Sched
dispatch_none s none = (returned, record s { in_scheduler = false })
dispatch_none s (some p) =
    if state_eq (s.thread_table p).state blocked
    then (halted, record s { in_scheduler = false; current_thread = none })
    else (returned, record s { in_scheduler = false })

-- The head of the queue is taken off and marked as running.
unfoldable pub take_head : Sched → ℕ → Sched
take_head s n =
    set_state
      (set_next
        (record s {
          ready_queue_head = (s.thread_table n).next;
          ready_queue_tail =
              if ptr_eq s.ready_queue_tail (some n) then none else s.ready_queue_tail;
        })
        n none)
      n running

unfoldable pub switch_from : Sched → ℕ → Option ℕ → Outcome × Sched
switch_from s n none = (started n, record s { current_thread = some n; in_scheduler = false })
switch_from s n (some p) =
    if p == n
    then (returned, record s { in_scheduler = false })
    else (switched p n, record s { current_thread = some n; in_scheduler = false })

unfoldable pub dispatch : Sched → Option ℕ → Option ℕ → Outcome × Sched
dispatch s prev none = dispatch_none s prev
dispatch s prev (some n) = switch_from (take_head s n) n prev

-- `schedule`, up to the switch of stacks or to the `hlt`.
unfoldable pub schedule : Sched → Outcome × Sched
schedule s =
    if not s.scheduler_enabled
    then (returned, s)
    else if s.in_scheduler
    then (returned, s)
    else let s' = requeue (record s { in_scheduler = true }) s.current_thread in
      dispatch s' s.current_thread s'.ready_queue_head

-- What follows the `hlt`, when an interrupt has changed the state to `s`.
unfoldable pub schedule_after_hlt : Sched → Outcome × Sched
unfolding schedule
schedule_after_hlt s = schedule (record s { in_scheduler = false })
