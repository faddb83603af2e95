-- ===== src/Tests/Scheduling.antt =====
-- Concrete runs of src/kernel/Processes/scheduler.c and process.c.
use amq_os.Process.{
  Process, ProcessState, Processes, get_process, max_processes, no_process, process_create,
}
use amq_os.Process.Laws.{IsValid, process_create_lem}
use amq_os.Scheduler.{
  Context, Sched, Thread, blocked, ready, ready_queue_remove, running, schedule, scheduler_init,
  terminated,
}
use amq_os.Scheduler.Choice.{queue_with}
use amq_os.Scheduler.Idle.{EmptyCall, schedule_when_empty}
use amq_os.Scheduler.Invariant.{IsSound}
use amq_os.Scheduler.Queue.{IsQueue, OnlyLinks}
use amq_os.Scheduler.RoundRobin.{outcome_of, schedule_picks_first}
use amq_os.Scheduler.Unlink.{ready_queue_remove_refines}
use amq_os.Threads.{Params, initial_context, scheduler_enable, setup_thread_context, thread_create}
use amq_os.Threads.Reach.{at_most_one_running, create, enable, here, next}
use amq_os.Threads.Stack.{
  fresh_registers, restore_context, restore_context-save_context, save_context,
  setup_thread_context_lem,
}
use amq_os.Prelude.{
  ℕ, ◌+◌, ◌%◌, ◌≤◌, ◌<◌, ◌≡◌, refl, ◌≢◌, ◌⊎◌, true, false, none, some, List, [], ◌∷◌, arith, ◌==◌,
  if◌then◌else◌, contains,
}

abbrev blank_context : Context
blank_context = initial_context 0 0

abbrev blank : Thread
blank = record {
  tid = 0;
  parent = none;
  state = terminated;
  context = blank_context;
  stack_base = none;
  stack_size = 0;
  stack_pointer = 0;
  sched = record {
    runtime = 0;
    deadline = 0;
    period = 0;
    absolute_deadline = 0;
    remaining_runtime = 0;
  };
  last_scheduled = 0;
  next = none;
  used = false;
  private_data = none;
  entry_point = 0;
  sleep_until = 0;
}

abbrev shell_process : Process
shell_process = record no_process {
  pid = 1;
  state = ProcessState.ready;
  used = true;
  name = b's' ∷ b'h' ∷ [];
}

abbrev one_process : Processes
one_process = record { table = λ i. if i == 0 then shell_process else no_process; next_pid = 2 }

-- Thread 0 runs, thread 1 waits.
abbrev two : Sched
two = record {
  thread_table = λ i.
      if i == 0
      then record blank { state = running; used = true; tid = 1 }
      else if i == 1
      then record blank { state = ready; used = true; tid = 2 }
      else blank;
  current_thread = some 0;
  idle_thread = none;
  next_tid = 3;
  scheduler_enabled = true;
  in_scheduler = false;
  ready_queue_head = some 1;
  ready_queue_tail = some 1;
  processes = one_process;
  freed = [];
  memory = λ a. 0;
}

two-IsQueue : IsQueue two (1 ∷ [])
two-IsQueue = record {
  chain = (refl, refl);
  tail = refl;
  distinct = ground arith;
  small = (omega arith, tt);
}

two-IsSound : IsSound two (1 ∷ [])
two-IsSound = record {
  queue = two-IsQueue;
  waiting = λ j m. ground arith;
  waiting_used = λ j m. ground arith;
  only_current = λ j m. ground arith;
  current_small = λ c e. ground arith;
  current_used = λ c e. ground arith;
}

-- Thread 0 waits for something, and no thread is ready.
abbrev waiting : Sched
waiting = record two {
  thread_table =
      λ i. if i == 0 then record blank { state = blocked; used = true; tid = 1 } else blank;
  ready_queue_head = none;
  ready_queue_tail = none;
}

waiting-IsSound : IsSound waiting []
waiting-IsSound = record {
  queue = record { chain = refl; tail = refl; distinct = ground arith; small = tt };
  waiting = λ j m. ground arith;
  waiting_used = λ j m. ground arith;
  only_current = λ j m. ground arith;
  current_small = λ c e. ground arith;
  current_used = λ c e. ground arith;
}

abbrev shell_params : Params
shell_params = record { stack_size = 4096; runtime = 5; deadline = 10; period = 10 }

-- After `scheduler_init`, two threads are created and the scheduler is enabled.
abbrev booted : Sched
booted =
    let s1 = (thread_create 64 (scheduler_init two) 1 100 shell_params (some 4096)).2 in
    let s2 = (thread_create 64 s1 1 200 shell_params (some 8192)).2 in (scheduler_enable s2).1

two_queued : queue_with two (some 0) (1 ∷ []) ≡ 1 ∷ 0 ∷ []
unfolding queue_with
two_queued = refl

schedule_picks_first_example :
    let (out, s') = schedule two in
    (out ≡ outcome_of (some 0) 1)
    × IsSound s' (0 ∷ [])
    × (s'.current_thread ≡ some 1)
    × ((s'.thread_table 1).state ≡ running)
    × (s'.in_scheduler ≡ false)
schedule_picks_first_example =
    schedule_picks_first two (1 ∷ []) 1 (0 ∷ []) two-IsSound refl refl two_queued

waiting_queued : queue_with waiting (some 0) [] ≡ []
unfolding queue_with
waiting_queued = refl

schedule_when_empty_example : EmptyCall waiting (schedule waiting) × IsSound (schedule waiting).1 []
schedule_when_empty_example =
    schedule_when_empty waiting [] waiting-IsSound refl refl waiting_queued

ready_queue_remove_example :
    IsQueue (ready_queue_remove two 1) [] × OnlyLinks two (ready_queue_remove two 1)
ready_queue_remove_example = ready_queue_remove_refines two (1 ∷ []) 1 two-IsQueue

at_most_one_running_example :
    (q : List ℕ) × IsQueue booted q
    × ((i j : ℕ)
        → (booted.thread_table i).state ≡ running
        → (booted.thread_table j).state ≡ running
        → (i ≡ j) × (booted.current_thread ≡ some i))
    × ((j : ℕ)
        → contains j q ≡ true
        → ((booted.thread_table j).state ≡ ready) × ((booted.thread_table j).used ≡ true))
at_most_one_running_example =
    at_most_one_running two (λ j h. ground arith)
      (next
        (next (next here (create 64 1 100 shell_params (some 4096)))
          (create 64 1 200 shell_params (some 8192)))
        enable)

restore_context_example :
    let (m', rsp') = save_context (λ a. a) 4096 fresh_registers in
    restore_context m' rsp' ≡ (fresh_registers, 4096, 4104)
restore_context_example =
    restore_context-save_context (λ a. a) 4096 fresh_registers (omega arith) (omega arith)

abbrev with_stack : Sched
with_stack = record two { thread_table = λ i. record (two.thread_table i) { stack_size = 4096 } }

setup_thread_context_example :
    let s' = setup_thread_context 64 with_stack 2 8192 in
    let rsp = (s'.thread_table 2).context.rsp in
    (restore_context s'.memory rsp ≡ (fresh_registers, 64, rsp + 64))
    × (8192 ≤ rsp)
    × (rsp + 64 ≤ 8192 + 4096)
    × ((rsp + 64) % 16 ≡ 0)
    × ((a : ℕ) → (a < rsp) ⊎ (rsp + 64 ≤ a) → s'.memory a ≡ 0)
setup_thread_context_example =
    setup_thread_context_lem 64 with_stack 2 8192 (omega arith) (omega arith)

one_process-IsValid : IsValid one_process
one_process-IsValid = record { fresh = λ i u. ground arith; distinct = λ i j p q e. ground arith }

process_create_example :
    ((process_create one_process (b'a' ∷ []) 0 ≡ (none, one_process))
      × ((i : ℕ) → i < max_processes → (one_process.table i).used ≡ true))
    ⊎ ((idx : ℕ) × (ps' : Processes) × (process_create one_process (b'a' ∷ []) 0 ≡ (some 2, ps'))
        × (idx < max_processes)
        × ((one_process.table idx).used ≡ false)
        × ((j : ℕ) → j < idx → (one_process.table j).used ≡ true)
        × IsValid ps'
        × ((j : ℕ) → j ≢ idx → ps'.table j ≡ one_process.table j)
        × (get_process ps' 2 ≡ some idx))
process_create_example =
    process_create_lem one_process (b'a' ∷ []) 0 one_process-IsValid (omega arith)
