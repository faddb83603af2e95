-- ===== src/Threads.antt =====
-- src/kernel/Processes/scheduler.c: making, blocking, waking and ending threads, and the calls that
-- lead to `schedule`. Messages on the screen and the 0xCC pattern of a fresh stack are left out.
pub mod Stack
pub mod Wake
pub mod Life
pub mod Reach
use amq_os.Prelude.{
  ℕ, zero, suc, ◌+◌, ◌-◌, ◌*◌, ◌/◌, Bool, true, false, not, ◌&&◌, Option, none, some, List, [], ◌∷◌,
  leb, ltb, ◌==◌, if◌then◌else◌, u32, u64, sub64, update, scan,
}
use amq_os.Process.{Process, ProcessState, Processes, get_process, max_threads_per_process}
use amq_os.Scheduler.{
  Sched, Thread, ThreadState, ready, blocked, terminated, Outcome, returned, halted, stopped,
  Context, set_state, ptr_eq, state_eq, find_free_thread_slot, get_thread, ready_queue_add,
  ready_queue_remove, schedule,
}

abbrev pub set_thread : Sched → ℕ → Thread → Sched
set_thread s i t = record s { thread_table = update s.thread_table i t }

abbrev pub set_process : Sched → ℕ → Process → Sched
set_process s i p = record s {
  processes = record s.processes { table = update s.processes.table i p };
}

-- The words of a list, written at ascending addresses.
unfoldable pub write_words : (ℕ → ℕ) → ℕ → List ℕ → ℕ → ℕ
write_words m a [] = m
write_words m a (w ∷ ws) = update (write_words m (a + 8) ws) a w

-- What `setup_thread_context` pushes, from the stack pointer upwards: flags, six registers and the
-- address of `thread_wrapper`.
abbrev pub initial_frame : ℕ → List ℕ
initial_frame wrapper = 0x202 ∷ 0 ∷ 0 ∷ 0 ∷ 0 ∷ 0 ∷ 0 ∷ wrapper ∷ []

abbrev pub stack_top : ℕ → ℕ → ℕ
stack_top base size = u64 (base + size) / 16 * 16

abbrev pub initial_context : ℕ → ℕ → Context
initial_context rsp wrapper = record {
  rsp = rsp;
  rbp = 0;
  rbx = 0;
  r12 = 0;
  r13 = 0;
  r14 = 0;
  r15 = 0;
  rip = wrapper;
  rflags = 0x202;
  cs = 0x08;
  ss = 0x10;
}

unfoldable pub setup_thread_context : ℕ → Sched → ℕ → ℕ → Sched
unfolding write_words
setup_thread_context wrapper s i base =
    let t = s.thread_table i in
    let rsp = sub64 (stack_top base t.stack_size) 64 in
    record (set_thread s i (record t { context = initial_context rsp wrapper })) {
      memory = write_words s.memory rsp (initial_frame wrapper);
    }

-- What the scheduler is asked to keep for a new thread.
pub record Params : Type 0 where
  pub stack_size : ℕ
  pub runtime : ℕ
  pub deadline : ℕ
  pub period : ℕ

-- The part of `thread_create` after the checks, up to the queue: slot `i` of process `p`.
unfoldable pub fill_slot : ℕ → Sched → ℕ → ℕ → ℕ → Params → ℕ → Sched
unfolding setup_thread_context
fill_slot wrapper s i p entry k base =
    let t = s.thread_table i in
    let s' = set_thread s i (record t {
      stack_size = k.stack_size;
      stack_base = some base;
      tid = s.next_tid;
      parent = some p;
      state = ready;
      used = true;
      next = none;
      private_data = none;
      entry_point = entry;
      sched = record {
        runtime = k.runtime;
        deadline = k.deadline;
        period = k.period;
        absolute_deadline = 0;
        remaining_runtime = k.runtime;
      };
      last_scheduled = 0;
    }) in
    let s'' = setup_thread_context wrapper (record s' { next_tid = u32 (s.next_tid + 1) }) i base in
    let proc = s.processes.table p in
    set_process s'' p (record proc {
      threads = update proc.threads proc.thread_count (some i);
      thread_count = proc.thread_count + 1;
    })

-- The end of `thread_create`: a thread that finds the scheduler enabled and idle starts at once.
unfoldable pub start_if_idle : Sched → Outcome × Sched
start_if_idle s =
    if s.scheduler_enabled && ptr_eq s.current_thread none then schedule s else (returned, s)

-- `kmalloc` fails in slot `i`: the size and the NULL stay in the unused slot.
unfoldable pub create_in : ℕ → Sched → ℕ → ℕ → ℕ → Params → Option ℕ → Option ℕ × Outcome × Sched
unfolding fill_slot start_if_idle
create_in wrapper s i p entry k none = (
  none,
  returned,
  set_thread s i (record (s.thread_table i) { stack_size = k.stack_size; stack_base = none }),
)
create_in wrapper s i p entry k (some base) =
    let (out, s') = start_if_idle (ready_queue_add (fill_slot wrapper s i p entry k base) i) in
    (some s.next_tid, out, s')

-- `thread_create`: the tid, or `none` for -1. `wrapper` is the address of `thread_wrapper`, and
-- `alloc` what `kmalloc(stack_size)` returns.
unfoldable pub thread_create : ℕ → Sched → ℕ → ℕ → Params → Option ℕ → Option ℕ × Outcome × Sched
unfolding create_in find_free_thread_slot
thread_create wrapper s pid entry k alloc =
    if entry == 0 then (none, returned, s) else elim (get_process s.processes pid) [
      | none ↦ (none, returned, s)
      | some p ↦
          if leb max_threads_per_process (s.processes.table p).thread_count
          then (none, returned, s)
          else elim (find_free_thread_slot s) [
            | none ↦ (none, returned, s)
            | some i ↦ create_in wrapper s i p entry k alloc
          ]
    ]

-- `thread_block` of the thread in slot `i`.
unfoldable pub block_slot : Sched → ℕ → Outcome × Sched
block_slot s i =
    if state_eq (s.thread_table i).state blocked
    then (returned, s)
    else let s' = ready_queue_remove (set_state s i blocked) i in
      if ptr_eq (some i) s'.current_thread then schedule s' else (returned, s')

unfoldable pub thread_block : Sched → ℕ → Outcome × Sched
unfolding block_slot
thread_block s tid = elim (get_thread s tid) [ none ↦ (returned, s) | some i ↦ block_slot s i ]

unfoldable pub unblock_slot : Sched → ℕ → Sched
unblock_slot s i =
    if not (state_eq (s.thread_table i).state blocked)
    then s
    else ready_queue_add (set_state s i ready) i

unfoldable pub thread_unblock : Sched → ℕ → Sched
unfolding unblock_slot
thread_unblock s tid = elim (get_thread s tid) [ none ↦ s | some i ↦ unblock_slot s i ]

-- `for (j = from; j < count - 1; j++) threads[j] = threads[j + 1];`
unfoldable pub shift_left : (ℕ → Option ℕ) → ℕ → ℕ → ℕ → Option ℕ
shift_left t from zero = t
shift_left t from (suc rounds) = shift_left (update t from (t (from + 1))) (from + 1) rounds

-- The entry `j` of the process is taken out, if there is one.
unfoldable pub drop_entry : Process → Option ℕ → Process
unfolding shift_left
drop_entry p none = p
drop_entry p (some j) =
    let count = p.thread_count - 1 in
    record p {
      threads = update (shift_left p.threads j (count - j)) count none;
      thread_count = count;
    }

-- The thread is taken out of its process; a process with no thread left is terminated.
unfoldable pub detach : Process → ℕ → Process
unfolding drop_entry
detach p i =
    let p' = drop_entry p (scan (λ j. ptr_eq (p.threads j) (some i)) 0 p.thread_count) in
    if p'.thread_count == 0 then record p' { state = ProcessState.terminated } else p'

abbrev pub free_stack : Sched → Option ℕ → Sched
free_stack s none = s
free_stack s (some base) = record s { freed = base ∷ s.freed }

abbrev pub detach_parent : Sched → ℕ → Option ℕ → Sched
detach_parent s i none = s
detach_parent s i (some p) = set_process s p (detach (s.processes.table p) i)

-- What `thread_exit` has done to the current thread `i` when it calls `schedule`.
unfoldable pub retire : Sched → ℕ → Sched
unfolding detach
retire s i =
    let t = s.thread_table i in
    let s' =
      free_stack (set_thread s i (record t { state = terminated; used = false; stack_base = none }))
        t.stack_base in
    record (detach_parent s' i t.parent) { current_thread = none }

-- A return of `schedule` is fatal here.
abbrev pub no_return : Outcome × Sched → Outcome × Sched
no_return (returned, s) = (stopped, s)
no_return (out, s) = (out, s)

abbrev pub exit_of : Sched → Option ℕ → Outcome × Sched
exit_of s none = (stopped, s)
exit_of s (some i) = no_return (schedule (retire s i))

unfoldable pub thread_exit : Sched → Outcome × Sched
unfolding retire
thread_exit s = exit_of s s.current_thread

unfoldable pub thread_yield : Sched → Outcome × Sched
thread_yield s =
    if not s.scheduler_enabled
    then (returned, s)
    else if ptr_eq s.current_thread none
    then if ptr_eq s.ready_queue_head none then (returned, s) else schedule s
    else schedule s

unfoldable pub scheduler_tick : Sched → Outcome × Sched
scheduler_tick s =
    if not s.scheduler_enabled
    then (returned, s)
    else if s.in_scheduler
    then (returned, s)
    else if ptr_eq s.ready_queue_head none
    then (returned, s)
    else schedule s

unfoldable pub scheduler_enable : Sched → Outcome × Sched
scheduler_enable s =
    let s' = record s { scheduler_enabled = true } in
    if ptr_eq s'.current_thread none && not (ptr_eq s'.ready_queue_head none)
    then schedule s'
    else (returned, s')

unfoldable pub scheduler_disable : Sched → Sched
scheduler_disable s = record s { scheduler_enabled = false }
