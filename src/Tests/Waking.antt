-- ===== src/Tests/Waking.antt =====
-- Concrete runs of src/kernel/Processes/fg.c and sleep.c.
use amq_os.Jobs.{
  Jobs, add_bg_job, add_fg_job, find_free_job_slot, get_job, job_running, job_sleeping, no_job,
  remove_job, timeout_expired, timeout_init, timeout_remaining_ms, update_jobs,
}
use amq_os.Jobs.Due.{update_jobs-wakes}
use amq_os.Jobs.Table.{IsValid, remove_job-add_job}
use amq_os.Jobs.Timeouts.{timeout_expired-timeout_init}
use amq_os.Jobs.Early.{EarlyFrom, update_jobs-Early}
use amq_os.Process.{no_process}
use amq_os.Scheduler.{Sched, Thread, blocked, get_thread, ready, terminated}
use amq_os.Scheduler.Preserve.{Sound}
use amq_os.Threads.{initial_context}
use amq_os.Prelude.{
  ℕ, ◌+◌, ◌-◌, ◌≡◌, refl, ◌≢◌, inl, true, false, none, some, [], arith, leb, ◌==◌, if◌then◌else◌,
  u64, scan,
}

abbrev waiting_thread : Thread
waiting_thread = record {
  tid = 5;
  parent = none;
  state = blocked;
  context = initial_context 0 0;
  stack_base = none;
  stack_size = 0;
  stack_pointer = 0;
  sched = record {
    runtime = 0;
    deadline = 0;
    period = 0;
    absolute_deadline = 0;
    remaining_runtime = 0;
  };
  last_scheduled = 0;
  next = none;
  used = true;
  private_data = none;
  entry_point = 0;
  sleep_until = 0;
}

-- Thread 0 sleeps; nothing else is there.
abbrev asleep : Sched
asleep = record {
  thread_table = λ i.
      if i == 0 then waiting_thread else record waiting_thread { used = false; state = terminated };
  current_thread = none;
  idle_thread = none;
  next_tid = 6;
  scheduler_enabled = true;
  in_scheduler = false;
  ready_queue_head = none;
  ready_queue_tail = none;
  processes = record { table = λ i. no_process; next_pid = 1 };
  freed = [];
  memory = λ a. 0;
}

asleep-Sound : Sound asleep
asleep-Sound = (
  [],
  record {
    queue = record { chain = refl; tail = refl; distinct = ground arith; small = tt };
    waiting = λ j m. ground arith;
    waiting_used = λ j m. ground arith;
    only_current = λ j m. ground arith;
    current_small = λ c e. ground arith;
    current_used = λ c e. ground arith;
  },
)

-- Job 0 sleeps until 70.
abbrev one_job : Jobs
one_job = record {
  table = λ i.
      if i == 0
      then record no_job {
        used = true;
        job_id = 1;
        tid = 5;
        state = job_sleeping;
        sleep_until = 70;
      }
      else no_job;
  next_job_id = 2;
  enabled = true;
}

one_job-IsValid : IsValid one_job
one_job-IsValid = record { fresh = λ i u. ground arith; distinct = λ i j p q e. ground arith }

thread_found : get_thread asleep 5 ≡ some 0
unfolding get_thread scan
thread_found = refl

slot_found : find_free_job_slot one_job ≡ some 1
unfolding find_free_job_slot scan
slot_found = refl

update_jobs-wakes_example :
    let (s', js') = update_jobs 71 asleep one_job in
    ((s'.thread_table 0).state ≡ ready)
    × (js'.table 0 ≡ record (one_job.table 0) { state = job_running; sleep_until = 0 })
update_jobs-wakes_example =
    update_jobs-wakes 71 asleep one_job 0 0 refl (omega arith) refl refl (omega arith) (omega arith)
      thread_found (inl refl)

update_jobs-Early_example :
    Sound (update_jobs 71 asleep one_job).0
    × ((t : ℕ) → EarlyFrom 71 0 32 one_job t asleep (update_jobs 71 asleep one_job).0)
update_jobs-Early_example = update_jobs-Early 71 asleep one_job asleep-Sound

remove_job_example :
    (js' : Jobs) × ((if true then add_bg_job one_job [] 1 9 else add_fg_job one_job [] 1 9)
      ≡ (some 2, js'))
    × (get_job js' 2 ≡ some 1)
    × ((js'.table 1).is_background ≡ true)
    × IsValid js'
    × (get_job (remove_job js' 2) 2 ≡ none)
    × ((j : ℕ) → j ≢ 1 → (remove_job js' 2).table j ≡ one_job.table j)
remove_job_example =
    remove_job-add_job one_job true [] 1 9 1 one_job-IsValid (omega arith) slot_found

timeout_example :
    let t = timeout_init 0xFFFFFFFFFFFFFFF0 40 in
    let now = u64 (0xFFFFFFFFFFFFFFF0 + 30) in
    (timeout_expired now t ≡ leb 40 30) × (timeout_remaining_ms now t ≡ 40 - 30)
timeout_example =
    timeout_expired-timeout_init 0xFFFFFFFFFFFFFFF0 40 30 (omega arith) (omega arith) (omega arith)
