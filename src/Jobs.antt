-- ===== src/Jobs.antt =====
-- src/kernel/Processes/fg.c and sleep.c: the table of jobs, the waking of threads that sleep, and
-- timeouts. The time is an argument: `now` in milliseconds, `ticks` of the timer, one for each of them.
-- Messages on the screen are left out, and with them what `update_jobs` does beyond `update_jobs_safe`.
pub mod Table
pub mod Update
pub mod Due
pub mod Early
pub mod Timeouts
use amq_os.Scheduler.{
  Outcome, Sched, ThreadState, ready, running, blocked, terminated, get_thread, returned, schedule,
  state_eq,
}
use amq_os.Threads.{thread_block, thread_unblock}
use amq_os.Prelude.{
  ℕ, zero, suc, ◌+◌, ◌-◌, ◌*◌, ◌/◌, ◌%◌, ◌^◌, ◌≤◌, ◌<◌, ◌≡◌, refl, sym, ap, ◌∙◌, subst, ◌≢◌, ◌↔◌,
  ◌⊎◌, inl, inr, Bool, true, false, not, ◌&&◌, ◌||◌, Option, none, some, List, [], ◌∷◌, ◌++◌, map,
  arith, ltb, leb, ◌==◌, if◌then◌else◌, u8, u16, u32, u64, sub16, sub32, sub64, Bool-cases,
  Option-cases, ==_iff, length, take, drop, update, update_self, update_ne, scan, scan-some,
  scan-first, scan-ne-none, contains, Distinct, without, AllBelow, contains-ne, without-absent,
  contains-without, without-Distinct, contains-append, append-Distinct, length-le_bound, replicate,
}

abbrev pub max_jobs : ℕ
max_jobs = 32

pub data JobState : Type 0 where
  job_running job_stopped job_sleeping job_done : JobState

-- `job_t`
pub record Job : Type 0 where
  pub used : Bool
  pub job_id : ℕ
  pub pid : ℕ
  pub tid : ℕ
  pub state : JobState
  pub is_background : Bool
  pub sleep_until : ℕ
  pub command : List ℕ

-- `job_table`, `next_job_id` and `jobs_enabled`.
pub record Jobs : Type 0 where
  pub table : ℕ → Job
  pub next_job_id : ℕ
  pub enabled : Bool

abbrev pub set_job : Jobs → ℕ → Job → Jobs
set_job js i j = record js { table = update js.table i j }

abbrev pub no_job : Job
no_job = record {
  used = false;
  job_id = 0;
  pid = 0;
  tid = 0;
  state = job_done;
  is_background = false;
  sleep_until = 0;
  command = [];
}

-- The slots from 0 to 31 are cleared; `next_job_id` is left alone.
unfoldable pub jobs_init : Jobs → Jobs
jobs_init js = record js {
  table = λ i. if ltb i max_jobs then no_job else js.table i;
  enabled = false;
}

unfoldable pub jobs_set_active : Jobs → Bool → Jobs
jobs_set_active js active = record js { enabled = active }

unfoldable pub find_free_job_slot : Jobs → Option ℕ
find_free_job_slot js = scan (λ i. not (js.table i).used) 0 max_jobs

-- What `add_fg_job` and `add_bg_job` write into slot `i`; they differ in `is_background` alone. The C
-- counter is an `int`, whose overflow is not defined; here it wraps.
abbrev pub fill_job : Jobs → ℕ → Bool → List ℕ → ℕ → ℕ → Jobs
fill_job js i background command pid tid =
    record (set_job js i (record {
      used = true;
      job_id = js.next_job_id;
      pid = pid;
      tid = tid;
      state = job_running;
      is_background = background;
      sleep_until = 0;
      command = take 255 command;
    })) { next_job_id = u32 (js.next_job_id + 1) }

-- The id of the new job, or `none` for the -1 of a full table.
unfoldable pub add_fg_job : Jobs → List ℕ → ℕ → ℕ → Option ℕ × Jobs
unfolding find_free_job_slot
add_fg_job js command pid tid = elim (find_free_job_slot js) [
  | none ↦ (none, js)
  | some i ↦ (some js.next_job_id, fill_job js i false command pid tid)
]

unfoldable pub add_bg_job : Jobs → List ℕ → ℕ → ℕ → Option ℕ × Jobs
unfolding find_free_job_slot
add_bg_job js command pid tid = elim (find_free_job_slot js) [
  | none ↦ (none, js)
  | some i ↦ (some js.next_job_id, fill_job js i true command pid tid)
]

unfoldable pub get_job : Jobs → ℕ → Option ℕ
get_job js id = scan (λ i. (js.table i).used && (js.table i).job_id == id) 0 max_jobs

-- The loop of `remove_job` finds the slot that `get_job` finds.
unfoldable pub remove_job : Jobs → ℕ → Jobs
unfolding get_job
remove_job js id = elim (get_job js id) [
  | none ↦ js
  | some i ↦ set_job js i (record (js.table i) { used = false; state = job_done })
]

-- The state of a job by that of its thread.
abbrev pub state_of : ThreadState → Job → JobState
state_of ready j = job_running
state_of running j = job_running
state_of blocked j = if ltb 0 j.sleep_until then job_sleeping else job_stopped
state_of terminated j = j.state

abbrev pub is_sleeping : JobState → Bool
is_sleeping job_sleeping = true
is_sleeping _ = false

-- Job `i`, whose thread is in slot `t`.
unfoldable pub update_live : ℕ → Sched → Jobs → ℕ → ℕ → Sched × Jobs
update_live now s js i t =
    let j = js.table i in
    if state_eq (s.thread_table t).state terminated
    then (s, set_job js i (record j { used = false; state = job_done }))
    else if is_sleeping j.state && ltb 0 j.sleep_until
    then if leb j.sleep_until now
      then (
        thread_unblock s j.tid,
        set_job js i (record j { state = job_running; sleep_until = 0 }),
      )
      else (s, js)
    else (s, set_job js i (record j { state = state_of (s.thread_table t).state j }))

unfoldable pub update_job : ℕ → Sched → Jobs → ℕ → Sched × Jobs
unfolding update_live
update_job now s js i =
    if not (js.table i).used then (s, js) else elim (get_thread s (js.table i).tid) [
      | none ↦ (s, set_job js i (record (js.table i) { used = false; state = job_done }))
      | some t ↦ update_live now s js i t
    ]

unfoldable pub update_loop : ℕ → ℕ → ℕ → Sched → Jobs → Sched × Jobs
update_loop zero i now s js = (s, js)
update_loop (suc rounds) i now s js =
    let (s', js') = update_job now s js i in update_loop rounds (i + 1) now s' js'

unfoldable pub update_jobs : ℕ → Sched → Jobs → Sched × Jobs
unfolding update_loop
update_jobs now s js = if not js.enabled then (s, js) else update_loop max_jobs 0 now s js

-- The first job of the thread is marked as sleeping. A thread without a job is not marked anywhere.
unfoldable pub mark_sleeping : Jobs → ℕ → ℕ → Jobs
mark_sleeping js tid wake =
    elim (scan (λ i. (js.table i).used && (js.table i).tid == tid) 0 max_jobs) [
      | none ↦ js
      | some i ↦ set_job js i (record (js.table i) { state = job_sleeping; sleep_until = wake })
    ]

-- `schedule()` behind a call that has returned.
abbrev pub then_schedule : Outcome × Sched → Outcome × Sched
then_schedule (returned, s) = schedule s
then_schedule (out, s) = (out, s)

-- `sleep_ticks`, up to the point at which the thread is left. With no current thread the processor
-- waits and nothing changes.
unfoldable pub sleep_ticks : Sched → Jobs → ℕ → ℕ → Outcome × Sched × Jobs
unfolding mark_sleeping
sleep_ticks s js now ticks = if ticks == 0 then (returned, s, js) else elim s.current_thread [
  | none ↦ (returned, s, js)
  | some c ↦
      let tid = (s.thread_table c).tid in
      let (out, s') = then_schedule (thread_block s tid) in
      (out, s', mark_sleeping js tid (u64 (now + u64 (ticks * 1000) / 1000)))
]

abbrev pub at_least_one : ℕ → ℕ
at_least_one ticks = if ticks == 0 then 1 else ticks

unfoldable pub sleep_ms : Sched → Jobs → ℕ → ℕ → Outcome × Sched × Jobs
unfolding sleep_ticks
sleep_ms s js now milliseconds =
    if milliseconds == 0
    then (returned, s, js)
    else sleep_ticks s js now (at_least_one (u64 (milliseconds * 1000) / 1000))

-- The product is one of 32-bit words.
unfoldable pub sleep_seconds : Sched → Jobs → ℕ → ℕ → Outcome × Sched × Jobs
unfolding sleep_ms
sleep_seconds s js now seconds =
    if seconds == 0 then (returned, s, js) else sleep_ms s js now (u32 (seconds * 1000))

unfoldable pub sleep_us : Sched → Jobs → ℕ → ℕ → Outcome × Sched × Jobs
unfolding sleep_ms
sleep_us s js now microseconds =
    if microseconds == 0
    then (returned, s, js)
    else sleep_ms s js now (at_least_one (u64 (microseconds + 999) / 1000))

unfoldable pub get_uptime_ms : ℕ → ℕ
get_uptime_ms ticks = u64 (ticks * 1000) / 1000

-- `timeout_t`
pub record Timeout : Type 0 where
  pub start_ticks : ℕ
  pub timeout_ticks : ℕ

unfoldable pub timeout_init : ℕ → ℕ → Timeout
timeout_init ticks milliseconds = record {
  start_ticks = ticks;
  timeout_ticks = u64 (milliseconds * 1000) / 1000;
}

unfoldable pub timeout_expired : ℕ → Timeout → Bool
timeout_expired ticks t = leb t.timeout_ticks (sub64 ticks t.start_ticks)

unfoldable pub timeout_remaining_ms : ℕ → Timeout → ℕ
timeout_remaining_ms ticks t =
    let elapsed = sub64 ticks t.start_ticks in
    if leb t.timeout_ticks elapsed then 0 else u64 (sub64 t.timeout_ticks elapsed * 1000) / 1000
