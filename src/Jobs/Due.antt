-- ===== src/Jobs/Due.antt =====
-- The waking of sleeping threads by `update_jobs` of src/kernel/Processes/fg.c.
use amq_os.Jobs.Update.{Woken, update_job-others, update_job-Woken, get_thread-Woken}
use amq_os.Jobs.{
  Job, Jobs, set_job, is_sleeping, job_running, job_sleeping, max_jobs, update_job, update_jobs,
  update_live, update_loop,
}
use amq_os.Scheduler.{ready, blocked, terminated, Sched, get_thread, set_state, state_eq}
use amq_os.Scheduler.Invariant.{OnlyLinks-state}
use amq_os.Scheduler.Links.{ready_queue_add-OnlyLinks}
use amq_os.Threads.{thread_unblock, unblock_slot}
use amq_os.Prelude.{
  ℕ, zero, suc, ◌+◌, ◌≤◌, ◌<◌, ◌≡◌, refl, sym, ap, ◌∙◌, subst, ◌⊎◌, inl, inr, Bool, true, false,
  not, some, arith, ltb, leb, ◌==◌, if◌then◌else◌, Bool-cases, update_self,
}

-- Job `i` is due: it sleeps, its time has come, and its thread `t` is blocked or ready.
pub record IsDue (now : ℕ) (job : Job) (t : ℕ) (s : Sched) : Type 0 where
  pub used : job.used ≡ true
  pub sleeping : job.state ≡ job_sleeping
  pub timed : 0 < job.sleep_until
  pub late : job.sleep_until ≤ now
  pub thread : get_thread s job.tid ≡ some t
  pub waits : ((s.thread_table t).state ≡ blocked) ⊎ ((s.thread_table t).state ≡ ready)

IsDue-Woken :
    (now : ℕ) (job : Job) (t : ℕ) (s s' : Sched)
    → Woken s s'
    → IsDue now job t s
    → IsDue now job t s'
IsDue-Woken now job t s s' w d = record {
  used = d.used;
  sleeping = d.sleeping;
  timed = d.timed;
  late = d.late;
  thread = get_thread-Woken s s' job.tid w ∙ d.thread;
  waits = ground (arith, w.state t, d.waits);
}

unblock_slot-ready :
    (s : Sched) (t : ℕ)
    → ((s.thread_table t).state ≡ blocked) ⊎ ((s.thread_table t).state ≡ ready)
    → ((unblock_slot s t).thread_table t).state ≡ ready
unfolding unblock_slot
unblock_slot-ready s t (inl e) =
    let o = ready_queue_add-OnlyLinks (set_state s t ready) t in ground (arith, OnlyLinks-state o t)
unblock_slot-ready s t (inr e) = ground arith

-- The step that wakes it.
update_job_due :
    (now : ℕ) (s : Sched) (js : Jobs) (i t : ℕ)
    → IsDue now (js.table i) t s
    → update_job now s js i ≡ (
      unblock_slot s t,
      set_job js i (record (js.table i) { state = job_running; sleep_until = 0 }),
    )
unfolding update_job update_live thread_unblock
update_job_due now s js i t d =
    let alive : state_eq (s.thread_table t).state terminated ≡ false = ground (arith, d.waits) in
    let asleep : is_sleeping (js.table i).state ≡ true = ground (arith, d.sleeping) in
    let timed : ltb 0 (js.table i).sleep_until ≡ true = ground (arith, d.timed) in
    let late : leb (js.table i).sleep_until now ≡ true = ground (arith, d.late) in
    let wakes : thread_unblock s (js.table i).tid ≡ unblock_slot s t =
      rw (thread_unblock, d.thread) refl in
    rw (d.used, d.thread, alive, asleep, timed, late, wakes) (rw d.used refl)

-- The job after it was woken, with its thread ready.
record IsAwake (job : Job) (t : ℕ) (s : Sched) (js : Jobs) (i : ℕ) : Type 0 where
  entry : js.table i ≡ record job { state = job_running; sleep_until = 0 }
  state : (s.thread_table t).state ≡ ready

update_loop-IsAwake :
    (rounds k now : ℕ) (s : Sched) (js : Jobs) (job : Job) (t i : ℕ)
    → i < k
    → IsAwake job t s js i
    → let (s', js') = update_loop rounds k now s js in IsAwake job t s' js' i
unfolding update_loop
update_loop-IsAwake zero k now s js job t i h a = a
update_loop-IsAwake (suc rounds) k now s js job t i h a =
    let w = update_job-Woken now s js k in
    update_loop-IsAwake rounds (k + 1) now _ _ job t i (omega arith) (record {
      entry = update_job-others now s js k i (omega arith) ∙ a.entry;
      state = ground (arith, w.state t, a.state);
    })

update_loop_here :
    (rounds k now : ℕ) (s : Sched) (js : Jobs) (t : ℕ)
    → IsDue now (js.table k) t s
    → let (s', js') = update_loop (suc rounds) k now s js in IsAwake (js.table k) t s' js' k
unfolding update_loop
update_loop_here rounds k now s js t d =
    let done = update_job_due now s js k t d in
    update_loop-IsAwake rounds (k + 1) now _ _ (js.table k) t k (omega arith) (record {
      entry = ap (λ r. r.1.table k) done ∙ update_self js.table k _;
      state = ap (λ r. (r.0.thread_table t).state) done ∙ unblock_slot-ready s t d.waits;
    })

update_loop_due :
    (rounds k now : ℕ) (s : Sched) (js : Jobs) (t i : ℕ)
    → k ≤ i
    → i < k + rounds
    → IsDue now (js.table i) t s
    → let (s', js') = update_loop rounds k now s js in IsAwake (js.table i) t s' js' i
unfolding update_loop
update_loop_due zero k now s js t i lo hi d = absurd (omega arith)
update_loop_due (suc rounds) k now s js t i lo hi d = elim (Bool-cases (k == i)) [
  | inl e ↦
      let same : k ≡ i = ground arith in
      subst
        (λ x.
          IsAwake (js.table x) t (update_loop (suc rounds) k now s js).0
            (update_loop (suc rounds) k now s js).1 x)
        same
        (update_loop_here rounds k now s js t
          (subst (λ x. IsDue now (js.table x) t s) (sym same) d))
  | inr e ↦
      let other = update_job-others now s js k i (ground arith) in
      let s' = (update_job now s js k).0 in
      let due = IsDue-Woken now (js.table i) t s s' (update_job-Woken now s js k) d in
      subst
        (λ x.
          IsAwake x t (update_loop (suc rounds) k now s js).0
            (update_loop (suc rounds) k now s js).1 i)
        other
        (update_loop_due rounds (k + 1) now s' (update_job now s js k).1 t i (ground arith)
          (omega arith) (subst (λ x. IsDue now x t s') (sym other) due))
]

if_off : (b : Bool) (x y : Sched × Jobs) → b ≡ false → (if b then x else y) ≡ y
if_off true x y h = absurd (ground arith)
if_off false x y h = refl

update_jobs-on :
    (now : ℕ) (s : Sched) (js : Jobs)
    → js.enabled ≡ true
    → update_jobs now s js ≡ update_loop max_jobs 0 now s js
unfolding update_jobs
update_jobs-on now s js on =
    if_off (not js.enabled) (s, js) (update_loop max_jobs 0 now s js) (ap not on)

-- With the jobs enabled, a used job that sleeps until a time that has come, and whose thread is blocked
-- or ready, is running after `update_jobs` and no longer sleeps, and its thread is ready; the other
-- jobs in the table do not prevent it, whichever threads they have.
pub update_jobs-wakes :
    (now : ℕ) (s : Sched) (js : Jobs) (i t : ℕ)
    → js.enabled ≡ true
    → i < max_jobs
    → (js.table i).used ≡ true
    → (js.table i).state ≡ job_sleeping
    → 0 < (js.table i).sleep_until
    → (js.table i).sleep_until ≤ now
    → get_thread s (js.table i).tid ≡ some t
    → ((s.thread_table t).state ≡ blocked) ⊎ ((s.thread_table t).state ≡ ready)
    → let (s', js') = update_jobs now s js in
      ((s'.thread_table t).state ≡ ready)
      × (js'.table i ≡ record (js.table i) { state = job_running; sleep_until = 0 })
update_jobs-wakes now s js i t on small used sleeping timed late thread waits =
    let awake = update_loop_due max_jobs 0 now s js t i (omega arith) small (record {
      used = used;
      sleeping = sleeping;
      timed = timed;
      late = late;
      thread = thread;
      waits = waits;
    }) in
    let all = update_jobs-on now s js on in
    (
      ap (λ r. (r.0.thread_table t).state) all ∙ awake.state,
      ap (λ r. r.1.table i) all ∙ awake.entry,
    )
