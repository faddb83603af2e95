-- ===== src/Jobs/Update.antt =====
-- `update_jobs` of src/kernel/Processes/fg.c.
use amq_os.Jobs.{Jobs, max_jobs, update_job, update_jobs, update_live, update_loop}
use amq_os.Scheduler.{ready, blocked, Sched, get_thread, max_threads_global, set_state, state_eq}
use amq_os.Scheduler.Invariant.{OnlyLinks-state, OnlyLinks-tid, OnlyLinks-used, state_eq_iff}
use amq_os.Scheduler.Links.{ready_queue_add-OnlyLinks}
use amq_os.Scheduler.Preserve.{Sound}
use amq_os.Threads.{thread_unblock, unblock_slot}
use amq_os.Threads.Wake.{thread_unblock-Sound}
use amq_os.Prelude.{
  ℕ, zero, suc, ◌+◌, ◌≡◌, refl, sym, subst, ◌≢◌, ◌⊎◌, inl, inr, Bool, true, false, not, arith,
  if◌then◌else◌, Bool-cases, Option-cases, scan,
}

-- A step of the loop leaves the threads alone or wakes the thread of the job.
update_job-threads :
    (now : ℕ) (s : Sched) (js : Jobs) (i : ℕ)
    → ((update_job now s js i).0 ≡ s)
      ⊎ ((update_job now s js i).0 ≡ thread_unblock s (js.table i).tid)
unfolding update_job update_live
update_job-threads now s js i = ground arith

-- It changes no other job.
pub update_job-others :
    (now : ℕ) (s : Sched) (js : Jobs) (i j : ℕ)
    → i ≢ j
    → (update_job now s js i).1.table j ≡ js.table j
unfolding update_job update_live
update_job-others now s js i j h = ground arith

update_job-Sound :
    (now : ℕ) (s : Sched) (js : Jobs) (i : ℕ) → Sound s → Sound (update_job now s js i).0
update_job-Sound now s js i v = elim (update_job-threads now s js i) [
  | inl e ↦ subst Sound (sym e) v
  | inr e ↦ subst Sound (sym e) (thread_unblock-Sound s (js.table i).tid v)
]

update_loop-Sound :
    (rounds i now : ℕ) (s : Sched) (js : Jobs) → Sound s → Sound (update_loop rounds i now s js).0
unfolding update_loop
update_loop-Sound zero i now s js v = v
update_loop-Sound (suc rounds) i now s js v =
    update_loop-Sound rounds (i + 1) now _ _ (update_job-Sound now s js i v)

if-Sound : (b : Bool) (x y : Sched × Jobs) → Sound x.0 → Sound y.0 → Sound (if b then x else y).0
if-Sound true x y v w = v
if-Sound false x y v w = w

-- `update_jobs` keeps the invariant of the scheduler.
pub update_jobs-Sound : (now : ℕ) (s : Sched) (js : Jobs) → Sound s → Sound (update_jobs now s js).0
unfolding update_jobs
update_jobs-Sound now s js v =
    if-Sound (not js.enabled) _ _ v (update_loop-Sound max_jobs 0 now s js v)

-- The threads before and after: a blocked one may have become ready.
pub record Woken (s s' : Sched) : Type 0 where
  pub used : (t : ℕ) → (s'.thread_table t).used ≡ (s.thread_table t).used
  pub tid : (t : ℕ) → (s'.thread_table t).tid ≡ (s.thread_table t).tid
  pub state :
      (t : ℕ)
      → ((s'.thread_table t).state ≡ (s.thread_table t).state)
        ⊎ (((s.thread_table t).state ≡ blocked) × ((s'.thread_table t).state ≡ ready))

unblock_slot-Woken : (s : Sched) (i : ℕ) → Woken s (unblock_slot s i)
unfolding unblock_slot
unblock_slot-Woken s i = elim (Bool-cases (state_eq (s.thread_table i).state blocked)) [
  | inl e ↦
      let o = ready_queue_add-OnlyLinks (set_state s i ready) i in
      let b = state_eq_iff _ _ e in
      rw e (record {
        used = λ t. ground (arith, OnlyLinks-used o t);
        tid = λ t. ground (arith, OnlyLinks-tid o t);
        state = λ t. ground (arith, OnlyLinks-state o t, b);
      })
  | inr e ↦ rw e (record { used = λ t. refl; tid = λ t. refl; state = λ t. inl refl })
]

thread_unblock-Woken : (s : Sched) (tid : ℕ) → Woken s (thread_unblock s tid)
unfolding thread_unblock
thread_unblock-Woken s tid = elim (Option-cases (get_thread s tid)) [
  | inl e ↦
      rw (thread_unblock, e) (record { used = λ t. refl; tid = λ t. refl; state = λ t. inl refl })
  | inr (i, e) ↦ rw (thread_unblock, e) (unblock_slot-Woken s i)
]

pub update_job-Woken : (now : ℕ) (s : Sched) (js : Jobs) (i : ℕ) → Woken s (update_job now s js i).0
update_job-Woken now s js i = elim (update_job-threads now s js i) [
  | inl e ↦
      subst (Woken s) (sym e) (record { used = λ t. refl; tid = λ t. refl; state = λ t. inl refl })
  | inr e ↦ subst (Woken s) (sym e) (thread_unblock-Woken s (js.table i).tid)
]

scan-ext :
    (f g : ℕ → Bool) (from rounds : ℕ)
    → ((i : ℕ) → f i ≡ g i)
    → scan f from rounds ≡ scan g from rounds
unfolding scan
scan-ext f g from zero h = refl
scan-ext f g from (suc rounds) h = rw (h from, scan-ext f g (from + 1) rounds h)

pub get_thread-Woken : (s s' : Sched) (tid : ℕ) → Woken s s' → get_thread s' tid ≡ get_thread s tid
unfolding get_thread
get_thread-Woken s s' tid w = scan-ext _ _ 0 max_threads_global (λ i. rw (w.used i, w.tid i))
