-- ===== src/Jobs/Early.antt =====
-- What `update_jobs` of src/kernel/Processes/fg.c leaves alone.
use amq_os.Jobs.{
  Job, Jobs, is_sleeping, job_sleeping, job_done, set_job, max_jobs, update_job, update_jobs,
  update_live, update_loop,
}
use amq_os.Jobs.Update.{
  Woken, update_job-others, update_job-Woken, get_thread-Woken, update_jobs-Sound,
}
use amq_os.Jobs.Due.{IsDue}
use amq_os.Scheduler.{ready, blocked, terminated, Sched, get_thread, set_state, state_eq}
use amq_os.Scheduler.Invariant.{OnlyLinks-state, state_eq_iff}
use amq_os.Scheduler.Links.{ready_queue_add-OnlyLinks}
use amq_os.Scheduler.Preserve.{Sound}
use amq_os.Threads.{thread_unblock, unblock_slot}
use amq_os.Prelude.{
  ℕ, zero, suc, ◌+◌, ◌≤◌, ◌<◌, ◌≡◌, refl, sym, ap, ◌∙◌, subst, ◌⊎◌, inl, inr, true, false, not,
  ◌&&◌, Option, none, some, arith, ltb, leb, ◌==◌, if◌then◌else◌, Bool-cases, Option-cases,
}

-- The thread is as it was, or the job was due for it and it has become ready.
abbrev Early : ℕ → Job → ℕ → Sched → Sched → Type 0
Early now job t s s' =
    ((s'.thread_table t).state ≡ (s.thread_table t).state)
    ⊎ (IsDue now job t s
        × ((s.thread_table t).state ≡ blocked)
        × ((s'.thread_table t).state ≡ ready))

is_sleeping-true : (job : Job) → is_sleeping job.state ≡ true → job.state ≡ job_sleeping
is_sleeping-true job h = ground arith

unblock_slot-state :
    (s : Sched) (i t : ℕ)
    → (((unblock_slot s i).thread_table t).state ≡ (s.thread_table t).state)
      ⊎ ((i ≡ t)
          × ((s.thread_table t).state ≡ blocked)
          × (((unblock_slot s i).thread_table t).state ≡ ready))
unfolding unblock_slot
unblock_slot-state s i t = elim (Bool-cases (state_eq (s.thread_table i).state blocked)) [
  | inr e ↦ inl (rw e refl)
  | inl e ↦
      let o = ready_queue_add-OnlyLinks (set_state s i ready) i in
      let b = state_eq_iff _ _ e in
      rw e (elim (Bool-cases (i == t)) [
        | inl f ↦ inr (ground arith, ground arith, ground (arith, OnlyLinks-state o t))
        | inr f ↦ inl (ground (arith, OnlyLinks-state o t))
      ])
]

update_live-Early :
    (now : ℕ) (s : Sched) (js : Jobs) (i k t : ℕ)
    → (js.table i).used ≡ true
    → get_thread s (js.table i).tid ≡ some k
    → Early now (js.table i) t s (update_live now s js i k).0
unfolding update_live thread_unblock
update_live-Early now s js i k t u g =
    elim (Bool-cases (state_eq (s.thread_table k).state terminated)) [
      | inl e ↦ inl (rw e refl)
      | inr e ↦
          elim (Bool-cases (is_sleeping (js.table i).state && ltb 0 (js.table i).sleep_until)) [
            | inr f ↦ inl (rw (e, f) refl)
            | inl f ↦ elim (Bool-cases (leb (js.table i).sleep_until now)) [
              | inr h ↦ inl (rw (e, f, h) refl)
              | inl h ↦
                  let asleep : is_sleeping (js.table i).state ≡ true = ground arith in
                  let wakes : (update_live now s js i k).0 ≡ unblock_slot s k =
                    rw (update_live, e, f, h) (rw (thread_unblock, g) refl) in
                  subst (Early now (js.table i) t s) (sym wakes) (elim (unblock_slot-state s k t) [
                    | inl same ↦ inl same
                    | inr (same, b, r) ↦ inr (
                      record {
                        used = u;
                        sleeping = is_sleeping-true (js.table i) asleep;
                        timed = ground arith;
                        late = ground arith;
                        thread = g ∙ ap some same;
                        waits = inl b;
                      },
                      b,
                      r,
                    )
                  ])
            ]
          ]
    ]

update_job-Early :
    (now : ℕ) (s : Sched) (js : Jobs) (i t : ℕ)
    → Early now (js.table i) t s (update_job now s js i).0
unfolding update_job
update_job-Early now s js i t = elim (Bool-cases (js.table i).used) [
  | inr e ↦ inl (rw e refl)
  | inl e ↦ elim (Option-cases (get_thread s (js.table i).tid)) [
    | inl f ↦ inl (rw (e, f) refl)
    | inr (k, f) ↦
        let same : (update_job now s js i).0 ≡ (update_live now s js i k).0 =
          ap (λ u. (if not u then (s, js) else found (get_thread s (js.table i).tid)).0) e
          ∙ ap (λ o. (found o).0) f in
        subst (Early now (js.table i) t s) (sym same) (update_live-Early now s js i k t e f)
  ]
]
  where
    found : Option ℕ → Sched × Jobs
    found o = elim o [
      | none ↦ (s, set_job js i (record (js.table i) { used = false; state = job_done }))
      | some t ↦ update_live now s js i t
    ]

-- Some job from `k` on was due for the thread.
abbrev pub EarlyFrom : ℕ → ℕ → ℕ → Jobs → ℕ → Sched → Sched → Type 0
EarlyFrom now k rounds js t s s' =
    ((s'.thread_table t).state ≡ (s.thread_table t).state)
    ⊎ ((i : ℕ) × (k ≤ i)
        × (i < k + rounds)
        × IsDue now (js.table i) t s
        × ((s.thread_table t).state ≡ blocked)
        × ((s'.thread_table t).state ≡ ready))

then-Early :
    (now k rounds t : ℕ) (s s1 s2 : Sched) (js js1 : Jobs)
    → Woken s s1
    → ((i : ℕ) → k < i → js1.table i ≡ js.table i)
    → Early now (js.table k) t s s1
    → EarlyFrom now (k + 1) rounds js1 t s1 s2
    → EarlyFrom now k (suc rounds) js t s s2
then-Early now k rounds t s s1 s2 js js1 w others (inl e) (inl f) = inl (f ∙ e)
then-Early now k rounds t s s1 s2 js js1 w others (inr (d, b, r)) (inl f) =
    inr (k, omega arith, omega arith, d, b, f ∙ r)
then-Early now k rounds t s s1 s2 js js1 w others (inr (d, b, r)) (inr (i, lo, hi, d', b', r')) =
    absurd (ground arith)
then-Early now k rounds t s s1 s2 js js1 w others (inl e) (inr (i, lo, hi, d, b, r)) = inr (
  i,
  omega arith,
  omega arith,
  subst (λ j. IsDue now j t s) (others i (omega arith))
      (record {
        used = d.used;
        sleeping = d.sleeping;
        timed = d.timed;
        late = d.late;
        thread = sym (get_thread-Woken s s1 (js1.table i).tid w) ∙ d.thread;
        waits = inl (sym e ∙ b);
      }),
  sym e ∙ b,
  r,
)

update_loop-Early :
    (rounds k now t : ℕ) (s : Sched) (js : Jobs)
    → EarlyFrom now k rounds js t s (update_loop rounds k now s js).0
unfolding update_loop
update_loop-Early zero k now t s js = inl refl
update_loop-Early (suc rounds) k now t s js =
    let (s1, js1) = update_job now s js k in
    then-Early now k rounds t s s1 (update_loop rounds (k + 1) now s1 js1).0 js js1
      (update_job-Woken now s js k) (λ i lt. update_job-others now s js k i (λ e. omega arith))
      (update_job-Early now s js k t) (update_loop-Early rounds (k + 1) now t s1 js1)

-- If the invariant of the scheduler holds, it holds after update_jobs, which changes the state of a
-- thread only from blocked to ready, and only where one of the 32 jobs is in use, sleeps until a time
-- that has come, and has the number of that thread.
pub update_jobs-Early :
    (now : ℕ) (s : Sched) (js : Jobs)
    → Sound s
    → Sound (update_jobs now s js).0
      × ((t : ℕ) → EarlyFrom now 0 max_jobs js t s (update_jobs now s js).0)
unfolding update_jobs
update_jobs-Early now s js v = (update_jobs-Sound now s js v, λ t. changes t)
  where
    changes : (t : ℕ) → EarlyFrom now 0 max_jobs js t s (update_jobs now s js).0
    changes t = elim (Bool-cases js.enabled) [
      | inr e ↦ inl (rw (update_jobs, e) refl)
      | inl e ↦
          let same : (update_jobs now s js).0 ≡ (update_loop max_jobs 0 now s js).0 =
            rw (update_jobs, e) refl in
          subst (EarlyFrom now 0 max_jobs js t s) (sym same)
            (update_loop-Early max_jobs 0 now t s js)
    ]
