-- ===== src/Scheduler/Idle.antt =====
-- `schedule` of src/kernel/Processes/scheduler.c when no thread is ready.
use amq_os.Prelude.{
  ℕ, ◌≡◌, refl, sym, ap, ◌∙◌, subst, ◌≢◌, ◌⊎◌, inl, inr, true, false, Option, none, some, List, [],
  ◌∷◌, ◌++◌, arith, Bool-cases,
}
use amq_os.Scheduler.{
  Sched, running, blocked, Outcome, returned, halted, state_eq, requeue, dispatch_none, dispatch,
  schedule,
}
use amq_os.Scheduler.Invariant.{IsSound, IsQueue-ext, state_eq_iff}
use amq_os.Scheduler.Choice.{queue_with}
use amq_os.Scheduler.RoundRobin.{schedule-eq-dispatch}

append-ne-nil : (q : List ℕ) (p : ℕ) → q ++ p ∷ [] ≢ []
append-ne-nil [] p h = ground arith
append-ne-nil (k ∷ q) p h = ground arith

requeued-idle :
    (s : Sched) (q : List ℕ) (prev : Option ℕ)
    → queue_with s prev q ≡ []
    → (q ≡ [])
      × (requeue (record s { in_scheduler = true }) prev ≡ record s { in_scheduler = true })
unfolding requeue queue_with
requeued-idle s q none w = (w, refl)
requeued-idle s q (some p) w = elim (Bool-cases (state_eq (s.thread_table p).state running)) [
  | inl e ↦ absurd (append-ne-nil q p (rw e at w))
  | inr e ↦ (rw e at w, rw e)
]

-- What a call that found no thread to run has done, by the thread that was current.
abbrev pub EmptyCall : Sched → Outcome × Sched → Type 0
EmptyCall s (out, s') =
    ((out ≡ halted)
      × ((p : ℕ) × (s.current_thread ≡ some p) × ((s.thread_table p).state ≡ blocked))
      × (s' ≡ record s { current_thread = none; in_scheduler = false }))
    ⊎ ((out ≡ returned)
        × ((p : ℕ) → s.current_thread ≡ some p → (s.thread_table p).state ≢ blocked)
        × (s' ≡ record s { in_scheduler = false }))

dispatch_none-EmptyCall :
    (s : Sched) (prev : Option ℕ)
    → s.current_thread ≡ prev
    → EmptyCall s (dispatch_none (record s { in_scheduler = true }) prev)
unfolding dispatch_none
dispatch_none-EmptyCall s none e = inr (refl, λ p h. absurd (ground arith), refl)
dispatch_none-EmptyCall s (some p) e =
    elim (Bool-cases (state_eq (s.thread_table p).state blocked)) [
      | inl b ↦ rw b (inl (refl, (p, e, state_eq_iff _ _ b), refl))
      | inr b ↦ rw b (inr (refl, λ j h k. absurd (ground arith), refl))
    ]

EmptyCall-IsSound :
    (s : Sched) (r : Outcome × Sched) → IsSound s [] → EmptyCall s r → IsSound r.1 []
EmptyCall-IsSound s r v (inl (out, (p, c, b), e)) =
    subst (λ t. IsSound t []) (sym e)
      (record {
        queue = IsQueue-ext s _ [] (λ j. refl) refl refl v.queue;
        waiting = v.waiting;
        waiting_used = v.waiting_used;
        only_current = λ j m. ground (arith, v.only_current j);
        current_small = λ k h. ground arith;
        current_used = λ k h. ground arith;
      })
EmptyCall-IsSound s r v (inr (out, n, e)) =
    subst (λ t. IsSound t []) (sym e)
      (record {
        queue = IsQueue-ext s _ [] (λ j. refl) refl refl v.queue;
        waiting = v.waiting;
        waiting_used = v.waiting_used;
        only_current = v.only_current;
        current_small = v.current_small;
        current_used = v.current_used;
      })

-- If the invariant holds, the scheduler is enabled and not being called already, and there is no thread
-- to run, not even the current one, `schedule` halts exactly if the current thread is blocked, and then
-- gives it up without storing its stack pointer; otherwise it returns. Nothing else changes, and the
-- invariant holds again.
pub schedule_when_empty :
    (s : Sched) (q : List ℕ)
    → IsSound s q
    → s.scheduler_enabled ≡ true
    → s.in_scheduler ≡ false
    → queue_with s s.current_thread q ≡ []
    → EmptyCall s (schedule s) × IsSound (schedule s).1 []
unfolding dispatch
schedule_when_empty s q v on free w =
    let idle = requeued-idle s q s.current_thread w in
    let v' : IsSound s [] = subst (IsSound s) idle.0 v in
    let call : schedule s ≡ dispatch_none (record s { in_scheduler = true }) s.current_thread =
      schedule-eq-dispatch s on free
      ∙ ap (λ t. dispatch t s.current_thread t.ready_queue_head) idle.1
      ∙ ap (dispatch (record s { in_scheduler = true }) s.current_thread) v'.queue.chain in
    let done : EmptyCall s (schedule s) =
      subst (EmptyCall s) (sym call) (dispatch_none-EmptyCall s s.current_thread refl) in
    (done, EmptyCall-IsSound s (schedule s) v' done)
