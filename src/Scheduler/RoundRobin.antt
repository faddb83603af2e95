-- ===== src/Scheduler/RoundRobin.antt =====
-- `schedule` of src/kernel/Processes/scheduler.c as a whole: which thread runs next.
use amq_os.Prelude.{
  ℕ, ◌≡◌, refl, ap, ◌∙◌, subst, inl, inr, true, false, Option, none, some, List, ◌∷◌, arith, ◌==◌,
  if◌then◌else◌, Bool-cases, ==_iff,
}
use amq_os.Scheduler.{
  Sched, running, Outcome, returned, started, switched, requeue, take_head, switch_from, dispatch,
  schedule,
}
use amq_os.Scheduler.Queue.{Chain-ext, IsQueue}
use amq_os.Scheduler.Unlink.{tail_behind_first}
use amq_os.Scheduler.Invariant.{IsSound, IsQueue-ext}
use amq_os.Scheduler.Choice.{IsPaused, queue_with, requeue-IsPaused}

take_head-IsQueue : (s : Sched) (n : ℕ) (r : List ℕ) → IsQueue s (n ∷ r) → IsQueue (take_head s n) r
unfolding take_head
take_head-IsQueue s n r v = record {
  chain =
      Chain-ext s.thread_table (take_head s n).thread_table (s.thread_table n).next r
        (λ j m. ground (arith, v.distinct)) v.chain.1;
  tail = ground (arith, v.tail, tail_behind_first n r v.distinct.0);
  distinct = v.distinct.1;
  small = v.small.1;
}

abbrev picked : Sched → ℕ → Sched
picked s n = record (take_head s n) { current_thread = some n; in_scheduler = false }

picked-IsSound :
    (s s' : Sched) (n : ℕ) (r : List ℕ) → IsPaused s s' (n ∷ r) → IsSound (picked s' n) r
unfolding take_head
picked-IsSound s s' n r v = record {
  queue =
      IsQueue-ext (take_head s' n) (picked s' n) r (λ j. refl) refl refl
        (take_head-IsQueue s' n r v.queue);
  waiting = λ j m. ground (arith, v.waiting j, v.queue.distinct);
  waiting_used = λ j m. ground (arith, v.waiting_used j);
  only_current = λ j m. ground (arith, v.idle j);
  current_small = λ c e. ground (arith, v.queue.small);
  current_used = λ c e. ground (arith, v.waiting_used n);
}

-- How the call ends, by the thread that was current and the one that runs next.
unfoldable pub outcome_of : Option ℕ → ℕ → Outcome
outcome_of none n = started n
outcome_of (some p) n = if p == n then returned else switched p n

dispatch-some :
    (s : Sched) (prev : Option ℕ) (n : ℕ)
    → s.current_thread ≡ prev
    → dispatch s prev (some n) ≡ (outcome_of prev n, picked s n)
unfolding dispatch switch_from outcome_of take_head
dispatch-some s none n e = refl
dispatch-some s (some p) n e = elim (Bool-cases (p == n)) [
  | inl h ↦ rw h (
      ap {B = Outcome × Sched}
        (λ c. (returned, record (take_head s n) { current_thread = c; in_scheduler = false }))
        (e ∙ ap some ((==_iff p n).0 h)))
  | inr h ↦ rw h
]

abbrev pub requeued : Sched → Sched
requeued s = requeue (record s { in_scheduler = true }) s.current_thread

pub schedule-eq-dispatch :
    (s : Sched)
    → s.scheduler_enabled ≡ true
    → s.in_scheduler ≡ false
    → schedule s ≡ dispatch (requeued s) s.current_thread (requeued s).ready_queue_head
unfolding schedule
schedule-eq-dispatch s on free = ground arith

-- If the invariant holds, the scheduler is enabled and not being called already, and a thread is ready
-- once a running current thread has gone to the end of the queue, `schedule` takes the first thread
-- off, which becomes current and running, and returns, starts it or switches to it by what was current;
-- the rest of the queue keeps its order, and the invariant holds again.
pub schedule_picks_first :
    (s : Sched) (q : List ℕ) (n : ℕ) (r : List ℕ)
    → IsSound s q
    → s.scheduler_enabled ≡ true
    → s.in_scheduler ≡ false
    → queue_with s s.current_thread q ≡ n ∷ r
    → let (out, s') = schedule s in
      (out ≡ outcome_of s.current_thread n)
      × IsSound s' r
      × (s'.current_thread ≡ some n)
      × ((s'.thread_table n).state ≡ running)
      × (s'.in_scheduler ≡ false)
schedule_picks_first s q n r v on free w =
    let paused : IsPaused s (requeued s) (n ∷ r) =
      subst (IsPaused s (requeued s)) w (requeue-IsPaused s q s.current_thread v refl) in
    rw
      (schedule-eq-dispatch s on free
        ∙ ap (dispatch (requeued s) s.current_thread) paused.queue.chain.0
        ∙ dispatch-some (requeued s) s.current_thread n paused.current)
      (refl, picked-IsSound s (requeued s) n r paused, refl, unfold take_head in ground arith, refl)
