-- ===== src/Scheduler/Invariant.antt =====
-- What holds of the threads of src/kernel/Processes/scheduler.c between two calls.
use amq_os.Prelude.{ℕ, ◌<◌, ◌≡◌, refl, ap, ◌∙◌, true, some, List, arith, contains}
use amq_os.Scheduler.{
  Sched, ThreadState, ready, running, blocked, terminated, max_threads_global, state_eq,
}
use amq_os.Scheduler.Queue.{Chain-ext, IsQueue, OnlyLinks}

-- The waiting threads are ready and in use, a running thread is the current one, and the current
-- thread is in use.
pub record IsSound (s : Sched) (q : List ℕ) : Type 0 where
  pub queue : IsQueue s q
  pub waiting : (j : ℕ) → contains j q ≡ true → (s.thread_table j).state ≡ ready
  pub waiting_used : (j : ℕ) → contains j q ≡ true → (s.thread_table j).used ≡ true
  pub only_current : (j : ℕ) → (s.thread_table j).state ≡ running → s.current_thread ≡ some j
  pub current_small : (c : ℕ) → s.current_thread ≡ some c → c < max_threads_global
  pub current_used : (c : ℕ) → s.current_thread ≡ some c → (s.thread_table c).used ≡ true

pub state_eq_iff : (a b : ThreadState) → (state_eq a b ≡ true) → a ≡ b
state_eq_iff ready ready h = refl
state_eq_iff running running h = refl
state_eq_iff blocked blocked h = refl
state_eq_iff terminated terminated h = refl
state_eq_iff _ _ h = ground arith

module _ {s s' : Sched} (o : OnlyLinks s s') where
  pub OnlyLinks-state : (j : ℕ) → (s'.thread_table j).state ≡ (s.thread_table j).state
  OnlyLinks-state j = ap (λ t. t.state) (o.thread j)

  pub OnlyLinks-used : (j : ℕ) → (s'.thread_table j).used ≡ (s.thread_table j).used
  OnlyLinks-used j = ap (λ t. t.used) (o.thread j)

  pub OnlyLinks-tid : (j : ℕ) → (s'.thread_table j).tid ≡ (s.thread_table j).tid
  OnlyLinks-tid j = ap (λ t. t.tid) (o.thread j)

  pub OnlyLinks-current : s'.current_thread ≡ s.current_thread
  OnlyLinks-current = ap (λ t. t.current_thread) o.rest

-- Fields other than the links do not matter to the queue.
pub IsQueue-ext :
    (s s' : Sched) (q : List ℕ)
    → ((j : ℕ) → (s'.thread_table j).next ≡ (s.thread_table j).next)
    → s'.ready_queue_head ≡ s.ready_queue_head
    → s'.ready_queue_tail ≡ s.ready_queue_tail
    → IsQueue s q
    → IsQueue s' q
IsQueue-ext s s' q same h t v = record {
  chain =
      rw h (Chain-ext s.thread_table s'.thread_table s.ready_queue_head q (λ j m. same j) v.chain);
  tail = t ∙ v.tail;
  distinct = v.distinct;
  small = v.small;
}
