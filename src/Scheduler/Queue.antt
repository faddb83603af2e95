-- ===== src/Scheduler/Queue.antt =====
-- The ready queue of src/kernel/Processes/scheduler.c: the pointers hold a list of distinct threads.
use amq_os.Prelude.{
  ℕ, ◌<◌, ◌≡◌, refl, ◌≢◌, inl, inr, true, Option, none, some, List, [], ◌∷◌, ◌++◌, arith, ◌==◌,
  Bool-cases, contains, Distinct, without,
}
use amq_os.Scheduler.{Sched, Thread, max_threads_global}

abbrev pub last? : List ℕ → Option ℕ
last? [] = none
last? (i ∷ []) = some i
last? (i ∷ j ∷ q) = last? (j ∷ q)

-- The `next` fields lead from `p` through the threads of the list to NULL.
abbrev pub Chain : (ℕ → Thread) → Option ℕ → List ℕ → Type 0
Chain t p [] = p ≡ none
Chain t p (i ∷ q) = (p ≡ some i) × Chain t (t i).next q

abbrev pub AllSmall : List ℕ → Type 0
AllSmall [] = Unit
AllSmall (i ∷ q) = (i < max_threads_global) × AllSmall q

pub record IsQueue (s : Sched) (q : List ℕ) : Type 0 where
  pub chain : Chain s.thread_table s.ready_queue_head q
  pub tail : s.ready_queue_tail ≡ last? q
  pub distinct : Distinct q
  pub small : AllSmall q

-- The two states differ in the `next` fields and in the ends of the queue alone.
pub record OnlyLinks (s s' : Sched) : Type 0 where
  pub thread :
      (j : ℕ) → s'.thread_table j ≡ record (s.thread_table j) { next = (s'.thread_table j).next }
  pub rest : s' ≡ record s {
    thread_table = s'.thread_table;
    ready_queue_head = s'.ready_queue_head;
    ready_queue_tail = s'.ready_queue_tail;
  }

pub Chain-ext :
    (t t' : ℕ → Thread) (p : Option ℕ) (q : List ℕ)
    → ((j : ℕ) → contains j q ≡ true → (t' j).next ≡ (t j).next)
    → Chain t p q
    → Chain t' p q
Chain-ext t t' p [] same c = c
Chain-ext t t' p (i ∷ q) same c = (
  c.0,
  Chain-ext t t' (t' i).next q (λ j m. same j (ground arith)) (rw (same i (ground arith)) c.1),
)

pub without-AllSmall : (i : ℕ) (q : List ℕ) → AllSmall q → AllSmall (without i q)
without-AllSmall i [] d = tt
without-AllSmall i (j ∷ q) d = elim (Bool-cases (j == i)) [
  | inl e ↦ rw e (without-AllSmall i q d.1)
  | inr e ↦ rw e (d.0, without-AllSmall i q d.1)
]

pub append-AllSmall :
    (i : ℕ) (q : List ℕ) → i < max_threads_global → AllSmall q → AllSmall (q ++ i ∷ [])
append-AllSmall i [] h d = (h, tt)
append-AllSmall i (j ∷ q) h d = (d.0, append-AllSmall i q h d.1)

pub last?-append : (i : ℕ) (q : List ℕ) → last? (q ++ i ∷ []) ≡ some i
last?-append i [] = refl
last?-append i (j ∷ []) = refl
last?-append i (j ∷ k ∷ q) = last?-append i (k ∷ q)

pub contains-last? : (q : List ℕ) (t : ℕ) → last? q ≡ some t → contains t q ≡ true
contains-last? [] t h = absurd (ground arith)
contains-last? (i ∷ []) t h = ground arith
contains-last? (i ∷ j ∷ q) t h = ground (arith, contains-last? (j ∷ q) t h)

-- Writing `i` behind the last thread of a chain extends the chain by `i`.
pub Chain-append :
    (t t' : ℕ → Thread) (p : Option ℕ) (q : List ℕ) (i last : ℕ)
    → last? q ≡ some last
    → Distinct q
    → (t' i).next ≡ none
    → (t' last).next ≡ some i
    → ((j : ℕ) → contains j q ≡ true → j ≢ last → (t' j).next ≡ (t j).next)
    → Chain t p q
    → Chain t' p (q ++ i ∷ [])
Chain-append t t' p [] i last l d a b same c = absurd (ground arith)
Chain-append t t' p (k ∷ []) i last l d a b same c = ground arith
Chain-append t t' p (k ∷ m ∷ q) i last l d a b same c = (
  c.0,
  rw (same k (ground arith) (λ e. absurd (ground (arith, contains-last? (m ∷ q) last l))))
      (Chain-append t t' (t k).next (m ∷ q) i last l d.1 a b (λ j n. same j (ground arith)) c.1),
)
