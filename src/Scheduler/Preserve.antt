-- ===== src/Scheduler/Preserve.antt =====
-- `schedule` of src/kernel/Processes/scheduler.c keeps the invariant, whatever the flags say.
use amq_os.Prelude.{
  ℕ, ◌≡◌, refl, sym, subst, ◌⊎◌, inl, inr, true, false, List, [], ◌∷◌, arith, Bool-cases,
}
use amq_os.Scheduler.{Sched, returned, schedule}
use amq_os.Scheduler.Invariant.{IsSound}
use amq_os.Scheduler.Choice.{queue_with}
use amq_os.Scheduler.RoundRobin.{schedule_picks_first}
use amq_os.Scheduler.Idle.{schedule_when_empty}

List-cases : (q : List ℕ) → (q ≡ []) ⊎ ((n : ℕ) × (r : List ℕ) × (q ≡ n ∷ r))
List-cases [] = inl refl
List-cases (n ∷ r) = inr (n, r, refl)

schedule-disabled : (s : Sched) → s.scheduler_enabled ≡ false → schedule s ≡ (returned, s)
unfolding schedule
schedule-disabled s e = ground arith

schedule-busy : (s : Sched) → s.in_scheduler ≡ true → schedule s ≡ (returned, s)
unfolding schedule
schedule-busy s e = ground arith

abbrev pub Sound : Sched → Type 0
Sound s = (q : List ℕ) × IsSound s q

-- A call of `schedule` keeps the invariant for some queue.
pub schedule-Sound : (s : Sched) → Sound s → Sound (schedule s).1
schedule-Sound s (q, v) = elim (Bool-cases s.scheduler_enabled) [
  | inr off ↦ subst (λ r. Sound r.1) (sym (schedule-disabled s off)) (q, v)
  | inl on ↦ elim (Bool-cases s.in_scheduler) [
    | inl busy ↦ subst (λ r. Sound r.1) (sym (schedule-busy s busy)) (q, v)
    | inr free ↦ elim (List-cases (queue_with s s.current_thread q)) [
      | inl w ↦ ([], (schedule_when_empty s q v on free w).1)
      | inr (n, r, w) ↦ (r, (schedule_picks_first s q n r v on free w).1)
    ]
  ]
]
