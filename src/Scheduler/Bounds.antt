-- ===== src/Scheduler/Bounds.antt =====
-- A list of distinct threads of src/kernel/Processes/scheduler.c is no longer than the thread table.
use amq_os.Prelude.{ℕ, ◌≤◌, List, [], ◌∷◌, length, Distinct, AllBelow, length-le_bound}
use amq_os.Scheduler.{max_threads_global}
use amq_os.Scheduler.Queue.{AllSmall}

AllSmall→AllBelow : (q : List ℕ) → AllSmall q → AllBelow max_threads_global q
AllSmall→AllBelow [] a = tt
AllSmall→AllBelow (i ∷ q) a = (a.0, AllSmall→AllBelow q a.1)

pub length-le_table : (q : List ℕ) → Distinct q → AllSmall q → length q ≤ max_threads_global
length-le_table q d a = length-le_bound max_threads_global q d (AllSmall→AllBelow q a)
