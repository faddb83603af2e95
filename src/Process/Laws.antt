-- ===== src/Process/Laws.antt =====
-- src/kernel/Processes/process.c: identifiers and slots of processes.
use amq_os.Prelude.{
  ℕ, ◌+◌, ◌^◌, ◌<◌, ◌≡◌, sym, ap, ◌∙◌, ◌≢◌, ◌⊎◌, inl, inr, Bool, true, false, not, ◌&&◌, none, some,
  List, arith, ◌==◌, Option-cases, update_ne, scan, scan-some, scan-first, scan-ne-none,
}
use amq_os.Process.{
  Processes, max_processes, find_free_process, process_create, get_process, create_at,
}

-- Every pid in use is smaller than the next one, and no two used slots share a pid.
pub record IsValid (ps : Processes) : Type 0 where
  pub fresh : (i : ℕ) → (ps.table i).used ≡ true → (ps.table i).pid < ps.next_pid
  pub distinct :
      (i j : ℕ)
      → (ps.table i).used ≡ true
      → (ps.table j).used ≡ true
      → (ps.table i).pid ≡ (ps.table j).pid
      → i ≡ j

module _ (ps : Processes) (v : IsValid ps) (name : List ℕ) (space : ℕ) where
  create_at-IsValid : (idx : ℕ) → ps.next_pid + 1 < 2 ^ 32 → IsValid (create_at ps idx name space)
  create_at-IsValid idx room = record {
    fresh = λ i u. ground (arith, v.fresh i);
    distinct = λ i j p q e. ground (arith, v.fresh i, v.fresh j, v.distinct i j);
  }

  -- The slot that was filled is the one that a lookup of the new pid finds.
  get_process-create_at :
      (idx : ℕ)
      → idx < max_processes
      → get_process (create_at ps idx name space) ps.next_pid ≡ some idx
  unfolding get_process
  get_process-create_at idx small = elim (Option-cases (scan test 0 max_processes)) [
    | inl e ↦ absurd (scan-ne-none test 0 max_processes idx (omega arith) small here e)
    | inr (i, e) ↦ e ∙ ap some (only i (scan-some test 0 max_processes i e).2)
  ]
    where
      test : ℕ → Bool
      test i =
          ((create_at ps idx name space).table i).used
          && ((create_at ps idx name space).table i).pid == ps.next_pid

      here : test idx ≡ true
      here = ground arith

      only : (i : ℕ) → test i ≡ true → i ≡ idx
      only i h = ground (arith, v.fresh i)

-- While pids are fresh and distinct and do not wrap, creating a process either fails, on a full table,
-- and changes nothing; or it takes the first free slot, keeps pids fresh and distinct, leaves every
-- other slot as it was, and the pid that it returns looks up that slot.
pub process_create_lem :
    (ps : Processes) (name : List ℕ) (space : ℕ)
    → IsValid ps
    → ps.next_pid + 1 < 2 ^ 32
    → ((process_create ps name space ≡ (none, ps))
        × ((i : ℕ) → i < max_processes → (ps.table i).used ≡ true))
      ⊎ ((idx : ℕ) × (ps' : Processes) × (process_create ps name space ≡ (some ps.next_pid, ps'))
          × (idx < max_processes)
          × ((ps.table idx).used ≡ false)
          × ((j : ℕ) → j < idx → (ps.table j).used ≡ true)
          × IsValid ps'
          × ((j : ℕ) → j ≢ idx → ps'.table j ≡ ps.table j)
          × (get_process ps' ps.next_pid ≡ some idx))
unfolding process_create find_free_process
process_create_lem ps name space v room = elim (Option-cases (scan test 0 max_processes)) [
  | inl e ↦ inl (rw (e, process_create), λ i h. full i h e)
  | inr (idx, e) ↦ inr (
    idx,
    create_at ps idx name space,
    rw (e, process_create),
    (scan-some test 0 max_processes idx e).1,
    ground (arith, scan-some test 0 max_processes idx e),
    λ j h. ground (arith, scan-first test 0 max_processes idx j e),
    create_at-IsValid ps v name space idx room,
    λ j h. update_ne ps.table idx _ j (λ p. h (sym p)),
    get_process-create_at ps v name space idx (scan-some test 0 max_processes idx e).1,
  )
]
  where
    test : ℕ → Bool
    test i = not (ps.table i).used

    full : (i : ℕ) → i < max_processes → scan test 0 max_processes ≡ none → (ps.table i).used ≡ true
    full i h e = ground (arith, scan-ne-none test 0 max_processes i)
