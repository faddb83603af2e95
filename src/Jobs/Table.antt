-- ===== src/Jobs/Table.antt =====
-- The table of jobs of src/kernel/Processes/fg.c.
use amq_os.Jobs.{
  Jobs, fill_job, get_job, max_jobs, remove_job, add_bg_job, add_fg_job, find_free_job_slot,
}
use amq_os.Jobs.{
  Jobs, add_bg_job, add_fg_job, fill_job, find_free_job_slot, get_job, job_done, max_jobs,
  remove_job, set_job,
}
use amq_os.Prelude.{
  ℕ, ◌+◌, ◌^◌, ◌<◌, ◌≡◌, refl, sym, ap, ◌∙◌, ◌≢◌, inl, inr, Bool, true, false, not, ◌&&◌, none,
  some, List, arith, ◌==◌, if◌then◌else◌, Option-cases, update_ne, scan, scan-some, scan-ne-none,
}

-- Every id in use is smaller than the next one, and no two used slots share an id.
pub record IsValid (js : Jobs) : Type 0 where
  pub fresh : (i : ℕ) → (js.table i).used ≡ true → (js.table i).job_id < js.next_job_id
  pub distinct :
      (i j : ℕ)
      → (js.table i).used ≡ true
      → (js.table j).used ≡ true
      → (js.table i).job_id ≡ (js.table j).job_id
      → i ≡ j

fill_job-IsValid :
    (js : Jobs) (i : ℕ) (background : Bool) (command : List ℕ) (pid tid : ℕ)
    → IsValid js
    → js.next_job_id + 1 < 2 ^ 32
    → IsValid (fill_job js i background command pid tid)
fill_job-IsValid js i background command pid tid v room = record {
  fresh = λ k u. ground (arith, v.fresh k);
  distinct = λ k j p q e. ground (arith, v.fresh k, v.fresh j, v.distinct k j);
}

-- A valid table has the id of a used slot in no other slot.
get_job-used :
    (js : Jobs) (i id : ℕ)
    → IsValid js
    → i < max_jobs
    → (js.table i).used ≡ true
    → (js.table i).job_id ≡ id
    → get_job js id ≡ some i
unfolding get_job
get_job-used js i id v small u same =
    let test : ℕ → Bool = λ k. (js.table k).used && (js.table k).job_id == id in
    let here : test i ≡ true = ground arith in
    elim (Option-cases (scan test 0 max_jobs)) [
      | inl e ↦ absurd (scan-ne-none test 0 max_jobs i (omega arith) small here e)
      | inr (k, e) ↦
          let hit : test k ≡ true = (scan-some test 0 max_jobs k e).2 in
          let only : k ≡ i = v.distinct k i (ground arith) u (ground arith) in e ∙ ap some only
    ]

-- `remove_job`, once the slot is known.
unfoldable removed : Jobs → ℕ → Jobs
removed js i = set_job js i (record (js.table i) { used = false; state = job_done })

remove_job-removed :
    (js : Jobs) (id i : ℕ) → get_job js id ≡ some i → remove_job js id ≡ removed js i
unfolding remove_job removed
remove_job-removed js id i h = rw (remove_job, h) refl

get_job-removed :
    (js : Jobs) (id i : ℕ) → IsValid js → get_job js id ≡ some i → get_job (removed js i) id ≡ none
unfolding get_job removed
get_job-removed js id i v h =
    let first : (js.table i).used && (js.table i).job_id == id ≡ true =
      (scan-some (λ k. (js.table k).used && (js.table k).job_id == id) 0 max_jobs i h).2 in
    elim (Option-cases (get_job (removed js i) id)) [
      | inl e ↦ e
      | inr (k, e) ↦
          let hit =
            (scan-some (λ k. ((removed js i).table k).used && ((removed js i).table k).job_id == id)
              0 max_jobs k e).2 in
          absurd (ground (arith, v.distinct k i))
    ]

removed-others : (js : Jobs) (i j : ℕ) → j ≢ i → (removed js i).table j ≡ js.table j
unfolding removed
removed-others js i j h = update_ne js.table i _ j (λ e. h (sym e))

added_as :
    (js : Jobs) (background : Bool) (command : List ℕ) (pid tid i : ℕ)
    → find_free_job_slot js ≡ some i
    → (if background then add_bg_job js command pid tid else add_fg_job js command pid tid)
      ≡ (some js.next_job_id, fill_job js i background command pid tid)
unfolding add_bg_job add_fg_job
added_as js true command pid tid i h = rw (add_bg_job, h) refl
added_as js false command pid tid i h = rw (add_fg_job, h) refl

-- While ids are fresh and distinct and do not wrap, and a slot is free: adding a job, in the foreground
-- or in the background, takes that slot, returns an id that looks it up, and keeps ids fresh and
-- distinct; removing the id then leaves no job with it and every other slot as it was.
pub remove_job-add_job :
    (js : Jobs) (background : Bool) (command : List ℕ) (pid tid i : ℕ)
    → IsValid js
    → js.next_job_id + 1 < 2 ^ 32
    → find_free_job_slot js ≡ some i
    → (js' : Jobs) × ((if background
          then add_bg_job js command pid tid
          else add_fg_job js command pid tid)
        ≡ (some js.next_job_id, js'))
      × (get_job js' js.next_job_id ≡ some i)
      × ((js'.table i).is_background ≡ background)
      × IsValid js'
      × (get_job (remove_job js' js.next_job_id) js.next_job_id ≡ none)
      × ((j : ℕ) → j ≢ i → (remove_job js' js.next_job_id).table j ≡ js.table j)
unfolding find_free_job_slot
remove_job-add_job js background command pid tid i v room free =
    let js' = fill_job js i background command pid tid in
    let id = js.next_job_id in
    let bounds = scan-some (λ j. not (js.table j).used) 0 max_jobs i free in
    let valid = fill_job-IsValid js i background command pid tid v room in
    let found =
      get_job-used js' i id valid (omega (arith, bounds.1)) (ground arith) (ground arith) in
    let gone = remove_job-removed js' id i found in
    (
      js',
      added_as js background command pid tid i free,
      found,
      ground arith,
      valid,
      ap (λ x. get_job x id) gone ∙ get_job-removed js' id i valid found,
      λ j h.
          ap (λ x. x.table j) gone
          ∙ removed-others js' i j h
          ∙ update_ne js.table i _ j (λ e. h (sym e)),
    )
