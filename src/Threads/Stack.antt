-- ===== src/Threads/Stack.antt =====
-- `setup_thread_context` and `switch_to_thread` of src/kernel/Processes/scheduler.c: the words that
-- stand on the stack of a thread that does not run.
use amq_os.Prelude.{ℕ, ◌+◌, ◌%◌, ◌^◌, ◌≤◌, ◌<◌, ◌≡◌, ◌⊎◌, [], ◌∷◌, arith, u64, sub64, update_self}
use amq_os.Scheduler.{Sched}
use amq_os.Threads.{write_words, initial_frame, stack_top, initial_context, setup_thread_context}

-- What `switch_to_thread` keeps on the stack.
pub record Saved : Type 0 where
  pub rflags : ℕ
  pub rbx : ℕ
  pub rbp : ℕ
  pub r12 : ℕ
  pub r13 : ℕ
  pub r14 : ℕ
  pub r15 : ℕ

-- The first half of `switch_to_thread`: seven pushes from `rsp`; the result is the stack pointer that
-- it stores.
pub save_context : (ℕ → ℕ) → ℕ → Saved → (ℕ → ℕ) × ℕ
unfolding write_words
save_context m rsp r =
    let low = sub64 rsp 56 in
    (write_words m low (r.rflags ∷ r.rbx ∷ r.rbp ∷ r.r12 ∷ r.r13 ∷ r.r14 ∷ r.r15 ∷ []), low)

-- Its second half: seven pops and the return. The results are the registers, the address that it
-- returns to, and the stack pointer after that.
pub restore_context : (ℕ → ℕ) → ℕ → Saved × ℕ × ℕ
restore_context m rsp = (
  record {
    rflags = m rsp;
    rbx = m (rsp + 8);
    rbp = m (rsp + 16);
    r12 = m (rsp + 24);
    r13 = m (rsp + 32);
    r14 = m (rsp + 40);
    r15 = m (rsp + 48);
  },
  m (rsp + 56),
  u64 (rsp + 64),
)

-- The registers of a thread that has not run yet.
abbrev pub fresh_registers : Saved
fresh_registers = record { rflags = 0x202; rbx = 0; rbp = 0; r12 = 0; r13 = 0; r14 = 0; r15 = 0 }

-- A thread that was switched away from and whose stack is left alone resumes with the registers that
-- it had, at the return address that stood on its stack, and with that address popped, if the pushes
-- and the pop stay within the 64-bit addresses.
pub restore_context-save_context :
    (m : ℕ → ℕ) (rsp : ℕ) (r : Saved)
    → 56 ≤ rsp
    → rsp + 8 < 2 ^ 64
    → let (m', rsp') = save_context m rsp r in restore_context m' rsp' ≡ (r, m rsp, rsp + 8)
unfolding restore_context save_context
restore_context-save_context m rsp r lo hi = ground arith

restore_context-initial_frame :
    (m : ℕ → ℕ) (rsp wrapper : ℕ)
    → rsp + 64 < 2 ^ 64
    → restore_context (write_words m rsp (initial_frame wrapper)) rsp
      ≡ (fresh_registers, wrapper, rsp + 64)
unfolding restore_context write_words
restore_context-initial_frame m rsp wrapper h = ground arith

write_words-outside :
    (m : ℕ → ℕ) (rsp wrapper a : ℕ)
    → (a < rsp) ⊎ (rsp + 64 ≤ a)
    → write_words m rsp (initial_frame wrapper) a ≡ m a
unfolding write_words
write_words-outside m rsp wrapper a h = ground arith

rsp_bounds :
    (base size : ℕ)
    → 80 ≤ size
    → base + size < 2 ^ 64
    → let rsp = sub64 (stack_top base size) 64 in
      (base ≤ rsp) × (rsp + 64 ≤ base + size) × ((rsp + 64) % 16 ≡ 0)
rsp_bounds base size h k = omega arith

-- A new thread with a stack of at least 80 bytes, whose end is an address, starts at `thread_wrapper` with interrupts enabled
-- and cleared registers; the words from its stack pointer on that are then taken off lie inside its
-- stack and leave the pointer aligned to 16 bytes, and no other word of the memory was written.
pub setup_thread_context_lem :
    (wrapper : ℕ) (s : Sched) (i base : ℕ)
    → 80 ≤ (s.thread_table i).stack_size
    → base + (s.thread_table i).stack_size < 2 ^ 64
    → let s' = setup_thread_context wrapper s i base in
      let rsp = (s'.thread_table i).context.rsp in
      (restore_context s'.memory rsp ≡ (fresh_registers, wrapper, rsp + 64))
      × (base ≤ rsp)
      × (rsp + 64 ≤ base + (s.thread_table i).stack_size)
      × ((rsp + 64) % 16 ≡ 0)
      × ((a : ℕ) → (a < rsp) ⊎ (rsp + 64 ≤ a) → s'.memory a ≡ s.memory a)
unfolding setup_thread_context
setup_thread_context_lem wrapper s i base big fits =
    let size = (s.thread_table i).stack_size in
    let rsp = sub64 (stack_top base size) 64 in
    let bounds = rsp_bounds base size big fits in
    rw
      (update_self s.thread_table i
        (record (s.thread_table i) { context = initial_context rsp wrapper }))
      (
        restore_context-initial_frame s.memory rsp wrapper (omega (arith, bounds)),
        bounds.0,
        bounds.1,
        bounds.2,
        write_words-outside s.memory rsp wrapper,
      )
