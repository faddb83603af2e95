-- ===== src/Jobs/Timeouts.antt =====
-- Timeouts of src/kernel/Processes/sleep.c.
use amq_os.Jobs.{timeout_expired, timeout_init, timeout_remaining_ms}
use amq_os.Prelude.{ℕ, ◌+◌, ◌-◌, ◌*◌, ◌/◌, ◌^◌, ◌<◌, ◌≡◌, arith, leb, u64, sub64}

-- For a timeout whose length in milliseconds, times 1000, is a 64-bit number: after fewer than 2^64
-- ticks, also where the counter of ticks wraps in between, it has expired exactly if its length has
-- passed, and the remaining time is what is missing to it.
pub timeout_expired-timeout_init :
    (ticks milliseconds elapsed : ℕ)
    → ticks < 2 ^ 64
    → milliseconds * 1000 < 2 ^ 64
    → elapsed < 2 ^ 64
    → let t = timeout_init ticks milliseconds in
      let now = u64 (ticks + elapsed) in
      (timeout_expired now t ≡ leb milliseconds elapsed)
      × (timeout_remaining_ms now t ≡ milliseconds - elapsed)
unfolding timeout_init timeout_expired timeout_remaining_ms
timeout_expired-timeout_init ticks milliseconds elapsed a b c =
    let passed : sub64 (u64 (ticks + elapsed)) ticks ≡ elapsed = omega arith in
    let length : u64 (milliseconds * 1000) / 1000 ≡ milliseconds = omega arith in
    (rw (passed, length), rw (passed, length) (ground arith))
