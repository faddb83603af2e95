-- ===== src/Process.antt =====
-- src/kernel/Processes/process.c: the table of processes.
pub mod Laws
use amq_os.Prelude.{
  ℕ, ◌+◌, ◌<◌, ◌≡◌, Bool, true, false, not, ◌&&◌, Option, none, some, List, [], ltb, ◌==◌, u32,
  if◌then◌else◌, update, scan, take,
}

abbrev pub max_processes : ℕ
max_processes = 64

abbrev pub max_threads_per_process : ℕ
max_threads_per_process = 16

pub data ProcessState : Type 0 where
  ready running blocked terminated : ProcessState

-- `process_t`. A pointer to a thread is its index in `thread_table`, `none` is NULL; a name is the
-- text up to its NUL.
pub record Process : Type 0 where
  pub pid : ℕ
  pub memory_space : ℕ
  pub state : ProcessState
  pub threads : ℕ → Option ℕ
  pub thread_count : ℕ
  pub used : Bool
  pub name : List ℕ

-- `process_table` and `next_pid`.
pub record Processes : Type 0 where
  pub table : ℕ → Process
  pub next_pid : ℕ

abbrev pub no_process : Process
no_process = record {
  pid = 0;
  memory_space = 0;
  state = ProcessState.terminated;
  threads = λ j. none;
  thread_count = 0;
  used = false;
  name = [];
}

-- The slots from 0 to 63 are cleared; `next_pid` is left alone.
unfoldable pub process_init : Processes → Processes
process_init ps = record ps { table = λ i. if ltb i max_processes then no_process else ps.table i }

unfoldable pub find_free_process : Processes → Option ℕ
find_free_process ps = scan (λ i. not (ps.table i).used) 0 max_processes

-- The fields that `process_create` writes. The `threads` of a slot are left as they are, and a name
-- is cut to 63 bytes.
abbrev pub create_at : Processes → ℕ → List ℕ → ℕ → Processes
create_at ps idx name memory_space = record ps {
  table = update ps.table idx (record (ps.table idx) {
    pid = ps.next_pid;
    memory_space = memory_space;
    state = ProcessState.ready;
    thread_count = 0;
    used = true;
    name = take 63 name;
  });
  next_pid = u32 (ps.next_pid + 1);
}

-- The pid of the new process, or `none` for the -1 of a full table.
unfoldable pub process_create : Processes → List ℕ → ℕ → Option ℕ × Processes
unfolding find_free_process
process_create ps name memory_space = elim (find_free_process ps) [
  | none ↦ (none, ps)
  | some idx ↦ (some ps.next_pid, create_at ps idx name memory_space)
]

unfoldable pub get_process : Processes → ℕ → Option ℕ
get_process ps pid = scan (λ i. (ps.table i).used && (ps.table i).pid == pid) 0 max_processes
