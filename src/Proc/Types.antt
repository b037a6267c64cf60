-- ===== src/Proc/Types.antt =====
-- `process_t` of kernel/proc/process.h, and the table of kernel/proc/process.c. A process is named
-- by its index in the table, which stands for its address. The fields of the SMP scheduler and `next`,
-- which none of the files modelled here reads or writes, are left out.
use sinux.Prelude.{ℕ, Bool, true, false, Option, none, List, [], ℤ, pos, update}

pub data PState : Type 0 where
  unused running ready sleeping zombie waiting : PState

-- A handler's address; SIG_DFL and SIG_IGN are 0 and 1.
pub data Handler : Type 0 where
  dfl ign : Handler
  call : ℕ → Handler

pub record SigAction : Type 0 where
  pub handler : Handler
  pub mask : ℕ
  pub flags : ℕ

-- `fd_entry_t`; `none` is NULL.
pub record Fd : Type 0 where
  pub file : Option ℕ
  pub flags : ℕ

pub record Process : Type 0 where
  pub pid : ℕ
  pub ppid : ℕ
  pub state : PState
  pub exit_code : ℤ
  pub rsp : ℕ
  pub pml4 : ℕ  -- 0 for NULL, as in `kstack`
  pub kstack : ℕ
  pub ticks : ℕ
  pub timeslice : ℤ
  pub fds : ℕ → Fd
  pub cwd : List ℕ  -- the bytes before the NUL
  pub sig_pending : ℕ → Bool  -- bit by bit
  pub sig_blocked : ℕ → Bool
  pub sig_actions : ℕ → SigAction
  pub brk : ℕ
  pub brk_start : ℕ

abbrev pub max_procs : ℕ
max_procs = 256

abbrev pub max_fds : ℕ
max_fds = 64

abbrev pub kstack_size : ℕ
kstack_size = 8192

abbrev pub no_fd : Fd
no_fd = record { file = none; flags = 0 }

abbrev pub default_action : SigAction
default_action = record { handler = dfl; mask = 0; flags = 0 }

-- `kmemset(p, 0, sizeof(process_t))`
abbrev pub zero_process : Process
zero_process = record {
  pid = 0;
  ppid = 0;
  state = unused;
  exit_code = pos 0;
  rsp = 0;
  pml4 = 0;
  kstack = 0;
  ticks = 0;
  timeslice = pos 0;
  fds = λ _. no_fd;
  cwd = [];
  sig_pending = λ _. false;
  sig_blocked = λ _. false;
  sig_actions = λ _. default_action;
  brk = 0;
  brk_start = 0;
}

-- The file's static variables. The kernel always runs with a current process after `proc_init`.
pub record Table : Type 0 where
  pub procs : ℕ → Process
  pub current : Option ℕ
  pub next_pid : ℕ

abbrev pub put : Table → ℕ → Process → Table
put t i p = record t { procs = update t.procs i p }

abbrev pub is_unused : PState → Bool
is_unused unused = true
is_unused _ = false

abbrev pub is_ready : PState → Bool
is_ready ready = true
is_ready _ = false

abbrev pub is_running : PState → Bool
is_running running = true
is_running _ = false

abbrev pub is_sleeping : PState → Bool
is_sleeping sleeping = true
is_sleeping _ = false

-- What `sched_wake` and `signal_send` ask for.
abbrev pub is_asleep : PState → Bool
is_asleep sleeping = true
is_asleep waiting = true
is_asleep _ = false
