-- ===== src/Tests/Proc.antt =====
-- The process table, the scheduler and signals with three processes.
use sinux.Prelude.{
  ℕ, ◌+◌, ◌*◌, ◌-◌, ◌≤◌, ◌<◌, ◌≡◌, refl, ◌⊎◌, true, false, none, some, [], if◌then◌else◌, ◌==◌,
  arith,
}
use sinux.Proc.Types.{
  ready, running, sleeping, call, dfl, SigAction, Process, Table, zero_process, max_procs,
  is_unused,
}
use sinux.Proc.Memory.{Memory}
use sinux.Proc.Table.{Kernel, proc_alloc_fd, proc_create}
use sinux.Mm.Phys.{Mem, poke}
use sinux.Proc.Elf.{Loaded, elf_validate, elf_load}
use sinux.Proc.Elf.Bounds.{InUser, elf_load-InUser}
use sinux.Proc.Table.Find.{IsAt, proc_find_iff}
use sinux.Proc.Table.Find as Find
use sinux.Proc.Table.Create.{Taken, proc_create_lem}
use sinux.Proc.Sched.{Sched, queue_size, ready_from, next_ready, sched_yield}
use sinux.Proc.Sched.Pick.{place, is_ready_at}
use sinux.Proc.Sched.Fair.{PassedOver, next_ready_bounded}
use sinux.Proc.Sched.Running.{OneRuns, Kept, Handed, sched_yield_lem}
use sinux.Proc.Sched.Queue.{Once}
use sinux.Proc.Signal.{System, signal_deliver}
use sinux.Proc.Signal.Pending.{Delivered, LeavesProcs, due_calls, StillPending}
use sinux.Proc.Signal.Deliver.{signal_deliver_handlers}
use sinux.Proc.Signal.Ends.{Ended, signal_deliver_ends}

-- Memory with n pages left.
abbrev pub pages : Memory
pages = record {
  State = ℕ;
  pmm_alloc = λ n. (n * 4096, n - 1);
  pmm_free = λ _ n. n + 1;
  zero_page = λ _ n. n;
  vmm_kernel_pml4 = λ _. 40960;
  vmm_new_pml4 = λ n. (n * 4096, n - 1);
  vmm_destroy_pml4 = λ _ n. n + 1;
}

-- Slot 1 runs, slot 2 is ready, slot 3 is free; SIGUSR1 is pending and caught in slot 1.
abbrev pub runner : Process
runner = record zero_process {
  pid = 1;
  state = running;
  sig_pending = λ n. n == 10;
  sig_actions = λ _. record { handler = call 77; mask = 0; flags = 0 };
}

abbrev pub waiter : Process
waiter = record zero_process { pid = 2; state = ready }

abbrev procs_of : Process → ℕ → Process
procs_of p i = if i == 1 then p else if i == 2 then waiter else zero_process

abbrev pub table : Table
table = record { procs = procs_of runner; current = some 1; next_pid = 3 }

pub table-IsValid : Find.IsValid table
table-IsValid = record { unique = λ i j a b c d e. ground arith; given = λ i a b. ground arith }

gives_0 : (proc_alloc_fd runner 5).0 ≡ some 0
unfolding proc_alloc_fd
gives_0 = refl

abbrev kernel : ℕ → Kernel pages
kernel n = record { table = table; memory = n }

proc_create_lem_example :
    Find.IsValid (proc_create pages (kernel 4)).1.table
    × (((proc_create pages (kernel 4) ≡ (none, kernel 4))
          × ((j : ℕ) → 1 ≤ j → j < max_procs → is_unused (table.procs j).state ≡ false))
        ⊎ ((i : ℕ) × (1 ≤ i)
            × (i < max_procs)
            × (is_unused (table.procs i).state ≡ true)
            × ((j : ℕ) → 1 ≤ j → j < i → is_unused (table.procs j).state ≡ false)
            × Taken pages i (kernel 4) (proc_create pages (kernel 4))))
proc_create_lem_example = proc_create_lem pages (kernel 4) table-IsValid (omega arith)

abbrev sched_with : Process → Sched
sched_with p = record {
  table = record { procs = procs_of p; current = some 1; next_pid = 3 };
  queue = λ i. if i == 0 then some 1 else if i == 1 then some 2 else none;
  q_head = 0;
  q_tail = 2;
  q_count = 2;
  rsp0 = 0;
  cr3 = 0;
}

abbrev pub sched : Sched
sched = sched_with runner

-- It yields to sleep.
abbrev asleep : Sched
asleep = sched_with (record runner { state = sleeping })

runs_1 : OneRuns sched.table 1
runs_1 = record { current = refl; only = λ j e. ground arith }

asleep_1 : OneRuns asleep.table 1
asleep_1 = record { current = refl; only = λ j e. ground arith }

-- Slot 2, the second entry of the queue, is passed over once: slot 3 stands before it, ready.
abbrev third : ℕ → Process
third i = if i == 3 then waiter else procs_of runner i

abbrev line_of_two : Sched
line_of_two = record sched {
  table = record { procs = third; current = some 1; next_pid = 4 };
  queue = λ i. if i == 0 then some 3 else if i == 1 then some 2 else none;
}

passed : PassedOver 1 (place line_of_two 1) line_of_two (next_ready line_of_two).1
unfolding next_ready ready_from
passed = ((λ e. cc), ((next_ready line_of_two).1, refl, refl, refl, refl))

next_ready_bounded_example : 1 ≤ 1
next_ready_bounded_example =
    next_ready_bounded 1 1 line_of_two (next_ready line_of_two).1 (omega arith) refl passed

sched_yield_lem_example :
    (((j : ℕ) → j < queue_size → is_ready_at sched j ≡ false)
      × Kept sched.table 1 (sched_yield 1 sched).table)
    ⊎ ((k : ℕ) × (k < queue_size)
        × (is_ready_at sched k ≡ true)
        × ((j : ℕ) → j < k → is_ready_at sched j ≡ false)
        × ((p : ℕ) × (sched.queue (place sched k) ≡ some p)
            × (((p ≡ 1) × Kept sched.table 1 (sched_yield 1 sched).table)
                ⊎ Handed sched.table 1 p (sched_yield 1 sched).table)))
sched_yield_lem_example = sched_yield_lem sched 1 runs_1

sched-Once : Once sched 2
sched-Once i j a b = ground (arith, a, b)

-- A full queue with the entry 5 taken out.
abbrev holed : Sched
holed = record sched { queue = λ i. if i == 5 then none else some i; q_tail = 0; q_count = 255 }

holed-Once : Once holed 0
holed-Once i j a b = ground (arith, a, b)

abbrev act : SigAction
act = record { handler = call 5; mask = 0; flags = 0 }

abbrev pub system : System pages
system = record { sched = sched; memory = 3; calls = [] }

-- A handler that takes a page for each call.
abbrev counting : ℕ → ℕ → System pages → System pages
counting f sig y = record y { memory = y.memory - 1 }

counting-LeavesProcs : LeavesProcs pages counting
counting-LeavesProcs = record { procs = λ f sig y. refl; calls = λ f sig y. refl }

signal_deliver_handlers_example :
    Delivered pages 1 system (signal_deliver pages counting 1 system) (due_calls 31 1 runner)
    × StillPending pages 31 1 runner ((signal_deliver pages counting 1 system).sched.table.procs 1)
signal_deliver_handlers_example =
    signal_deliver_handlers pages counting counting-LeavesProcs 1 system (λ k a b d e. cc)

-- SIGTERM is pending, with the default action.
abbrev doomed : System pages
doomed = record {
  sched = sched_with (record runner {
    sig_pending = λ n. n == 15;
    sig_actions = λ _. record { handler = dfl; mask = 0; flags = 0 };
  });
  memory = 3;
  calls = [];
}

doomed_1 : OneRuns doomed.sched.table 1
doomed_1 = record { current = refl; only = λ j e. ground arith }

signal_deliver_ends_example : Ended pages 1 15 doomed (signal_deliver pages counting 1 doomed)
signal_deliver_ends_example =
    signal_deliver_ends pages counting 1 15 doomed doomed_1 (omega arith) (omega arith)
      (λ k a b. ground arith) refl refl refl

abbrev blank : Kernel pages
blank = record {
  table = record { procs = λ _. zero_process; current = none; next_pid = 1 };
  memory = 4;
}

-- A header, and one segment of 16 bytes at 0x400000.
abbrev header : Mem
header = poke (poke (poke (poke (poke (poke (λ _. 0) 0 0x7f) 1 0x45) 2 0x4c) 3 0x46) 4 2) 5 1

abbrev program : Mem
program =
    poke
      (poke
        (poke (poke (poke (poke (poke (poke (poke header 16 2) 18 62) 32 64) 54 56) 56 1) 64 1) 82
          0x40)
        96 16)
      104 16

abbrev fresh : Loaded pages
fresh = record { pages = []; memory = 7 }

elf_load-InUser_example :
    InUser (elf_load pages program 200 fresh).1.pages
    × (elf_validate program 200 ≡ false
        → ((elf_load pages program 200 fresh).0.valid ≡ false)
          × ((elf_load pages program 200 fresh).1 ≡ fresh))
elf_load-InUser_example = elf_load-InUser pages program 200 fresh tt
