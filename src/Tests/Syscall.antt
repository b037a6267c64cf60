-- ===== src/Tests/Syscall.antt =====
-- kernel/syscall/syscall.c over two processes, and files of which each call opens a new one.
use sinux.Prelude.{
  ℕ, ◌+◌, ◌-◌, ◌*◌, ◌≡◌, refl, Option, none, some, List, [], ◌∷◌, pos, ret, if◌then◌else◌, ◌==◌,
  arith,
}
use sinux.Proc.Types.{Process, Table, zombie, zero_process}
use sinux.Proc.OpenFiles.{Files}
use sinux.Proc.Table.{proc_alloc_fd, proc_create, proc_find}
use sinux.Proc.Table.Find.{IsValid}
use sinux.Syscall.{Sys, UserContext, sys_open, sys_fork, wait_round, sys_wait4}
use sinux.Syscall.Descriptors.{Answers, with_files, sys_open-sys_close}
use sinux.Syscall.Wait.{Ends, Reaches, sys_wait4_lem}
use sinux.Tests.Proc.{pages, table, system, waiter, runner}

abbrev opens : List ℕ → ℕ → ℕ → Option ℕ × ℕ
opens [] flags n = (none, n)
opens (c ∷ path) flags n = (some n, n + 1)

abbrev files : Files
files = record {
  State = ℕ;
  vfs_open = opens;
  vfs_close = λ f n. n;
  vfs_read = λ f k n. ((ret 0, []), n);
  vfs_write = λ f bytes n. (ret 1, n);
  share = λ f n. n;
}

abbrev clone : ℕ → ℕ → ℕ × ℕ
clone pml4 n = (n * 4096, n - 1)

abbrev start : Sys pages files clone
start = record { system = system; open_files = 7; frame = [] }

abbrev context : UserContext
context = record { stub = 4096; rip = 8192; rsp = 12288; rflags = 2 }

gives_lowest : (sys_open pages files clone 1 (b'f' ∷ []) 0 start).0 ≡ ret 0
unfolding sys_open proc_alloc_fd
gives_lowest = refl

sys_open-sys_close_example :
    Answers pages files clone 1
      (some 7)
      (with_files pages files clone start 8)
      (sys_open pages files clone 1 (b'f' ∷ []) 0 start)
sys_open-sys_close_example = sys_open-sys_close pages files clone 1 0 (b'f' ∷ []) start

forks : (sys_fork pages files clone 1 context start).0 ≡ some (ret 3)
unfolding sys_fork proc_create
forks = refl

-- Slot 2 has exited, with 9.
abbrev ended_procs : ℕ → Process
ended_procs i =
    if i == 1
    then runner
    else if i == 2
    then record waiter { state = zombie; exit_code = pos 9 }
    else zero_process

abbrev ended_table : Table
ended_table = record table { procs = ended_procs }

abbrev ended : Sys pages files clone
ended = record start {
  system = record system { sched = record system.sched { table = ended_table } };
}

ended-IsValid : IsValid ended_table
ended-IsValid = record { unique = λ i j a b c d e. ground arith; given = λ i a b. ground arith }

-- What slot 2 does while slot 1 waits.
abbrev ends : Sys pages files clone → Sys pages files clone
ends y = ended

collects : (sys_wait4 pages files clone 1 2 (ends ∷ []) start).0 ≡ some (ret 2, some (pos 9))
unfolding sys_wait4 proc_find
collects = refl

yields_first : Reaches pages files clone 1 2 (ends ∷ []) start ended
unfolding wait_round proc_find
yields_first = (refl, refl)

sys_wait4_lem_example :
    Ends pages files clone 1 2 ended (sys_wait4 pages files clone 1 2 (ends ∷ []) start)
sys_wait4_lem_example =
    sys_wait4_lem pages files clone 1 2 (ends ∷ []) start ended yields_first ended-IsValid
