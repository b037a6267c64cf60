-- ===== src/Proc/Start.antt =====
-- `proc_init` of kernel/proc/process.c sets up what the other operations keep.
use sinux.Prelude.{ℕ, ◌≤◌, ◌≡◌, refl, Option, arith}
use sinux.Proc.Memory.{Memory}
use sinux.Proc.Table.{Kernel, proc_init}
use sinux.Proc.Table.Find.{IsValid}
use sinux.Proc.Sched.Running.{OneRuns}

module _ (m : Memory) where
  -- After `proc_init`, with process ids from 1 on still to be given, ids are unique, process 0 is
  -- the current one and the only one that runs, and its descriptors 0, 1 and 2 are the files that
  -- were opened, none where that failed.
  pub proc_init_lem :
      (f0 f1 f2 : Option ℕ) (k : Kernel m)
      → 1 ≤ k.table.next_pid
      → let t = (proc_init m f0 f1 f2 k).table in
        IsValid t
        × OneRuns t 0
        × (((t.procs 0).fds 0).file ≡ f0)
        × (((t.procs 0).fds 1).file ≡ f1)
        × (((t.procs 0).fds 2).file ≡ f2)
  unfolding proc_init
  proc_init_lem f0 f1 f2 k h = (
    record { unique = λ i j a b c d e. ground arith; given = λ i a b. ground arith },
    record { current = refl; only = λ j e. ground arith },
    ground arith,
    ground arith,
    ground arith,
  )
