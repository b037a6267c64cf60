-- ===== src/Syscall/Fork.antt =====
-- `sys_fork` of kernel/syscall/syscall.c.
use sinux.Prelude.{◌≤◌, false, ℕ, ◌<◌, ◌≡◌, ◌≢◌, ◌⊎◌, true, false, Option, some, Ret, ret, err}
use sinux.Proc.Types.{max_procs, Process, Table, max_fds, is_unused, ready}
use sinux.Proc.Memory.{Memory}
use sinux.Proc.OpenFiles.{Files}
use sinux.Proc.Table.{Kernel}
use sinux.Proc.Table.Find.{IsValid}
use sinux.Proc.Table.Create.{stack_page, space_page}
use sinux.Proc.Sched.{Sched}
use sinux.Fs.Types.{enomem}
use sinux.Syscall.{Sys, UserContext, proc_of, share_from, fork_frame}

module _ (m : Memory) (files : Files) (vmm_clone_pml4 : ℕ → m.State → ℕ × m.State) where
  abbrev pub process : ℕ → Sys m files vmm_clone_pml4 → Process
  process i y = proc_of m files vmm_clone_pml4 i y

  -- The child, in slot c, of the process in slot cur.
  pub record IsChild (cur c space : ℕ) (y z : Sys m files vmm_clone_pml4) : Type 0 where
    pub fresh : is_unused (process c y).state ≡ true
    pub pid : (process c z).pid ≡ y.system.sched.table.next_pid
    pub ppid : (process c z).ppid ≡ (process cur y).pid
    pub state : (process c z).state ≡ ready
    pub pml4 : (process c z).pml4 ≡ space
    pub brk : (process c z).brk ≡ (process cur y).brk
    pub cwd : (process c z).cwd ≡ (process cur y).cwd
    pub fds : (j : ℕ) → j < max_fds → (process c z).fds j ≡ (process cur y).fds j
    pub others : (j : ℕ) → j ≢ c → process j z ≡ process j y
    pub valid : IsValid z.system.sched.table

  -- Why `proc_create` gives no process: slots 1 to 255 are in use, or there is no page for the kernel
  -- stack, or none for a top page table.
  abbrev NoRoom : Kernel m → Type 0
  NoRoom k =
      ((j : ℕ) → 1 ≤ j → j < max_procs → is_unused (k.table.procs j).state ≡ false)
      ⊎ ((stack_page m k ≡ 0) ⊎ (space_page m k ≡ 0))

  -- No child: the files are as before, ids stay unique, and an address space that was copied, and
  -- not used, is destroyed last.
  pub record Refused (space : ℕ) (mem : m.State) (y : Sys m files vmm_clone_pml4)
      (r : Option Ret × Sys m files vmm_clone_pml4) : Type 0 where
    pub result : r.0 ≡ some (err enomem)
    pub files_kept : r.1.open_files ≡ y.open_files
    pub valid : IsValid r.1.system.sched.table
    pub why : (space ≡ 0) ⊎ NoRoom (record { table = y.system.sched.table; memory = mem })
    pub copy :
        (space ≡ 0) ⊎ ((left : m.State) × (r.1.system.memory ≡ m.vmm_destroy_pml4 space left))

  -- A child, whose id is the result.
  pub record Forked (cur space : ℕ) (mem : m.State) (u : UserContext)
      (y : Sys m files vmm_clone_pml4) (r : Option Ret × Sys m files vmm_clone_pml4) : Type 0 where
    pub slot : ℕ
    pub copied : space ≢ 0
    pub room : ¬ (NoRoom (record { table = y.system.sched.table; memory = mem }))
    pub result : r.0 ≡ some (ret y.system.sched.table.next_pid)
    pub child : IsChild cur slot space y r.1
    pub shared :
        r.1.open_files ≡ share_from m files vmm_clone_pml4 max_fds 0 (process cur y) y.open_files
    pub frame : r.1.frame ≡ fork_frame u.stub u.rip u.rsp u.rflags

  abbrev pub Outcome :
      ℕ
      → ℕ
      → m.State
      → UserContext
      → Sys m files vmm_clone_pml4
      → Option Ret × Sys m files vmm_clone_pml4
      → Type 0
  Outcome cur space mem u y r = Refused space mem y r ⊎ Forked cur space mem u y r
