-- ===== src/Proc/Table.antt =====
-- kernel/proc/process.c: creation and exit of processes, and their file descriptors.
pub mod Fds
pub mod Create
pub mod Find
use sinux.Prelude.{
  ℕ, zero, suc, ◌+◌, ◌-◌, ◌%◌, ◌^◌, Bool, true, false, not, ◌&&◌, Option, none, some, List, [], ◌∷◌,
  if◌then◌else◌, ltb, ◌==◌, ℤ, pos, update,
}
use sinux.Proc.Types.{
  PState, running, ready, zombie, Fd, Process, max_procs, max_fds, kstack_size, no_fd, zero_process,
  Table, put, is_unused,
}
use sinux.Proc.Memory.{Memory}

abbrev pub slash : List ℕ
slash = b'/' ∷ []

abbrev is_none {ℓ} : {A : Type ℓ} → Option A → Bool
is_none none = true
is_none (some _) = false

-- The loop of `proc_alloc_fd`: the rounds left, and i.
alloc_fd_from : ℕ → ℕ → ℕ → Process → Option ℕ × Process
alloc_fd_from zero i f p = (none, p)
alloc_fd_from (suc n) i f p =
    let rest = alloc_fd_from n (i + 1) f p in
    if is_none (p.fds i).file
    then (some i, record p { fds = update p.fds i (record { file = some f; flags = 0 }) })
    else rest

-- `none` is -1.
unfoldable pub proc_alloc_fd : Process → ℕ → Option ℕ × Process
unfolding alloc_fd_from
proc_alloc_fd p f = alloc_fd_from max_fds 0 f p

-- A descriptor is an `int`; one below 0 is out of range as one from MAX_FDS on is.
unfoldable pub proc_free_fd : Process → ℕ → Process
proc_free_fd p fd = if ltb fd max_fds then record p { fds = update p.fds fd no_fd } else p

-- `if (p->fds[i].file) proc_free_fd(p, i);`
unfoldable pub let_go : Process → ℕ → Process
unfolding proc_free_fd
let_go p i = if is_none (p.fds i).file then p else proc_free_fd p i

unfoldable pub free_fds_from : ℕ → ℕ → Process → Process
unfolding let_go
free_fds_from zero i p = p
free_fds_from (suc n) i p = free_fds_from n (i + 1) (let_go p i)

-- The loop of `proc_find`.
unfoldable pub find_from : ℕ → ℕ → ℕ → Table → Option ℕ
find_from zero i pid t = none
find_from (suc n) i pid t =
    let rest = find_from n (i + 1) pid t in
    if (t.procs i).pid == pid && not (is_unused (t.procs i).state) then some i else rest

unfoldable pub proc_find : Table → ℕ → Option ℕ
unfolding find_from
proc_find t pid = find_from max_procs 0 pid t

abbrev pub proc_set_current : Table → ℕ → Table
proc_set_current t i = record t { current = some i }

abbrev pub current_pid : Table → Option ℕ → ℕ
current_pid t none = 0
current_pid t (some c) = (t.procs c).pid

abbrev pub current_cwd : Table → Option ℕ → List ℕ
current_cwd t none = slash
current_cwd t (some c) = (t.procs c).cwd

module _ (m : Memory) where
  open m use {
    State, pmm_alloc, pmm_free, zero_page, vmm_kernel_pml4, vmm_new_pml4, vmm_destroy_pml4,
  }

  -- The table and the memory.
  pub record Kernel : Type 0 where
    pub table : Table
    pub memory : State

  abbrev pub put_process : Kernel → ℕ → Process → Kernel
  put_process k i p = record k { table = put k.table i p }

  -- `vmm_new_pml4`, and what follows it in `proc_create`, for the process in slot i.
  unfoldable pub give_space : ℕ → Kernel → Option ℕ × Kernel
  give_space i k =
      let (space, mem) = vmm_new_pml4 k.memory in
      let p = k.table.procs i in
      let q = record p { pml4 = space } in
      if space == 0
      then (none, record { table = put k.table i q; memory = pmm_free p.kstack mem })
      else (
        some i,
        record {
          table = put k.table i (record q { cwd = current_cwd k.table k.table.current });
          memory = mem;
        },
      )

  -- The kernel stack of the process in slot i.
  unfoldable pub give_stack : ℕ → Kernel → Option ℕ × Kernel
  unfolding give_space
  give_stack i k =
      let (stack, mem) = pmm_alloc k.memory in
      let p = record (k.table.procs i) { kstack = stack } in
      if stack == 0
      then (none, record { table = put k.table i p; memory = mem })
      else give_space i (record {
        table = put k.table i (record p { rsp = stack + kstack_size });
        memory = zero_page stack mem;
      })

  -- The body of the loop of `proc_create` at a slot that is not in use. `next_pid` is an `int`, given by its
  -- 32 bits: behind 2 ^ 31 - 1 it is as if the addition wrapped around.
  unfoldable pub create_at : ℕ → Kernel → Option ℕ × Kernel
  unfolding give_stack
  create_at i k =
      let t = k.table in
      let p = record zero_process {
        pid = t.next_pid;
        ppid = current_pid t t.current;
        state = ready;
        timeslice = pos 5;
      } in
      give_stack i
        (record k { table = record (put t i p) { next_pid = (t.next_pid + 1) % 2 ^ 32 } })

  unfoldable pub create_from : ℕ → ℕ → Kernel → Option ℕ × Kernel
  unfolding create_at
  create_from zero i k = (none, k)
  create_from (suc n) i k =
      let rest = create_from n (i + 1) k in
      if is_unused (k.table.procs i).state then create_at i k else rest

  -- The new process's slot, or `none` for NULL.
  unfoldable pub proc_create : Kernel → Option ℕ × Kernel
  unfolding create_from
  proc_create k = create_from (max_procs - 1) 1 k

  -- Process q, of slot i, without its address space, unless that is the kernel's.
  unfoldable pub leave_space : ℕ → Process → Kernel → Kernel
  leave_space i q k =
      if not (q.pml4 == 0) && not (q.pml4 == vmm_kernel_pml4 k.memory)
      then record {
        table = put k.table i (record q { pml4 = 0 });
        memory = vmm_destroy_pml4 q.pml4 k.memory;
      }
      else put_process k i q

  -- `proc_exit` of the process in slot i.
  unfoldable pub proc_exit : ℕ → ℤ → Kernel → Kernel
  proc_exit i code k =
      leave_space i
        (free_fds_from max_fds 0 (record (k.table.procs i) { exit_code = code; state = zombie })) k

  -- `if (f) proc_table[0].fds[i].file = f`
  abbrev pub open_std : ℕ → Option ℕ → Process → Process
  open_std i none p = p
  open_std i (some f) p = record p { fds = update p.fds i (record (p.fds i) { file = some f }) }

  -- Given what its three calls of `vfs_open` return.
  unfoldable pub proc_init : Option ℕ → Option ℕ → Option ℕ → Kernel → Kernel
  proc_init f0 f1 f2 k =
      let p = record zero_process {
        state = running;
        timeslice = pos 5;
        pml4 = vmm_kernel_pml4 k.memory;
        cwd = slash;
      } in
      let q = open_std 2 f2 (open_std 1 f1 (open_std 0 f0 p)) in
      record k {
        table = record {
          procs = update (λ _. zero_process) 0 q;
          current = some 0;
          next_pid = k.table.next_pid;
        };
      }
