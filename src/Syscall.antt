-- ===== src/Syscall.antt =====
-- kernel/syscall/syscall.c: the system calls, over processes, the run queue and memory as Proc.Signal has
-- them, and two parameters: the files, and the copy of an address space. The current process, in slot cur,
-- is an argument. Registers are 64-bit words; an `int` is its low 32 bits, so that one below 0 is
-- 2 ^ 31 or more. `none` for a result is a call that does not return to its caller. SYS_EXECVE and SYS_PIPE
-- are arguments of the dispatch.
pub mod Descriptors
pub mod Fork
pub mod Wait
use mathlib.Core.Option
use sinux.Prelude.{
  ℕ, zero, suc, ◌+◌, ◌-◌, ◌*◌, ◌/◌, ◌%◌, ◌^◌, Bool, true, false, ◌&&◌, ◌||◌, Option, none, some,
  List, [], ◌∷◌, if◌then◌else◌, ltb, leb, ◌==◌, update, ℤ, pos, negsuc, Ret, ret, err,
}
use sinux.Fs.Types.{enoent, ebadf, enomem, einval}
use sinux.Proc.Types.{
  PState, unused, zombie, waiting, Handler, dfl, ign, call, SigAction, Process, Table, Fd, max_fds,
  kstack_size, put,
}
use sinux.Proc.Memory.{Memory}
use sinux.Proc.Table.{Kernel, proc_create, proc_alloc_fd, proc_free_fd, proc_find}
use sinux.Proc.Sched.{Sched, put_proc, sched_add, sched_yield, sched_sleep}
use sinux.Proc.Signal.{System, with_sched, exit_process, signal_send, signal_set_handler}
use sinux.Proc.OpenFiles.{Files}

abbrev pub emfile : ℕ
emfile = 24

-- `(int)a`
abbrev pub int_arg : ℕ → ℕ
int_arg a = a % 2 ^ 32

-- The number that the 32 bits a stand for.
abbrev pub int_value : ℕ → ℤ
int_value a = if ltb a (2 ^ 31) then pos a else negsuc (2 ^ 32 - 1 - a)

-- The words that `sys_fork` pushes, the last first. The first is the address of `fork_child_stub`.
abbrev pub fork_frame : ℕ → ℕ → ℕ → ℕ → List ℕ
fork_frame stub rip rsp rflags = 0x202 ∷ (0 ∷ (rflags ∷ (rsp ∷ (rip ∷ (0 ∷ (0 ∷ (stub ∷ [])))))))

-- The registers at entry, which the assembly keeps.
pub record UserContext : Type 0 where
  pub stub : ℕ
  pub rip : ℕ
  pub rsp : ℕ
  pub rflags : ℕ

module _ (m : Memory) (files : Files) (vmm_clone_pml4 : ℕ → m.State → ℕ × m.State) where
  -- `frame` is what stands at the stack pointer of the child made last.
  pub record Sys : Type 0 where
    pub system : System m
    pub open_files : files.State
    pub frame : List ℕ

  abbrev pub proc_of : ℕ → Sys → Process
  proc_of cur y = y.system.sched.table.procs cur

  abbrev pub with_proc : ℕ → Process → Sys → Sys
  with_proc cur p y = record y { system = with_sched m y.system (put_proc y.system.sched cur p) }

  -- `if (fd < 0 || fd >= MAX_FDS) return -EBADF; if (!p->fds[fd].file) return -EBADF;`
  abbrev pub file_at : ℕ → ℕ → Sys → Option ℕ
  file_at cur fd y = if leb max_fds fd then none else ((proc_of cur y).fds fd).file

  unfoldable pub write_fd : Option ℕ → List ℕ → Sys → Ret × Sys
  write_fd none buf y = (err ebadf, y)
  write_fd (some f) buf y =
      let (r, s) = files.vfs_write f buf y.open_files in (r, record y { open_files = s })

  unfoldable pub sys_write : ℕ → ℕ → List ℕ → Sys → Ret × Sys
  unfolding write_fd
  sys_write cur fd buf y = write_fd (file_at cur fd y) buf y

  -- The result, and the bytes for the buffer.
  unfoldable pub read_fd : Option ℕ → ℕ → Sys → (Ret × List ℕ) × Sys
  read_fd none n y = ((err ebadf, []), y)
  read_fd (some f) n y =
      let (r, s) = files.vfs_read f n y.open_files in (r, record y { open_files = s })

  unfoldable pub sys_read : ℕ → ℕ → ℕ → Sys → (Ret × List ℕ) × Sys
  unfolding read_fd
  sys_read cur fd n y = read_fd (file_at cur fd y) n y

  unfoldable pub take_fd : ℕ → ℕ → Option ℕ × Process → Sys → Ret × Sys
  take_fd cur f (none, p) y = (err emfile, record y { open_files = files.vfs_close f y.open_files })
  take_fd cur f (some fd, p) y = (ret fd, with_proc cur p y)

  unfoldable pub open_fd : ℕ → Option ℕ → Sys → Ret × Sys
  unfolding take_fd
  open_fd cur none y = (err enoent, y)
  open_fd cur (some f) y = take_fd cur f (proc_alloc_fd (proc_of cur y) f) y

  unfoldable pub sys_open : ℕ → List ℕ → ℕ → Sys → Ret × Sys
  unfolding open_fd
  sys_open cur path flags y =
      let (f, s) = files.vfs_open path flags y.open_files in
      open_fd cur f (record y { open_files = s })

  unfoldable pub close_file : ℕ → ℕ → Option ℕ → Sys → Ret × Sys
  close_file cur fd none y = (err ebadf, y)
  close_file cur fd (some f) y = (
    ret 0,
    with_proc cur (proc_free_fd (proc_of cur y) fd)
        (record y { open_files = files.vfs_close f y.open_files }),
  )

  unfoldable pub sys_close : ℕ → ℕ → Sys → Ret × Sys
  unfolding close_file
  sys_close cur fd y = close_file cur fd (file_at cur fd y) y

  unfoldable pub sys_getpid : ℕ → Sys → ℕ
  sys_getpid cur y = (proc_of cur y).pid

  unfoldable pub sys_getppid : ℕ → Sys → ℕ
  sys_getppid cur y = (proc_of cur y).ppid

  unfoldable pub sys_brk : ℕ → ℕ → Sys → Ret × Sys
  sys_brk cur addr y =
      let p = proc_of cur y in
      if addr == 0
      then (ret p.brk, y)
      else if ltb addr p.brk_start
      then (err einval, y)
      else (ret addr, with_proc cur (record p { brk = addr }) y)

  unfoldable pub sys_exit : ℕ → ℤ → Sys → Sys
  sys_exit cur code y =
      let z = exit_process m cur code y.system in
      record y { system = with_sched m z (sched_yield cur z.sched) }

  -- The copies of the descriptors, and a reference more for each file: the rounds left, and i.
  unfoldable pub share_from : ℕ → ℕ → Process → files.State → files.State
  share_from zero i p s = s
  share_from (suc n) i p s =
      share_from n (i + 1) p (elim (p.fds i).file [ none ↦ s | some f ↦ files.share f s ])

  abbrev pub inherited : (ℕ → Fd) → (ℕ → Fd) → ℕ → Fd
  inherited parent child i = if ltb i max_fds then parent i else child i

  -- The child, as `sys_fork` leaves it.
  abbrev pub forked : ℕ → Process → Process → Process
  forked pml4 parent child = record child {
    pml4 = pml4;
    ppid = parent.pid;
    brk = parent.brk;
    cwd = parent.cwd;
    fds = inherited parent.fds child.fds;
    rsp = child.kstack + kstack_size - 64;
  }

  -- Steps 2 to 5, for the child in slot c.
  unfoldable pub start_child : ℕ → ℕ → ℕ → UserContext → Sys → Option Ret × Sys
  unfolding share_from
  start_child cur c pml4 u y =
      let parent = proc_of cur y in
      let s = put_proc y.system.sched c (forked pml4 parent (proc_of c y)) in
      (
        some (ret (proc_of c y).pid),
        record {
          system = with_sched m y.system (sched_add s c);
          open_files = share_from max_fds 0 parent y.open_files;
          frame = fork_frame u.stub u.rip u.rsp u.rflags;
        },
      )

  abbrev pub with_kernel : Sys → Kernel m → Sys
  with_kernel y k = record y {
    system = record y.system {
      sched = record y.system.sched { table = k.table };
      memory = k.memory;
    };
  }

  abbrev pub fork_into : ℕ → ℕ → UserContext → Sys → Option ℕ × Kernel m → Option Ret × Sys
  fork_into cur pml4 u y (none, k) =
      (some (err enomem), with_kernel y (record k { memory = m.vmm_destroy_pml4 pml4 k.memory }))
  fork_into cur pml4 u y (some c, k) = start_child cur c pml4 u (with_kernel y k)

  unfoldable pub sys_fork : ℕ → UserContext → Sys → Option Ret × Sys
  unfolding start_child
  sys_fork cur u y =
      let (pml4, mem) = vmm_clone_pml4 (proc_of cur y).pml4 y.system.memory in
      let k : Kernel m = record { table = y.system.sched.table; memory = mem } in
      if pml4 == 0
      then (some (err enomem), with_kernel y k)
      else fork_into cur pml4 u y (proc_create m k)

  -- One round of the loop of `sys_wait4`: the result, with the exit code, or none where it yields.
  unfoldable pub wait_found : ℕ → ℕ → Option ℕ → Sys → Option (Ret × Option ℤ) × Sys
  wait_found cur pid none y = (some (err einval, none), y)
  wait_found cur pid (some i) y =
      let child = proc_of i y in
      let p = record (proc_of cur y) { state = waiting } in
      let s = put_proc y.system.sched cur p in
      let rest = record y { system = with_sched m y.system (sched_yield cur s) } in
      elim child.state [
        | zombie ↦
            (some (ret pid, some child.exit_code), with_proc i (record child { state = unused }) y)
        | _ ↦ (none, rest)
      ]

  unfoldable pub wait_round : ℕ → ℕ → Sys → Option (Ret × Option ℤ) × Sys
  unfolding wait_found
  wait_round cur pid y = wait_found cur pid (proc_find y.system.sched.table pid) y

  abbrev pub after_round :
      (Sys → Option (Ret × Option ℤ) × Sys)
      → Option (Ret × Option ℤ) × Sys
      → Option (Ret × Option ℤ) × Sys
  after_round again (none, y) = again y
  after_round again (some v, y) = (some v, y)

  -- `sys_wait4`, with what the other processes do between its rounds: after the last of that, one more
  -- round.
  unfoldable pub sys_wait4 : ℕ → ℕ → List (Sys → Sys) → Sys → Option (Ret × Option ℤ) × Sys
  unfolding wait_round
  sys_wait4 cur pid [] y = wait_round cur pid y
  sys_wait4 cur pid (others ∷ more) y =
      after_round (λ z. sys_wait4 cur pid more (others z)) (wait_round cur pid y)

  unfoldable pub sys_nanosleep : ℕ → ℕ → ℕ → ℕ → Sys → Ret × Sys
  sys_nanosleep now cur seconds nanoseconds y =
      let ms = (seconds * 1000 + nanoseconds / 1000000) % 2 ^ 64 in
      (ret 0, record y { system = with_sched m y.system (sched_sleep now ms cur y.system.sched) })

  -- What a call gives: its result, none where it has not returned, and what it
  -- writes at the pointers that it was given.
  pub record Reply : Type 0 where
    pub value : Option Ret
    pub buffer : List ℕ
    pub status : Option ℤ

  abbrev pub reply : Option Ret × Sys → Reply × Sys
  reply (r, y) = (record { value = r; buffer = []; status = none }, y)

  abbrev pub respond : Ret × Sys → Reply × Sys
  respond (r, y) = reply (some r, y)

  abbrev pub with_buffer : (Ret × List ℕ) × Sys → Reply × Sys
  with_buffer ((r, bytes), y) = (record { value = some r; buffer = bytes; status = none }, y)

  abbrev pub with_status : Option (Ret × Option ℤ) × Sys → Reply × Sys
  with_status (none, y) = reply (none, y)
  with_status (some (r, code), y) = (record { value = some r; buffer = []; status = code }, y)

  -- 0 or -1, of a call that changes the run queue.
  abbrev pub zero_or_fail : Sys → Bool × Sched → Reply × Sys
  zero_or_fail y (done, s) =
      respond (if done then ret 0 else err 1, record y { system = with_sched m y.system s })

  abbrev pub handler_of : ℕ → Handler
  handler_of a = if a == 0 then dfl else if a == 1 then ign else call a

  -- What the calls read of user memory and of the machine, and the two that are not modelled here.
  pub record Around : Type 0 where
    pub now : ℕ
    pub context : UserContext
    pub user_bytes : ℕ → ℕ → List ℕ
    pub user_string : ℕ → List ℕ
    pub meanwhile : List (Sys → Sys)
    pub do_pipe : ℕ → Sys → Reply × Sys
    pub do_execve : ℕ → ℕ → ℕ → Sys → Reply × Sys

  -- The calls of processes, from SYS_BRK on.
  unfoldable pub process_call : Around → ℕ → ℕ → ℕ → ℕ → ℕ → Sys → Reply × Sys
  process_call w cur nr a1 a2 a3 y =
      if nr == 12
      then respond (sys_brk cur a1 y)
      else if nr == 39
      then respond (ret (sys_getpid cur y), y)
      else if nr == 110
      then respond (ret (sys_getppid cur y), y)
      else if nr == 57
      then reply (sys_fork cur w.context y)
      else if nr == 60
      then reply (none, sys_exit cur (int_value (int_arg a1)) y)
      else if nr == 61
      then with_status (sys_wait4 cur (int_arg a1) w.meanwhile y)
      else if nr == 162
      then respond (sys_nanosleep w.now cur a1 a2 y)
      else if nr == 22
      then w.do_pipe a1 y
      else if nr == 62
      then zero_or_fail y (signal_send (int_arg a1) (int_arg a2) y.system.sched)
      else if nr == 13
      then zero_or_fail y (
          signal_set_handler cur (int_arg a1)
            (record { handler = handler_of a2; mask = 0; flags = 0 }) y.system.sched)
      else if nr == 59
      then w.do_execve a1 a2 a3 y
      else respond (err einval, y)

  -- `syscall_entry`, for the process in slot cur.
  unfoldable pub syscall_entry : Around → ℕ → ℕ → ℕ → ℕ → ℕ → Sys → Reply × Sys
  syscall_entry w cur nr a1 a2 a3 y =
      if nr == 0
      then with_buffer (sys_read cur (int_arg a1) a3 y)
      else if nr == 1
      then respond (sys_write cur (int_arg a1) (w.user_bytes a2 a3) y)
      else if nr == 2
      then respond (sys_open cur (w.user_string a1) (int_arg a2) y)
      else if nr == 3
      then respond (sys_close cur (int_arg a1) y)
      else process_call w cur nr a1 a2 a3 y
