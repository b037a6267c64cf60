-- ===== src/Proc/Sched.antt =====
-- kernel/proc/scheduler.c: the round-robin run queue. The PIT's tick count is an argument, `now`.
-- `arch_switch`, in assembly, saves one stack pointer and loads the other: what the C code hands to
-- it, and to `gdt_set_kernel_stack`, is kept in the state.
pub mod Pick
pub mod Running
pub mod Fair
pub mod Queue
use sinux.Prelude.{
  ℕ, zero, suc, ◌+◌, ◌-◌, ◌*◌, ◌/◌, ◌%◌, ◌^◌, Bool, true, false, not, ◌&&◌, ◌||◌, Option, none,
  some, if◌then◌else◌, ltb, leb, ◌==◌, ℤ, pos, negsuc, update,
}
use sinux.Proc.Types.{
  PState, running, ready, sleeping, Process, Table, put, is_ready, is_running, is_sleeping,
  is_asleep, kstack_size,
}

abbrev pub queue_size : ℕ
queue_size = 256

abbrev pub pit_hz : ℕ
pit_hz = 1000

pub record Sched : Type 0 where
  pub table : Table
  pub queue : ℕ → Option ℕ  -- slots of the process table
  pub q_head : ℕ
  pub q_tail : ℕ
  pub q_count : ℕ
  pub rsp0 : ℕ  -- the last `gdt_set_kernel_stack`
  pub cr3 : ℕ  -- the last argument of `arch_switch`

abbrev pub put_proc : Sched → ℕ → Process → Sched
put_proc s i p = record s { table = put s.table i p }

unfoldable pub sched_init : Sched → Sched
sched_init s = record s { q_head = 0; q_tail = 0; q_count = 0 }

unfoldable pub sched_add : Sched → ℕ → Sched
sched_add s p = if leb queue_size s.q_count then s else record s {
  queue = update s.queue s.q_tail (some p);
  q_tail = (s.q_tail + 1) % queue_size;
  q_count = s.q_count + 1;
}

abbrev pub is_slot : Option ℕ → ℕ → Bool
is_slot none p = false
is_slot (some q) p = q == p

unfoldable pub remove_from : ℕ → ℕ → ℕ → Sched → Sched
remove_from zero i p s = s
remove_from (suc n) i p s =
    let rest = remove_from n (i + 1) p s in
    if is_slot (s.queue i) p
    then record s { queue = update s.queue i none; q_count = s.q_count - 1 }
    else rest

unfoldable pub sched_remove : Sched → ℕ → Sched
sched_remove s p = remove_from queue_size 0 p s

-- `queue[idx] && queue[idx]->state == PROC_READY`
abbrev pub ready_at : Table → Option ℕ → Bool
ready_at t none = false
ready_at t (some p) = is_ready (t.procs p).state

-- The loop of `next_ready`, to the index that it stops at.
unfoldable pub ready_from : ℕ → ℕ → Sched → Option ℕ
ready_from zero i s = none
ready_from (suc n) i s =
    let rest = ready_from n (i + 1) s in
    let idx = (s.q_head + i) % queue_size in
    if ready_at s.table (s.queue idx) then some idx else rest

abbrev pub picked : Sched → Option ℕ → Option ℕ × Sched
picked s none = (none, s)
picked s (some idx) = (s.queue idx, record s { q_head = (idx + 1) % queue_size })

unfoldable pub next_ready : Sched → Option ℕ × Sched
next_ready s = picked s (ready_from queue_size 0 s)

-- `from->state = PROC_RUNNING ? PROC_READY : from->state`
abbrev pub paused : PState → PState
paused running = ready
paused st = st

unfoldable pub do_switch : ℕ → ℕ → Sched → Sched
do_switch from to s =
    let t =
      put s.table from
        (record (s.table.procs from) { state = paused (s.table.procs from).state }) in
    let q = record (t.procs to) { state = running; timeslice = pos 5 } in
    if from == to then s else record s {
      table = record (put t to q) { current = some to };
      rsp0 = if q.kstack == 0 then s.rsp0 else q.kstack + kstack_size;
      cr3 = q.pml4;
    }

-- The process goes on: it gets a new time slice, if it is running.
unfoldable pub keep_on : ℕ → Sched → Sched
keep_on cur s =
    if is_running (s.table.procs cur).state
    then put_proc s cur (record (s.table.procs cur) { timeslice = pos 5 })
    else s

unfoldable pub switch_to : ℕ → Option ℕ × Sched → Sched
switch_to cur (none, s) = keep_on cur s
switch_to cur (some next, s) = if next == cur then keep_on cur s else do_switch cur next s

-- `sched_yield` of the current process
unfoldable pub sched_yield : ℕ → Sched → Sched
sched_yield cur s = switch_to cur (next_ready s)

-- The body of the first loop of `sched_tick`, at one queue entry.
unfoldable pub wake_entry : ℕ → Option ℕ → Sched → Sched
wake_entry now none s = s
wake_entry now (some p) s =
    if is_sleeping (s.table.procs p).state && leb (s.table.procs p).ticks now
    then put_proc s p (record (s.table.procs p) { state = ready })
    else s

unfoldable pub wake_from : ℕ → ℕ → ℕ → Sched → Sched
unfolding wake_entry
wake_from zero i now s = s
wake_from (suc n) i now s = wake_from n (i + 1) now (wake_entry now (s.queue i) s)

abbrev pub tick_down : ℤ → ℤ
tick_down (pos zero) = negsuc 0
tick_down (pos (suc n)) = pos n
tick_down (negsuc n) = negsuc (suc n)

abbrev pub is_over : ℤ → Bool
is_over (pos (suc n)) = false
is_over _ = true

unfoldable pub spend_tick : ℕ → Sched → Sched
spend_tick cur s =
    let left = tick_down (s.table.procs cur).timeslice in
    let s' = put_proc s cur (record (s.table.procs cur) { timeslice = left }) in
    if is_over left then sched_yield cur s' else s'

unfoldable pub sched_tick : ℕ → Option ℕ → Sched → Sched
sched_tick now none s = s
sched_tick now (some cur) s = spend_tick cur (wake_from queue_size 0 now s)

unfoldable pub sched_sleep : ℕ → ℕ → ℕ → Sched → Sched
sched_sleep now ms cur s = sched_yield cur (
    put_proc s cur (record (s.table.procs cur) {
      ticks = (now + ms * pit_hz % 2 ^ 64 / 1000) % 2 ^ 64;
      state = sleeping;
    }))

unfoldable pub sched_wake : ℕ → Sched → Sched
sched_wake p s =
    if is_asleep (s.table.procs p).state
    then put_proc s p (record (s.table.procs p) { state = ready })
    else s
