-- ===== src/Smp/Sched/Switch.antt =====
-- The switch between tasks in kernel/scheduler/sched.c, on processor c, which `get_current_cpu_id()`
-- names. `arch_switch`, in assembly, saves one stack and loads the other; what it and
-- `gdt_set_kernel_stack` are given is kept in the state.
use mathlib.Core.Option
use sinux.Prelude.{
  ℕ, zero, suc, ◌+◌, ◌-◌, ◌*◌, ◌/◌, ◌%◌, ◌^◌, Bool, true, false, not, ◌&&◌, Option, none, some,
  if◌then◌else◌, ltb, leb, ◌==◌, ℤ, pos, negsuc, update,
}
use sinux.Proc.Types.{running, ready, sleeping, is_running, is_asleep, kstack_size}
use sinux.Proc.Sched.{tick_down, is_over}
use sinux.Smp.Sched.{
  System, put_queue, put_task, set_next, set_state, clamped, bit_of, is_task, link_behind,
  enqueue_task, dequeue_task, sched_pick_next,
}

-- The last part, to a task that is another one.
unfoldable pub switch_in : ℕ → ℕ → System → System
switch_in c to s =
    let t = s.tasks to in
    let q = s.queues c in
    record (put_queue (set_state s to running) c
      (record q { current = some to; sched_count = (q.sched_count + 1) % 2 ^ 64 })) {
        rsp0 = if t.kstack == 0 then s.rsp0 else t.kstack + kstack_size;
        cr3 = t.pml4;
      }

unfoldable pub switch_out : ℕ → ℕ → System → System
switch_out c from s =
    if is_running (s.tasks from).state then enqueue_task c from (set_state s from ready) else s

unfoldable pub sched_context_switch : ℕ → ℕ → ℕ → System → System
unfolding switch_in switch_out
sched_context_switch c from to s = if from == to then s else switch_in c to (switch_out c from s)

-- `next && next != cur`, and what is done then.
unfoldable pub switch_picked : ℕ → ℕ → Option ℕ × System → System
switch_picked c cur (none, s) = s
switch_picked c cur (some next, s) = if next == cur then s else sched_context_switch c cur next s

unfoldable pub yield_from : ℕ → Option ℕ → System → Option System
unfolding switch_picked
yield_from c none s = some s
yield_from c (some cur) s =
    if is_task (s.queues c).idle cur
    then some s
    else Option.map (λ t. switch_picked c cur (sched_pick_next c (enqueue_task c cur t)))
        (dequeue_task c cur s)

unfoldable pub sched_yield : ℕ → System → Option System
unfolding yield_from
sched_yield c s = yield_from c (s.queues c).current s

-- From `if (!cur)` on; `now` is `rdtsc()`.
unfoldable pub sleep_from : ℕ → Option ℕ → ℕ → ℕ → ℕ → System → Option System
sleep_from c none now tsc_freq ms s = some s
sleep_from c (some cur) now tsc_freq ms s =
    elim (dequeue_task c cur (
      put_task s cur (record (s.tasks cur) {
        ticks = (now + tsc_freq * ms % 2 ^ 64 / 1000) % 2 ^ 64;
        state = sleeping;
      }))) [ none ↦ none | some t ↦ sched_yield c t ]

unfoldable pub sched_sleep : ℕ → ℕ → ℕ → ℕ → System → Option System
unfolding sleep_from
sched_sleep c now tsc_freq ms s = sleep_from c (s.queues c).current now tsc_freq ms s

-- The loop over the processors, from `cpu` on: the mask's first is taken.
unfoldable pub wake_from : ℕ → ℕ → ℕ → ℕ → System → System
wake_from zero cpu mask p s = s
wake_from (suc n) cpu mask p s =
    let rest = wake_from n (cpu + 1) mask p s in
    let woken =
      if is_asleep (s.tasks p).state then enqueue_task cpu p (set_state s p ready) else s in
    if mask / 2 ^ cpu % 2 == 1 then woken else rest

-- `target_cpu` is an `int`; there are at most 8 processors.
unfoldable pub sched_wake : Option ℕ → System → System
unfolding wake_from
sched_wake none s = s
sched_wake (some p) s = wake_from s.num_cpus 0 ((s.tasks p).affinity % 2 ^ s.num_cpus) p s

-- `next->priority > cur->priority`
abbrev pub is_above : ℤ → ℤ → Bool
is_above (pos a) (pos b) = ltb b a
is_above (pos a) (negsuc b) = true
is_above (negsuc a) (pos b) = false
is_above (negsuc a) (negsuc b) = ltb a b

-- `TIMESLICE_DEFAULT + (priority / 10)`, of an `int`
abbrev pub timeslice_of : ℤ → ℤ
timeslice_of (pos n) = pos (5 + n / 10)
timeslice_of (negsuc n) =
    if leb ((n + 1) / 10) 5 then pos (5 - (n + 1) / 10) else negsuc ((n + 1) / 10 - 6)

-- The task at the head of queue prio of the expired ones, or behind it.
unfoldable pub add_expired : ℕ → ℕ → Option ℕ → ℕ → System → System
add_expired c prio none p s = put_queue (set_next s p (some p)) c (record (s.queues c) {
  expired = update (s.queues c).expired prio (some p);
  expired_bitmap = update (s.queues c).expired_bitmap (bit_of prio) true;
})
add_expired c prio (some head) p s = link_behind head p s

unfoldable pub set_timeslice : ℕ → ℤ → System → System
set_timeslice p n s = put_task s p (record (s.tasks p) { timeslice = n })

-- The branch that preempts, behind `dequeue_task`.
unfoldable pub preempt : ℕ → ℕ → ℕ → System → System
unfolding add_expired set_timeslice
preempt c cur next s =
    let prio = clamped (s.tasks cur).priority in
    let t = add_expired c prio ((s.queues c).expired prio) cur s in
    sched_context_switch c cur next (set_timeslice cur (timeslice_of (t.tasks cur).priority) t)

-- With a time slice that is over: what `sched_pick_next` gave.
unfoldable pub tick_picked : ℕ → ℕ → Option ℕ × System → Option System
unfolding preempt
tick_picked c cur (none, s) = some (set_timeslice cur (pos 5) s)
tick_picked c cur (some next, s) =
    if not (next == cur) && is_above (s.tasks next).priority (s.tasks cur).priority
    then Option.map (λ t. preempt c cur next t) (dequeue_task c cur s)
    else some (set_timeslice cur (pos 5) s)

unfoldable pub tick_from : ℕ → Option ℕ → System → Option System
unfolding tick_picked
tick_from c none s = some s
tick_from c (some cur) s =
    let left = tick_down (s.tasks cur).timeslice in
    let t = set_timeslice cur left s in
    if is_task (s.queues c).idle cur
    then some s
    else if is_over left
    then tick_picked c cur (sched_pick_next c t)
    else some t

unfoldable pub sched_tick : ℕ → System → Option System
unfolding tick_from
sched_tick c s = tick_from c (s.queues c).current s
