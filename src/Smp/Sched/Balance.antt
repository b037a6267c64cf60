-- ===== src/Smp/Sched/Balance.antt =====
-- Load balancing, priorities and affinity in kernel/scheduler/sched.c.
use mathlib.Core.Option
use sinux.Prelude.{
  ℕ, zero, suc, ◌+◌, ◌-◌, ◌/◌, ◌%◌, ◌^◌, Bool, false, not, ◌&&◌, Option, none, some, if◌then◌else◌,
  ltb, leb, ◌==◌, min, ℤ, pos,
}
use sinux.Smp.Sched.{
  RunQueue, System, max_priority, put_queue, put_task, clamped, bit_of, is_task, enqueue_task,
  dequeue_task,
}

abbrev pub max_cpus : ℕ
max_cpus = 8

-- `victim && victim != from_rq->idle`
abbrev pub is_victim : Option ℕ → Option ℕ → Bool
is_victim none idle = false
is_victim (some v) idle = not (is_task idle v)

-- The loop over the priorities, from the one below n down: the victim that is found.
unfoldable pub victim_below : ℕ → RunQueue → Option ℕ
victim_below zero q = none
victim_below (suc prio) q =
    let rest = victim_below prio q in
    if q.active_bitmap (bit_of prio) && is_victim (q.active prio) q.idle
    then q.active prio
    else rest

unfoldable pub steal_victim : ℕ → Option ℕ → System → Option (Option ℕ × System)
steal_victim c none s = some (none, s)
steal_victim c (some v) s = Option.map (λ t. (some v, t)) (dequeue_task c v s)

-- `none` for the task is NULL.
unfoldable pub sched_steal_task : ℕ → System → Option (Option ℕ × System)
unfolding steal_victim
sched_steal_task c s =
    if leb s.num_cpus c
    then some (none, s)
    else steal_victim c (victim_below max_priority (s.queues c)) s

unfoldable pub give_task : ℕ → Option ℕ × System → System
give_task to (none, s) = s
give_task to (some p, s) = enqueue_task to p s

-- A round of the inner loop. The sum is 64 bits.
unfoldable pub balance_pair : ℕ → ℕ → System → Option System
unfolding give_task
balance_pair from to s =
    if not (from == to)
      && leb (((s.queues to).load_weight + 2) % 2 ^ 64) (s.queues from).load_weight
    then Option.map (λ r. give_task to r) (sched_steal_task from s)
    else some s

unfoldable pub balance_to : ℕ → ℕ → ℕ → System → Option System
balance_to zero from to s = some s
balance_to (suc n) from to s = elim (balance_pair from to s) [
  | none ↦ none
  | some t ↦ balance_to n from (to + 1) t
]

unfoldable pub balance_from : ℕ → ℕ → System → Option System
balance_from zero from s = some s
balance_from (suc n) from s = elim (balance_to s.num_cpus from 0 s) [
  | none ↦ none
  | some t ↦ balance_from n (from + 1) t
]

unfoldable pub sched_balance_load : System → Option System
unfolding balance_from
sched_balance_load s = balance_from s.num_cpus 0 s

unfoldable pub sched_set_priority : ℕ → ℤ → System → System
sched_set_priority p prio s =
    put_task s p (record (s.tasks p) {
      priority = pos (clamped prio);
      timeslice = pos (5 + clamped prio / 10);
    })

abbrev pub sched_get_priority : ℕ → System → ℤ
sched_get_priority p s = (s.tasks p).priority

-- `bonus` is an `int`: a quotient that does not fit is taken modulo 2^32, and may be below 0.
unfoldable pub new_priority : ℕ → ℕ
new_priority sleep_avg =
    let bonus = sleep_avg / 100 % 2 ^ 32 in
    if ltb bonus (2 ^ 31)
    then 120 - min bonus 10
    else min (max_priority - 1) (120 + (2 ^ 32 - bonus))

unfoldable pub sched_recalculate_priority : ℕ → System → System
sched_recalculate_priority p s =
    put_task s p (record (s.tasks p) { priority = pos (new_priority (s.tasks p).sleep_avg) })

unfoldable pub sched_set_affinity : ℕ → ℕ → System → System
sched_set_affinity p cpu_mask s =
    let mask = cpu_mask % 2 ^ s.num_cpus in
    put_task s p (record (s.tasks p) { affinity = if mask == 0 then 1 else mask })

abbrev pub sched_get_affinity : ℕ → System → ℕ
sched_get_affinity p s = (s.tasks p).affinity

abbrev pub empty_queue : ℕ → RunQueue
empty_queue c = record {
  active = λ _. none;
  expired = λ _. none;
  active_bitmap = λ _. false;
  expired_bitmap = λ _. false;
  current = none;
  idle = none;
  sched_count = 0;
  idle_time = 0;
  load_weight = 0;
  cpu_id = c;
}

unfoldable pub sched_cpu_init : ℕ → System → System
sched_cpu_init c s = if leb max_cpus c then s else put_queue s c (empty_queue c)

unfoldable pub init_from : ℕ → ℕ → System → System
init_from zero c s = s
init_from (suc n) c s = init_from n (c + 1) (sched_cpu_init c s)

unfoldable pub sched_preempt_init : System → System
unfolding init_from
sched_preempt_init s = init_from s.num_cpus 0 s
