-- ===== src/Smp/Sched.antt =====
-- kernel/scheduler/sched.c: the run queue of each processor, with a ring of tasks for each priority.
-- A task is named by its slot, which stands for its address; `next` is the ring's link. The locks
-- are left out: each operation is one step. A bitmap is a function of its bits, 0 to 31: `1 << prio`
-- is undefined in C from 31 on, and the processor's shift takes prio modulo 32. `none` for a result
-- is a read through NULL, or a walk that does not end.
pub mod Switch
pub mod Balance
pub mod Ring
pub mod Pick
pub mod Sleep
use mathlib.Core.Option
use sinux.Prelude.{
  ℕ, zero, suc, ◌+◌, ◌-◌, ◌%◌, ◌^◌, Bool, true, false, not, ◌&&◌, Option, none, some, if◌then◌else◌,
  ltb, leb, ◌==◌, min, ℤ, pos, negsuc, update,
}
use sinux.Proc.Types.{PState, ready}

abbrev pub max_priority : ℕ
max_priority = 140

-- The fields of `process_t` that this scheduler uses.
pub record Task : Type 0 where
  pub state : PState
  pub priority : ℤ
  pub timeslice : ℤ
  pub sleep_avg : ℕ
  pub affinity : ℕ
  pub ticks : ℕ
  pub kstack : ℕ  -- 0 for NULL, as in `pml4`
  pub pml4 : ℕ
  pub next : Option ℕ

-- `runqueue_t`
pub record RunQueue : Type 0 where
  pub active : ℕ → Option ℕ
  pub expired : ℕ → Option ℕ
  pub active_bitmap : ℕ → Bool
  pub expired_bitmap : ℕ → Bool
  pub current : Option ℕ
  pub idle : Option ℕ
  pub sched_count : ℕ
  pub idle_time : ℕ
  pub load_weight : ℕ
  pub cpu_id : ℕ

pub record System : Type 0 where
  pub tasks : ℕ → Task
  pub queues : ℕ → RunQueue
  pub num_cpus : ℕ
  pub rsp0 : ℕ  -- the last `gdt_set_kernel_stack`
  pub cr3 : ℕ  -- the last argument of `arch_switch`

abbrev pub put_task : System → ℕ → Task → System
put_task s p t = record s { tasks = update s.tasks p t }

abbrev pub put_queue : System → ℕ → RunQueue → System
put_queue s c q = record s { queues = update s.queues c q }

abbrev pub set_next : System → ℕ → Option ℕ → System
set_next s p n = put_task s p (record (s.tasks p) { next = n })

abbrev pub set_state : System → ℕ → PState → System
set_state s p st = put_task s p (record (s.tasks p) { state = st })

-- A priority kept between 0 and 139.
abbrev pub clamped : ℤ → ℕ
clamped (pos n) = min n (max_priority - 1)
clamped (negsuc n) = 0

-- The bit that `1 << prio` sets.
abbrev pub bit_of : ℕ → ℕ
bit_of prio = prio % 32

-- The lowest bit from i on, of the n bits left.
unfoldable pub first_bit_from : ℕ → ℕ → (ℕ → Bool) → Option ℕ
first_bit_from zero i bits = none
first_bit_from (suc n) i bits =
    let rest = first_bit_from n (i + 1) bits in if bits i then some i else rest

-- `none` is -1.
unfoldable pub find_first_bit : (ℕ → Bool) → Option ℕ
find_first_bit bits = first_bit_from 32 0 bits

-- The link behind the head of a queue.
abbrev pub link_behind : ℕ → ℕ → System → System
link_behind head p s = set_next (set_next s p (s.tasks head).next) head (some p)

unfoldable pub add_active : ℕ → ℕ → Option ℕ → ℕ → System → System
add_active c prio none p s = put_queue (set_next s p (some p)) c (record (s.queues c) {
  active = update (s.queues c).active prio (some p);
  active_bitmap = update (s.queues c).active_bitmap (bit_of prio) true;
})
add_active c prio (some head) p s = link_behind head p s

abbrev pub add_load : ℕ → System → System
add_load c s =
    put_queue s c (record (s.queues c) { load_weight = ((s.queues c).load_weight + 1) % 2 ^ 64 })

abbrev pub drop_load : ℕ → System → System
drop_load c s =
    put_queue s c
      (record (s.queues c) { load_weight = ((s.queues c).load_weight + 2 ^ 64 - 1) % 2 ^ 64 })

unfoldable pub enqueue_task : ℕ → ℕ → System → System
unfolding add_active
enqueue_task c p s =
    let prio = clamped (s.tasks p).priority in
    add_load c (add_active c prio ((s.queues c).active prio) p (set_state s p ready))

-- The loop of `dequeue_task`. The slots of the process table are rounds enough for a ring of tasks.
unfoldable pub unlink_from : ℕ → ℕ → ℕ → ℕ → System → Option System
unlink_from zero cur head p s = none
unlink_from (suc n) cur head p s = elim (s.tasks cur).next [
  | none ↦ none
  | some x ↦
      let on = unlink_from n x head p s in
      if x == head then some s else if x == p then some (set_next s cur (s.tasks p).next) else on
]

abbrev pub is_task : Option ℕ → ℕ → Bool
is_task none p = false
is_task (some q) p = q == p

-- `rq->active_queue[prio] = p->next`
abbrev pub turn_queue : ℕ → ℕ → ℕ → System → System
turn_queue c prio p s =
    let q = s.queues c in
    put_queue s c (record q { active = update q.active prio (s.tasks p).next })

-- The queue left empty, with its bit cleared.
abbrev pub alone_queue : ℕ → ℕ → System → System
alone_queue c prio s =
    let q = s.queues c in
    put_queue s c (record q {
      active = update q.active prio none;
      active_bitmap = update q.active_bitmap (bit_of prio) false;
    })

-- The three branches of `dequeue_task`, for the head of the queue.
unfoldable pub unlink_task : ℕ → ℕ → ℕ → ℕ → System → Option System
unlink_task c prio head p s =
    let at_head = some (set_next (turn_queue c prio head s) head (s.tasks p).next) in
    let inside = unlink_from 256 head head p s in
    if is_task (s.tasks head).next head
    then some (alone_queue c prio s)
    else if head == p
    then at_head
    else inside

unfoldable pub dequeue_at : ℕ → ℕ → Option ℕ → ℕ → System → Option System
dequeue_at c prio none p s = some s
dequeue_at c prio (some head) p s =
    Option.map (λ t. drop_load c (set_next t p none)) (unlink_task c prio head p s)

unfoldable pub dequeue_prio : ℕ → ℤ → ℕ → System → Option System
dequeue_prio c (negsuc n) p s = some s
dequeue_prio c (pos prio) p s =
    if leb max_priority prio then some s else dequeue_at c prio ((s.queues c).active prio) p s

unfoldable pub dequeue_task : ℕ → ℕ → System → Option System
unfolding dequeue_prio dequeue_at unlink_task
dequeue_task c p s = dequeue_prio c (s.tasks p).priority p s

abbrev pub sched_enqueue : ℕ → ℕ → System → System
sched_enqueue c p s = enqueue_task c p s

abbrev pub sched_dequeue : ℕ → ℕ → System → Option System
sched_dequeue c p s = dequeue_task c p s

-- The task at the head of queue prio, if there is one, and the queue turned on behind it.
unfoldable pub take_head : ℕ → Bool → ℕ → Option ℕ → System → Option (ℕ × System)
take_head c again prio none s = none
take_head c again prio (some p) s =
    some (p, if is_task (s.tasks p).next p && not again then s else turn_queue c prio p s)

-- `prio >= 0 && rq->active_queue[prio]`
unfoldable pub take_first : ℕ → Bool → Option ℕ → System → Option (ℕ × System)
take_first c again none s = none
take_first c again (some prio) s = take_head c again prio ((s.queues c).active prio) s

-- The expired queues become the active ones.
unfoldable pub swap_queues : ℕ → System → System
swap_queues c s =
    let q = s.queues c in
    put_queue s c (record q {
      active = λ i. if ltb i max_priority then q.expired i else q.active i;
      expired = λ i. if ltb i max_priority then none else q.expired i;
      active_bitmap = q.expired_bitmap;
      expired_bitmap = λ i. false;
    })

unfoldable pub or_idle : ℕ → System → Option (ℕ × System) → Option ℕ × System
or_idle c s none = ((s.queues c).idle, s)
or_idle c s (some (p, t)) = (some p, t)

-- From the test of `expired_prio_bitmap` on.
unfoldable pub pick_expired : ℕ → System → Option ℕ → Option ℕ × System
pick_expired c s none = ((s.queues c).idle, s)
pick_expired c s (some bit) =
    let t = swap_queues c s in
    or_idle c t (take_first c true (find_first_bit (t.queues c).active_bitmap) t)

unfoldable pub pick_else : ℕ → System → Option (ℕ × System) → Option ℕ × System
pick_else c s none = pick_expired c s (find_first_bit (s.queues c).expired_bitmap)
pick_else c s (some (p, t)) = (some p, t)

-- The task, or NULL without an idle one.
unfoldable pub sched_pick_next : ℕ → System → Option ℕ × System
unfolding pick_else pick_expired or_idle take_first take_head swap_queues
sched_pick_next c s =
    pick_else c s (take_first c false (find_first_bit (s.queues c).active_bitmap) s)
