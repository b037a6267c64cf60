-- ===== src/Tests/SmpSched.antt =====
-- The SMP scheduler on processor 0, with a ring of three tasks of priority 5, 1, 2 and 3.
use sinux.Prelude.{
  ℕ, ◌≡◌, ◌≢◌, refl, ◌↔◌, ◌<◌, Bool-cases, inl, inr, true, Option, none, some, [], ◌∷◌,
  if◌then◌else◌, ◌==◌, arith, pos,
}
use sinux.Proc.Types.{running}
use sinux.Smp.Sched.{Task, RunQueue, System, dequeue_task, sched_pick_next}
use sinux.Smp.Sched.Balance.{empty_queue}
use sinux.Smp.Sched.Ring.{Ring, dequeue_task-Ring}
use sinux.Smp.Sched.Pick.{sched_pick_next_highest}

abbrev task : Option ℕ → Task
task next = record {
  state = running;
  priority = pos 5;
  timeslice = pos 5;
  sleep_avg = 0;
  affinity = 1;
  ticks = 0;
  kstack = 0;
  pml4 = 0;
  next = next;
}

abbrev queue : RunQueue
queue = record (empty_queue 0) {
  active = λ i. if i == 5 then some 1 else none;
  active_bitmap = λ i. i == 5;
  current = some 2;
  idle = some 9;
}

abbrev three : System
three = record {
  tasks = λ p.
      task (if p == 1 then some 2 else if p == 2 then some 3 else if p == 3 then some 1 else none);
  queues = λ c. queue;
  num_cpus = 1;
  rsp0 = 0;
  cr3 = 0;
}

three-Ring : Ring three 1 (2 ∷ 3 ∷ [])
three-Ring = record {
  links = (refl, (refl, refl));
  distinct = (
    ((λ e. omega arith), ((λ e. omega arith), record {})),
    (((λ e. omega arith), record {}), (record {}, record {})),
  );
}

dequeue_task-Ring_example :
    (t : System) × (dequeue_task 0 3 three ≡ some t)
    × Ring t 1 (2 ∷ [])
    × ((t.tasks 3).next ≡ none)
    × ((t.queues 0).active 5 ≡ some 1)
dequeue_task-Ring_example =
    dequeue_task-Ring 0 3 5 1 (2 ∷ []) [] three refl (omega arith) refl three-Ring (omega arith)

bitmap_right : (i : ℕ) → i < 32 → (queue.active_bitmap i ≡ true) ↔ (queue.active i ≢ none)
bitmap_right i h = elim (Bool-cases (i == 5)) [
  | inl e ↦ rw e ((λ t n. cc), λ ne. refl)
  | inr e ↦ rw e ((λ t. cc), λ ne. absurd (ne refl))
]

empty_below : (j : ℕ) → j < 5 → queue.active j ≡ none
empty_below j h = ground arith

sched_pick_next_highest_example : (sched_pick_next 0 three).0 ≡ some 1
sched_pick_next_highest_example =
    sched_pick_next_highest 0 5 1 three bitmap_right (omega arith) refl empty_below
