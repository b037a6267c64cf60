-- ===== src/Smp/Sched/Sleep.antt =====
-- What becomes of a task that calls `sched_sleep` or `sched_yield` of kernel/scheduler/sched.c.
use sinux.Prelude.{
  ℕ, zero, suc, ◌+◌, ◌*◌, ◌/◌, ◌%◌, ◌^◌, ◌≡◌, refl, ap, ◌∙◌, ◌⊎◌, inl, inr, false, Option, none,
  some, leb, ◌==◌, Bool-cases, Option-cases, arith, ℤ, pos, negsuc,
}
use sinux.Proc.Types.{ready, sleeping, is_running}
use sinux.Smp.Sched.{
  Task, RunQueue, System, max_priority, is_task, put_task, clamped, set_next, alone_queue,
  turn_queue, drop_load, add_active, enqueue_task, unlink_from, unlink_task, dequeue_at,
  dequeue_prio, dequeue_task, sched_pick_next,
}
use sinux.Smp.Sched.Switch.{
  switch_in, switch_out, sched_context_switch, switch_picked, yield_from, sched_yield, sleep_from,
  sched_sleep,
}
use sinux.Smp.Sched.Pick.{sched_pick_next-Picked}

-- A fault, or a system of which R holds.
abbrev Ends : Option System → (System → Type 0) → Type 0
Ends o R = (o ≡ none) ⊎ ((t : System) × (o ≡ some t) × R t)

-- The current and the idle task of processor c stay.
record Stays (c : ℕ) (s t : System) : Type 0 where
  current : (t.queues c).current ≡ (s.queues c).current
  idle : (t.queues c).idle ≡ (s.queues c).idle

unlink_from-Ends :
    (n cur head p : ℕ) (s : System) → Ends (unlink_from n cur head p s) (λ t. t.queues ≡ s.queues)
unfolding unlink_from
unlink_from-Ends zero cur head p s = inl refl
unlink_from-Ends (suc n) cur head p s = elim (Option-cases (s.tasks cur).next) [
  | inl f ↦ rw (unlink_from, f) (inl refl)
  | inr (x, f) ↦ elim (Bool-cases (x == head)) [
    | inl g ↦ rw (unlink_from, f, g) (inr (s, refl, refl))
    | inr g ↦ elim (Bool-cases (x == p)) [
      | inl h ↦ rw (unlink_from, f, g, h) (inr (set_next s cur (s.tasks p).next, refl, refl))
      | inr h ↦ rw (unlink_from, f, g, h) (unlink_from-Ends n x head p s)
    ]
  ]
]

-- A system that is changed at most in the queues of processor c, none of them current or idle.
unlink_task-Ends : (c prio head p : ℕ) (s : System) → Ends (unlink_task c prio head p s) (Stays c s)
unfolding unlink_task
unlink_task-Ends c prio head p s = elim (Bool-cases (is_task (s.tasks head).next head)) [
  | inl f ↦
      rw f
        (inr (alone_queue c prio s, refl, record { current = ground arith; idle = ground arith }))
  | inr f ↦ elim (Bool-cases (head == p)) [
    | inl g ↦
        rw (f, g)
          (inr (
            set_next (turn_queue c prio head s) head (s.tasks p).next,
            refl,
            record { current = ground arith; idle = ground arith },
          ))
    | inr g ↦
        rw (f, g)
          (elim (unlink_from-Ends 256 head head p s) [
            | inl e ↦ inl e
            | inr (t, e, q) ↦ inr (
              t,
              e,
              record {
                current = ap (λ (u : ℕ → RunQueue). (u c).current) q;
                idle = ap (λ (u : ℕ → RunQueue). (u c).idle) q;
              },
            )
          ])
  ]
]

dequeue_at-Ends :
    (c prio : ℕ) (head : Option ℕ) (p : ℕ) (s : System)
    → Ends (dequeue_at c prio head p s) (Stays c s)
unfolding dequeue_at
dequeue_at-Ends c prio none p s = inr (s, refl, record { current = refl; idle = refl })
dequeue_at-Ends c prio (some head) p s = elim (unlink_task-Ends c prio head p s) [
  | inl e ↦ inl (rw e refl)
  | inr (t, e, stays) ↦
      let cur = stays.current in
      let idle = stays.idle in
      rw e (
        inr (
          drop_load c (set_next t p none),
          refl,
          record { current = ground arith; idle = ground arith },
        ))
]

dequeue_prio-Ends :
    (c : ℕ) (prio : ℤ) (p : ℕ) (s : System) → Ends (dequeue_prio c prio p s) (Stays c s)
unfolding dequeue_prio
dequeue_prio-Ends c (negsuc n) p s = inr (s, refl, record { current = refl; idle = refl })
dequeue_prio-Ends c (pos n) p s = elim (Bool-cases (leb max_priority n)) [
  | inl e ↦ rw e (inr (s, refl, record { current = refl; idle = refl }))
  | inr e ↦ rw e (dequeue_at-Ends c n ((s.queues c).active n) p s)
]

dequeue_task-Ends : (c p : ℕ) (s : System) → Ends (dequeue_task c p s) (Stays c s)
unfolding dequeue_task
dequeue_task-Ends c p s = dequeue_prio-Ends c (s.tasks p).priority p s

-- A task that is put in its queue is ready.
enqueue_task-ready : (c p : ℕ) (s : System) → ((enqueue_task c p s).tasks p).state ≡ ready
unfolding enqueue_task add_active
enqueue_task-ready c p s =
    elim (Option-cases ((s.queues c).active (clamped (s.tasks p).priority))) [
      | inl e ↦ rw e (ground arith)
      | inr (h, e) ↦ rw e (ground arith)
    ]

switch_picked-ready :
    (c cur : ℕ) (r : Option ℕ × System)
    → (r.1.tasks cur).state ≡ ready
    → ((switch_picked c cur r).tasks cur).state ≡ ready
unfolding switch_picked sched_context_switch switch_in switch_out
switch_picked-ready c cur (none, s) h = h
switch_picked-ready c cur (some next, s) h = elim (Bool-cases (next == cur)) [
  | inl e ↦ rw e h
  | inr e ↦
      let other : (cur == next) ≡ false = ground arith in
      let rests : is_running (s.tasks cur).state ≡ false = rw h refl in
      rw (e, other, rests) (ground arith)
]

yield_from-ready :
    (c cur : ℕ) (s : System)
    → is_task (s.queues c).idle cur ≡ false
    → Ends (yield_from c (some cur) s) (λ t. (t.tasks cur).state ≡ ready)
unfolding yield_from
yield_from-ready c cur s busy = elim (dequeue_task-Ends c cur s) [
  | inl e ↦ inl (rw (busy, e) refl)
  | inr (t, e, stays) ↦
      let u = enqueue_task c cur t in
      let picked = sched_pick_next-Picked c u in
      let rests : ((sched_pick_next c u).1.tasks cur).state ≡ ready =
        ap (λ (x : ℕ → Task). (x cur).state) picked.tasks_kept ∙ enqueue_task-ready c cur t in
      rw (busy, e)
        (inr (
          switch_picked c cur (sched_pick_next c u),
          refl,
          switch_picked-ready c cur (sched_pick_next c u) rests,
        ))
]

-- A task that is not the idle one and calls `sched_yield` ends ready, unless the call faults.
pub sched_yield-ready :
    (c cur : ℕ) (s : System)
    → (s.queues c).current ≡ some cur
    → is_task (s.queues c).idle cur ≡ false
    → Ends (sched_yield c s) (λ t. (t.tasks cur).state ≡ ready)
unfolding sched_yield
sched_yield-ready c cur s here busy = rw here (yield_from-ready c cur s busy)

-- A task that is not the idle one and calls `sched_sleep` is ready behind it, unless the call faults.
pub sched_sleep-ready :
    (c cur now tsc_freq ms : ℕ) (s : System)
    → (s.queues c).current ≡ some cur
    → is_task (s.queues c).idle cur ≡ false
    → (sched_sleep c now tsc_freq ms s ≡ none)
      ⊎ ((t : System) × (sched_sleep c now tsc_freq ms s ≡ some t) × ((t.tasks cur).state ≡ ready))
unfolding sched_sleep
sched_sleep-ready c cur now tsc_freq ms s here busy =
    let s' = put_task s cur (record (s.tasks cur) {
      ticks = (now + tsc_freq * ms % 2 ^ 64 / 1000) % 2 ^ 64;
      state = sleeping;
    }) in
    elim (dequeue_task-Ends c cur s') [
      | inl e ↦ inl (rw (here, sleep_from, e) refl)
      | inr (t, e, stays) ↦
          let idle = ap (λ o. is_task o cur) stays.idle ∙ busy in
          rw (here, sleep_from, e) (sched_yield-ready c cur t (stays.current ∙ here) idle)
    ]
