-- ===== src/Proc/Sched/Fair.antt =====
-- The queue of kernel/proc/scheduler.c is fair: a ready process comes nearer at every pick.
use sinux.Prelude.{
  ℕ, zero, ◌≡◌, ◌≢◌, ◌≤◌, ◌∙◌, suc, ◌+◌, ◌-◌, ◌%◌, ◌<◌, ap, ◌⊎◌, inl, inr, true, arith, dec_lt,
}
use sinux.Proc.Sched.{Sched, queue_size, ready_at, next_ready}
use sinux.Proc.Sched.Pick.{place, is_ready_at, next_ready_lem}

-- A ready process that is d places round from the head is picked, or else, at the next pick, it is
-- fewer than d places round from the head, in the same entry of the queue.
next_ready_fair :
    (s : Sched) (d : ℕ)
    → d < queue_size
    → is_ready_at s d ≡ true
    → ((next_ready s).0 ≡ s.queue (place s d))
      ⊎ ((e : ℕ) × (e < d)
          × (place (next_ready s).1 e ≡ place s d)
          × (is_ready_at (next_ready s).1 e ≡ true))
next_ready_fair s d h r = elim (next_ready_lem s) [
  | inl (e, all) ↦ cc (all d h)
  | inr (k, a, rk, below, e) ↦ elim (dec_lt k d) [
    | yes l ↦
        let same : ((place s k + 1) % queue_size + (d - suc k)) % queue_size ≡ place s d =
          omega arith in
        inr (d - suc k, omega arith, rw e same, rw (e, same) r)
    | no l ↦ inl (rw e (ap (λ i. s.queue (place s i)) (ground (arith, below d))))
  ]
]

-- From s to t there are n picks, none of which gives what entry i of the queue holds. After each pick all
-- else may change, but the head stays where the pick has left it, and the entry keeps its process, which
-- is ready.
abbrev pub PassedOver : ℕ → ℕ → Sched → Sched → Type 0
PassedOver zero i s t = s ≡ t
PassedOver (suc n) i s t =
    ((next_ready s).0 ≢ s.queue i)
    × ((u : Sched) × (u.q_head ≡ (next_ready s).1.q_head)
        × (u.queue i ≡ s.queue i)
        × (ready_at u.table (u.queue i) ≡ true)
        × PassedOver n i u t)

-- A ready process that is d places round from the head of the queue is passed over d times at
-- most: of d + 1 picks one gives it, as long as the queue keeps it in its entry, it stays ready, and
-- nothing but the picks moves the head; other processes and other entries may change in between.
pub next_ready_bounded :
    (n d : ℕ) (s t : Sched)
    → d < queue_size
    → is_ready_at s d ≡ true
    → PassedOver n (place s d) s t
    → n ≤ d
next_ready_bounded zero d s t h r p = omega arith
next_ready_bounded (suc n) d s t h r (other, (u, head, entry, ready_u, later)) =
    elim (next_ready_fair s d h r) [
      | inl picked ↦ absurd (other picked)
      | inr (e, l, same, again) ↦
          let at : place u e ≡ place s d = ap (λ x. (x + e) % queue_size) head ∙ same in
          let below = next_ready_bounded n e u t (omega arith) (rw at ready_u) (rw at later) in
          omega arith
    ]
