-- ===== src/Proc/Sched/Queue.antt =====
-- The slots of the run queue of kernel/proc/scheduler.c: what `sched_add` and `sched_remove` keep.
use sinux.Prelude.{
  ℕ, zero, suc, ◌+◌, ◌-◌, ◌≤◌, ◌<◌, ◌≡◌, refl, ◌≢◌, ◌⊎◌, inl, inr, true, false, Option, none, some,
  ◌==◌, ==_iff, Bool-cases, arith, update,
}
use sinux.Proc.Sched.{Sched, queue_size, is_slot, remove_from, sched_add, sched_remove}

-- Entry i of the queue is the process p.
abbrev pub IsQueued : Sched → ℕ → ℕ → Type 0
IsQueued s p i = (i < queue_size) × (s.queue i ≡ some p)

-- A process stands in one entry at most.
abbrev pub Once : Sched → ℕ → Type 0
Once s p = (i j : ℕ) → IsQueued s p i → IsQueued s p j → i ≡ j

is_slot-eq : (o : Option ℕ) (p : ℕ) → is_slot o p ≡ true → o ≡ some p
is_slot-eq none p e = cc
is_slot-eq (some q) p e = ground arith

is_slot-ne : (o : Option ℕ) (p : ℕ) → is_slot o p ≡ false → o ≢ some p
is_slot-ne none p e f = cc
is_slot-ne (some q) p e f = ground arith

abbrev Removed : ℕ → ℕ → ℕ → Sched → Sched → Type 0
Removed n i p s t =
    ((t ≡ s) × ((j : ℕ) → i ≤ j → j < i + n → s.queue j ≢ some p))
    ⊎ ((k : ℕ) × (k < i + n)
        × (s.queue k ≡ some p)
        × (t ≡ record s { queue = update s.queue k none; q_count = s.q_count - 1 }))

remove_from-Removed : (n i p : ℕ) (s : Sched) → Removed n i p s (remove_from n i p s)
unfolding remove_from
remove_from-Removed zero i p s = inl (refl, λ j a b. absurd (omega arith))
remove_from-Removed (suc n) i p s = elim (Bool-cases (is_slot (s.queue i) p)) [
  | inl e ↦ rw e (inr (i, omega arith, is_slot-eq (s.queue i) p e, refl))
  | inr e ↦ rw e (elim (remove_from-Removed n (i + 1) p s) [
    | inl (r, all) ↦ inl (
      r,
      λ j a b. elim (Bool-cases (i == j)) [
        | inl q ↦ rw (← (==_iff i j).0 q) (is_slot-ne (s.queue i) p e)
        | inr q ↦ all j (ground arith) (omega arith)
      ],
    )
    | inr (k, a, b, r) ↦ inr (k, omega arith, b, r)
  ])
]

-- `sched_remove` of a process that stands in one entry of the queue leaves it in none, and takes
-- no other process out.
pub sched_remove_lem :
    (s : Sched) (p : ℕ)
    → Once s p
    → ((i : ℕ) → ¬ (IsQueued (sched_remove s p) p i))
      × ((q i : ℕ) → q ≢ p → IsQueued s q i → IsQueued (sched_remove s p) q i)
unfolding sched_remove
sched_remove_lem s p once = elim (remove_from-Removed queue_size 0 p s) [
  | inl (r, all) ↦ rw r ((λ i h. all i (omega arith) (omega (arith, h.0)) h.1), λ q i ne h. h)
  | inr (k, a, b, r) ↦
      rw r ((λ i h. ground (arith, once k i)), λ q i ne h. (h.0, ground (arith, h.1)))
]

-- `sched_add` writes at the tail whether or not an entry there is in use: while the count is below
-- the queue's size, a process that stands at the tail, and there alone, is in the queue no more.
pub sched_add_overwrites :
    (s : Sched) (a b i : ℕ)
    → s.q_count < queue_size
    → s.q_tail < queue_size
    → s.queue s.q_tail ≡ some a
    → Once s a
    → a ≢ b
    → ¬ (IsQueued (sched_add s b) a i)
unfolding sched_add
sched_add_overwrites s a b i room tail at_tail once ne h = ground (arith, once s.q_tail i, h)
