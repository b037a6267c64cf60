-- ===== src/Proc/Sched/Pick.antt =====
-- `next_ready` of kernel/proc/scheduler.c: the first ready entry from the head of the queue round it.
use sinux.Prelude.{
  ℕ, zero, suc, ◌+◌, ◌%◌, ◌≤◌, ◌<◌, ◌≡◌, refl, ◌⊎◌, inl, inr, Bool, true, false, Option, none, some,
  Bool-cases, arith,
}
use sinux.Proc.Sched.{Sched, queue_size, ready_at, ready_from, next_ready}

-- The entry that is i places round the queue from its head.
abbrev pub place : Sched → ℕ → ℕ
place s i = (s.q_head + i) % queue_size

abbrev pub is_ready_at : Sched → ℕ → Bool
is_ready_at s i = ready_at s.table (s.queue (place s i))

abbrev pub Searched : ℕ → ℕ → Sched → Option ℕ → Type 0
Searched n i s r =
    ((r ≡ none) × ((j : ℕ) → i ≤ j → j < i + n → is_ready_at s j ≡ false))
    ⊎ ((k : ℕ) × (i ≤ k)
        × (k < i + n)
        × (is_ready_at s k ≡ true)
        × ((j : ℕ) → i ≤ j → j < k → is_ready_at s j ≡ false)
        × (r ≡ some (place s k)))

ready_from-Searched : (n i : ℕ) (s : Sched) → Searched n i s (ready_from n i s)
unfolding ready_from
ready_from-Searched zero i s = inl (refl, λ j a b. absurd (omega arith))
ready_from-Searched (suc n) i s = elim (Bool-cases (is_ready_at s i)) [
  | inl e ↦ rw e (inr (i, omega arith, omega arith, e, (λ j a b. absurd (omega arith)), refl))
  | inr e ↦ rw e (elim (ready_from-Searched n (i + 1) s) [
    | inl (r, all) ↦ inl (r, λ j a b. ground (arith, all j))
    | inr (k, a, b, c, below, r) ↦
        inr (k, omega arith, omega arith, c, (λ j x y. ground (arith, below j)), r)
  ])
]

-- `next_ready` either finds no ready process in the queue, and changes nothing, or gives the ready
-- one that is the fewest places round from the head, and moves the head just behind it.
pub next_ready_lem :
    (s : Sched)
    → ((next_ready s ≡ (none, s)) × ((j : ℕ) → j < queue_size → is_ready_at s j ≡ false))
      ⊎ ((k : ℕ) × (k < queue_size)
          × (is_ready_at s k ≡ true)
          × ((j : ℕ) → j < k → is_ready_at s j ≡ false)
          × (next_ready s
              ≡ (s.queue (place s k), record s { q_head = (place s k + 1) % queue_size })))
unfolding next_ready
next_ready_lem s = elim (ready_from-Searched queue_size 0 s) [
  | inl (r, all) ↦ inl (rw r refl, λ j a. all j (omega arith) (omega arith))
  | inr (k, a, b, c, below, r) ↦
      inr (k, omega arith, c, (λ j x. below j (omega arith) x), rw r refl)
]
