-- ===== src/Proc/Table/Find.antt =====
-- `proc_find` of kernel/proc/process.c, and process ids that name one process each.
use sinux.Prelude.{
  ℕ, zero, suc, ◌+◌, ◌≤◌, ◌<◌, ◌≡◌, refl, sym, ◌↔◌, ◌∙◌, ◌⊎◌, inl, inr, false, not, ◌&&◌, Option,
  none, some, ◌==◌, Bool-cases, arith,
}
use sinux.Proc.Types.{Table, is_unused, max_procs}
use sinux.Proc.Table.{find_from, proc_find}

-- Slot i holds a process with that id.
abbrev pub IsAt : Table → ℕ → ℕ → Type 0
IsAt t pid i = ((t.procs i).pid ≡ pid) × (is_unused (t.procs i).state ≡ false)

abbrev Found : ℕ → ℕ → ℕ → Table → Option ℕ → Type 0
Found n i pid t r =
    ((r ≡ none) × ((j : ℕ) → i ≤ j → j < i + n → ¬ (IsAt t pid j)))
    ⊎ ((k : ℕ) × (i ≤ k)
        × (k < i + n)
        × IsAt t pid k
        × ((j : ℕ) → i ≤ j → j < k → ¬ (IsAt t pid j))
        × (r ≡ some k))

find_from-Found : (n i pid : ℕ) (t : Table) → Found n i pid t (find_from n i pid t)
unfolding find_from
find_from-Found zero i pid t = inl (refl, λ j a b. absurd (omega arith))
find_from-Found (suc n) i pid t =
    elim (Bool-cases ((t.procs i).pid == pid && not (is_unused (t.procs i).state))) [
      | inl e ↦ rw e (
          inr (
            i,
            omega arith,
            omega arith,
            (ground arith, ground arith),
            (λ j a b. absurd (omega arith)),
            refl,
          ))
      | inr e ↦ rw e (elim (find_from-Found n (i + 1) pid t) [
        | inl (r, all) ↦ inl (r, λ j a b at. ground (arith, all j))
        | inr (k, a, b, c, below, r) ↦
            inr (k, omega arith, omega arith, c, (λ j a b at. ground (arith, below j)), r)
      ])
    ]

-- No two slots in use hold processes with one id, and all ids have been given out.
pub record IsValid (t : Table) : Type 0 where
  pub unique :
      (i j : ℕ)
      → i < max_procs
      → j < max_procs
      → is_unused (t.procs i).state ≡ false
      → is_unused (t.procs j).state ≡ false
      → (t.procs i).pid ≡ (t.procs j).pid
      → i ≡ j
  pub given :
      (i : ℕ) → i < max_procs → is_unused (t.procs i).state ≡ false → (t.procs i).pid < t.next_pid

-- In a valid table `proc_find` gives a slot exactly when that slot is in use by a process with
-- that id.
pub proc_find_iff :
    (t : Table) (pid i : ℕ) → IsValid t → i < max_procs → (proc_find t pid ≡ some i) ↔ IsAt t pid i
unfolding proc_find
proc_find_iff t pid i v h = elim (find_from-Found max_procs 0 pid t) [
  | inl (r, all) ↦ ((λ e. cc), λ at. absurd (all i (omega arith) (omega arith) at))
  | inr (k, a, b, c, below, r) ↦ (
    (λ e. let q : k ≡ i = ground arith in rw (← q) c),
    (λ at. let q : k ≡ i = v.unique k i b h c.1 at.1 (c.0 ∙ sym at.0) in rw (← q) r),
  )
]

-- `proc_find` gives a slot that is in use by a process with that id, or there is none.
pub proc_find-IsAt :
    (t : Table) (pid : ℕ)
    → ((proc_find t pid ≡ none) × ((j : ℕ) → j < max_procs → ¬ (IsAt t pid j)))
      ⊎ ((i : ℕ) × (i < max_procs) × IsAt t pid i × (proc_find t pid ≡ some i))
unfolding proc_find
proc_find-IsAt t pid = elim (find_from-Found max_procs 0 pid t) [
  | inl (r, all) ↦ inl (r, λ j h. all j (omega arith) h)
  | inr (k, a, b, c, below, r) ↦ inr (k, b, c, r)
]
