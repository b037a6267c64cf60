-- ===== src/Proc/Table/Create.antt =====
-- `proc_create` of kernel/proc/process.c: the slot that it takes, and what it leaves there.
use sinux.Prelude.{
  ℕ, zero, suc, ◌+◌, ◌-◌, ◌%◌, ◌^◌, ◌≤◌, ◌<◌, ◌≡◌, refl, ◌≢◌, ◌⊎◌, inl, inr, true, false, Option,
  none, some, Bool-cases, arith,
}
use sinux.Proc.Types.{ready, is_unused, max_procs}
use sinux.Proc.Memory.{Memory}
use sinux.Proc.Table.{
  Kernel, current_pid, create_at, give_stack, give_space, create_from, proc_create, proc_find,
}
use sinux.Proc.Table.Find.{IsValid, proc_find_iff}

module _ (m : Memory) where
  open m use {State, pmm_alloc, zero_page, vmm_new_pml4}

  -- The kernel stack's page and the top page table that `proc_create` is given, 0 for NULL.
  abbrev pub stack_page : Kernel m → ℕ
  stack_page k = (pmm_alloc k.memory).0

  abbrev pub space_page : Kernel m → ℕ
  space_page k = (vmm_new_pml4 (zero_page (stack_page k) (pmm_alloc k.memory).1)).0

  -- What is left in slot i, whether memory ran out on the way or not.
  pub record Taken (i : ℕ) (k : Kernel m) (r : Option ℕ × Kernel m) : Type 0 where
    pub pid : (r.1.table.procs i).pid ≡ k.table.next_pid
    pub ppid : (r.1.table.procs i).ppid ≡ current_pid k.table k.table.current
    pub state : (r.1.table.procs i).state ≡ ready
    pub others : (j : ℕ) → i ≢ j → r.1.table.procs j ≡ k.table.procs j
    pub next : r.1.table.next_pid ≡ (k.table.next_pid + 1) % 2 ^ 32
    pub created : stack_page k ≢ 0 → space_page k ≢ 0 → r.0 ≡ some i
    pub failed : (stack_page k ≡ 0) ⊎ (space_page k ≡ 0) → r.0 ≡ none

  create_at-Taken : (i : ℕ) (k : Kernel m) → Taken i k (create_at m i k)
  unfolding create_at give_stack give_space
  create_at-Taken i k = record {
    pid = ground arith;
    ppid = ground arith;
    state = ground arith;
    others = λ j ne. ground arith;
    next = ground arith;
    created = λ a b. ground arith;
    failed = λ h. ground arith;
  }

  Taken-IsValid :
      (i : ℕ) (k : Kernel m) (r : Option ℕ × Kernel m)
      → Taken i k r
      → IsValid k.table
      → k.table.next_pid + 1 < 2 ^ 31
      → i < max_procs
      → IsValid r.1.table
  Taken-IsValid i k r t v few h = record {
    unique = λ a b ha hb ua ub e.
        ground
          (arith, t.others a, t.others b, t.pid, v.given a ha, v.given b hb, v.unique a b ha hb);
    given = λ a ha ua.
        let next : r.1.table.next_pid ≡ k.table.next_pid + 1 = omega (arith, t.next, few) in
        ground (arith, t.others a, t.pid, next, v.given a ha);
  }

  -- The search of `proc_create` in the n slots from i on.
  abbrev Searched : ℕ → ℕ → Kernel m → Option ℕ × Kernel m → Type 0
  Searched n i k r =
      ((r ≡ (none, k)) × ((j : ℕ) → i ≤ j → j < i + n → is_unused (k.table.procs j).state ≡ false))
      ⊎ ((a : ℕ) × (i ≤ a)
          × (a < i + n)
          × (is_unused (k.table.procs a).state ≡ true)
          × ((j : ℕ) → i ≤ j → j < a → is_unused (k.table.procs j).state ≡ false)
          × (r ≡ create_at m a k))

  create_from-Searched : (n i : ℕ) (k : Kernel m) → Searched n i k (create_from m n i k)
  unfolding create_from
  create_from-Searched zero i k = inl (refl, λ j a b. absurd (omega arith))
  create_from-Searched (suc n) i k = elim (Bool-cases (is_unused (k.table.procs i).state)) [
    | inl e ↦ rw e (inr (i, omega arith, omega arith, e, (λ j a b. absurd (omega arith)), refl))
    | inr e ↦ rw e (elim (create_from-Searched n (i + 1) k) [
      | inl (r, all) ↦ inl (r, λ j a b. ground (arith, all j))
      | inr (c, a, b, u, below, r) ↦
          inr (c, omega arith, omega arith, u, (λ j x y. ground (arith, below j)), r)
    ])
  ]

  -- While fewer than 2^31 - 1 ids have been given out, and ids name one process each: `proc_create` finds slots 1 to 255 in use, and then returns NULL and changes nothing, or takes
  -- the lowest slot that is not: the process there gets the next id, the current process for its
  -- parent, and is ready; no other slot changes; its slot is returned if there was memory for its
  -- stack and its page table, and NULL if not. Ids still name one process each.
  pub proc_create_lem :
      (k : Kernel m)
      → IsValid k.table
      → k.table.next_pid + 1 < 2 ^ 31
      → IsValid (proc_create m k).1.table
        × (((proc_create m k ≡ (none, k))
              × ((j : ℕ) → 1 ≤ j → j < max_procs → is_unused (k.table.procs j).state ≡ false))
            ⊎ ((i : ℕ) × (1 ≤ i)
                × (i < max_procs)
                × (is_unused (k.table.procs i).state ≡ true)
                × ((j : ℕ) → 1 ≤ j → j < i → is_unused (k.table.procs j).state ≡ false)
                × Taken i k (proc_create m k)))
  unfolding proc_create
  proc_create_lem k v few = elim (create_from-Searched (max_procs - 1) 1 k) [
    | inl (r, all) ↦ rw r (v, inl (refl, λ j a b. all j a (omega arith)))
    | inr (c, a, b, u, below, r) ↦
        let t = create_at-Taken c k in
        rw r (Taken-IsValid c k _ t v few (omega arith), inr (c, a, omega arith, u, below, t))
  ]

  -- A process that `proc_create` could not give a stack is left in the table: the caller has NULL,
  -- and `proc_find` finds a ready process by its id.
  pub proc_create_leaves :
      (k : Kernel m) (i : ℕ)
      → IsValid k.table
      → k.table.next_pid + 1 < 2 ^ 31
      → 1 ≤ i
      → i < max_procs
      → is_unused (k.table.procs i).state ≡ true
      → stack_page k ≡ 0
      → ((proc_create m k).0 ≡ none)
        × ((j : ℕ) × (proc_find (proc_create m k).1.table k.table.next_pid ≡ some j)
            × (((proc_create m k).1.table.procs j).state ≡ ready))
  proc_create_leaves k i v few low high free none_left = elim (proc_create_lem k v few).1 [
    | inl (r, all) ↦ cc (all i low high)
    | inr (c, a, b, u, below, t) ↦ (
      t.failed (inl none_left),
      (c, (proc_find_iff _ _ c (proc_create_lem k v few).0 b).1 (t.pid, rw t.state refl), t.state),
    )
  ]
