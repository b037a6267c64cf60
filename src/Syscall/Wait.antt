-- ===== src/Syscall/Wait.antt =====
-- `sys_wait4` of kernel/syscall/syscall.c: its rounds, and what it ends with.
use sinux.Prelude.{
  List, [], ◌∷◌, ap, ℕ, ◌≡◌, ◌≢◌, ◌<◌, ◌⊎◌, refl, sym, ◌∙◌, inl, inr, Option, none, some, Ret, ret,
  err, ℤ, arith,
}
use sinux.Proc.Types.{
  PState, zombie, unused, running, ready, sleeping, waiting, Process, Table, put, max_procs,
}
use sinux.Proc.Memory.{Memory}
use sinux.Proc.OpenFiles.{Files}
use sinux.Proc.Table.{proc_find}
use sinux.Proc.Table.Find.{IsAt, IsValid, proc_find-IsAt}
use sinux.Fs.Types.{einval}
use sinux.Syscall.{Sys, with_proc, wait_found, wait_round, after_round, sys_wait4}

zombie-or : (s : PState) → (s ≡ zombie) ⊎ (s ≢ zombie)
zombie-or zombie = inl refl
zombie-or unused = inr (λ e. cc)
zombie-or running = inr (λ e. cc)
zombie-or ready = inr (λ e. cc)
zombie-or sleeping = inr (λ e. cc)
zombie-or waiting = inr (λ e. cc)

module _ (m : Memory) (files : Files) (vmm_clone_pml4 : ℕ → m.State → ℕ × m.State) where
  abbrev pub table : Sys m files vmm_clone_pml4 → Table
  table y = y.system.sched.table

  -- The zombie in slot i was collected.
  pub record Collected (cur pid i : ℕ) (y : Sys m files vmm_clone_pml4)
      (r : Option (Ret × Option ℤ) × Sys m files vmm_clone_pml4) : Type 0 where
    pub result : r.0 ≡ some (ret pid, some ((table y).procs i).exit_code)
    pub freed : ((table r.1).procs i).state ≡ unused
    pub others : (j : ℕ) → j ≢ i → (table r.1).procs j ≡ (table y).procs j
    pub files_kept : r.1.open_files ≡ y.open_files
    pub valid : IsValid (table r.1)
    pub gone : wait_round m files vmm_clone_pml4 cur pid r.1 ≡ (some (err einval, none), r.1)

  put_unused-IsAt :
      (t : Table) (pid i j : ℕ) (p : Process)
      → p.state ≡ unused
      → IsAt (put t i p) pid j
      → (i ≢ j) × IsAt t pid j
  put_unused-IsAt t pid i j p e (a, b) =
      (ground (arith, a, b, e), (ground (arith, a, b, e), ground (arith, a, b, e)))

  freed_table-none :
      (t : Table) (pid i : ℕ) (p : Process)
      → IsValid t
      → i < max_procs
      → IsAt t pid i
      → p.state ≡ unused
      → proc_find (put t i p) pid ≡ none
  freed_table-none t pid i p v h at e = elim (proc_find-IsAt (put t i p) pid) [
    | inl (r, all) ↦ r
    | inr (j, hj, there, r) ↦
        let (ne, before) = put_unused-IsAt t pid i j p e there in
        absurd (ne (v.unique i j h hj at.1 before.1 (at.0 ∙ sym before.0)))
  ]

  put_unused-IsValid :
      (t : Table) (i : ℕ) (p : Process) → IsValid t → p.state ≡ unused → IsValid (put t i p)
  put_unused-IsValid t i p v e = record {
    unique = λ a b ha hb ua ub q. ground (arith, v.unique a b ha hb, e);
    given = λ a ha ua. ground (arith, v.given a ha, e);
  }

  wait_round-none :
      (cur pid : ℕ) (y : Sys m files vmm_clone_pml4)
      → proc_find (table y) pid ≡ none
      → wait_round m files vmm_clone_pml4 cur pid y ≡ (some (err einval, none), y)
  unfolding wait_round wait_found
  wait_round-none cur pid y e = rw e refl

  abbrev freed_process : ℕ → Sys m files vmm_clone_pml4 → Process
  freed_process i y = record ((table y).procs i) { state = unused }

  wait_round-zombie :
      (cur pid i : ℕ) (y : Sys m files vmm_clone_pml4)
      → proc_find (table y) pid ≡ some i
      → ((table y).procs i).state ≡ zombie
      → wait_round m files vmm_clone_pml4 cur pid y ≡ (
        some (ret pid, some ((table y).procs i).exit_code),
        with_proc m files vmm_clone_pml4 i (freed_process i y) y,
      )
  unfolding wait_round wait_found
  wait_round-zombie cur pid i y found e = rw found (ground (arith, e))

  zombie-Collected :
      (cur pid i : ℕ) (y : Sys m files vmm_clone_pml4)
      → proc_find (table y) pid ≡ some i
      → ((table y).procs i).state ≡ zombie
      → IsValid (table y)
      → i < max_procs
      → IsAt (table y) pid i
      → Collected cur pid i y (wait_round m files vmm_clone_pml4 cur pid y)
  zombie-Collected cur pid i y found e v h at = rw (wait_round-zombie cur pid i y found e) (record {
    result = refl;
    freed = ground arith;
    others = λ j ne. ground arith;
    files_kept = refl;
    valid = put_unused-IsValid (table y) i (freed_process i y) v refl;
    gone =
        wait_round-none cur pid _
          (freed_table-none (table y) pid i (freed_process i y) v h at refl);
  })

  wait_round-waits :
      (cur pid i : ℕ) (y : Sys m files vmm_clone_pml4)
      → proc_find (table y) pid ≡ some i
      → ((table y).procs i).state ≢ zombie
      → (wait_round m files vmm_clone_pml4 cur pid y).0 ≡ none
  unfolding wait_round wait_found
  wait_round-waits cur pid i y found e = rw found (ground arith)

  -- The three ends of a round.
  abbrev pub Ends :
      ℕ
      → ℕ
      → Sys m files vmm_clone_pml4
      → Option (Ret × Option ℤ) × Sys m files vmm_clone_pml4
      → Type 0
  Ends cur pid y r =
      (((j : ℕ) → j < max_procs → ¬ (IsAt (table y) pid j)) × (r ≡ (some (err einval, none), y)))
      ⊎ ((i : ℕ) × (i < max_procs)
          × IsAt (table y) pid i
          × (((((table y).procs i).state ≡ zombie) × Collected cur pid i y r)
              ⊎ ((((table y).procs i).state ≢ zombie) × (r.0 ≡ none))))

  wait_round-Ends :
      (cur pid : ℕ) (y : Sys m files vmm_clone_pml4)
      → IsValid (table y)
      → Ends cur pid y (wait_round m files vmm_clone_pml4 cur pid y)
  wait_round-Ends cur pid y v = elim (proc_find-IsAt (table y) pid) [
    | inl (r, all) ↦ inl (all, wait_round-none cur pid y r)
    | inr (i, h, at, r) ↦ inr (
      i,
      h,
      at,
      elim (zombie-or ((table y).procs i).state) [
        | inl e ↦ inl (e, zombie-Collected cur pid i y r e v h at)
        | inr ne ↦ inr (ne, wait_round-waits cur pid i y r ne)
      ],
    )
  ]

  -- The call stands before its last round in the state z: it has yielded in each round before.
  abbrev pub Reaches :
      ℕ
      → ℕ
      → List (Sys m files vmm_clone_pml4 → Sys m files vmm_clone_pml4)
      → Sys m files vmm_clone_pml4
      → Sys m files vmm_clone_pml4
      → Type 0
  Reaches cur pid [] y z = y ≡ z
  Reaches cur pid (others ∷ more) y z =
      ((wait_round m files vmm_clone_pml4 cur pid y).0 ≡ none)
      × Reaches cur pid more (others (wait_round m files vmm_clone_pml4 cur pid y).1) z

  after_round-none :
      (again : Sys m files vmm_clone_pml4 → Option (Ret × Option ℤ) × Sys m files vmm_clone_pml4)
      (r : Option (Ret × Option ℤ) × Sys m files vmm_clone_pml4)
      → r.0 ≡ none
      → after_round m files vmm_clone_pml4 again r ≡ again r.1
  after_round-none again (none, y) e = refl
  after_round-none again (some v, y) e = cc

  sys_wait4-wait_round :
      (cur pid : ℕ) (ws : List (Sys m files vmm_clone_pml4 → Sys m files vmm_clone_pml4))
      (y z : Sys m files vmm_clone_pml4)
      → Reaches cur pid ws y z
      → sys_wait4 m files vmm_clone_pml4 cur pid ws y ≡ wait_round m files vmm_clone_pml4 cur pid z
  unfolding sys_wait4
  sys_wait4-wait_round cur pid [] y z e = ap (wait_round m files vmm_clone_pml4 cur pid) e
  sys_wait4-wait_round cur pid (others ∷ more) y z (none_yet, later) =
      after_round-none (λ x. sys_wait4 m files vmm_clone_pml4 cur pid more (others x))
        (wait_round m files vmm_clone_pml4 cur pid y) none_yet
      ∙ sys_wait4-wait_round cur pid more (others (wait_round m files vmm_clone_pml4 cur pid y).1) z
          later

  -- `sys_wait4`, with any steps of the other processes between its rounds, comes in its last round to a
  -- state z in which ids name one process each. No process has the id in z: -EINVAL, and z is the end.
  -- The process with the id has exited in z: the id, with its exit code; its slot is free after it and no
  -- other process changes, ids stay unique, and the next round for the id would give -EINVAL. The process is
  -- there and has not exited: the call has not returned.
  pub sys_wait4_lem :
      (cur pid : ℕ) (ws : List (Sys m files vmm_clone_pml4 → Sys m files vmm_clone_pml4))
      (y z : Sys m files vmm_clone_pml4)
      → Reaches cur pid ws y z
      → IsValid (table z)
      → Ends cur pid z (sys_wait4 m files vmm_clone_pml4 cur pid ws y)
  sys_wait4_lem cur pid ws y z h v =
      rw (sys_wait4-wait_round cur pid ws y z h) (wait_round-Ends cur pid z v)
