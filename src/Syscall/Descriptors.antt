-- ===== src/Syscall/Descriptors.antt =====
-- kernel/syscall/syscall.c: the calls on file descriptors, one after the other.
use sinux.Prelude.{
  ℕ, ◌<◌, ◌≡◌, refl, ap, sym, ◌∙◌, ◌≢◌, ◌⊎◌, inl, inr, Option, none, some, List, if◌then◌else◌,
  ◌==◌, Ret, ret, err, update, arith, Bool-cases, ==_iff,
}
use sinux.Proc.Types.{Process, max_fds}
use sinux.Proc.Memory.{Memory}
use sinux.Proc.OpenFiles.{Files}
use sinux.Proc.Table.{proc_free_fd}
use sinux.Proc.Table.Fds.{proc_alloc_fd_lem}
use sinux.Fs.Types.{enoent, ebadf}
use sinux.Syscall.{
  Sys, proc_of, with_proc, file_at, emfile, take_fd, open_fd, sys_open, close_file, sys_close,
}

module _ (m : Memory) (files : Files) (vmm_clone_pml4 : ℕ → m.State → ℕ × m.State) where
  abbrev pub at : ℕ → ℕ → Sys m files vmm_clone_pml4 → Option ℕ
  at cur fd y = file_at m files vmm_clone_pml4 cur fd y

  -- `sys_open` gave a descriptor: what was opened is there, and not before.
  pub record Open (cur : ℕ) (f fd : ℕ) (y z : Sys m files vmm_clone_pml4) : Type 0 where
    pub inside : fd < max_fds
    pub was_free : at cur fd y ≡ none
    pub lowest : (j : ℕ) → j < fd → at cur j y ≢ none
    pub here : at cur fd z ≡ some f
    pub others : (j : ℕ) → j ≢ fd → at cur j z ≡ at cur j y

  -- What `proc_alloc_fd` makes of the process, and the system with it.
  abbrev given : Process → ℕ → ℕ → Process
  given p k f = record p { fds = update p.fds k (record { file = some f; flags = 0 }) }

  abbrev filled : ℕ → ℕ → ℕ → Sys m files vmm_clone_pml4 → Sys m files vmm_clone_pml4
  filled cur k f y =
      with_proc m files vmm_clone_pml4 cur (given (proc_of m files vmm_clone_pml4 cur y) k f) y

  proc_of-with_proc :
      (cur : ℕ) (p : Process) (y : Sys m files vmm_clone_pml4)
      → proc_of m files vmm_clone_pml4 cur (with_proc m files vmm_clone_pml4 cur p y) ≡ p
  proc_of-with_proc cur p y = ground arith

  filled-Open :
      (cur f k : ℕ) (y : Sys m files vmm_clone_pml4)
      → k < max_fds
      → ((proc_of m files vmm_clone_pml4 cur y).fds k).file ≡ none
      → ((j : ℕ) → j < k → ((proc_of m files vmm_clone_pml4 cur y).fds j).file ≢ none)
      → Open cur f k y (filled cur k f y)
  filled-Open cur f k y b c below = record {
    inside = b;
    was_free = ground arith;
    lowest = λ j h. ground (arith, below j h);
    here = ground arith;
    others = λ j ne. ground arith;
  }

  -- What is open at fd is closed again, and every descriptor of the process is as in y.
  pub record Undone (cur : ℕ) (f fd : ℕ) (y z : Sys m files vmm_clone_pml4) : Type 0 where
    pub result : (sys_close m files vmm_clone_pml4 cur fd z).0 ≡ ret 0
    pub closed :
        (sys_close m files vmm_clone_pml4 cur fd z).1.open_files ≡ files.vfs_close f z.open_files
    pub as_before : (j : ℕ) → at cur j (sys_close m files vmm_clone_pml4 cur fd z).1 ≡ at cur j y
    pub stale :
        (sys_close m files vmm_clone_pml4 cur fd (sys_close m files vmm_clone_pml4 cur fd z).1).0
        ≡ err ebadf

  close_file-at :
      (cur f fd : ℕ) (z : Sys m files vmm_clone_pml4)
      → fd < max_fds
      → (j : ℕ)
      → at cur j (close_file m files vmm_clone_pml4 cur fd (some f) z).1
        ≡ (if j == fd then none else at cur j z)
  unfolding close_file proc_free_fd
  close_file-at cur f fd z h j = ground arith

  sys_close-none :
      (cur fd : ℕ) (z : Sys m files vmm_clone_pml4)
      → at cur fd z ≡ none
      → sys_close m files vmm_clone_pml4 cur fd z ≡ (err ebadf, z)
  unfolding sys_close close_file
  sys_close-none cur fd z e = rw e refl

  sys_close-some :
      (cur f fd : ℕ) (z : Sys m files vmm_clone_pml4)
      → at cur fd z ≡ some f
      → sys_close m files vmm_clone_pml4 cur fd z
        ≡ close_file m files vmm_clone_pml4 cur fd (some f) z
  unfolding sys_close
  sys_close-some cur f fd z e = rw e refl

  closed-as_before :
      (cur f fd : ℕ) (y z : Sys m files vmm_clone_pml4)
      → Open cur f fd y z
      → (j : ℕ) → (if j == fd then none else at cur j z) ≡ at cur j y
  closed-as_before cur f fd y z o j = elim (Bool-cases (j == fd)) [
    | inl b ↦ rw (b, (==_iff j fd).0 b) (sym o.was_free)
    | inr b ↦ rw b (o.others j (ground (arith, b)))
  ]

  Open-Undone :
      (cur f fd : ℕ) (y z : Sys m files vmm_clone_pml4) → Open cur f fd y z → Undone cur f fd y z
  unfolding close_file
  Open-Undone cur f fd y z o =
      let e = sys_close-some cur f fd z o.here in
      let all = close_file-at cur f fd z o.inside in
      let same : (j : ℕ) → at cur j (sys_close m files vmm_clone_pml4 cur fd z).1 ≡ at cur j y =
        λ j. ap (λ r. at cur j r.1) e ∙ (all j ∙ closed-as_before cur f fd y z o j) in
      record {
        result = ap (λ r. r.0) e;
        closed = ap (λ r. r.1.open_files) e;
        as_before = same;
        stale =
            ap (λ r. r.0)
              (sys_close-none cur fd (sys_close m files vmm_clone_pml4 cur fd z).1
                (same fd ∙ o.was_free));
      }

  abbrev pub with_files : Sys m files vmm_clone_pml4 → files.State → Sys m files vmm_clone_pml4
  with_files y s = record y { open_files = s }

  -- What `sys_open` makes of what `vfs_open` gives: no file, no descriptor left, or a descriptor.
  abbrev pub Answers :
      ℕ → Option ℕ → Sys m files vmm_clone_pml4 → Ret × Sys m files vmm_clone_pml4 → Type 0
  Answers cur none y r = r ≡ (err enoent, y)
  Answers cur (some f) y r =
      ((r ≡ (err emfile, with_files y (files.vfs_close f y.open_files)))
        × ((j : ℕ) → j < max_fds → at cur j y ≢ none))
      ⊎ ((fd : ℕ) × (r.0 ≡ ret fd)
          × (r.1.open_files ≡ y.open_files)
          × Open cur f fd y r.1
          × Undone cur f fd y r.1)

  open_fd-Answers :
      (cur : ℕ) (o : Option ℕ) (y : Sys m files vmm_clone_pml4)
      → Answers cur o y (open_fd m files vmm_clone_pml4 cur o y)
  unfolding open_fd take_fd
  open_fd-Answers cur none y = refl
  open_fd-Answers cur (some f) y =
      elim (proc_alloc_fd_lem (proc_of m files vmm_clone_pml4 cur y) f) [
        | inl (r, all) ↦ rw r (inl (refl, λ j h. ground (arith, all j)))
        | inr (k, a, b, c, below, r) ↦
            let o = filled-Open cur f k y b c (λ j. below j (omega arith)) in
            rw r (inr (k, refl, refl, o, Open-Undone cur f k y (filled cur k f y) o))
      ]

  -- `sys_open`, for every path and every table of descriptors, answers in one of three ways. If
  -- `vfs_open` gives no file it is -ENOENT, and only the files have changed. If all 64 descriptors are
  -- taken it is -EMFILE, the file opened is closed again, and no descriptor has changed. Otherwise it
  -- is the lowest free descriptor, which holds the file, and the others are as before; then `sys_close` of
  -- it gives 0 and closes that file, every descriptor is as before `sys_open`, and a second
  -- `sys_close` gives -EBADF.
  pub sys_open-sys_close :
      (cur flags : ℕ) (path : List ℕ) (y : Sys m files vmm_clone_pml4)
      → Answers cur
          (files.vfs_open path flags y.open_files).0
          (with_files y (files.vfs_open path flags y.open_files).1)
          (sys_open m files vmm_clone_pml4 cur path flags y)
  unfolding sys_open
  sys_open-sys_close cur flags path y =
      let (o, s) = files.vfs_open path flags y.open_files in open_fd-Answers cur o (with_files y s)
