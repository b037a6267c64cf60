-- ===== src/Ipc/Pipe/Create.antt =====
-- `pipe_create` of kernel/ipc/pipe.c: the descriptors of the two ends, in the current process.
use sinux.Prelude.{
  ℕ, ◌<◌, ◌≡◌, refl, ◌≢◌, ◌⊎◌, inl, inr, Bool, false, ◌||◌, Option, none, some, if◌then◌else◌, ◌==◌,
  Ret, ret, err, arith, update,
}
use sinux.Proc.Types.{Process, max_fds}
use sinux.Proc.Table.{proc_alloc_fd}
use sinux.Proc.Table.Fds.{proc_alloc_fd_lem}

abbrev pub enomem : ℕ
enomem = 12

abbrev pub emfile : ℕ
emfile = 24

-- What `kmalloc` returns for the pipe, its two inodes and its two files, 0 for NULL.
pub record Blocks : Type 0 where
  pub pipe : ℕ
  pub ri : ℕ
  pub wi : ℕ
  pub rf : ℕ
  pub wf : ℕ

-- `fds` has `none` for what is not a descriptor.
pub record Created : Type 0 where
  pub code : Ret
  pub read_fd : Option ℕ
  pub write_fd : Option ℕ
  pub proc : Process

abbrev pub fds_code : Option ℕ → Option ℕ → Ret
fds_code (some i) (some j) = ret 0
fds_code _ _ = err emfile

abbrev pub is_short : Blocks → Bool
is_short b = b.pipe == 0 || b.ri == 0 || b.wi == 0 || b.rf == 0 || b.wf == 0

-- The second call of `proc_alloc_fd`, after the first, and what follows.
unfoldable pub join_ends : Blocks → Option ℕ × Process → Created
join_ends b r =
    let w = proc_alloc_fd r.1 b.wf in
    record { code = fds_code r.0 w.0; read_fd = r.0; write_fd = w.0; proc = w.1 }

unfoldable pub pipe_create : Blocks → Process → Created
pipe_create b p =
    if is_short b
    then record { code = err enomem; read_fd = none; write_fd = none; proc = p }
    else join_ends b (proc_alloc_fd p b.rf)

-- The two lowest free descriptors, for the two ends.
pub record Joined (b : Blocks) (p : Process) (i j : ℕ) (c : Created) : Type 0 where
  pub code : c.code ≡ ret 0
  pub read_fd : c.read_fd ≡ some i
  pub write_fd : c.write_fd ≡ some j
  pub order : i < j
  pub inside : j < max_fds
  pub read_free : (p.fds i).file ≡ none
  pub write_free : (p.fds j).file ≡ none
  pub between : (k : ℕ) → k < j → k ≢ i → (p.fds k).file ≢ none
  pub read_end : (c.proc.fds i).file ≡ some b.rf
  pub write_end : (c.proc.fds j).file ≡ some b.wf
  pub others : (k : ℕ) → k ≢ i → k ≢ j → c.proc.fds k ≡ p.fds k

-- What `pipe_create` comes to, with its memory.
abbrev pub Outcome : Blocks → Process → Created → Type 0
Outcome b p c =
    ((i : ℕ) × (j : ℕ) × Joined b p i j c)
    ⊎ ((c.code ≡ err emfile)
        × ((i j : ℕ) → i < j → j < max_fds → (p.fds i).file ≡ none → (p.fds j).file ≢ none))

none_left : (b : Blocks) (p : Process) → (join_ends b (none, p)).code ≡ err emfile
unfolding join_ends
none_left b p = refl

abbrev first_taken : Process → ℕ → ℕ → Process
first_taken p i f = record p { fds = update p.fds i (record { file = some f; flags = 0 }) }

second_end :
    (b : Blocks) (p : Process) (i : ℕ)
    → i < max_fds
    → (p.fds i).file ≡ none
    → ((k : ℕ) → k < i → (p.fds k).file ≢ none)
    → Outcome b p (join_ends b (some i, first_taken p i b.rf))
unfolding join_ends
second_end b p i c f below = elim (proc_alloc_fd_lem (first_taken p i b.rf) b.wf) [
  | inl (w, all) ↦ inr (rw w refl, λ x y less high fx. ground (arith, below x, all y, below y))
  | inr (j, a', c', f', below', w) ↦
      let later : i < j = ground (arith, below j) in
      inl (
        i,
        j,
        rw w (record {
          code = refl;
          read_fd = refl;
          write_fd = refl;
          order = later;
          inside = omega arith;
          read_free = f;
          write_free = ground arith;
          between = λ k h ne. ground (arith, below' k);
          read_end = ground arith;
          write_end = ground arith;
          others = λ k x y. ground arith;
        }),
      )
]

both_ends : (b : Blocks) (p : Process) → Outcome b p (join_ends b (proc_alloc_fd p b.rf))
both_ends b p = elim (proc_alloc_fd_lem p b.rf) [
  | inl (r, all) ↦ inr (rw r (none_left b p), λ i j x y z. all j (omega arith) (omega arith))
  | inr (i, a, c, f, below, r) ↦
      rw r (second_end b p i (omega arith) f (λ k l. below k (omega arith) l))
]

-- With its memory, `pipe_create` gives the reading end the lowest free descriptor and the writing
-- end the next lowest, and touches no other; or fewer than two descriptors are free, and it fails
-- with -EMFILE.
pub pipe_create_lem :
    (b : Blocks) (p : Process) → is_short b ≡ false → Outcome b p (pipe_create b p)
unfolding pipe_create
pipe_create_lem b p e = rw e (both_ends b p)
