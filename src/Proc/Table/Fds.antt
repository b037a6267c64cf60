-- ===== src/Proc/Table/Fds.antt =====
-- File descriptors in kernel/proc/process.c: the lowest free one is given, and exit lets all go.
use sinux.Prelude.{
  ℕ, zero, suc, ◌+◌, ◌≤◌, ◌<◌, ◌≡◌, refl, ◌≢◌, ◌⊎◌, inl, inr, Option, none, some, if◌then◌else◌,
  ltb, ◌==◌, Option-cases, lt→ltb, leb, ◌&&◌, arith, update,
}
use sinux.Proc.Types.{Process, max_fds}
use sinux.Proc.Table.{alloc_fd_from, proc_alloc_fd, proc_free_fd, let_go, free_fds_from}

-- What the loop of `proc_alloc_fd` finds in the n descriptors from i on.
abbrev Searched : ℕ → ℕ → ℕ → Process → Option ℕ × Process → Type 0
Searched i n f p r =
    ((r ≡ (none, p)) × ((j : ℕ) → i ≤ j → j < i + n → (p.fds j).file ≢ none))
    ⊎ ((k : ℕ) × (i ≤ k)
        × (k < i + n)
        × ((p.fds k).file ≡ none)
        × ((j : ℕ) → i ≤ j → j < k → (p.fds j).file ≢ none)
        × (r ≡ (some k, record p { fds = update p.fds k (record { file = some f; flags = 0 }) })))

alloc_fd_from-Searched : (n i f : ℕ) (p : Process) → Searched i n f p (alloc_fd_from n i f p)
unfolding alloc_fd_from
alloc_fd_from-Searched zero i f p = inl (refl, λ j a b. absurd (omega arith))
alloc_fd_from-Searched (suc n) i f p = elim (Option-cases (p.fds i).file) [
  | inl e ↦ rw e (inr (i, omega arith, omega arith, e, (λ j a b. absurd (omega arith)), refl))
  | inr (x, e) ↦ rw e (elim (alloc_fd_from-Searched n (i + 1) f p) [
    | inl (r, all) ↦ inl (r, λ j a b. ground (arith, all j))
    | inr (k, a, b, c, below, r) ↦
        inr (k, omega arith, omega arith, c, (λ j a b. ground (arith, below j)), r)
  ])
]

-- `proc_alloc_fd` gives the lowest descriptor that is free, writes the file there and nowhere
-- else, or, if all 64 are taken, gives none and changes nothing.
pub proc_alloc_fd_lem : (p : Process) (f : ℕ) → Searched 0 max_fds f p (proc_alloc_fd p f)
unfolding proc_alloc_fd
proc_alloc_fd_lem p f = alloc_fd_from-Searched max_fds 0 f p

-- A descriptor that `proc_alloc_fd` gave holds the file and lies in range; `proc_free_fd` of it
-- gives every descriptor the file that it had before, and the one that was given none.
pub proc_free_fd-alloc :
    (p : Process) (f i : ℕ)
    → (proc_alloc_fd p f).0 ≡ some i
    → (i < max_fds)
      × (((proc_alloc_fd p f).1.fds i).file ≡ some f)
      × ((j : ℕ) → ((proc_free_fd (proc_alloc_fd p f).1 i).fds j).file ≡ (p.fds j).file)
unfolding proc_free_fd
proc_free_fd-alloc p f i e = elim (proc_alloc_fd_lem p f) [
  | inl (r, all) ↦ cc (rw r at e)
  | inr (k, a, b, c, below, r) ↦
      let q : k ≡ i = ground arith in
      let here : k < max_fds = omega arith in
      rw (r, ← q, lt→ltb k max_fds here) (here, ground arith, λ j. ground arith)
]

let_go_lem :
    (p : Process) (i j : ℕ)
    → i < max_fds
    → ((let_go p i).fds j).file ≡ (if i == j then none else (p.fds j).file)
unfolding let_go proc_free_fd
let_go_lem p i j h = elim (Option-cases (p.fds i).file) [
  | inl e ↦ rw e (ground arith)
  | inr (x, e) ↦ rw (e, lt→ltb i max_fds h) (ground arith)
]

-- The loop over the descriptors in `proc_exit` leaves no file in those that it passes.
pub free_fds_from_lem :
    (n i : ℕ) (p : Process) (j : ℕ)
    → i + n ≤ max_fds
    → ((free_fds_from n i p).fds j).file
      ≡ (if leb i j && ltb j (i + n) then none else (p.fds j).file)
unfolding free_fds_from
free_fds_from_lem zero i p j h = ground arith
free_fds_from_lem (suc n) i p j h =
    ground (arith, let_go_lem p i j, free_fds_from_lem n (i + 1) (let_go p i) j)

-- Letting go of descriptors changes nothing else that `proc_exit` sets.
pub free_fds_from_rest :
    (n i : ℕ) (p : Process)
    → ((free_fds_from n i p).state ≡ p.state) × ((free_fds_from n i p).exit_code ≡ p.exit_code)
unfolding free_fds_from let_go proc_free_fd
free_fds_from_rest zero i p = (refl, refl)
free_fds_from_rest (suc n) i p =
    let (a, b) = free_fds_from_rest n (i + 1) (let_go p i) in (ground (arith, a), ground (arith, b))

pub free_fds_from-none :
    (n i : ℕ) (p : Process) (j : ℕ)
    → i + n ≤ max_fds
    → i ≤ j
    → j < i + n
    → ((free_fds_from n i p).fds j).file ≡ none
free_fds_from-none n i p j h a b = ground (arith, free_fds_from_lem n i p j h)
