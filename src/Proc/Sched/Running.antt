-- ===== src/Proc/Sched/Running.antt =====
-- One process runs: `sched_yield` of kernel/proc/scheduler.c hands the processor over.
use sinux.Prelude.{
  ℕ, ◌+◌, ◌%◌, ◌<◌, ◌≡◌, refl, ◌≢◌, ◌⊎◌, inl, inr, true, false, Option, none, some, ◌==◌, ==_iff,
  Bool-cases, arith, pos,
}
use sinux.Proc.Types.{running, ready, Table}
use sinux.Proc.Sched.{
  Sched, queue_size, ready_at, next_ready, paused, do_switch, keep_on, switch_to, sched_yield,
}
use sinux.Proc.Sched.Pick.{place, is_ready_at, next_ready_lem}

-- The current process, and no other, may be in the state RUNNING.
pub record OneRuns (t : Table) (cur : ℕ) : Type 0 where
  pub current : t.current ≡ some cur
  pub only : (j : ℕ) → (t.procs j).state ≡ running → j ≡ cur

-- The processor goes from cur to p.
pub record Handed (t : Table) (cur p : ℕ) (u : Table) : Type 0 where
  pub other : p ≢ cur
  pub was_ready : (t.procs p).state ≡ ready
  pub runs : (u.procs p).state ≡ running
  pub slice : (u.procs p).timeslice ≡ pos 5
  pub left : (u.procs cur).state ≡ paused (t.procs cur).state
  pub rest : (j : ℕ) → j ≢ p → j ≢ cur → u.procs j ≡ t.procs j
  pub one : OneRuns u p
  pub codes : (j : ℕ) → (u.procs j).exit_code ≡ (t.procs j).exit_code
  pub files : (j i : ℕ) → (u.procs j).fds i ≡ (t.procs j).fds i

-- Where cur keeps the processor.
pub record Kept (t : Table) (cur : ℕ) (u : Table) : Type 0 where
  pub states : (j : ℕ) → (u.procs j).state ≡ (t.procs j).state
  pub rest : (j : ℕ) → j ≢ cur → u.procs j ≡ t.procs j
  pub one : OneRuns u cur
  pub codes : (j : ℕ) → (u.procs j).exit_code ≡ (t.procs j).exit_code
  pub files : (j i : ℕ) → (u.procs j).fds i ≡ (t.procs j).fds i

do_switch-Handed :
    (s : Sched) (cur p : ℕ)
    → OneRuns s.table cur
    → p ≢ cur
    → (s.table.procs p).state ≡ ready
    → Handed s.table cur p (do_switch cur p s).table
unfolding do_switch
do_switch-Handed s cur p o ne r = record {
  other = ne;
  was_ready = r;
  runs = ground arith;
  slice = ground arith;
  left = ground arith;
  rest = λ j a b. ground arith;
  one = record { current = ground arith; only = λ j e. ground (arith, o.only j) };
  codes = λ j. ground arith;
  files = λ j i. ground arith;
}

keep_on-Kept : (s : Sched) (cur : ℕ) → OneRuns s.table cur → Kept s.table cur (keep_on cur s).table
unfolding keep_on
keep_on-Kept s cur o = record {
  states = λ j. ground arith;
  rest = λ j a. ground arith;
  one = record { current = ground (arith, o.current); only = λ j e. ground (arith, o.only j) };
  codes = λ j. ground arith;
  files = λ j i. ground arith;
}

ready_entry :
    (t : Table) (o : Option ℕ)
    → ready_at t o ≡ true
    → (p : ℕ) × (o ≡ some p) × ((t.procs p).state ≡ ready)
ready_entry t none e = cc
ready_entry t (some p) e = (p, refl, ground arith)

-- Going on with an entry of the queue that `next_ready` gave.
yield_to :
    (s : Sched) (cur k : ℕ)
    → OneRuns s.table cur
    → is_ready_at s k ≡ true
    → next_ready s ≡ (s.queue (place s k), record s { q_head = (place s k + 1) % queue_size })
    → (p : ℕ) × ((s.table.procs p).state ≡ ready)
      × (s.queue (place s k) ≡ some p)
      × (((p ≡ cur) × Kept s.table cur (sched_yield cur s).table)
          ⊎ Handed s.table cur p (sched_yield cur s).table)
unfolding sched_yield
yield_to s cur k o rk e =
    let (p, q, r) = ready_entry s.table (s.queue (place s k)) rk in
    let s' = record s { q_head = (place s k + 1) % queue_size } in
    (
      p,
      r,
      q,
      rw (e, q)
          (elim (Bool-cases (p == cur)) [
            | inl same ↦
                inl ((==_iff p cur).0 same, unfold switch_to in rw same (keep_on-Kept s' cur o))
            | inr ne ↦
                inr (unfold switch_to in rw ne (do_switch-Handed s' cur p o (ground arith) r))
          ]),
    )

-- Where no process but the current one has the state RUNNING, `sched_yield` by it has three ends. No
-- process in the queue is ready: all states stay, and the yielder stays current. Or the ready process
-- that is the fewest places round from the head of the queue is the yielder itself, with the same end. Or
-- that process is another one: it was ready, runs now, with a new time slice, and is the current one,
-- while the yielder becomes ready if it was running. In each case no third process changes, and
-- afterwards no process but the current one has the state RUNNING.
pub sched_yield_lem :
    (s : Sched) (cur : ℕ)
    → OneRuns s.table cur
    → (((j : ℕ) → j < queue_size → is_ready_at s j ≡ false)
        × Kept s.table cur (sched_yield cur s).table)
      ⊎ ((k : ℕ) × (k < queue_size)
          × (is_ready_at s k ≡ true)
          × ((j : ℕ) → j < k → is_ready_at s j ≡ false)
          × ((p : ℕ) × (s.queue (place s k) ≡ some p)
              × (((p ≡ cur) × Kept s.table cur (sched_yield cur s).table)
                  ⊎ Handed s.table cur p (sched_yield cur s).table)))
unfolding sched_yield switch_to
sched_yield_lem s cur o = elim (next_ready_lem s) [
  | inl (e, all) ↦ inl (all, rw e (keep_on-Kept s cur o))
  | inr (k, a, rk, below, e) ↦
      let (p, r, q, both) = yield_to s cur k o rk e in inr (k, a, rk, below, (p, q, both))
]

-- A process that is not ready or running any more, such as a sleeper or a zombie, does not keep the
-- processor when it yields, if some process in the queue is ready and no process but the yielder has
-- the state RUNNING.
pub sched_yield_leaves :
    (s : Sched) (cur k : ℕ)
    → OneRuns s.table cur
    → (s.table.procs cur).state ≢ ready
    → k < queue_size
    → is_ready_at s k ≡ true
    → (p : ℕ) × Handed s.table cur p (sched_yield cur s).table
sched_yield_leaves s cur k o not_ready h r = elim (next_ready_lem s) [
  | inl (e, all) ↦ cc (all k h)
  | inr (k', a, rk, below, e) ↦
      let (p, q, at, both) = yield_to s cur k' o rk e in
      elim both [ inl (same, kept) ↦ absurd (not_ready (rw same at q)) | inr handed ↦ (p, handed) ]
]
