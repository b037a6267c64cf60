-- ===== src/Proc/Signal/Ends.antt =====
-- `signal_deliver` of kernel/ipc/signal.c where a signal ends the process, with exit and yield.
use sinux.Prelude.{
  ℕ, zero, suc, ◌+◌, ◌-◌, ◌≤◌, ◌<◌, ◌≡◌, refl, ◌∙◌, inl, inr, true, false, none, arith, pos, ℤ,
}
use sinux.Proc.Types.{zombie, dfl, Process, max_fds}
use sinux.Proc.Memory.{Memory}
use sinux.Proc.Table.{proc_exit, free_fds_from, leave_space, Kernel}
use sinux.Proc.Table.Fds.{free_fds_from-none, free_fds_from_rest}
use sinux.Proc.Sched.{sched_yield}
use sinux.Proc.Sched.Running.{OneRuns, Kept, sched_yield_lem}
use sinux.Proc.Signal.{
  nsig, is_fatal, System, exit_process, clear_pending, return, by_default, act_on, signal_due,
  deliver_from, signal_deliver, with_sched,
}
use sinux.Proc.Signal.Pending.{due}
use sinux.Proc.Signal.Deliver.{not_due, deliver_from-next, deliver_from-return}

module _ (m : Memory) where
  -- The process has ended, by the signal.
  pub record Ended (cur sig : ℕ) (y z : System m) : Type 0 where
    pub state : (z.sched.table.procs cur).state ≡ zombie
    pub code : (z.sched.table.procs cur).exit_code ≡ pos (128 + sig)
    pub files : (i : ℕ) → i < max_fds → ((z.sched.table.procs cur).fds i).file ≡ none
    pub made : z.calls ≡ y.calls

module _ (m : Memory) (run : ℕ → ℕ → System m → System m) where
  -- The first signal that is due, from sig on, among n.
  deliver_from-first :
      (n d sig cur : ℕ) (y z : System m)
      → d < n
      → ((k : ℕ) → sig ≤ k → k < sig + d → due (y.sched.table.procs cur) k ≡ false)
      → signal_due m run cur (sig + d) y ≡ return z
      → deliver_from m run n sig cur y ≡ z
  deliver_from-first zero d sig cur y z h below e = absurd (omega arith)
  deliver_from-first (suc n) zero sig cur y z h below e =
      let q : sig + 0 ≡ sig = omega arith in deliver_from-return m run n sig cur y z (rw q at e)
  deliver_from-first (suc n) (suc d) sig cur y z h below e =
      let q : sig + suc d ≡ sig + 1 + d = omega arith in
      deliver_from-next m run n sig cur y y
        (not_due m run cur sig y (below sig (omega arith) (omega arith)))
      ∙ deliver_from-first n d (sig + 1) cur y z (omega arith)
          (λ k a b. below k (omega arith) (omega arith)) (rw q at e)

  leave_space_lem :
      (cur : ℕ) (q : Process) (k : Kernel m)
      → q.state ≡ zombie
      → let t = (leave_space m cur q k).table in
        ((t.procs cur).state ≡ q.state)
        × ((t.procs cur).exit_code ≡ q.exit_code)
        × ((i : ℕ) → (t.procs cur).fds i ≡ q.fds i)
        × (OneRuns k.table cur → OneRuns t cur)
  unfolding leave_space
  leave_space_lem cur q k e = (
    ground arith,
    ground arith,
    (λ i. ground arith),
    λ o. record { current = ground (arith, o.current); only = λ j r. ground (arith, o.only j) },
  )

  -- `proc_exit`, before the yield.
  exit_process_lem :
      (cur : ℕ) (code : ℤ) (y : System m)
      → let z = exit_process m cur code y in
        ((z.sched.table.procs cur).state ≡ zombie)
        × ((z.sched.table.procs cur).exit_code ≡ code)
        × ((i : ℕ) → i < max_fds → ((z.sched.table.procs cur).fds i).file ≡ none)
        × (z.calls ≡ y.calls)
        × (OneRuns y.sched.table cur → OneRuns z.sched.table cur)
  unfolding exit_process proc_exit
  exit_process_lem cur code y =
      let p = record (y.sched.table.procs cur) { exit_code = code; state = zombie } in
      let (s, c) = free_fds_from_rest max_fds 0 p in
      let (a, b, f, o) =
        leave_space_lem cur (free_fds_from max_fds 0 p)
          (record { table = y.sched.table; memory = y.memory }) s in
      (
        a ∙ s,
        b ∙ c,
        (λ i h. rw (f i) (free_fds_from-none max_fds 0 p i (omega arith) (omega arith) h)),
        refl,
        o,
      )

  Kept-Ended :
      (cur sig : ℕ) (y z u : System m)
      → Kept z.sched.table cur u.sched.table
      → Ended m cur sig y z
      → u.calls ≡ z.calls
      → Ended m cur sig y u
  Kept-Ended cur sig y z u k e c = record {
    state = k.states cur ∙ e.state;
    code = k.codes cur ∙ e.code;
    files = λ i h. rw (k.files cur i) (e.files i h);
    made = c ∙ e.made;
  }

  -- Giving up the processor leaves an ended process as it is.
  yield-Ended :
      (cur sig : ℕ) (y z : System m)
      → OneRuns z.sched.table cur
      → Ended m cur sig y z
      → Ended m cur sig y (with_sched m z (sched_yield cur z.sched))
  yield-Ended cur sig y z o e = elim (sched_yield_lem z.sched cur o) [
    | inl (none_ready, k) ↦
        Kept-Ended cur sig y z (with_sched m z (sched_yield cur z.sched)) k e refl
    | inr (k, l, r, below, (p, at, both)) ↦ elim both [
      | inl (same, kept) ↦
          Kept-Ended cur sig y z (with_sched m z (sched_yield cur z.sched)) kept e refl
      | inr h ↦ record {
        state = h.left ∙ rw e.state refl;
        code = h.codes cur ∙ e.code;
        files = λ i b. rw (h.files cur i) (e.files i b);
        made = e.made;
      }
    ]
  ]

  by_default-Ended :
      (cur sig : ℕ) (y : System m)
      → OneRuns y.sched.table cur
      → is_fatal sig ≡ true
      → (z : System m) × (by_default m cur sig y ≡ return z) × Ended m cur sig y z
  unfolding by_default
  by_default-Ended cur sig y o fatal =
      let (st, code, files, made, one) = exit_process_lem cur (pos (128 + sig)) y in
      (
        _,
        rw fatal refl,
        yield-Ended cur sig y (exit_process m cur (pos (128 + sig)) y) (one o)
            (record { state = st; code = code; files = files; made = made }),
      )

  signal_due-Ended :
      (cur sig : ℕ) (y : System m)
      → OneRuns y.sched.table cur
      → due (y.sched.table.procs cur) sig ≡ true
      → ((y.sched.table.procs cur).sig_actions sig).handler ≡ dfl
      → is_fatal sig ≡ true
      → (z : System m) × (signal_due m run cur sig y ≡ return z) × Ended m cur sig y z
  unfolding signal_due act_on
  signal_due-Ended cur sig y o d h fatal =
      let o' : OneRuns (clear_pending m cur sig y).sched.table cur = record {
        current = o.current;
        only = λ j r. ground (arith, o.only j);
      } in
      let (z, e, end) = by_default-Ended cur sig (clear_pending m cur sig y) o' fatal in
      (
        z,
        rw (d, h) e,
        record { state = end.state; code = end.code; files = end.files; made = end.made },
      )

  -- If no process but the current one has the state RUNNING, and the lowest signal that is due for
  -- that one, pending and not blocked, is one of SIGINT, SIGKILL, SIGPIPE and SIGTERM and has the
  -- default action, then `signal_deliver` ends it: no handler is called, and after the yield the
  -- process is a zombie with exit code 128 plus the signal's number and without open files.
  pub signal_deliver_ends :
      (cur sig : ℕ) (y : System m)
      → OneRuns y.sched.table cur
      → 1 ≤ sig
      → sig < nsig
      → ((k : ℕ) → 1 ≤ k → k < sig → due (y.sched.table.procs cur) k ≡ false)
      → due (y.sched.table.procs cur) sig ≡ true
      → ((y.sched.table.procs cur).sig_actions sig).handler ≡ dfl
      → is_fatal sig ≡ true
      → Ended m cur sig y (signal_deliver m run cur y)
  unfolding signal_deliver
  signal_deliver_ends cur sig y o low high below d h fatal =
      let (z, e, end) = signal_due-Ended cur sig y o d h fatal in
      let q : 1 + (sig - 1) ≡ sig = omega arith in
      rw
        (deliver_from-first 31 (sig - 1) 1 cur y z (omega arith) (λ k a b. below k a (omega arith))
          (rw q e))
        end
