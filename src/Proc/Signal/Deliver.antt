-- ===== src/Proc/Signal/Deliver.antt =====
-- `signal_deliver` of kernel/ipc/signal.c: which handlers it calls, and when it ends the process.
use mathlib.Core.List.{append_assoc, append-nil}
use sinux.Prelude.{
  ℕ, zero, suc, ◌+◌, ◌≤◌, ◌<◌, ◌≡◌, refl, ap, ◌∙◌, inl, inr, true, false, not, ◌&&◌, [], ◌++◌, ◌==◌,
  Bool-cases, arith,
}
use sinux.Proc.Types.{Handler, dfl, ign, call, Process}
use sinux.Proc.Memory.{Memory}
use sinux.Proc.Signal.{
  nsig, sigstop, is_fatal, System, clear_pending, next, return, by_default, act_on, signal_due,
  deliver_from, signal_deliver,
}
use sinux.Proc.Signal.Pending.{
  Delivered, LeavesProcs, StillPending, Survives, after_call, after_call-calls, after_call-procs,
  calls_of, cleared_actions, cleared_blocked, cleared_others, cleared_pending, cleared_state, due,
  due_calls, due_calls-same,
}

module _ (m : Memory) (run : ℕ → ℕ → System m → System m) where
  act_on-next :
      (cur sig : ℕ) (hd : Handler) (y : System m)
      → (hd ≡ dfl → (is_fatal sig ≡ false) × ((sig == sigstop) ≡ false))
      → act_on m run cur sig hd y ≡ next (after_call m run hd sig y)
  unfolding act_on by_default
  act_on-next cur sig ign y h = refl
  act_on-next cur sig dfl y h = let (a, b) = h refl in rw (a, b) refl
  act_on-next cur sig (call f) y h = refl

  -- The system after a signal that was due and that the process survives.
  abbrev handled : ℕ → ℕ → System m → System m
  handled cur sig y =
      after_call m run ((y.sched.table.procs cur).sig_actions sig).handler sig
        (clear_pending m cur sig y)

  pub not_due :
      (cur sig : ℕ) (y : System m)
      → due (y.sched.table.procs cur) sig ≡ false
      → signal_due m run cur sig y ≡ next y
  unfolding signal_due
  not_due cur sig y e = rw e refl

  is_due :
      (cur sig : ℕ) (y : System m)
      → due (y.sched.table.procs cur) sig ≡ true
      → (((y.sched.table.procs cur).sig_actions sig).handler ≡ dfl
          → (is_fatal sig ≡ false) × ((sig == sigstop) ≡ false))
      → signal_due m run cur sig y ≡ next (handled cur sig y)
  unfolding signal_due
  is_due cur sig y e h =
      rw
        (
          e,
          act_on-next cur sig ((y.sched.table.procs cur).sig_actions sig).handler
              (clear_pending m cur sig y) h,
        )
        refl

  pub deliver_from-next :
      (n sig cur : ℕ) (y z : System m)
      → signal_due m run cur sig y ≡ next z
      → deliver_from m run (suc n) sig cur y ≡ deliver_from m run n (sig + 1) cur z
  unfolding deliver_from
  deliver_from-next n sig cur y z e = rw e refl

  pub deliver_from-return :
      (n sig cur : ℕ) (y z : System m)
      → signal_due m run cur sig y ≡ return z
      → deliver_from m run (suc n) sig cur y ≡ z
  unfolding deliver_from
  deliver_from-return n sig cur y z e = rw e refl

  module _ (leaves : LeavesProcs m run) where
    handled-Delivered :
        (cur sig : ℕ) (y : System m)
        → Delivered m cur y
            (handled cur sig y)
            (calls_of ((y.sched.table.procs cur).sig_actions sig).handler sig ++ [])
    handled-Delivered cur sig y =
        let hd = ((y.sched.table.procs cur).sig_actions sig).handler in
        let z = clear_pending m cur sig y in
        let e = after_call-procs m run hd sig z leaves in
        record {
          made = rw append-nil (after_call-calls m run hd sig z leaves);
          actions = λ n.
              ap (λ (t : ℕ → Process). (t cur).sig_actions n) e ∙ cleared_actions m cur sig n y;
          blocked = λ n.
              ap (λ (t : ℕ → Process). (t cur).sig_blocked n) e ∙ cleared_blocked m cur sig n y;
          state = ap (λ (t : ℕ → Process). (t cur).state) e ∙ cleared_state m cur sig y;
          others = λ j ne. ap (λ (t : ℕ → Process). t j) e ∙ cleared_others m cur sig j y ne;
        }

    handled_pending :
        (cur sig n : ℕ) (y : System m)
        → due (y.sched.table.procs cur) sig ≡ true
        → ((handled cur sig y).sched.table.procs cur).sig_pending n ≡ (
            (y.sched.table.procs cur).sig_pending n
            && not ((sig == n) && due (y.sched.table.procs cur) n))
    handled_pending cur sig n y e =
        ap (λ (t : ℕ → Process). (t cur).sig_pending n)
          (after_call-procs m run ((y.sched.table.procs cur).sig_actions sig).handler sig
            (clear_pending m cur sig y) leaves)
        ∙ cleared_pending m cur sig n y e

    signal_due-next :
        (cur sig : ℕ) (y : System m)
        → let p = y.sched.table.procs cur in
          Survives p sig
          → (z : System m) × (signal_due m run cur sig y ≡ next z)
            × Delivered m cur y z (due_calls 1 sig p)
            × ((n : ℕ)
                → (z.sched.table.procs cur).sig_pending n
                  ≡ (p.sig_pending n && not ((sig == n) && due p n)))
    signal_due-next cur sig y h = elim (Bool-cases (due (y.sched.table.procs cur) sig)) [
      | inr e ↦ (
        y,
        not_due cur sig y e,
        record {
          made = rw (e, append-nil) refl;
          actions = λ n. refl;
          blocked = λ n. refl;
          state = refl;
          others = λ j ne. refl;
        },
        λ n. ground arith,
      )
      | inl e ↦
          let hd = ((y.sched.table.procs cur).sig_actions sig).handler in
          (
            handled cur sig y,
            is_due cur sig y e (h e),
            rw e (handled-Delivered cur sig y),
            λ n. handled_pending cur sig n y e,
          )
    ]

    deliver_from-Delivered :
        (n sig cur : ℕ) (y : System m)
        → let p = y.sched.table.procs cur in
          ((k : ℕ) → sig ≤ k → k < sig + n → Survives p k)
          → Delivered m cur y (deliver_from m run n sig cur y) (due_calls n sig p)
            × StillPending m n sig p ((deliver_from m run n sig cur y).sched.table.procs cur)
    unfolding deliver_from
    deliver_from-Delivered zero sig cur y h = (
      record {
        made = rw append-nil refl;
        actions = λ k. refl;
        blocked = λ k. refl;
        state = refl;
        others = λ j ne. refl;
      },
      λ k. ground arith,
    )
    deliver_from-Delivered (suc n) sig cur y h =
        let (z, e, d, pend) = signal_due-next cur sig y (h sig (omega arith) (omega arith)) in
        let p = y.sched.table.procs cur in
        let q = z.sched.table.procs cur in
        let same_due : (k : ℕ) → sig + 1 ≤ k → due q k ≡ due p k =
          λ k a. ground (arith, pend k, d.blocked k) in
        let (r, pend') = deliver_from-Delivered n (sig + 1) cur z (λ k a b u v.
          h k (omega arith) (omega arith) (rw (← same_due k a) u) (rw (← d.actions k) v)) in
        rw (deliver_from-next n sig cur y z e) (
          record {
            made =
                rw
                  (
                    r.made,
                    d.made,
                    due_calls-same m n (sig + 1) q p same_due d.actions,
                    append-nil,
                    append_assoc,
                  )
                  refl;
            actions = λ k. r.actions k ∙ d.actions k;
            blocked = λ k. r.blocked k ∙ d.blocked k;
            state = r.state ∙ d.state;
            others = λ j ne. r.others j ne ∙ d.others j ne;
          },
          λ k. ground (arith, pend' k, pend k, d.blocked k),
        )

    -- Where handlers leave all processes as they are, a process that survives every signal that is due
    -- gets one call of the handler of each signal from 1 to 31 that is pending, not blocked, and has a
    -- handler, the lowest signal first; these signals and those that it ignores are no longer pending, the
    -- others still are; its state, its actions and its mask stay, and so do all other processes.
    pub signal_deliver_handlers :
        (cur : ℕ) (y : System m)
        → ((k : ℕ) → 1 ≤ k → k < nsig → Survives (y.sched.table.procs cur) k)
        → Delivered m cur y (signal_deliver m run cur y) (due_calls 31 1 (y.sched.table.procs cur))
          × StillPending m 31 1
              (y.sched.table.procs cur)
              ((signal_deliver m run cur y).sched.table.procs cur)
    unfolding signal_deliver
    signal_deliver_handlers cur y h =
        deliver_from-Delivered 31 1 cur y (λ k a b. h k a (omega arith))
