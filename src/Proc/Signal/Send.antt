-- ===== src/Proc/Signal/Send.antt =====
-- What `signal_send` and `signal_set_handler` of kernel/ipc/signal.c change.
use sinux.Prelude.{
  ℕ, ◌≡◌, refl, ◌≢◌, ◌⊎◌, inl, inr, true, false, ◌&&◌, none, some, if◌then◌else◌, ◌==◌, Bool-cases,
  Option-cases, arith,
}
use sinux.Proc.Types.{ready, SigAction, is_asleep}
use sinux.Proc.Table.{proc_find}
use sinux.Proc.Sched.{Sched, sched_wake}
use sinux.Proc.Signal.{sigkill, sigstop, out_of_range, send_to, signal_send, signal_set_handler}

-- What sending sig to the process in slot i leaves.
pub record Sent (i sig : ℕ) (s t : Sched) : Type 0 where
  pub pending :
      (j n : ℕ)
      → (t.table.procs j).sig_pending n ≡ (
          if i == j
          then if sig == n then true else (s.table.procs j).sig_pending n
          else (s.table.procs j).sig_pending n)
  pub woken :
      (t.table.procs i).state
      ≡ (if is_asleep (s.table.procs i).state then ready else (s.table.procs i).state)
  pub others : (j : ℕ) → i ≢ j → t.table.procs j ≡ s.table.procs j

send_to-Sent : (i sig : ℕ) (s : Sched) → Sent i sig s (send_to sig i s)
unfolding send_to sched_wake
send_to-Sent i sig s = record {
  pending = λ j n. ground arith;
  woken = ground arith;
  others = λ j ne. ground arith;
}

-- `signal_send` fails, and changes nothing, exactly where the number is no signal's or no process
-- has the id. Else it returns 0; the signal is pending for the process that was found, and for no
-- other, no other signal is, and that process is ready if it slept or waited.
pub signal_send_lem :
    (pid sig : ℕ) (s : Sched)
    → (((out_of_range sig ≡ true) ⊎ (proc_find s.table pid ≡ none))
        × (signal_send pid sig s ≡ (false, s)))
      ⊎ ((i : ℕ) × (out_of_range sig ≡ false)
          × (proc_find s.table pid ≡ some i)
          × ((signal_send pid sig s).0 ≡ true)
          × Sent i sig s (signal_send pid sig s).1)
unfolding signal_send
signal_send_lem pid sig s = elim (Bool-cases (out_of_range sig)) [
  | inl e ↦ inl (inl e, rw e refl)
  | inr e ↦ elim (Option-cases (proc_find s.table pid)) [
    | inl f ↦ inl (inr f, rw (e, f) refl)
    | inr (i, f) ↦ inr (i, e, f, rw (e, f) refl, rw (e, f) (send_to-Sent i sig s))
  ]
]

-- No call of `signal_set_handler` changes what SIGKILL or SIGSTOP do, in any process, and one with
-- another signal sets that action of the current process and no other.
pub signal_set_handler_lem :
    (cur sig : ℕ) (act : SigAction) (s : Sched) (j n : ℕ)
    → let t = (signal_set_handler cur sig act s).1 in
      ((t.table.procs j).sig_actions sigkill ≡ (s.table.procs j).sig_actions sigkill)
      × ((t.table.procs j).sig_actions sigstop ≡ (s.table.procs j).sig_actions sigstop)
      × ((t.table.procs j).sig_actions n ≡ (
          if (signal_set_handler cur sig act s).0 && cur == j && sig == n
          then act
          else (s.table.procs j).sig_actions n))
unfolding signal_set_handler
signal_set_handler_lem cur sig act s j n = (ground arith, ground arith, ground arith)
