-- ===== src/Proc/Signal/Pending.antt =====
-- The signals of kernel/ipc/signal.c that are due, and what one of them leaves of the processes.
use mathlib.Core.List.{append-nil}
use sinux.Prelude.{
  ℕ, zero, suc, ◌+◌, ◌≤◌, ◌≡◌, refl, ◌≢◌, Bool, true, false, not, ◌&&◌, List, [], ◌∷◌, ◌++◌,
  if◌then◌else◌, ltb, leb, ◌==◌, arith,
}
use sinux.Proc.Types.{Handler, dfl, ign, call, Process}
use sinux.Proc.Memory.{Memory}
use sinux.Proc.Signal.{sigstop, is_fatal, System, clear_pending}

-- Pending and not blocked.
abbrev pub due : Process → ℕ → Bool
due p sig = p.sig_pending sig && not (p.sig_blocked sig)

abbrev pub calls_of : Handler → ℕ → List (ℕ × ℕ)
calls_of (call f) sig = (f, sig) ∷ []
calls_of _ sig = []

-- The calls that the signals from sig on, n of them, are due.
abbrev pub due_calls : ℕ → ℕ → Process → List (ℕ × ℕ)
due_calls zero sig p = []
due_calls (suc n) sig p =
    (if due p sig then calls_of (p.sig_actions sig).handler sig else []) ++ due_calls n (sig + 1) p

-- The process does not end or stop by this signal.
abbrev pub Survives : Process → ℕ → Type 0
Survives p sig =
    due p sig ≡ true
    → (p.sig_actions sig).handler ≡ dfl
    → (is_fatal sig ≡ false) × ((sig == sigstop) ≡ false)

module _ (m : Memory) where
  -- What the delivery of a signal, or of several, leaves of the process and of the others.
  pub record Delivered (cur : ℕ) (y z : System m) (calls : List (ℕ × ℕ)) : Type 0 where
    pub made : z.calls ≡ y.calls ++ calls
    pub actions :
        (n : ℕ) → (z.sched.table.procs cur).sig_actions n ≡ (y.sched.table.procs cur).sig_actions n
    pub blocked :
        (n : ℕ) → (z.sched.table.procs cur).sig_blocked n ≡ (y.sched.table.procs cur).sig_blocked n
    pub state : (z.sched.table.procs cur).state ≡ (y.sched.table.procs cur).state
    pub others : (j : ℕ) → cur ≢ j → z.sched.table.procs j ≡ y.sched.table.procs j

  -- The calls depend on what is due and on the actions alone.
  pub due_calls-same :
      (n sig : ℕ) (p q : Process)
      → ((k : ℕ) → sig ≤ k → due p k ≡ due q k)
      → ((k : ℕ) → p.sig_actions k ≡ q.sig_actions k)
      → due_calls n sig p ≡ due_calls n sig q
  due_calls-same zero sig p q a b = refl
  due_calls-same (suc n) sig p q a b =
      rw (a sig (omega arith), b sig, due_calls-same n (sig + 1) p q (λ k h. a k (omega arith)) b)
        refl

  -- What is pending after the signals from sig on, n of them.
  abbrev pub StillPending : ℕ → ℕ → Process → Process → Type 0
  StillPending n sig p q =
      (k : ℕ) → q.sig_pending k ≡ (p.sig_pending k && not (leb sig k && ltb k (sig + n) && due p k))

  pub cleared_actions :
      (cur sig n : ℕ) (y : System m)
      → ((clear_pending m cur sig y).sched.table.procs cur).sig_actions n
        ≡ (y.sched.table.procs cur).sig_actions n
  cleared_actions cur sig n y = ground arith

  pub cleared_blocked :
      (cur sig n : ℕ) (y : System m)
      → ((clear_pending m cur sig y).sched.table.procs cur).sig_blocked n
        ≡ (y.sched.table.procs cur).sig_blocked n
  cleared_blocked cur sig n y = ground arith

  pub cleared_state :
      (cur sig : ℕ) (y : System m)
      → ((clear_pending m cur sig y).sched.table.procs cur).state ≡ (y.sched.table.procs cur).state
  cleared_state cur sig y = ground arith

  pub cleared_others :
      (cur sig j : ℕ) (y : System m)
      → cur ≢ j
      → (clear_pending m cur sig y).sched.table.procs j ≡ y.sched.table.procs j
  cleared_others cur sig j y ne = ground arith

  pub cleared_pending :
      (cur sig n : ℕ) (y : System m)
      → due (y.sched.table.procs cur) sig ≡ true
      → ((clear_pending m cur sig y).sched.table.procs cur).sig_pending n ≡ (
          (y.sched.table.procs cur).sig_pending n
          && not ((sig == n) && due (y.sched.table.procs cur) n))
  cleared_pending cur sig n y e = ground arith

  -- What a call of the handler hd leaves.
  abbrev pub after_call : (ℕ → ℕ → System m → System m) → Handler → ℕ → System m → System m
  after_call run (call f) sig y = run f sig (record y { calls = y.calls ++ (f, sig) ∷ [] })
  after_call run _ sig y = y

  -- Handlers that call no handler and leave all processes as they are: what they may change is the
  -- memory and the run queue.
  pub record LeavesProcs (run : ℕ → ℕ → System m → System m) : Type 0 where
    pub procs : (f sig : ℕ) (y : System m) → (run f sig y).sched.table.procs ≡ y.sched.table.procs
    pub calls : (f sig : ℕ) (y : System m) → (run f sig y).calls ≡ y.calls

  pub after_call-procs :
      (run : ℕ → ℕ → System m → System m) (hd : Handler) (sig : ℕ) (y : System m)
      → LeavesProcs run
      → (after_call run hd sig y).sched.table.procs ≡ y.sched.table.procs
  after_call-procs run dfl sig y l = refl
  after_call-procs run ign sig y l = refl
  after_call-procs run (call f) sig y l = l.procs f sig _

  pub after_call-calls :
      (run : ℕ → ℕ → System m → System m) (hd : Handler) (sig : ℕ) (y : System m)
      → LeavesProcs run
      → (after_call run hd sig y).calls ≡ y.calls ++ calls_of hd sig
  after_call-calls run dfl sig y l = rw append-nil refl
  after_call-calls run ign sig y l = rw append-nil refl
  after_call-calls run (call f) sig y l = l.calls f sig _
