-- ===== src/Proc/Signal.antt =====
-- kernel/ipc/signal.c: signals sent, kept pending, and delivered to the current process.
-- There is always a current process, and with nothing pending the loop of `signal_deliver` does nothing,
-- so that its early return needs no case of its own.
pub mod Send
pub mod Pending
pub mod Deliver
pub mod Ends
use sinux.Prelude.{
  ℕ, zero, suc, ◌+◌, ◌-◌, Bool, true, false, not, ◌&&◌, ◌||◌, Option, none, some, List, [], ◌∷◌,
  ◌++◌, if◌then◌else◌, ltb, leb, ◌==◌, ℤ, pos, update,
}
use sinux.Proc.Types.{
  PState, sleeping, Handler, dfl, ign, call, SigAction, Process, Table, is_asleep,
}
use sinux.Proc.Memory.{Memory}
use sinux.Proc.Table.{Kernel, proc_find, proc_exit}
use sinux.Proc.Sched.{Sched, put_proc, sched_wake, sched_yield}

abbrev pub nsig : ℕ
nsig = 32

abbrev pub sigint : ℕ
sigint = 2

abbrev pub sigkill : ℕ
sigkill = 9

abbrev pub sigpipe : ℕ
sigpipe = 13

abbrev pub sigterm : ℕ
sigterm = 15

abbrev pub sigstop : ℕ
sigstop = 19

-- A signal number below 0 fails as 0 does.
abbrev pub out_of_range : ℕ → Bool
out_of_range sig = ltb sig 1 || leb nsig sig

-- The process in slot i, found by its id.
unfoldable pub send_to : ℕ → ℕ → Sched → Sched
send_to sig i s =
    let p = s.table.procs i in
    let s' = put_proc s i (record p { sig_pending = update p.sig_pending sig true }) in
    if is_asleep p.state then sched_wake i s' else s'

abbrev pub send_found : ℕ → Option ℕ → Sched → Bool × Sched
send_found sig none s = (false, s)
send_found sig (some i) s = (true, send_to sig i s)

-- `false` is -1, and `true` is 0.
unfoldable pub signal_send : ℕ → ℕ → Sched → Bool × Sched
signal_send pid sig s =
    if out_of_range sig then (false, s) else send_found sig (proc_find s.table pid) s

-- For the current process, in slot cur.
unfoldable pub signal_set_handler : ℕ → ℕ → SigAction → Sched → Bool × Sched
signal_set_handler cur sig act s =
    let p = s.table.procs cur in
    if out_of_range sig
    then (false, s)
    else if sig == sigkill || sig == sigstop
    then (false, s)
    else (true, put_proc s cur (record p { sig_actions = update p.sig_actions sig act }))

-- The signals whose default is to end the process.
abbrev pub is_fatal : ℕ → Bool
is_fatal sig = sig == sigkill || sig == sigterm || sig == sigint || sig == sigpipe

module _ (m : Memory) where
  open m use {State}

  -- The scheduler with the process table, the memory, and the handlers that were called, first
  -- call first.
  pub record System : Type 0 where
    pub sched : Sched
    pub memory : State
    pub calls : List (ℕ × ℕ)

  abbrev pub with_sched : System → Sched → System
  with_sched y s = record y { sched = s }

  unfoldable pub exit_process : ℕ → ℤ → System → System
  exit_process cur code y =
      let k = proc_exit m cur code (record { table = y.sched.table; memory = y.memory }) in
      record { sched = record (y.sched) { table = k.table }; memory = k.memory; calls = y.calls }

  -- `p->sig_pending &= ~(1ULL << sig)`
  abbrev pub clear_pending : ℕ → ℕ → System → System
  clear_pending cur sig y =
      let p = y.sched.table.procs cur in
      with_sched y
        (put_proc y.sched cur (record p { sig_pending = update p.sig_pending sig false }))

  -- What one signal that is due does: a system to go on with, or the one to return with.
  pub data Due : Type 0 where
    next : System → Due
    return : System → Due

  unfoldable pub by_default : ℕ → ℕ → System → Due
  by_default cur sig y =
      if is_fatal sig
      then return
          (let z = exit_process cur (pos (128 + sig)) y in with_sched z (sched_yield cur z.sched))
      else if sig == sigstop
      then return (
          with_sched y (
            sched_yield cur
              (put_proc y.sched cur (record (y.sched.table.procs cur) { state = sleeping }))))
      else next y

  -- `return` leaves the loop.
  abbrev pub go_on : Due → (System → System) → System
  go_on (next y) loop = loop y
  go_on (return y) loop = y

  -- What a handler does, by its address and the signal: a function of user space, and so a parameter.
  module _ (run : ℕ → ℕ → System → System) where
    unfoldable pub act_on : ℕ → ℕ → Handler → System → Due
    act_on cur sig ign y = next y
    act_on cur sig dfl y = by_default cur sig y
    act_on cur sig (call f) y = next (run f sig (record y { calls = y.calls ++ (f, sig) ∷ [] }))

    unfoldable pub signal_due : ℕ → ℕ → System → Due
    signal_due cur sig y =
        let p = y.sched.table.procs cur in
        if p.sig_pending sig && not (p.sig_blocked sig)
        then act_on cur sig (p.sig_actions sig).handler (clear_pending cur sig y)
        else next y

    -- The loop of `signal_deliver`: the rounds left, and the signal.
    unfoldable pub deliver_from : ℕ → ℕ → ℕ → System → System
    deliver_from zero sig cur y = y
    deliver_from (suc n) sig cur y = go_on (signal_due cur sig y) (deliver_from n (sig + 1) cur)

    unfoldable pub signal_deliver : ℕ → System → System
    signal_deliver cur y = deliver_from (nsig - 1) 1 cur y
