-- ===== src/Smp/Lock.antt =====
-- arch/x86_64/smp/lock.c: spin locks and reader-writer locks, as steps of processors that interleave
-- in any order. A step is one atomic access to the shared words, `__sync_lock_test_and_set` and
-- `lock xadd` included, or a run of writes that no other processor reads; memory is sequentially
-- consistent, as the code's barriers and locked instructions make it. A processor names itself by
-- its number, `get_current_cpu_id()`; `now` is `rdtsc()`. The locks' names, for messages, are left out.
pub mod Spin
pub mod Mutual
pub mod Count
pub mod Trace
pub mod ReadWrite
use sinux.Prelude.{
  ℕ, ◌+◌, ◌-◌, ◌%◌, ◌^◌, ◌<◌, ◌≡◌, Bool, true, false, if◌then◌else◌, ◌==◌, ℤ, pos, negsuc, update,
}

abbrev pub no_cpu : ℤ
no_cpu = negsuc 0

pub record Spinlock : Type 0 where
  pub locked : ℕ
  pub owner_cpu : ℤ
  pub acquire_time : ℕ

abbrev pub spinlock_init : Spinlock
spinlock_init = record { locked = 0; owner_cpu = no_cpu; acquire_time = 0 }

-- Where a processor is: outside, in the loop of `spinlock_acquire`, behind it, returned from it,
-- and before the last write of `spinlock_release`.
pub data SpinPc : Type 0 where
  outside spins taken holds leaves : SpinPc

unfoldable pub spin_step : ℕ → ℕ → SpinPc → Spinlock → SpinPc × Spinlock
spin_step now cpu outside l = (spins, l)
spin_step now cpu spins l =
    if l.locked == 0 then (taken, record l { locked = 1 }) else (spins, record l { locked = 1 })
spin_step now cpu taken l = (holds, record l { owner_cpu = pos cpu; acquire_time = now })
spin_step now cpu holds l = (leaves, record l { owner_cpu = no_cpu; acquire_time = 0 })
spin_step now cpu leaves l = (outside, record l { locked = 0 })

-- `spinlock_try_acquire`, from outside: it tries once.
unfoldable pub spin_try : Spinlock → SpinPc × Spinlock
spin_try l =
    if l.locked == 0 then (taken, record l { locked = 1 }) else (outside, record l { locked = 1 })

pub record Spinners : Type 0 where
  pub lock : Spinlock
  pub pc : ℕ → SpinPc

abbrev pub set_spinner : Spinners → ℕ → SpinPc × Spinlock → Spinners
set_spinner s i (p, l) = record { lock = l; pc = update s.pc i p }

pub data SpinReach : Spinners → Type 0 where
  start : SpinReach (record { lock = spinlock_init; pc = λ _. outside })
  step :
      {s : Spinners} (now i : ℕ)
      → SpinReach s
      → SpinReach (set_spinner s i (spin_step now i (s.pc i) s.lock))
  try :
      {s : Spinners} (i : ℕ)
      → s.pc i ≡ outside
      → SpinReach s
      → SpinReach (set_spinner s i (spin_try s.lock))

-- `mutex_t`, without the queue that nothing uses
pub record Mutex : Type 0 where
  pub count : ℕ
  pub owner_cpu : ℤ

abbrev pub mutex_init : Mutex
mutex_init = record { count = 1; owner_cpu = no_cpu }

-- Outside; at the fast path of `mutex_acquire`, at the read of its loop, at the exchange there, and
-- behind one that succeeded; holding it; before the last write of `mutex_release`.
pub data MutexPc : Type 0 where
  free tries polls swaps got owns frees : MutexPc

unfoldable pub mutex_step : ℕ → MutexPc → Mutex → MutexPc × Mutex
mutex_step cpu free l = (tries, l)
mutex_step cpu tries l = if l.count == 1 then (got, record l { count = 0 }) else (polls, l)
mutex_step cpu polls l = (if l.count == 1 then swaps else polls, l)
mutex_step cpu swaps l = if l.count == 1 then (got, record l { count = 0 }) else (polls, l)
mutex_step cpu got l = (owns, record l { owner_cpu = pos cpu })
mutex_step cpu owns l = (frees, record l { owner_cpu = no_cpu })
mutex_step cpu frees l = (free, record l { count = 1 })

pub record Owners : Type 0 where
  pub lock : Mutex
  pub pc : ℕ → MutexPc

abbrev pub set_owner : Owners → ℕ → MutexPc × Mutex → Owners
set_owner s i (p, l) = record { lock = l; pc = update s.pc i p }

pub data MutexReach : Owners → Type 0 where
  start : MutexReach (record { lock = mutex_init; pc = λ _. free })
  step :
      {s : Owners} (i : ℕ)
      → MutexReach s
      → MutexReach (set_owner s i (mutex_step i (s.pc i) s.lock))

pub record Rwlock : Type 0 where
  pub readers : ℕ
  pub writers : ℕ
  pub writer_cpu : ℤ

abbrev pub rwlock_init : Rwlock
rwlock_init = record { readers = 0; writers = 0; writer_cpu = no_cpu }

-- `atomic_inc` and `atomic_dec` of a 32-bit word
abbrev pub atomic_inc : ℕ → ℕ
atomic_inc n = (n + 1) % 2 ^ 32

abbrev pub atomic_dec : ℕ → ℕ
atomic_dec n = (n + 2 ^ 32 - 1) % 2 ^ 32

-- Outside; in `rwlock_read_acquire`: at its loop, before its increment, at its second test, before
-- its decrement; reading; in `rwlock_write_acquire`: at its first loop, at its second, behind it;
-- writing; before the last write of `rwlock_write_release`.
pub data RwPc : Type 0 where
  out awaits arrives checks backs_out reads claims drains enters writes leaves : RwPc

-- From outside, a processor calls `rwlock_write_acquire` or `rwlock_read_acquire`.
unfoldable pub rw_step : Bool → ℕ → RwPc → Rwlock → RwPc × Rwlock
rw_step wr cpu out l = (if wr then claims else awaits, l)
rw_step wr cpu awaits l = (if l.writers == 0 then arrives else awaits, l)
rw_step wr cpu arrives l = (checks, record l { readers = atomic_inc l.readers })
rw_step wr cpu checks l = (if l.writers == 0 then reads else backs_out, l)
rw_step wr cpu backs_out l = (awaits, record l { readers = atomic_dec l.readers })
rw_step wr cpu reads l = (out, record l { readers = atomic_dec l.readers })
rw_step wr cpu claims l = (if l.writers == 0 then drains else claims, record l { writers = 1 })
rw_step wr cpu drains l = (if l.readers == 0 then enters else drains, l)
rw_step wr cpu enters l = (writes, record l { writer_cpu = pos cpu })
rw_step wr cpu writes l = (leaves, record l { writer_cpu = no_cpu })
rw_step wr cpu leaves l = (out, record l { writers = 0 })

pub record Sharers : Type 0 where
  pub lock : Rwlock
  pub pc : ℕ → RwPc

abbrev pub set_sharer : Sharers → ℕ → RwPc × Rwlock → Sharers
set_sharer s i (p, l) = record { lock = l; pc = update s.pc i p }

-- n processors
pub data RwReach (n : ℕ) : Sharers → Type 0 where
  start : RwReach n (record { lock = rwlock_init; pc = λ _. out })
  step :
      {s : Sharers} (wr : Bool) (i : ℕ)
      → i < n
      → RwReach n s
      → RwReach n (set_sharer s i (rw_step wr i (s.pc i) s.lock))
