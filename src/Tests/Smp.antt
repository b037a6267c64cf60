-- ===== src/Tests/Smp.antt =====
-- The locks with two processors.
use sinux.Prelude.{ℕ, true, arith}
use sinux.Smp.Lock.{
  Spinners, SpinReach, Owners, MutexReach, Sharers, RwReach, set_spinner, spin_step, set_owner,
  mutex_step, set_sharer, rw_step, spinlock_init, mutex_init, rwlock_init, outside, free, out,
}
use sinux.Smp.Lock.Spin
use sinux.Smp.Lock.Mutual
use sinux.Smp.Lock.ReadWrite

abbrev spin_go : ℕ → Spinners → Spinners
spin_go i s = set_spinner s i (spin_step 5 i (s.pc i) s.lock)

abbrev spun : Spinners
spun =
    spin_go 2
      (spin_go 2 (spin_go 1 (spin_go 1 (record { lock = spinlock_init; pc = λ _. outside }))))

spun-reached : SpinReach spun
spun-reached =
    SpinReach.step 5 2
      (SpinReach.step 5 2 (SpinReach.step 5 1 (SpinReach.step 5 1 SpinReach.start)))

spinlock-IsValid_example : Spin.IsValid spun
spinlock-IsValid_example = Spin.spinlock-IsValid spun spun-reached

abbrev mutex_go : ℕ → Owners → Owners
mutex_go i s = set_owner s i (mutex_step i (s.pc i) s.lock)

abbrev owned : Owners
owned =
    mutex_go 2 (mutex_go 2 (mutex_go 1 (mutex_go 1 (record { lock = mutex_init; pc = λ _. free }))))

owned-reached : MutexReach owned
owned-reached =
    MutexReach.step 2 (MutexReach.step 2 (MutexReach.step 1 (MutexReach.step 1 MutexReach.start)))

mutex-IsValid_example : Mutual.IsValid owned
mutex-IsValid_example = Mutual.mutex-IsValid owned owned-reached

abbrev rw_go : ℕ → Sharers → Sharers
rw_go i s = set_sharer s i (rw_step true i (s.pc i) s.lock)

abbrev shared : Sharers
shared = rw_go 0 (rw_go 0 (rw_go 1 (rw_go 1 (record { lock = rwlock_init; pc = λ _. out }))))

shared-reached : RwReach 2 shared
shared-reached = RwReach.step true 0 (omega arith) (
    RwReach.step true 0 (omega arith)
      (RwReach.step true 1 (omega arith) (RwReach.step true 1 (omega arith) RwReach.start)))

rwlock-IsValid_example : ReadWrite.IsValid 2 shared
rwlock-IsValid_example = ReadWrite.rwlock-IsValid 2 (omega arith) shared shared-reached
