-- ===== src/Smp/Lock/Spin.antt =====
-- Mutual exclusion of the spin lock of arch/x86_64/smp/lock.c.
use sinux.Prelude.{ℕ, ◌≡◌, refl, Bool, true, false, arith, pos}
use sinux.Smp.Lock.{
  SpinPc, outside, taken, holds, leaves, spin_step, spin_try, Spinners, set_spinner, SpinReach,
  start, step, try,
}

-- Between the exchange that got the lock and the write that frees it.
abbrev pub inside : SpinPc → Bool
inside taken = true
inside holds = true
inside leaves = true
inside _ = false

abbrev is_holding : SpinPc → Bool
is_holding holds = true
is_holding _ = false

pub record IsValid (s : Spinners) : Type 0 where
  pub alone : (i j : ℕ) → inside (s.pc i) ≡ true → inside (s.pc j) ≡ true → i ≡ j
  pub shut : (i : ℕ) → inside (s.pc i) ≡ true → s.lock.locked ≡ 1
  pub open_again : ((i : ℕ) → inside (s.pc i) ≡ false) → s.lock.locked ≡ 0
  pub owner : (i : ℕ) → is_holding (s.pc i) ≡ true → s.lock.owner_cpu ≡ pos i

-- What a step at i must do, told apart by where i was.
step-IsValid :
    (now i : ℕ) (s : Spinners)
    → IsValid s
    → IsValid (set_spinner s i (spin_step now i (s.pc i) s.lock))
unfolding spin_step
step-IsValid now i s v = record {
  alone = λ a b x y. ground (arith, v.alone a b, v.alone a i, v.alone i b, v.shut a, v.shut b);
  shut = λ a x. ground (arith, v.shut a, v.shut i, v.alone a i);
  open_again = λ all.
      let before : inside (s.pc i) ≡ false → s.lock.locked ≡ 0 =
        λ o. v.open_again (λ j. ground (arith, all j, o)) in
      ground (arith, all i, before, v.shut i);
  owner = λ a x. ground (arith, v.owner a, v.owner i, v.alone a i);
}

try-IsValid :
    (i : ℕ) (s : Spinners)
    → s.pc i ≡ outside
    → IsValid s
    → IsValid (set_spinner s i (spin_try s.lock))
unfolding spin_try
try-IsValid i s o v = record {
  alone = λ a b x y. ground (arith, v.alone a b, v.shut a, v.shut b, o);
  shut = λ a x. ground (arith, v.shut a, o);
  open_again = λ all.
      let before : s.lock.locked ≡ 0 = v.open_again (λ j. ground (arith, all j, o)) in
      ground (arith, all i, before);
  owner = λ a x. ground (arith, v.owner a, o);
}

-- In every run of processors that take, try and release a spin lock in any order: at most one is
-- between its exchange and its last write, the lock's word is 1 while one is, and 0 while none is,
-- so that no release is lost; and a processor that has returned from `spinlock_acquire` is the
-- lock's owner until it releases it.
pub spinlock-IsValid : (s : Spinners) → SpinReach s → IsValid s
spinlock-IsValid _ start = record {
  alone = λ i j a b. cc;
  shut = λ i a. cc;
  open_again = λ all. refl;
  owner = λ i a. cc;
}
spinlock-IsValid _ (step {s = s} now i r) = step-IsValid now i s (spinlock-IsValid s r)
spinlock-IsValid _ (try {s = s} i o r) = try-IsValid i s o (spinlock-IsValid s r)
