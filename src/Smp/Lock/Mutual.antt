-- ===== src/Smp/Lock/Mutual.antt =====
-- Mutual exclusion of the mutex of arch/x86_64/smp/lock.c.
use sinux.Prelude.{ℕ, ◌≡◌, refl, Bool, true, false, arith, pos}
use sinux.Smp.Lock.{MutexPc, got, owns, frees, mutex_step, Owners, set_owner, MutexReach}

abbrev pub has_mutex : MutexPc → Bool
has_mutex got = true
has_mutex owns = true
has_mutex frees = true
has_mutex _ = false

abbrev is_owning : MutexPc → Bool
is_owning owns = true
is_owning _ = false

pub record IsValid (s : Owners) : Type 0 where
  pub alone : (i j : ℕ) → has_mutex (s.pc i) ≡ true → has_mutex (s.pc j) ≡ true → i ≡ j
  pub shut : (i : ℕ) → has_mutex (s.pc i) ≡ true → s.lock.count ≡ 0
  pub open_again : ((i : ℕ) → has_mutex (s.pc i) ≡ false) → s.lock.count ≡ 1
  pub owner : (i : ℕ) → is_owning (s.pc i) ≡ true → s.lock.owner_cpu ≡ pos i

step-IsValid :
    (i : ℕ) (s : Owners) → IsValid s → IsValid (set_owner s i (mutex_step i (s.pc i) s.lock))
unfolding mutex_step
step-IsValid i s v = record {
  alone = λ a b x y. ground (arith, v.alone a b, v.alone a i, v.alone i b, v.shut a, v.shut b);
  shut = λ a x. ground (arith, v.shut a, v.alone a i);
  open_again = λ none_has.
      let before : has_mutex (s.pc i) ≡ false → s.lock.count ≡ 1 =
        λ o. v.open_again (λ j. ground (arith, none_has j, o)) in
      ground (arith, none_has i, before);
  owner = λ a x. ground (arith, v.owner a, v.owner i, v.alone a i);
}

-- In every run of processors that take and release a mutex in any order: at most one has it, from
-- the exchange that succeeded to the last write of its release; the count is 0 while one has it
-- and 1 while none has; and a processor that has returned from `mutex_acquire` is its owner.
pub mutex-IsValid : (s : Owners) → MutexReach s → IsValid s
mutex-IsValid _ MutexReach.start = record {
  alone = λ i j a b. cc;
  shut = λ i a. cc;
  open_again = λ e. refl;
  owner = λ i a. cc;
}
mutex-IsValid _ (MutexReach.step {s = s} i r) = step-IsValid i s (mutex-IsValid s r)
