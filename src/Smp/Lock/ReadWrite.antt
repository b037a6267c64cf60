-- ===== src/Smp/Lock/ReadWrite.antt =====
-- The reader-writer lock of arch/x86_64/smp/lock.c: readers and writers exclude each other.
use sinux.Prelude.{ℕ, zero, suc, ◌^◌, ◌<◌, ◌≡◌, refl, Bool, true, false, arith, update, pos}
use sinux.Smp.Lock.{
  RwPc, checks, backs_out, reads, drains, enters, writes, leaves, rw_step, Sharers, set_sharer,
  RwReach, start, step,
}
use sinux.Smp.Lock.Count.{count, count-differ, count-le, count-zero}

-- It has its increment in the count of readers.
abbrev pub is_counted : RwPc → Bool
is_counted checks = true
is_counted backs_out = true
is_counted reads = true
is_counted _ = false

abbrev pub is_reading : RwPc → Bool
is_reading reads = true
is_reading _ = false

-- It has set the word `writers`.
abbrev pub has_claim : RwPc → Bool
has_claim drains = true
has_claim enters = true
has_claim writes = true
has_claim leaves = true
has_claim _ = false

-- It has seen that no reader is left.
abbrev pub has_entered : RwPc → Bool
has_entered enters = true
has_entered writes = true
has_entered leaves = true
has_entered _ = false

abbrev is_writing : RwPc → Bool
is_writing writes = true
is_writing _ = false

pub record IsValid (n : ℕ) (s : Sharers) : Type 0 where
  pub number : s.lock.readers ≡ count n (λ j. is_counted (s.pc j))
  pub alone : (i j : ℕ) → has_claim (s.pc i) ≡ true → has_claim (s.pc j) ≡ true → i ≡ j
  pub closed : (i : ℕ) → has_claim (s.pc i) ≡ true → s.lock.writers ≡ 1
  pub apart : (i j : ℕ) → j < n → has_entered (s.pc i) ≡ true → is_reading (s.pc j) ≡ false
  pub owner : (i : ℕ) → is_writing (s.pc i) ≡ true → s.lock.writer_cpu ≡ pos i

nobody : (n : ℕ) → 0 ≡ count n (λ _. false)
unfolding count
nobody zero = refl
nobody (suc n) = omega (arith, nobody n)

-- What the step does to the count of readers.
counted_step :
    (n i : ℕ) (wr : Bool) (s : Sharers)
    → i < n
    → n < 2 ^ 32
    → IsValid n s
    → (rw_step wr i (s.pc i) s.lock).1.readers
      ≡ count n (λ j. is_counted (update s.pc i (rw_step wr i (s.pc i) s.lock).0 j))
unfolding rw_step
counted_step n i wr s l small v =
    let f : ℕ → Bool = λ j. is_counted (s.pc j) in
    let g : ℕ → Bool = λ j. is_counted (update s.pc i (rw_step wr i (s.pc i) s.lock).0 j) in
    let d = count-differ n i f g l (λ j ne. ground arith) in
    let b = count-le n g in let c = count-le n f in ground (arith, d, b, c, v.number)

step-IsValid :
    (n i : ℕ) (wr : Bool) (s : Sharers)
    → i < n
    → n < 2 ^ 32
    → IsValid n s
    → IsValid n (set_sharer s i (rw_step wr i (s.pc i) s.lock))
unfolding rw_step
step-IsValid n i wr s l small v = record {
  number = counted_step n i wr s l small v;
  alone = λ a b x y. ground (arith, v.alone a b, v.alone a i, v.alone i b, v.closed a, v.closed b);
  closed = λ a x. ground (arith, v.closed a, v.closed i, v.alone a i);
  apart = λ a b h x. ground (
    arith,
    v.apart a b h,
    v.apart i b h,
    v.closed a,
    v.number,
    count-zero n b (λ j. is_counted (s.pc j)) h,
  );
  owner = λ a x. ground (arith, v.owner a, v.owner i, v.alone a i);
}

-- In every run of n processors, fewer than 2^32, that take and release a reader-writer lock in any
-- order: the count of readers is that of the processors that have incremented it and not yet taken
-- that back; at most one processor has the writers' word; while one has got past both loops of
-- `rwlock_write_acquire` and until its release ends, no processor is reading; and a processor that
-- has returned from there is the lock's writer.
pub rwlock-IsValid : (n : ℕ) → n < 2 ^ 32 → (s : Sharers) → RwReach n s → IsValid n s
rwlock-IsValid n small _ start = record {
  number = nobody n;
  alone = λ i j a b. cc;
  closed = λ i a. cc;
  apart = λ i j h a. cc;
  owner = λ i a. cc;
}
rwlock-IsValid n small _ (step {s = s} wr i l r) =
    step-IsValid n i wr s l small (rwlock-IsValid n small s r)
