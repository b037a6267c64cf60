-- ===== src/Smp/Lock/Trace.antt =====
-- The lock trace of arch/x86_64/smp/lock.c, `lockdep_acquire` and `lockdep_release`: for each
-- processor the locks that it holds, oldest first, with their names. The list is the first `count`
-- entries of the arrays.
use sinux.Prelude.{
  ℕ, ◌≡◌, refl, Bool, false, ◌||◌, List, [], ◌∷◌, ◌++◌, if◌then◌else◌, ltb, ◌==◌, length, arith,
  update,
}

abbrev pub max_lock_trace : ℕ
max_lock_trace = 32

-- A lock's address and its name's.
pub record Traced : Type 0 where
  pub lock_addr : ℕ
  pub lock_name : ℕ

abbrev pub Trace : Type 0
Trace = ℕ → List Traced

abbrev pub lockdep_init : Trace
lockdep_init = λ _. []

-- Whether the message is printed.
unfoldable pub is_traced : ℕ → List Traced → Bool
is_traced a [] = false
is_traced a (t ∷ l) = t.lock_addr == a || is_traced a l

unfoldable pub add_trace : Traced → List Traced → List Traced
add_trace t l = if ltb (length l) max_lock_trace then l ++ t ∷ [] else l

unfoldable pub lockdep_acquire : ℕ → Traced → Trace → Bool × Trace
lockdep_acquire cpu t s = (is_traced t.lock_addr (s cpu), update s cpu (add_trace t (s cpu)))

-- The loops of `lockdep_release`: the first entry of the lock goes, and those behind it move down.
unfoldable pub drop_trace : ℕ → List Traced → List Traced
drop_trace a [] = []
drop_trace a (t ∷ l) = let rest = drop_trace a l in if t.lock_addr == a then l else t ∷ rest

unfoldable pub lockdep_release : ℕ → ℕ → Trace → Trace
lockdep_release cpu a s = update s cpu (drop_trace a (s cpu))

drop_trace-append :
    (a : ℕ) (t : Traced) (l : List Traced)
    → is_traced a l ≡ false
    → t.lock_addr ≡ a
    → drop_trace a (l ++ t ∷ []) ≡ l
unfolding drop_trace is_traced
drop_trace-append a t [] h e = ground arith
drop_trace-append a t (u ∷ l) h e = ground (arith, drop_trace-append a t l)

drop_trace-none : (a : ℕ) (l : List Traced) → is_traced a l ≡ false → drop_trace a l ≡ l
unfolding drop_trace is_traced
drop_trace-none a [] h = refl
drop_trace-none a (u ∷ l) h = ground (arith, drop_trace-none a l)

-- A lock that the processor did not hold draws no message from `lockdep_acquire`, and its release
-- leaves every processor's trace as it was, also where the trace was full and the lock not noted.
pub lockdep_release-acquire :
    (cpu j : ℕ) (t : Traced) (s : Trace)
    → is_traced t.lock_addr (s cpu) ≡ false
    → ((lockdep_acquire cpu t s).0 ≡ false)
      × (lockdep_release cpu t.lock_addr (lockdep_acquire cpu t s).1 j ≡ s j)
unfolding lockdep_acquire lockdep_release add_trace
lockdep_release-acquire cpu j t s h = (
  h,
  ground (
    arith,
    drop_trace-append t.lock_addr t (s cpu) h refl,
    drop_trace-none t.lock_addr (s cpu) h,
  ),
)
