-- ===== src/Prelude/Results.antt =====
-- The result of a C function that returns a count, or an error number negated.
use Prim.Native.Nat.{ℕ}

pub data Ret : Type 0 where
  ret : ℕ → Ret  -- the value returned
  err : ℕ → Ret  -- `return -e`
