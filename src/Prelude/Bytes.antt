-- ===== src/Prelude/Bytes.antt =====
-- A test made of every value below a bound, by evaluation.
use Prim.Native.Nat.{ℕ, zero, suc, ◌<◌}
use mathlib.Core.Path.{◌≡◌}
use mathlib.Core.Bool.{Bool, true, ◌&&◌}
use native.Mathlib.Omega.{arith}

unfoldable pub holds_below : ℕ → (ℕ → Bool) → Bool
holds_below (suc bound) test = holds_below bound test && test bound
holds_below zero test = true

pub holds_below-at :
    (bound : ℕ) (test : ℕ → Bool) (value : ℕ)
    → holds_below bound test ≡ true
    → value < bound
    → test value ≡ true
unfolding holds_below
holds_below-at (suc bound) test value all small = ground (arith, holds_below-at bound test value)
holds_below-at zero test value all small = absurd (omega arith)
