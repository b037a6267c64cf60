-- ===== src/Prelude/Ring.antt =====
-- A circular buffer of a fixed size, as the pipes and the keyboard use it: `span t n` is the list of
-- the n items from index t on.
use Prim.Native.Nat.{ℕ, zero, suc, ◌+◌, ◌-◌, ◌%◌, ◌<◌}
use mathlib.Core.Path.{◌≡◌, refl, sym, ap, ap₂, ◌∙◌}
use mathlib.Core.Logic.{◌≢◌}
use mathlib.Core.List.{List, [], ◌∷◌, ◌++◌}
use native.Mathlib.Nat.{mod-add-mod, mod-eq_of_lt, mod-eq-sub-mod}
use native.Mathlib.Decide.{dec_lt}
use native.Mathlib.Omega.{arith}
use sinux.Prelude.Tests.{◌==◌, if◌then◌else◌, ==_refl, neq_false}
use sinux.Prelude.Lists.{length}

abbrev pub update {ℓ} : {A : Type ℓ} → (ℕ → A) → ℕ → A → ℕ → A
update f i v j = if i == j then v else f j

module _ {ℓ} {A : Type ℓ} (size : ℕ) where
  abbrev pub span : (ℕ → A) → ℕ → ℕ → List A
  span f t zero = []
  span f t (suc n) = f t ∷ span f ((t + 1) % size) n

  pub length-span : (f : ℕ → A) (t n : ℕ) → length (span f t n) ≡ n
  length-span f t zero = refl
  length-span f t (suc n) = ap suc (length-span f ((t + 1) % size) n)

-- Fewer than `size` steps round the buffer do not end where they began.
step-ne : (size t n : ℕ) → t < size → suc n < size → (t + suc n) % size ≢ t
step-ne size t n ht hn = elim (dec_lt (t + suc n) size) [
  | yes p ↦ omega (arith, mod-eq_of_lt p)
  | no p ↦ omega (
    arith,
    mod-eq-sub-mod {n = t + suc n} {m = size} (omega arith),
    mod-eq_of_lt {n = t + suc n - size} {m = size} (omega arith),
  )
]

step-shift : (size t n : ℕ) → ((t + 1) % size + n) % size ≡ (t + suc n) % size
step-shift size t n = rw mod-add-mod (ap (λ k. k % size) (omega arith))

-- An item written just behind the n items from t on makes them n + 1.
pub span-put {ℓ} :
    {A : Type ℓ} (size : ℕ) (f : ℕ → A) (v : A) (n t i : ℕ)
    → t < size
    → n < size
    → i ≡ (t + n) % size
    → span size (update f i v) t (suc n) ≡ span size f t n ++ v ∷ []
span-put size f v zero t i ht hn e =
    let e' : i ≡ t = omega (arith, mod-eq_of_lt {n = t + 0} {m = size} (omega arith)) in
    rw (e', ==_refl t) refl
span-put size f v (suc n) t i ht hn e =
    let ne : i ≢ t = λ q. step-ne size t n ht hn (sym e ∙ q) in
    ap₂ ◌∷◌ (rw (neq_false i t ne) refl) (
      span-put size f v n ((t + 1) % size) i (omega arith) (omega arith)
        (e ∙ sym (step-shift size t n)))
