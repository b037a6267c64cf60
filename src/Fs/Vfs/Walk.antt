-- ===== src/Fs/Vfs/Walk.antt =====
-- `vfs_lookup` of kernel/fs/vfs.c below a mount: name by name.
use sinux.Prelude.{
  ℕ, zero, suc, ◌≤◌, ◌≡◌, refl, ap, ◌∙◌, inl, inr, false, Option, none, some, List, [], ◌∷◌, ◌++◌,
  if◌then◌else◌, ◌==◌, Bool-cases, arith, length, length-append,
}
use sinux.Fs.FileSystem.{FileSystem}
use sinux.Fs.Vfs.{skip_slash, from_found, walk}
use sinux.Fs.Vfs.Path.{names, keep, Cut, component-Cut, names-Cut}

length-skip_slash : (p : List ℕ) → length (skip_slash p) ≤ length p
length-skip_slash [] = omega arith
length-skip_slash (c ∷ p) = ground arith

-- A round passes a byte of the path at least.
passes : (c : ℕ) (p l r : List ℕ) → Cut (c ∷ p) l r → length (skip_slash r) ≤ length p
passes c p [] r cut = elim cut.stop [
  | inl e ↦ let w = cut.whole in rw e (omega arith)
  | inr (q, e) ↦
      let same : suc (length p) ≡ length r = ap length cut.whole in
      let behind : length r ≡ suc (length q) = ap length e in rw e (omega arith)
]
passes c p (d ∷ l) r cut =
    let same : suc (length p) ≡ length ((d ∷ l) ++ r) = ap length cut.whole in
    omega (arith, length-append l r, length-skip_slash r)

module _ (fs : FileSystem) where
  open fs use {State, has_lookup, lookup}

  -- Looking up one name after the other.
  abbrev pub resolve : List (List ℕ) → ℕ → State → Option ℕ
  resolve [] cur s = some cur
  resolve (n ∷ l) cur s =
      let into = from_found fs (lookup cur n s) (λ next. resolve l next s) in
      if has_lookup cur s then into else none

  -- What a lookup finds goes on alike where what follows agrees.
  from_found-same :
      (o : Option ℕ) (f g : ℕ → Option ℕ)
      → ((i : ℕ) → f i ≡ g i)
      → from_found fs o f ≡ from_found fs o g
  from_found-same none f g h = refl
  from_found-same (some i) f g h = h i

  pub from_found_assoc :
      (o : Option ℕ) (f g : ℕ → Option ℕ)
      → from_found fs o (λ i. from_found fs (f i) g) ≡ from_found fs (from_found fs o f) g
  from_found_assoc none f g = refl
  from_found_assoc (some i) f g = refl

  -- A round, given that the rest of the rounds go right.
  walk-round :
      (f : ℕ) (l r : List ℕ) (cur : ℕ) (s : State)
      → ((i : ℕ) → walk fs f (skip_slash r) i s ≡ resolve (names (skip_slash r)) i s)
      → (if length l == 0
          then walk fs f (skip_slash r) cur s
          else if has_lookup cur s
          then from_found fs (lookup cur l s) (λ next. walk fs f (skip_slash r) next s)
          else none)
        ≡ resolve (keep l (names (skip_slash r))) cur s
  walk-round f [] r cur s rest = rest cur
  walk-round f (d ∷ l) r cur s rest =
      let some_name : (suc (length l) == 0) ≡ false = ground arith in
      rw some_name (
        ap (λ o. if has_lookup cur s then o else none)
          (from_found-same (lookup cur (d ∷ l) s) (λ next. walk fs f (skip_slash r) next s)
            (λ next. resolve (names (skip_slash r)) next s) rest))

  -- The code's loop over the bytes of a path of at most 255 bytes looks up the path's names, from left
  -- to right; repeated slashes, and one at the end, are passed over. The path's length is fuel enough.
  pub walk-resolve :
      (f : ℕ) (p : List ℕ) (cur : ℕ) (s : State)
      → length p ≤ f
      → length p ≤ 255
      → walk fs f p cur s ≡ resolve (names p) cur s
  unfolding walk
  walk-resolve zero [] cur s h k = refl
  walk-resolve zero (c ∷ p) cur s h k = absurd (omega arith)
  walk-resolve (suc f) [] cur s h k = refl
  walk-resolve (suc f) (c ∷ p) cur s h k =
      let (l, r, e, cut) = component-Cut 255 (c ∷ p) k in
      let less = passes c p l r cut in
      rw (e, names-Cut (c ∷ p) l r cut)
        (walk-round f l r cur s
          (λ i. walk-resolve f (skip_slash r) i s (omega arith) (omega arith)))

  pub resolve-append :
      (l m : List (List ℕ)) (cur : ℕ) (s : State)
      → resolve (l ++ m) cur s ≡ from_found fs (resolve l cur s) (λ d. resolve m d s)
  resolve-append [] m cur s = refl
  resolve-append (n ∷ l) m cur s = elim (Bool-cases (has_lookup cur s)) [
    | inr e ↦ rw e refl
    | inl e ↦ rw e (
        from_found-same (lookup cur n s) (λ next. resolve (l ++ m) next s)
          (λ next. from_found fs (resolve l next s) (λ d. resolve m d s))
          (λ next. resolve-append l m next s)
        ∙ from_found_assoc (lookup cur n s) (λ next. resolve l next s) (λ d. resolve m d s))
  ]
