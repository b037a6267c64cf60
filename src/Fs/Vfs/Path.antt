-- ===== src/Fs/Vfs/Path.antt =====
-- Paths in kernel/fs/vfs.c: their names, and where `split_path` cuts them.
use mathlib.Core.List.{append_assoc, append-nil}
use sinux.Prelude.{
  lt→ltb, ℕ, zero, suc, ◌+◌, ◌≤◌, ◌<◌, ◌≡◌, refl, sym, ap, ◌∙◌, ◌⊎◌, inl, inr, Bool, true, false,
  not, ◌&&◌, some, List, [], ◌∷◌, ◌++◌, if◌then◌else◌, ◌==◌, Bool-cases, arith, length,
  length-append, take, drop,
}
use sinux.Fs.Vfs.{slash, component, skip_slash, last_slash, split_path}

abbrev pub no_slash : List ℕ → Bool
no_slash [] = true
no_slash (c ∷ p) = not (c == slash) && no_slash p

-- The names in a path: the bytes between slashes, where there are any.
abbrev pub keep : List ℕ → List (List ℕ) → List (List ℕ)
keep [] l = l
keep (c ∷ n) l = (c ∷ n) ∷ l

abbrev pub names_from : List ℕ → List ℕ → List (List ℕ)
names_from acc [] = keep acc []
names_from acc (c ∷ p) =
    let ends = keep acc (names_from [] p) in
    let more = names_from (acc ++ c ∷ []) p in if c == slash then ends else more

abbrev pub names : List ℕ → List (List ℕ)
names p = names_from [] p

keep-append : (a : List ℕ) (l m : List (List ℕ)) → keep a (l ++ m) ≡ keep a l ++ m
keep-append [] l m = refl
keep-append (c ∷ a) l m = refl

pub names_from-append :
    (acc a b : List ℕ) → names_from acc (a ++ slash ∷ b) ≡ names_from acc a ++ names b
names_from-append [] [] b = refl
names_from-append (d ∷ acc) [] b = refl
names_from-append acc (c ∷ a) b = elim (Bool-cases (c == slash)) [
  | inl e ↦ rw (e, names_from-append [] a b) (keep-append acc (names_from [] a) (names b))
  | inr e ↦ rw e (names_from-append (acc ++ c ∷ []) a b)
]

pub names_from-plain : (acc l : List ℕ) → no_slash l ≡ true → names_from acc l ≡ keep (acc ++ l) []
names_from-plain acc [] h = rw append-nil refl
names_from-plain acc (c ∷ l) h =
    let other : (c == slash) ≡ false = ground arith in
    rw other (names_from-plain (acc ++ c ∷ []) l (ground arith) ∙ rw append_assoc refl)

-- A round of the loop over names takes the bytes up to a slash, or to the end.
pub record Cut (p l r : List ℕ) : Type 0 where
  pub whole : p ≡ l ++ r
  pub plain : no_slash l ≡ true
  pub stop : (r ≡ []) ⊎ ((q : List ℕ) × (r ≡ slash ∷ q))

pub component-Cut :
    (n : ℕ) (p : List ℕ)
    → length p ≤ n
    → (l : List ℕ) × (r : List ℕ) × (component n p ≡ (l, r)) × Cut p l r
unfolding component
component-Cut zero [] h = ([], [], refl, record { whole = refl; plain = refl; stop = inl refl })
component-Cut zero (c ∷ p) h = absurd (omega arith)
component-Cut (suc n) [] h = ([], [], refl, record { whole = refl; plain = refl; stop = inl refl })
component-Cut (suc n) (c ∷ p) h = elim (Bool-cases (c == slash)) [
  | inl e ↦
      let q : c ≡ slash = ground arith in
      (
        [],
        c ∷ p,
        rw e refl,
        record { whole = refl; plain = refl; stop = inr (p, ap (λ x. x ∷ p) q) },
      )
  | inr e ↦
      let (l, r, f, cut) = component-Cut n p (omega arith) in
      (
        c ∷ l,
        r,
        rw (e, f) refl,
        record { whole = ap (λ x. c ∷ x) cut.whole; plain = rw e cut.plain; stop = cut.stop },
      )
]

-- What the names of a path are after a cut.
pub names-Cut : (p l r : List ℕ) → Cut p l r → names p ≡ keep l (names (skip_slash r))
names-Cut p l r cut = elim cut.stop [
  | inl e ↦ rw (cut.whole, e, append-nil) (names_from-plain [] l cut.plain)
  | inr (q, e) ↦
      rw (cut.whole, e)
        (names_from-append [] l q
          ∙ rw (names_from-plain [] l cut.plain) (sym (keep-append l [] (names q))))
]

last_slash-plain : (i last : ℕ) (p : List ℕ) → no_slash p ≡ true → last_slash i last p ≡ last
unfolding last_slash
last_slash-plain i last [] h = refl
last_slash-plain i last (c ∷ p) h =
    let other : (c == slash) ≡ false = ground arith in
    rw other (last_slash-plain (i + 1) last p (ground arith))

last_slash-at :
    (i last : ℕ) (a b : List ℕ)
    → no_slash b ≡ true
    → last_slash i last (a ++ slash ∷ b) ≡ i + length a
unfolding last_slash
last_slash-at i last [] b h = last_slash-plain (i + 1) i b h ∙ omega arith
last_slash-at i last (c ∷ a) b h =
    last_slash-at (i + 1) (if c == slash then i else last) a b h ∙ omega arith

take-append : (a b : List ℕ) → take (length a) (a ++ b) ≡ a
take-append [] b = refl
take-append (c ∷ a) b = ap (λ l. c ∷ l) (take-append a b)

drop-append : (a b : List ℕ) (c : ℕ) → drop (length a + 1) (a ++ c ∷ b) ≡ b
drop-append [] b c = refl
drop-append (d ∷ a) b c = ground (arith, drop-append a b c)

-- The directory's path that goes with a path's part before its last slash.
abbrev pub dir_part : List ℕ → List ℕ
dir_part [] = slash ∷ []
dir_part (c ∷ a) = c ∷ a

-- `split_path` of a path with a slash, of fewer than 255 bytes, cuts it at the last one: the name is
-- what stands behind it, and the directory what stands before it, or "/" if nothing does.
pub split_path_lem :
    (a name : List ℕ)
    → no_slash name ≡ true
    → length (a ++ slash ∷ name) < 255
    → split_path (a ++ slash ∷ name) ≡ some (dir_part a, name)
unfolding split_path
split_path_lem [] name h fits =
    let at : last_slash 0 0 ([] ++ slash ∷ name) ≡ 0 = last_slash-at 0 0 [] name h ∙ omega arith in
    let ok = lt→ltb (length (slash ∷ name)) 255 fits in rw (ok, at) refl
split_path_lem (c ∷ a) name h fits =
    let at : last_slash 0 0 ((c ∷ a) ++ slash ∷ name) ≡ length (c ∷ a) =
      last_slash-at 0 0 (c ∷ a) name h ∙ omega arith in
    let ok = lt→ltb (length ((c ∷ a) ++ slash ∷ name)) 255 fits in
    let before = take-append (c ∷ a) (slash ∷ name) in
    let behind = drop-append (c ∷ a) name slash in
    let some_dir : (suc (length a) == 0) ≡ false = ground arith in
    rw (ok, at, before, behind, some_dir) refl

-- Where a path that starts with a slash is cut: the directory's path behind that slash, and the name.
pub record LastCut (q b name : List ℕ) : Type 0 where
  pub split : length q < 254 → split_path (slash ∷ q) ≡ some (slash ∷ b, name)
  pub all_names : names q ≡ names b ++ names name
  pub plain : no_slash name ≡ true
  pub shorter : length b ≤ length q

cut_at_slash : (b name : List ℕ) → no_slash name ≡ true → LastCut (b ++ slash ∷ name) b name
cut_at_slash b name h = record {
  split = λ fits. split_path_lem (slash ∷ b) name h (omega arith);
  all_names = names_from-append [] b name;
  plain = h;
  shorter = omega (arith, length-append b (slash ∷ name));
}

no_cut : (q : List ℕ) → no_slash q ≡ true → LastCut q [] q
no_cut q h = record {
  split = λ fits. split_path_lem [] q h (omega arith);
  all_names = refl;
  plain = h;
  shorter = omega arith;
}

slash_or_plain :
    (q : List ℕ)
    → (no_slash q ≡ true)
      ⊎ ((b : List ℕ) × (n : List ℕ) × (q ≡ b ++ slash ∷ n) × (no_slash n ≡ true))
slash_or_plain [] = inl refl
slash_or_plain (c ∷ q) = elim (slash_or_plain q) [
  | inr (b, n, e, h) ↦ inr (c ∷ b, n, ap (λ l. c ∷ l) e, h)
  | inl h ↦ elim (Bool-cases (c == slash)) [
    | inl e ↦ let is_slash : c ≡ slash = ground arith in inr ([], q, ap (λ x. x ∷ q) is_slash, h)
    | inr e ↦ inl (rw e h)
  ]
]

pub names-LastCut : (q : List ℕ) → (b : List ℕ) × (n : List ℕ) × LastCut q b n
names-LastCut q = elim (slash_or_plain q) [
  | inl h ↦ ([], q, no_cut q h)
  | inr (b, n, e, h) ↦ (b, n, rw e (cut_at_slash b n h))
]
