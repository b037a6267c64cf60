-- ===== src/Fs/Vfs/Mounts.antt =====
-- `find_mount` of kernel/fs/vfs.c: the mount that a path goes to.
use sinux.Prelude.{
  ℕ, zero, suc, ◌+◌, ◌≤◌, ◌<◌, ◌≡◌, refl, ◌⊎◌, inl, inr, Bool, true, false, ◌&&◌, Option, none,
  some, List, ltb, ltb→lt, lt→ltb, Bool-cases, arith, length, dec_lt,
}
use sinux.Fs.Vfs.{Mount, max_mounts, starts_with, find_from, find_mount}

-- A mount in use whose path the path starts with.
abbrev pub Fits : List ℕ → Mount → Type 0
Fits path m = (m.active ≡ true) × (starts_with m.path path ≡ true)

-- The best of the mounts below i, with its length.
record Best (path : List ℕ) (m : ℕ → Mount) (i : ℕ) (r : Option ℕ) (len : ℕ) : Type 0 where
  most : (j : ℕ) → j < i → Fits path (m j) → length (m j).path ≤ len
  is_one :
      ((r ≡ none) × (len ≡ 0))
      ⊎ ((k : ℕ) × (r ≡ some k) × (k < i) × Fits path (m k) × (length (m k).path ≡ len))

and-true : (a b : Bool) → (a && b) ≡ true → (a ≡ true) × (b ≡ true)
and-true true b h = (refl, h)
and-true false b h = cc

true-and : {a b : Bool} → a ≡ true → b ≡ true → (a && b) ≡ true
true-and h k = rw h k

-- The round for mount i.
better :
    {path : List ℕ} {m : ℕ → Mount} {i : ℕ} {r : Option ℕ} {len : ℕ}
    → Best path m i r len
    → Fits path (m i)
    → len < length (m i).path
    → Best path m (i + 1) (some i) (length (m i).path)
better {path = path} {m = m} {i = i} b f more = record {
  most = λ j h g. elim (dec_lt j i) [
    | yes l ↦ omega (arith, b.most j l g)
    | no l ↦ let e : j ≡ i = omega arith in rw e (omega arith)
  ];
  is_one = inr (i, refl, omega arith, f, refl);
}

same :
    {path : List ℕ} {m : ℕ → Mount} {i : ℕ} {r : Option ℕ} {len : ℕ}
    → Best path m i r len
    → (Fits path (m i) → length (m i).path ≤ len)
    → Best path m (i + 1) r len
same {path = path} {m = m} {i = i} b less = record {
  most = λ j h g. elim (dec_lt j i) [
    | yes l ↦ b.most j l g
    | no l ↦ let e : i ≡ j = omega arith in rw (← e) (less (rw e g))
  ];
  is_one = elim b.is_one [ inl x ↦ inl x | inr (k, e, l, f, s) ↦ inr (k, e, omega arith, f, s) ];
}

find_from-Best :
    (n i : ℕ) (path : List ℕ) (m : ℕ → Mount) (r : Option ℕ) (len : ℕ)
    → Best path m i r len
    → (l : ℕ) × Best path m (i + n) (find_from n i path m r len) l
unfolding find_from
find_from-Best zero i path m r len b = let at : i + 0 ≡ i = omega arith in rw at (len, b)
find_from-Best (suc n) i path m r len b =
    elim (Bool-cases ((m i).active && starts_with (m i).path path && ltb len (length (m i).path))) [
      | inl e ↦
          let (fits, more) =
            and-true ((m i).active && starts_with (m i).path path) (ltb len (length (m i).path))
              e in
          let (l, best) = find_from-Best n (i + 1) path m (some i) (length (m i).path) (
            better b (and-true (m i).active (starts_with (m i).path path) fits)
              (ltb→lt len (length (m i).path) more)) in
          let at : i + suc n ≡ i + 1 + n = omega arith in rw (e, at) (l, best)
      | inr e ↦
          let (l, best) = find_from-Best n (i + 1) path m r len (
            same b (λ f. elim (dec_lt len (length (m i).path)) [
              | no no_more ↦ omega arith
              | yes more ↦
                  let all = true-and (true-and f.0 f.1) (lt→ltb len (length (m i).path) more) in cc
            ])) in
          let at : i + suc n ≡ i + 1 + n = omega arith in rw (e, at) (l, best)
    ]

-- `find_mount` gives a mount in use whose path the path starts with, and one with the longest such
-- path; NULL only if no such mount has a path that is not empty.
pub find_mount_lem :
    (path : List ℕ) (m : ℕ → Mount)
    → ((find_mount path m ≡ none)
        × ((j : ℕ) → j < max_mounts → Fits path (m j) → length (m j).path ≡ 0))
      ⊎ ((k : ℕ) × (find_mount path m ≡ some k)
          × (k < max_mounts)
          × Fits path (m k)
          × ((j : ℕ) → j < max_mounts → Fits path (m j) → length (m j).path ≤ length (m k).path))
unfolding find_mount
find_mount_lem path m =
    let (l, b) =
      find_from-Best max_mounts 0 path m none 0
        (record { most = λ j h f. absurd (omega arith); is_one = inl (refl, refl) }) in
    elim b.is_one [
      | inl (e, z) ↦ inl (e, λ j h f. omega (arith, b.most j h f))
      | inr (k, e, h, f, s) ↦ inr (k, e, h, f, λ j x y. omega (arith, b.most j x y))
    ]
