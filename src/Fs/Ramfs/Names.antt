-- ===== src/Fs/Ramfs/Names.antt =====
-- The search for a name among the children of a directory in kernel/fs/ramfs.c.
use sinux.Prelude.{
  ℕ, zero, suc, ◌+◌, ◌≤◌, ◌<◌, ◌≡◌, refl, sym, ap, ◌∙◌, ◌≢◌, ◌⊎◌, ◌↔◌, inl, inr, true, false,
  Option, none, some, List, [], ◌∷◌, Bool-cases, arith, dec_lt,
}
use sinux.Fs.Ramfs.{Node, Ramfs, same_name, find_child, ramfs_lookup}

same_name-eq : (a b : List ℕ) → same_name a b ≡ true → a ≡ b
same_name-eq [] [] h = refl
same_name-eq [] (y ∷ b) h = cc
same_name-eq (x ∷ a) [] h = cc
same_name-eq (x ∷ a) (y ∷ b) h = ground (arith, same_name-eq a b)

same_name_refl : (a : List ℕ) → same_name a a ≡ true
same_name_refl [] = refl
same_name_refl (x ∷ a) = ground (arith, same_name_refl a)

pub same_name_iff : (a b : List ℕ) → (same_name a b ≡ true) ↔ (a ≡ b)
same_name_iff a b = (same_name-eq a b, λ e. rw (← e) (same_name_refl a))

pub same_name-ne : (a b : List ℕ) → a ≢ b → same_name a b ≡ false
same_name-ne a b h = elim (Bool-cases (same_name a b)) [
  | inl e ↦ absurd (h (same_name-eq a b e))
  | inr e ↦ e
]

pub ne-same_name : (a b : List ℕ) → same_name a b ≡ false → a ≢ b
ne-same_name a b h e = let t = (same_name_iff a b).1 e in cc

-- The name of child i.
abbrev pub child_name : Ramfs → Node → ℕ → List ℕ
child_name s d i = (s.nodes (d.children i)).name

abbrev pub Found : ℕ → ℕ → List ℕ → Node → Ramfs → Option ℕ → Type 0
Found n i name d s r =
    ((r ≡ none) × ((j : ℕ) → i ≤ j → j < i + n → child_name s d j ≢ name))
    ⊎ ((k : ℕ) × (i ≤ k)
        × (k < i + n)
        × (child_name s d k ≡ name)
        × ((j : ℕ) → i ≤ j → j < k → child_name s d j ≢ name)
        × (r ≡ some k))

-- All from i on, by i itself and those behind it.
from_next :
    (i j : ℕ) (name : List ℕ) (d : Node) (s : Ramfs)
    → child_name s d i ≢ name
    → (i + 1 ≤ j → child_name s d j ≢ name)
    → i ≤ j
    → child_name s d j ≢ name
from_next i j name d s ne rest a = elim (dec_lt i j) [
  | yes l ↦ rest (omega arith)
  | no l ↦ let e : i ≡ j = omega arith in rw (← e) ne
]

pub find_child-Found :
    (n i : ℕ) (name : List ℕ) (d : Node) (s : Ramfs) → Found n i name d s (find_child n i name d s)
unfolding find_child
find_child-Found zero i name d s = inl (refl, λ j a b. absurd (omega arith))
find_child-Found (suc n) i name d s = elim (Bool-cases (same_name (child_name s d i) name)) [
  | inl e ↦ rw e (
      inr (
        i,
        omega arith,
        omega arith,
        same_name-eq (child_name s d i) name e,
        (λ j a b. absurd (omega arith)),
        refl,
      ))
  | inr e ↦
      let ne = ne-same_name (child_name s d i) name e in
      rw e (elim (find_child-Found n (i + 1) name d s) [
        | inl (r, all) ↦ inl (r, λ j a b. from_next i j name d s ne (λ x. all j x (omega arith)) a)
        | inr (k, a, b, c, below, r) ↦ inr (
          k,
          omega arith,
          omega arith,
          c,
          (λ j x y. from_next i j name d s ne (λ z. below j z y) x),
          r,
        )
      ])
]

-- A directory's names and their nodes.
pub record Entry (s : Ramfs) (at : ℕ) (name : List ℕ) (c : ℕ) : Type 0 where
  pub index : ℕ
  pub inside : index < (s.nodes at).child_count
  pub here : (s.nodes at).children index ≡ c
  pub named : (s.nodes c).name ≡ name

-- No name twice.
abbrev pub Unique : Ramfs → ℕ → Type 0
Unique s at =
    (i j : ℕ)
    → i < (s.nodes at).child_count
    → j < (s.nodes at).child_count
    → child_name s (s.nodes at) i ≡ child_name s (s.nodes at) j
    → i ≡ j

pub name_here :
    {s : Ramfs} {at c : ℕ} {name : List ℕ} (t : Entry s at name c)
    → child_name s (s.nodes at) t.index ≡ name
name_here {s = s} t = ap (λ k. (s.nodes k).name) t.here ∙ t.named

-- `ramfs_lookup` finds a name's node exactly where the directory has it, and so NULL where not.
pub ramfs_lookup_iff :
    (s : Ramfs) (at c : ℕ) (name : List ℕ)
    → Unique s at
    → (ramfs_lookup at name s ≡ some c) ↔ Entry s at name c
unfolding ramfs_lookup
ramfs_lookup_iff s at c name u =
    elim (find_child-Found (s.nodes at).child_count 0 name (s.nodes at) s) [
      | inl (r, all) ↦ rw r (
        (λ e. cc),
        λ t. absurd (all t.index (omega arith) (omega (arith, t.inside)) (name_here t)),
      )
      | inr (k, a, b, here, below, r) ↦ rw r (
        (λ e.
            let q : (s.nodes at).children k ≡ c = cc in
            record { index = k; inside = omega arith; here = q; named = rw (← q) here }),
        λ t.
            let q : k ≡ t.index = u k t.index (omega arith) t.inside (here ∙ sym (name_here t)) in
            ap (λ k. some ((s.nodes at).children k)) q ∙ ap some t.here,
      )
    ]

-- What a lookup gives is an entry, and it gives NULL only where there is none.
pub ramfs_lookup-cases :
    (s : Ramfs) (at : ℕ) (name : List ℕ)
    → ((ramfs_lookup at name s ≡ none) × ((c : ℕ) → ¬ (Entry s at name c)))
      ⊎ ((c : ℕ) × (ramfs_lookup at name s ≡ some c) × Entry s at name c)
unfolding ramfs_lookup
ramfs_lookup-cases s at name =
    elim (find_child-Found (s.nodes at).child_count 0 name (s.nodes at) s) [
      | inl (r, all) ↦
          inl (rw r refl, λ c t. all t.index (omega arith) (omega (arith, t.inside)) (name_here t))
      | inr (k, a, b, here, below, r) ↦ inr (
        (s.nodes at).children k,
        rw r refl,
        record { index = k; inside = omega arith; here = refl; named = here },
      )
    ]
