-- ===== src/Fs/Vfs/Create.antt =====
-- `vfs_create` and `vfs_lookup` of kernel/fs/vfs.c on one mount, at "/".
use sinux.Prelude.{
  ℕ, suc, ◌≤◌, ◌<◌, ◌≡◌, refl, sym, ap, ◌∙◌, ◌≢◌, inl, inr, true, false, Option, none, some, List,
  [], ◌∷◌, ◌++◌, if◌then◌else◌, ◌==◌, Bool-cases, Option-cases, arith, length, Ret, ret, err,
}
use sinux.Fs.Types.{FileType}
use sinux.Fs.FileSystem.{FileSystem, CreateLaws}
use sinux.Fs.Vfs.{
  Mount, Vfs, slash, max_mounts, find_mount, from_found, walk, walk_mount, lookup_in, vfs_lookup,
  is_dir, create_under, create_split, vfs_create, with_state,
}
use sinux.Fs.Vfs.Path.{names-LastCut, names, no_slash, names_from-plain}
use sinux.Fs.Vfs.Walk.{resolve, walk-resolve, resolve-append}
use sinux.Fs.Vfs.Mounts.{find_mount_lem}

-- One mount is in use, on "/".
pub record OnRoot (m : ℕ → Mount) (root : ℕ) : Type 0 where
  pub index : ℕ
  pub inside : index < max_mounts
  pub here :
      m index ≡ record { path = slash ∷ []; root = some root; active = true; can_lookup = true }
  pub only : (j : ℕ) → j < max_mounts → (m j).active ≡ true → j ≡ index

-- Then each path that starts with a slash goes to it.
find_root :
    (m : ℕ → Mount) (root : ℕ) (o : OnRoot m root) (q : List ℕ)
    → find_mount (slash ∷ q) m ≡ some o.index
find_root m root o q = elim (find_mount_lem (slash ∷ q) m) [
  | inl (e, all) ↦
      let none_left : length (m o.index).path ≡ 0 = all o.index o.inside (rw o.here (refl, refl)) in
      let one : length (m o.index).path ≡ 1 = rw o.here refl in absurd (omega arith)
  | inr (k, e, h, f, best) ↦ rw (e, o.only k h f.0) refl
]

module _ (fs : FileSystem) where
  open fs use {State, has_lookup, lookup, has_create, create, type_of}

  walk_below :
      (root : ℕ) (r : List ℕ) (s : State)
      → length r ≤ 255
      → (if length r == 0 then some root else walk fs (length r) r root s)
        ≡ resolve fs (names r) root s
  walk_below root [] s h = refl
  walk_below root (c ∷ r) s h =
      let some_left : (suc (length r) == 0) ≡ false = ground arith in
      rw some_left (walk-resolve fs (suc (length r)) (c ∷ r) root s (omega arith) h)

  mount_walk :
      (root : ℕ) (q : List ℕ) (s : State)
      → length q ≤ 255
      → walk_mount fs
          (record { path = slash ∷ []; root = some root; active = true; can_lookup = true })
          (some root)
          (slash ∷ q)
          s
        ≡ resolve fs (names q) root s
  unfolding walk_mount
  mount_walk root [] s h = refl
  mount_walk root (c ∷ q) s h = elim (Bool-cases (c == slash)) [
    | inl e ↦ rw e (walk_below root q s (omega arith))
    | inr e ↦ let more = walk_below root (c ∷ q) s h in rw e (rw e at more)
  ]

  -- With one mount, on "/", a path of at most 256 bytes that starts with a slash is looked up name by
  -- name from that mount's root.
  pub vfs_lookup-resolve :
      (v : Vfs fs) (root : ℕ) (q : List ℕ)
      → OnRoot v.mounts root
      → length q ≤ 255
      → vfs_lookup fs (slash ∷ q) v ≡ resolve fs (names q) root v.fs_state
  unfolding vfs_lookup lookup_in
  vfs_lookup-resolve v root q o h =
      rw (find_root v.mounts root o q, o.here) (mount_walk root q v.fs_state h)

  -- One step of `resolve` that finds something.
  resolve-step :
      (n : List ℕ) (l : List (List ℕ)) (b c : ℕ) (s : State)
      → resolve fs (n ∷ l) b s ≡ some c
      → (x : ℕ) × (has_lookup b s ≡ true) × (lookup b n s ≡ some x) × (resolve fs l x s ≡ some c)
  resolve-step n l b c s r = elim (Bool-cases (has_lookup b s)) [
    | inr without ↦ let gone : none ≡ some c = rw without at r in cc
    | inl has_it ↦ elim (Option-cases (lookup b n s)) [
      | inl missing ↦ let gone : none ≡ some c = rw (has_it, missing) at r in cc
      | inr (x, found) ↦ (x, has_it, found, rw (has_it, found) at r)
    ]
  ]

  resolve-inode :
      (laws : CreateLaws fs) (s : State)
      → laws.Valid s
      → (l : List (List ℕ)) (b c : ℕ) → laws.Inode s b
      → resolve fs l b s ≡ some c
      → laws.Inode s c
  resolve-inode laws s v [] b c h r = let q : b ≡ c = cc in rw (← q) h
  resolve-inode laws s v (n ∷ l) b c h r =
      let (x, has_it, found, after) = resolve-step n l b c s r in
      resolve-inode laws s v l x c (laws.lookup-Inode b x n s v h found) after

  -- What a lookup of names gives, it gives after a name was created.
  resolve-create :
      (laws : CreateLaws fs) (d : ℕ) (name : List ℕ) (kind : FileType) (s t : State)
      → laws.Valid s
      → laws.Inode s d
      → lookup d name s ≡ none
      → create d name kind s ≡ some (ret 0, t)
      → (l : List (List ℕ)) (b c : ℕ) → laws.Inode s b
      → resolve fs l b s ≡ some c
      → resolve fs l b t ≡ some c
  resolve-create laws d name kind s t v i free e [] b c h r = r
  resolve-create laws d name kind s t v i free e (n ∷ l) b c h r =
      let (x, has_it, found, after) = resolve-step n l b c s r in
      let has = laws.create-has_lookup d name kind s t b e has_it in
      let kept = laws.create-keeps d name kind s t b x n v i free e h found in
      rw (has, kept)
        (resolve-create laws d name kind s t v i free e l x c (laws.lookup-Inode b x n s v h found)
          after)

  not_ok :
      {A : Type 0} (n : ℕ) (v w : Vfs fs)
      → ◌≡◌ {A = Option (Ret × Vfs fs)} (some (err n, v)) (some (ret 0, w))
      → A
  not_ok n v w e = let f : err n ≡ ret 0 = cc in cc

  with_state-ok :
      (v w : Vfs fs) (o : Option (Ret × State))
      → with_state fs v o ≡ some (ret 0, w)
      → (o ≡ some (ret 0, w.fs_state)) × (w.mounts ≡ v.mounts)
  with_state-ok v w none e = cc
  with_state-ok v w (some (r, s)) e =
      let f : r ≡ ret 0 = cc in
      let g : record v { fs_state = s } ≡ w = cc in rw (f, ← g) (refl, refl)

  -- What went well in a `vfs_create` that returns 0.
  create_under-ok :
      (o : Option ℕ) (name : List ℕ) (kind : FileType) (v w : Vfs fs)
      → create_under fs o name kind v ≡ some (ret 0, w)
      → (d : ℕ) × (o ≡ some d)
        × (has_create d v.fs_state ≡ true)
        × (create d name kind v.fs_state ≡ some (ret 0, w.fs_state))
        × (w.mounts ≡ v.mounts)
  unfolding create_under
  create_under-ok none name kind v w e = not_ok 2 v w e
  create_under-ok (some d) name kind v w e = elim (Bool-cases (is_dir fs (type_of d v.fs_state))) [
    | inr f ↦ not_ok 2 v w (rw f at e)
    | inl f ↦ elim (Bool-cases (has_create d v.fs_state)) [
      | inr g ↦ not_ok 13 v w (rw (f, g) at e)
      | inl g ↦
          let made = with_state-ok v w (create d name kind v.fs_state) (rw (f, g) at e) in
          (d, refl, g, made.0, made.1)
    ]
  ]

  create_split-ok :
      (path name : List ℕ) (kind : FileType) (v w : Vfs fs)
      → create_split fs (some (path, name)) kind v ≡ some (ret 0, w)
      → (name ≢ []) × (create_under fs (vfs_lookup fs path v) name kind v ≡ some (ret 0, w))
  unfolding create_split
  create_split-ok path [] kind v w e = not_ok 22 v w e
  create_split-ok path (c ∷ name) kind v w e =
      let some_name : (suc (length name) == 0) ≡ false = ground arith in
      ((λ h. cc), rw some_name at e)

  names-name : (name : List ℕ) → no_slash name ≡ true → name ≢ [] → names name ≡ name ∷ []
  names-name [] h ne = absurd (ne refl)
  names-name (c ∷ name) h ne = names_from-plain [] (c ∷ name) h

  resolve-one :
      (d : ℕ) (name : List ℕ) (s : State)
      → has_lookup d s ≡ true
      → resolve fs (name ∷ []) d s ≡ lookup d name s
  resolve-one d name s h =
      rw h (elim (Option-cases (lookup d name s)) [ inl e ↦ rw e refl | inr (c, e) ↦ rw e refl ])

  -- With one mount, on "/", and a file system that keeps its laws: where a path that starts with a slash
  -- was not found, and `vfs_create` returned 0 for it, it is found then, as a file of the type asked for.
  pub vfs_create-vfs_lookup :
      (laws : CreateLaws fs) (v w : Vfs fs) (root : ℕ) (q : List ℕ) (kind : FileType)
      → OnRoot v.mounts root
      → laws.Valid v.fs_state
      → laws.Inode v.fs_state root
      → length q < 254
      → vfs_lookup fs (slash ∷ q) v ≡ none
      → vfs_create fs (slash ∷ q) kind v ≡ some (ret 0, w)
      → (c : ℕ) × (vfs_lookup fs (slash ∷ q) w ≡ some c) × (type_of c w.fs_state ≡ kind)
  unfolding vfs_create
  vfs_create-vfs_lookup laws v w root q kind o valid i fits missing e =
      let (b, name, cut) = names-LastCut q in
      let (ne, under) = create_split-ok (slash ∷ b) name kind v w (rw (cut.split fits) at e) in
      let (d, parent, can, made, mounts) =
        create_under-ok (vfs_lookup fs (slash ∷ b) v) name kind v w under in
      let s = v.fs_state in
      let t = w.fs_state in
      let all : names q ≡ names b ++ name ∷ [] =
        cut.all_names ∙ ap (λ l. names b ++ l) (names-name name cut.plain ne) in
      let at_parent : resolve fs (names b) root s ≡ some d =
        sym (vfs_lookup-resolve v root b o (omega (arith, cut.shorter))) ∙ parent in
      let has = laws.has_create-has_lookup d s can in
      let free : lookup d name s ≡ none =
        sym (resolve-one d name s has)
        ∙ sym (
            resolve-append fs (names b) (name ∷ []) root s
            ∙ ap (λ p. from_found fs p (λ x. resolve fs (name ∷ []) x s)) at_parent)
        ∙ sym (vfs_lookup-resolve v root q o (omega arith) ∙ ap (λ l. resolve fs l root s) all)
        ∙ missing in
      let inode = resolve-inode laws s valid (names b) root d i at_parent in
      let kept =
        resolve-create laws d name kind s t valid inode free made (names b) root d i at_parent in
      let (c, found, is_kind) = laws.create-lookup d name kind s t valid inode free made in
      (
        c,
        vfs_lookup-resolve w root q (rw mounts o) (omega arith)
            ∙ ap (λ l. resolve fs l root t) all
            ∙ resolve-append fs (names b) (name ∷ []) root t
            ∙ ap (λ p. from_found fs p (λ x. resolve fs (name ∷ []) x t)) kept
            ∙ resolve-one d name t (laws.create-has_lookup d name kind s t d made has)
            ∙ found,
        is_kind,
      )
