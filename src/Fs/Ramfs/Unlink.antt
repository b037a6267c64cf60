-- ===== src/Fs/Ramfs/Unlink.antt =====
-- What `ramfs_unlink` of kernel/fs/ramfs.c does to the names of directories.
use sinux.Prelude.{
  ℕ, ◌-◌, ◌<◌, ◌≡◌, refl, sym, ap, ◌∙◌, ◌≢◌, ◌⊎◌, inl, inr, List, if◌then◌else◌, ◌==◌, arith, ret,
  err,
}
use sinux.Fs.Types.{enoent}
use sinux.Fs.Ramfs.{Ramfs, drop_child, unlink_found, ramfs_unlink}
use sinux.Fs.Ramfs.Names.{child_name, find_child-Found, Entry, Unique, name_here}
use sinux.Fs.Ramfs.Directory.{IsValid}

-- An entry of a directory that is gone, and the last one in its place.
pub record Unlinked (at : ℕ) (name : List ℕ) (s t : Ramfs) : Type 0 where
  pub valid : IsValid t
  pub unique : (b : ℕ) → Unique s b → Unique t b
  pub gone : (c : ℕ) → ¬ (Entry t at name c)
  pub old : (b c : ℕ) (n : List ℕ) → Entry t b n c → Entry s b n c
  pub kept : (b c : ℕ) (n : List ℕ) → (b ≢ at) ⊎ (n ≢ name) → Entry s b n c → Entry t b n c

-- Where entry i of directory b was before.
abbrev place_before : ℕ → ℕ → Ramfs → ℕ → ℕ → ℕ
place_before at k s b i = if at == b then if k == i then (s.nodes at).child_count - 1 else i else i

drop_child_name : (at k c : ℕ) (s : Ramfs) → ((drop_child at k s).nodes c).name ≡ (s.nodes c).name
unfolding drop_child
drop_child_name at k c s = ground arith

drop_child_child :
    (at k b i : ℕ) (s : Ramfs)
    → ((drop_child at k s).nodes b).children i ≡ (s.nodes b).children (place_before at k s b i)
unfolding drop_child
drop_child_child at k b i s = ground arith

drop_child_count :
    (at k b : ℕ) (s : Ramfs)
    → ((drop_child at k s).nodes b).child_count
      ≡ (if at == b then (s.nodes b).child_count - 1 else (s.nodes b).child_count)
unfolding drop_child
drop_child_count at k b s = ground arith

child_name-drop_child :
    (at k b i : ℕ) (s : Ramfs)
    → child_name (drop_child at k s) ((drop_child at k s).nodes b) i
      ≡ child_name s (s.nodes b) (place_before at k s b i)
child_name-drop_child at k b i s =
    drop_child_name at k (((drop_child at k s).nodes b).children i) s
    ∙ ap (λ c. (s.nodes c).name) (drop_child_child at k b i s)

drop_child-old :
    (at k b c : ℕ) (n : List ℕ) (s : Ramfs)
    → k < (s.nodes at).child_count
    → (e : Entry (drop_child at k s) b n c)
    → (f : Entry s b n c) × (f.index ≡ place_before at k s b e.index)
drop_child-old at k b c n s l e =
    let inside = e.inside in
    let number = drop_child_count at k b s in
    (
      record {
        index = place_before at k s b e.index;
        inside = ground arith;
        here = sym (drop_child_child at k b e.index s) ∙ e.here;
        named = sym (drop_child_name at k c s) ∙ e.named;
      },
      refl,
    )

-- The place where an entry goes, for one that is not k of directory at.
drop_child-kept :
    (at k b c : ℕ) (n : List ℕ) (s : Ramfs)
    → k < (s.nodes at).child_count
    → (e : Entry s b n c) → (at ≡ b → k ≢ e.index)
    → Entry (drop_child at k s) b n c
drop_child-kept at k b c n s l e ne =
    let inside = e.inside in
    let number = drop_child_count at k b s in
    let last = (s.nodes at).child_count - 1 in
    let to : ℕ = if at == b then if last == e.index then k else e.index else e.index in
    let back : place_before at k s b to ≡ e.index = ground arith in
    record {
      index = to;
      inside = ground arith;
      here = drop_child_child at k b to s ∙ ap (λ i. (s.nodes b).children i) back ∙ e.here;
      named = drop_child_name at k c s ∙ e.named;
    }

drop_child-Unlinked :
    (at k : ℕ) (name : List ℕ) (s : Ramfs)
    → IsValid s
    → Unique s at
    → k < (s.nodes at).child_count
    → child_name s (s.nodes at) k ≡ name
    → Unlinked at name s (drop_child at k s)
drop_child-Unlinked at k name s v u l e = record {
  valid = record {
    nodes_in = unfold drop_child in v.nodes_in;
    children_in = λ b i x y.
        let number = drop_child_count at k b s in
        let child = drop_child_child at k b i s in
        let inside =
          v.children_in b (place_before at k s b i) (unfold drop_child in x) (ground arith) in
        unfold drop_child in (rw child inside);
  };
  unique = λ b ub i j x y same.
      let number = drop_child_count at k b s in
      let q =
        ub (place_before at k s b i) (place_before at k s b j) (ground arith) (ground arith)
          (sym (child_name-drop_child at k b i s) ∙ same ∙ child_name-drop_child at k b j s) in
      ground arith;
  gone = λ c t.
      let (f, place) = drop_child-old at k at c name s l t in
      let q = u k f.index l f.inside (e ∙ sym (name_here f)) in
      let number = drop_child_count at k at s in let inside = t.inside in ground arith;
  old = λ b c n t. (drop_child-old at k b c n s l t).0;
  kept = λ b c n ne t. drop_child-kept at k b c n s l t (λ same at_k.
      let named : n ≡ name =
        sym (name_here t)
        ∙ ap (λ b. child_name s (s.nodes b) t.index) (sym same)
        ∙ ap (λ i. child_name s (s.nodes at) i) (sym at_k)
        ∙ e in
      elim ne [ inl other ↦ other (sym same) | inr other ↦ other named ]);
}

-- `ramfs_unlink` in a directory where no name stands twice: without the name there it returns
-- -ENOENT and changes nothing. Else it returns 0, the directory has no entry of that name, and every
-- other entry, of every directory, stays as it was; names stay unique.
pub ramfs_unlink_lem :
    (at : ℕ) (name : List ℕ) (s : Ramfs)
    → IsValid s
    → Unique s at
    → ((ramfs_unlink at name s ≡ (err enoent, s)) × ((c : ℕ) → ¬ (Entry s at name c)))
      ⊎ ((t : Ramfs) × (ramfs_unlink at name s ≡ (ret 0, t)) × Unlinked at name s t)
unfolding ramfs_unlink unlink_found
ramfs_unlink_lem at name s v u =
    elim (find_child-Found (s.nodes at).child_count 0 name (s.nodes at) s) [
      | inl (r, all) ↦
          inl (rw r refl, λ c e. all e.index (omega arith) (omega (arith, e.inside)) (name_here e))
      | inr (k, a, b, here, below, r) ↦
          inr (drop_child at k s, rw r refl, drop_child-Unlinked at k name s v u (omega arith) here)
    ]
