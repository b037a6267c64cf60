-- ===== src/Fs/Ramfs/Directory.antt =====
-- What `ramfs_create` of kernel/fs/ramfs.c does to the names of directories.
use sinux.Prelude.{
  ℕ, ◌+◌, ◌≤◌, ◌<◌, ◌≡◌, refl, ◌⊎◌, inl, inr, none, some, List, ltb, leb, Bool-cases, arith, update,
  length, ret, err, dec_lt,
}
use sinux.Fs.Types.{FileType, enospc}
use sinux.Fs.Ramfs.{
  Ramfs, max_nodes, max_children, new_node, alloc_node, add_child, create_in, ramfs_create,
}
use sinux.Fs.Ramfs.Names.{Entry}

-- All children are nodes that have been given out.
pub record IsValid (s : Ramfs) : Type 0 where
  pub nodes_in : s.node_count ≤ max_nodes
  pub children_in :
      (at i : ℕ)
      → at < s.node_count
      → i < (s.nodes at).child_count
      → (s.nodes at).children i < s.node_count

-- A directory at with one more entry, a new node.
pub record Created (at : ℕ) (name : List ℕ) (kind : FileType) (s t : Ramfs) : Type 0 where
  pub valid : IsValid t
  pub kind_of : (t.nodes s.node_count).kind ≡ kind
  pub size_of : (t.nodes s.node_count).size ≡ 0
  pub new : Entry t at name s.node_count
  pub old : (b c : ℕ) (n : List ℕ) → b < s.node_count → Entry s b n c → Entry t b n c
  pub only :
      (b c : ℕ) (n : List ℕ)
      → b < s.node_count
      → Entry t b n c
      → Entry s b n c ⊎ ((b ≡ at) × (n ≡ name) × (c ≡ s.node_count))

-- The file system after `ramfs_create` went through.
abbrev created : ℕ → List ℕ → FileType → Ramfs → Ramfs
created at name kind s = add_child at s.node_count (record {
  nodes = update s.nodes s.node_count (new_node name kind);
  node_count = s.node_count + 1;
})

created-name :
    (at c : ℕ) (name : List ℕ) (kind : FileType) (s : Ramfs)
    → at < s.node_count
    → c < s.node_count
    → ((created at name kind s).nodes c).name ≡ (s.nodes c).name
unfolding add_child
created-name at c name kind s h l = ground arith

created-Created :
    (at : ℕ) (name : List ℕ) (kind : FileType) (s : Ramfs)
    → IsValid s
    → at < s.node_count
    → s.node_count < max_nodes
    → Created at name kind s (created at name kind s)
unfolding add_child
created-Created at name kind s v h room = record {
  valid = record {
    nodes_in = omega arith;
    children_in = λ b i x y. ground (arith, v.children_in b i);
  };
  kind_of = ground arith;
  size_of = ground arith;
  new = record {
    index = (s.nodes at).child_count;
    inside = ground arith;
    here = ground arith;
    named = ground arith;
  };
  old = λ b c n l e.
      let inside = v.children_in b e.index l e.inside in
      let i = e.inside in
      let hr = e.here in
      let nm = e.named in
      record { index = e.index; inside = ground arith; here = ground arith; named = ground arith };
  only = λ b c n l e.
      let i = e.inside in
      let hr = e.here in
      let nm = e.named in
      elim (dec_lt e.index (s.nodes b).child_count) [
        | yes old ↦
            let inside = v.children_in b e.index l old in
            inl
              (record { index = e.index; inside = old; here = ground arith; named = ground arith })
        | no new ↦ inr (ground arith, ground arith, ground arith)
      ];
}

-- `ramfs_create` in a directory of a valid file system: with 128 entries there, or all 2048 nodes
-- given out, it returns -ENOSPC and changes nothing. Else, for a name of fewer than 255 bytes, it
-- returns 0, and the directory has the name as one more entry, an empty node of the type asked for;
-- no other entry comes or goes, in any directory. From 255 bytes on the name runs over its buffer.
pub ramfs_create_lem :
    (at : ℕ) (name : List ℕ) (kind : FileType) (s : Ramfs)
    → IsValid s
    → at < s.node_count
    → (((max_children ≤ (s.nodes at).child_count) ⊎ (max_nodes ≤ s.node_count))
        × (ramfs_create at name kind s ≡ some (err enospc, s)))
      ⊎ ((255 ≤ length name) × (ramfs_create at name kind s ≡ none))
      ⊎ ((t : Ramfs) × (ramfs_create at name kind s ≡ some (ret 0, t)) × Created at name kind s t)
unfolding ramfs_create alloc_node create_in
ramfs_create_lem at name kind s v h =
    elim (Bool-cases (leb max_children (s.nodes at).child_count)) [
      | inl many ↦ inl (inl (ground arith), rw many refl)
      | inr few ↦ elim (Bool-cases (leb max_nodes s.node_count)) [
        | inl used ↦ inl (inr (ground arith), rw (few, used) refl)
        | inr room ↦ elim (Bool-cases (ltb (length name) 255)) [
          | inr long ↦ inr (inl (ground arith, rw (few, room, long) refl))
          | inl fits ↦ inr (
              inr (
                created at name kind s,
                rw (few, room, fits) refl,
                created-Created at name kind s v h (ground arith),
              ))
        ]
      ]
    ]
