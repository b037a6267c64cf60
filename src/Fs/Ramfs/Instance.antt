-- ===== src/Fs/Ramfs/Instance.antt =====
-- kernel/fs/ramfs.c as a file system of the file layer: `ramfs_ops`, which every inode of it has.
use sinux.Prelude.{ℕ, ◌<◌, ◌≡◌, refl, ap, ◌∙◌, inl, inr, true, none, some, List, ret, err}
use sinux.Fs.Types.{FileType, enospc}
use sinux.Fs.FileSystem.{FileSystem, CreateLaws}
use sinux.Fs.Ramfs.{Ramfs, put_node, ramfs_lookup, ramfs_create, ramfs_unlink}
use sinux.Fs.Ramfs.Names.{Unique, ramfs_lookup_iff, ramfs_lookup-cases}
use sinux.Fs.Ramfs.Directory.{IsValid, Created, ramfs_create_lem}

abbrev pub ramfs_ops : FileSystem
ramfs_ops = record {
  State = Ramfs;
  type_of = λ i s. (s.nodes i).kind;
  size_of = λ i s. (s.nodes i).inode_size;
  set_size = λ i n s. put_node s i (record (s.nodes i) { inode_size = n });
  on_open = λ i s. s;
  has_lookup = λ i s. true;
  lookup = ramfs_lookup;
  has_create = λ i s. true;
  create = ramfs_create;
  has_unlink = λ i s. true;
  unlink = λ i name s. some (ramfs_unlink i name s);
}

-- A valid file system whose directories have no name twice.
pub record Named (s : Ramfs) : Type 0 where
  pub valid : IsValid s
  pub unique : (b : ℕ) → b < s.node_count → Unique s b

pub create-Created :
    (d : ℕ) (name : List ℕ) (kind : FileType) (s t : Ramfs)
    → IsValid s
    → d < s.node_count
    → ramfs_create d name kind s ≡ some (ret 0, t)
    → Created d name kind s t
create-Created d name kind s t v h e = elim (ramfs_create_lem d name kind s v h) [
  | inl (why, f) ↦ let g : err enospc ≡ ret 0 = cc in cc
  | inr (inl (long, f)) ↦ cc
  | inr (inr (u, f, c)) ↦ let q : u ≡ t = cc in rw (← q) c
]

pub lookup-new :
    (d : ℕ) (name : List ℕ) (kind : FileType) (s t : Ramfs)
    → Created d name kind s t
    → d < s.node_count
    → ramfs_lookup d name s ≡ none
    → ramfs_lookup d name t ≡ some s.node_count
lookup-new d name kind s t c h free = elim (ramfs_lookup-cases t d name) [
  | inl (e, all) ↦ absurd (all s.node_count c.new)
  | inr (x, e, entry) ↦ elim (c.only d x name h entry) [
    | inr (same_dir, same, q) ↦ e ∙ ap some q
    | inl old ↦ elim (ramfs_lookup-cases s d name) [
      | inl (f, all) ↦ absurd (all x old)
      | inr (y, f, z) ↦ cc
    ]
  ]
]

pub lookup-old :
    (d : ℕ) (name : List ℕ) (kind : FileType) (s t : Ramfs) (b c : ℕ) (n : List ℕ)
    → Named s
    → Created d name kind s t
    → ramfs_lookup d name s ≡ none
    → b < s.node_count
    → ramfs_lookup b n s ≡ some c
    → ramfs_lookup b n t ≡ some c
lookup-old d name kind s t b c n v made free h e =
    let was = (ramfs_lookup_iff s b c n (v.unique b h)).0 e in
    elim (ramfs_lookup-cases t b n) [
      | inl (f, all) ↦ absurd (all c (made.old b c n h was))
      | inr (x, f, entry) ↦ elim (made.only b x n h entry) [
        | inl old ↦
            let again = (ramfs_lookup_iff s b x n (v.unique b h)).1 old in
            let q : x ≡ c = cc in f ∙ ap some q
        | inr (same_dir, same, q) ↦
            let missing : ramfs_lookup b n s ≡ none = rw (same_dir, same) free in cc
      ]
    ]

-- The file system in memory keeps the laws that the file layer relies on.
abbrev pub ramfs_laws : CreateLaws ramfs_ops
ramfs_laws = record {
  Valid = Named;
  Inode = λ s i. i < s.node_count;
  create-lookup = λ d name kind s t v i free e.
      let c = create-Created d name kind s t v.valid i e in
      (s.node_count, lookup-new d name kind s t c i free, c.kind_of);
  create-keeps = λ d name kind s t b c n v i free e h f.
      lookup-old d name kind s t b c n v (create-Created d name kind s t v.valid i e) free h f;
  create-has_lookup = λ d name kind s t b e h. refl;
  has_create-has_lookup = λ d s h. refl;
  lookup-Inode = λ b c n s v h e.
      let entry = (ramfs_lookup_iff s b c n (v.unique b h)).0 e in
      let inside = v.valid.children_in b entry.index h entry.inside in rw (← entry.here) inside;
}
