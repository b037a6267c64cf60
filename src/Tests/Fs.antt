-- ===== src/Tests/Fs.antt =====
-- kernel/fs on a small file system in memory: a root with one file, mounted on "/".
use sinux.Prelude.{
  ℕ, zero, suc, ◌≡◌, refl, ◌<◌, ◌⊎◌, true, false, none, some, [], ◌∷◌, arith, ret, err, update,
}
use sinux.Fs.Types.{dir, reg, enospc, enoent}
use sinux.Fs.Ramfs.{
  Node, Ramfs, overlaid, new_node, ramfs_read, ramfs_write, grown, write_at, write_grown,
  ramfs_lookup, ramfs_create, create_in, add_child, alloc_node, find_child, ramfs_unlink,
}
use sinux.Fs.Ramfs.Bytes.{Wrote, ramfs_write_lem}
use sinux.Fs.Ramfs.Bytes as Bytes
use sinux.Fs.Ramfs.Read.{ramfs_read-write}
use sinux.Fs.Ramfs.Names.{Entry, Unique}
use sinux.Fs.Ramfs.Directory.{IsValid}
use sinux.Fs.Ramfs.Unlink.{Unlinked, ramfs_unlink_lem}
use sinux.Fs.Ramfs.Instance.{ramfs_ops, ramfs_laws, Named}
use sinux.Fs.Vfs.{
  Mount, Vfs, slash, max_mounts, find_mount, find_from, lookup_in, walk_mount, walk, component,
  split_path, last_slash, create_split, create_under, vfs_lookup, vfs_create,
}
use sinux.Fs.Vfs.Path.{names}
use sinux.Fs.Vfs.Walk.{resolve}
use sinux.Fs.Vfs.Create.{OnRoot, vfs_lookup-resolve, vfs_create-vfs_lookup}

-- A file of two bytes in a block of three.
abbrev file : Node
file = record (new_node (b'f' ∷ []) reg) {
  bytes = some (λ i. i);
  size = 2;
  capacity = 3;
  inode_size = 2;
}

abbrev nines : ℕ → ℕ
nines i = 9

file-IsValid : Bytes.IsValid file
file-IsValid = record { fits = omega arith; backed = λ e. cc }

ramfs_write_lem_example :
    ((ramfs_write (some nines) 1 (7 ∷ 8 ∷ 9 ∷ []) file ≡ some (err enospc, (1, file)))
      × (3 < 4)
      × (some nines ≡ none))
    ⊎ ((g : Node) × (ramfs_write (some nines) 1 (7 ∷ 8 ∷ 9 ∷ []) file ≡ some (ret 3, (4, g)))
        × Wrote 1 (7 ∷ 8 ∷ 9 ∷ []) file g)
ramfs_write_lem_example =
    ramfs_write_lem (some nines) 1 (7 ∷ 8 ∷ 9 ∷ []) file file-IsValid (omega arith)

-- The file with byte 1 written.
abbrev written_file : Node
written_file = record file { bytes = some (overlaid (λ i. i) 1 (7 ∷ [])) }

write_file : ramfs_write none 1 (7 ∷ []) file ≡ some (ret 1, (2, written_file))
unfolding ramfs_write grown write_grown write_at
write_file = refl

ramfs_read-write_example : ramfs_read written_file 1 1 ≡ (7 ∷ [], 2)
ramfs_read-write_example =
    ramfs_read-write none 1 (7 ∷ []) file written_file 2 file-IsValid (omega arith) write_file

abbrev root : Node
root = record (new_node (b'/' ∷ []) dir) { children = λ _. 1; child_count = 1 }

abbrev disk : Ramfs
disk = record { nodes = update (λ _. file) 0 root; node_count = 2 }

disk-Unique : (at : ℕ) → at < 2 → Unique disk at
disk-Unique zero h = λ i j a b e. omega arith
disk-Unique (suc zero) h = λ i j a b e. absurd (omega arith)
disk-Unique (suc (suc at)) h = absurd (omega arith)

disk-IsValid : IsValid disk
disk-IsValid = record { nodes_in = omega arith; children_in = λ at i h k. child at i h k }
  where
    child : (at i : ℕ) → at < 2 → i < (disk.nodes at).child_count → (disk.nodes at).children i < 2
    child zero i h k = omega arith
    child (suc zero) i h k = absurd (omega arith)
    child (suc (suc at)) i h k = absurd (omega arith)

ramfs_unlink_lem_example :
    ((ramfs_unlink 0 (b'f' ∷ []) disk ≡ (err enoent, disk))
      × ((c : ℕ) → ¬ (Entry disk 0 (b'f' ∷ []) c)))
    ⊎ ((t : Ramfs) × (ramfs_unlink 0 (b'f' ∷ []) disk ≡ (ret 0, t)) × Unlinked 0 (b'f' ∷ []) disk t)
ramfs_unlink_lem_example =
    ramfs_unlink_lem 0 (b'f' ∷ []) disk disk-IsValid (disk-Unique 0 (omega arith))

abbrev unmounted : Mount
unmounted = record { path = []; root = none; active = false; can_lookup = false }

abbrev on_root : Mount
on_root = record { path = slash ∷ []; root = some 0; active = true; can_lookup = true }

abbrev mounts : ℕ → Mount
mounts = update (λ _. unmounted) 0 on_root

mounts-OnRoot : OnRoot mounts 0
mounts-OnRoot = record { index = 0; inside = omega arith; here = refl; only = only }
  where
    only : (j : ℕ) → j < max_mounts → (mounts j).active ≡ true → j ≡ 0
    only zero h e = refl
    only (suc j) h e = ground arith

abbrev vfs : Vfs ramfs_ops
vfs = record { mounts = mounts; mount_count = 1; fs_state = disk }

vfs_lookup-resolve_example :
    vfs_lookup ramfs_ops (slash ∷ b'g' ∷ []) vfs ≡ resolve ramfs_ops (names (b'g' ∷ [])) 0 disk
vfs_lookup-resolve_example =
    vfs_lookup-resolve ramfs_ops vfs 0 (b'g' ∷ []) mounts-OnRoot (omega arith)

disk-Named : Named disk
disk-Named = record { valid = disk-IsValid; unique = disk-Unique }

abbrev larger : Ramfs
larger = record {
  nodes =
      update (update disk.nodes 2 (new_node (b'g' ∷ []) reg)) 0
        (record root { children = update root.children 1 2; child_count = 2 });
  node_count = 3;
}

lookup_missing : vfs_lookup ramfs_ops (slash ∷ b'g' ∷ []) vfs ≡ none
unfolding vfs_lookup find_mount find_from lookup_in walk_mount walk component ramfs_lookup
    find_child
lookup_missing = refl

create_file :
    vfs_create ramfs_ops (slash ∷ b'g' ∷ []) reg vfs
    ≡ some (ret 0, record vfs { fs_state = larger })
unfolding vfs_create split_path last_slash create_split create_under vfs_lookup find_mount find_from
    lookup_in walk_mount ramfs_create create_in alloc_node add_child
create_file = refl

vfs_create-vfs_lookup_example :
    (c : ℕ) × (vfs_lookup ramfs_ops (slash ∷ b'g' ∷ []) (record vfs { fs_state = larger }) ≡ some c)
    × ((larger.nodes c).kind ≡ reg)
vfs_create-vfs_lookup_example =
    vfs_create-vfs_lookup ramfs_ops ramfs_laws vfs (record vfs { fs_state = larger }) 0 (b'g' ∷ [])
      reg mounts-OnRoot disk-Named (omega arith) (omega arith) lookup_missing create_file
