-- ===== src/Fs/Ramfs.antt =====
-- kernel/fs/ramfs.c: the file system in memory. A node is named by its slot in `nodes`, which stands
-- for its address and for that of the inode in it. `none` for a result is a fault. `kmalloc`'s answer
-- is an argument: what its memory holds, or `none` for NULL.
pub mod Names
pub mod Bytes
pub mod Read
pub mod Directory
pub mod Unlink
pub mod Instance
pub mod Mount
use mathlib.Core.Option
use sinux.Prelude.{
  ℕ, zero, suc, ◌+◌, ◌-◌, ◌%◌, ◌^◌, Bool, true, false, not, ◌&&◌, Option, none, some, List, [], ◌∷◌,
  ◌++◌, if◌then◌else◌, ltb, leb, ◌==◌, length, get_or, min, update, Ret, ret, err,
}
use sinux.Fs.Types.{FileType, reg, dir, unknown, enospc, enoent, einval, File, copied}

abbrev pub max_nodes : ℕ
max_nodes = 2048

abbrev pub max_children : ℕ
max_children = 128

-- `ramfs_node_t`, and of its inode the size; the inode's other fields repeat the node's.
pub record Node : Type 0 where
  pub name : List ℕ  -- the bytes before the NUL
  pub kind : FileType
  pub bytes : Option (ℕ → ℕ)  -- `none` for NULL
  pub size : ℕ
  pub capacity : ℕ
  pub inode_size : ℕ
  pub children : ℕ → ℕ
  pub child_count : ℕ

-- `nodes` and `node_count`
pub record Ramfs : Type 0 where
  pub nodes : ℕ → Node
  pub node_count : ℕ

abbrev pub put_node : Ramfs → ℕ → Node → Ramfs
put_node s i n = record s { nodes = update s.nodes i n }

abbrev pub new_node : List ℕ → FileType → Node
new_node name kind = record {
  name = name;
  kind = kind;
  bytes = none;
  size = 0;
  capacity = 0;
  inode_size = 0;
  children = λ _. 0;
  child_count = 0;
}

-- A fault, no node left, or the node's slot.
pub data Alloc : Type 0 where
  fault full : Alloc
  slot : ℕ → Ramfs → Alloc

unfoldable pub alloc_node : List ℕ → FileType → Ramfs → Alloc
alloc_node name kind s = if leb max_nodes s.node_count then full else elim (copied name) [
  | none ↦ fault
  | some n ↦ slot s.node_count (record {
    nodes = update s.nodes s.node_count (new_node n kind);
    node_count = s.node_count + 1;
  })
]

-- n bytes of memory from a on
abbrev pub bytes_at : (ℕ → ℕ) → ℕ → ℕ → List ℕ
bytes_at m a zero = []
bytes_at m a (suc n) = m a ∷ bytes_at m (a + 1) n

-- What it reads, and the new position.
unfoldable pub read_some : Option (ℕ → ℕ) → Node → ℕ → ℕ → List ℕ × ℕ
read_some none d pos n = ([], pos)
read_some (some m) d pos n =
    if leb d.size pos
    then ([], pos)
    else (bytes_at m pos (min n (d.size - pos)), pos + min n (d.size - pos))

unfoldable pub ramfs_read : Node → ℕ → ℕ → List ℕ × ℕ
unfolding read_some
ramfs_read d pos n = read_some d.bytes d pos n

-- `kmemcpy(new_data, node->data, node->size)`, into memory that held `fresh`
abbrev pub moved : Option (ℕ → ℕ) → ℕ → (ℕ → ℕ) → ℕ → ℕ
moved none size fresh i = fresh i
moved (some m) size fresh i = if ltb i size then m i else fresh i

-- `kmemcpy(node->data + pos, src, n)`
abbrev pub overlaid : (ℕ → ℕ) → ℕ → List ℕ → ℕ → ℕ
overlaid m pos src i = if leb pos i && ltb i (pos + length src) then get_or src (i - pos) 0 else m i

-- The `if` at the head of `ramfs_write`: the node with room, or `none` for -ENOSPC.
unfoldable pub grown : Option (ℕ → ℕ) → ℕ → Node → Option Node
grown fresh need d =
    if ltb d.capacity need
    then Option.map
        (λ m. record d { bytes = some (moved d.bytes d.size m); capacity = (need + 4096) % 2 ^ 64 })
        fresh
    else some d

-- The rest of it, on memory m; a fault where the bytes do not fit.
unfoldable pub write_at : (ℕ → ℕ) → ℕ → List ℕ → Node → Option (Ret × (ℕ × Node))
write_at m pos src d =
    let end = pos + length src in
    let d' = record d { bytes = some (overlaid m pos src) } in
    if ltb d.capacity end
    then none
    else some (
      ret (length src),
      (end, if ltb d.size end then record d' { size = end; inode_size = end } else d'),
    )

unfoldable pub write_grown : ℕ → List ℕ → Node → Option Node → Option (Ret × (ℕ × Node))
write_grown pos src d none = some (err enospc, (pos, d))
write_grown pos src d (some g) = elim g.bytes [
  | none ↦ if length src == 0 then some (ret 0, (pos, g)) else none
  | some m ↦ write_at m pos src g
]

-- The result with the new position and the node; `none` is a fault.
unfoldable pub ramfs_write : Option (ℕ → ℕ) → ℕ → List ℕ → Node → Option (Ret × (ℕ × Node))
unfolding grown write_grown write_at
ramfs_write fresh pos src d = write_grown pos src d (grown fresh ((pos + length src) % 2 ^ 64) d)

-- `kstrcmp(a, b) == 0`, of two strings (Klib.Str.Compare.kstrcmp_iff)
abbrev pub same_name : List ℕ → List ℕ → Bool
same_name [] [] = true
same_name (a ∷ xs) (b ∷ ys) = a == b && same_name xs ys
same_name _ _ = false

-- The loop of `ramfs_lookup` and `ramfs_unlink`: the index of the first child with the name.
unfoldable pub find_child : ℕ → ℕ → List ℕ → Node → Ramfs → Option ℕ
find_child zero i name d s = none
find_child (suc n) i name d s =
    let rest = find_child n (i + 1) name d s in
    if same_name (s.nodes (d.children i)).name name then some i else rest

unfoldable pub ramfs_lookup : ℕ → List ℕ → Ramfs → Option ℕ
ramfs_lookup at name s =
    Option.map (λ i. (s.nodes at).children i)
      (find_child (s.nodes at).child_count 0 name (s.nodes at) s)

-- `d->children[d->child_count++] = n`
unfoldable pub add_child : ℕ → ℕ → Ramfs → Ramfs
add_child at n s =
    let d = s.nodes at in
    put_node s at
      (record d { children = update d.children d.child_count n; child_count = d.child_count + 1 })

unfoldable pub create_in : ℕ → Alloc → Ramfs → Option (Ret × Ramfs)
create_in at fault s = none
create_in at full s = some (err enospc, s)
create_in at (slot n t) s = some (ret 0, add_child at n t)

unfoldable pub ramfs_create : ℕ → List ℕ → FileType → Ramfs → Option (Ret × Ramfs)
unfolding create_in add_child
ramfs_create at name kind s =
    if leb max_children (s.nodes at).child_count
    then some (err enospc, s)
    else create_in at (alloc_node name kind s) s

-- `d->children[i] = d->children[--d->child_count]`
unfoldable pub drop_child : ℕ → ℕ → Ramfs → Ramfs
drop_child at i s =
    let d = s.nodes at in
    put_node s at (record d {
      children = update d.children i (d.children (d.child_count - 1));
      child_count = d.child_count - 1;
    })

unfoldable pub unlink_found : ℕ → Option ℕ → Ramfs → Ret × Ramfs
unlink_found at none s = (err enoent, s)
unlink_found at (some i) s = (ret 0, drop_child at i s)

unfoldable pub ramfs_unlink : ℕ → List ℕ → Ramfs → Ret × Ramfs
unfolding unlink_found drop_child
ramfs_unlink at name s =
    unlink_found at (find_child (s.nodes at).child_count 0 name (s.nodes at) s) s

-- The entry at the position, and the next position; `none` is the end. A child's name is one that
-- `alloc_node` copied, and is copied whole.
unfoldable pub ramfs_readdir : ℕ → ℕ → Ramfs → Option ((List ℕ × ℕ) × ℕ)
ramfs_readdir at pos s =
    let d = s.nodes at in
    if leb d.child_count pos
    then none
    else some (((s.nodes (d.children pos)).name, d.children pos), pos + 1)

-- The new position; `none` is -EINVAL. An offset is 64 bits.
unfoldable pub ramfs_seek : ℕ → ℕ → ℕ → ℕ → Option ℕ
ramfs_seek size pos off whence =
    if whence == 0
    then some off
    else if whence == 1
    then some ((pos + off) % 2 ^ 64)
    else if whence == 2
    then some ((size + off) % 2 ^ 64)
    else none
