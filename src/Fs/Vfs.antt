-- ===== src/Fs/Vfs.antt =====
-- kernel/fs/vfs.c: mounts, paths, and files, over the interface of a file system. A path is the list
-- of its bytes before the NUL. `none` for a result is a fault, a write outside a buffer.
pub mod Path
pub mod Walk
pub mod Mounts
pub mod Create
pub mod Open
use mathlib.Core.Option
use sinux.Prelude.{
  ℕ, zero, suc, ◌+◌, ◌-◌, Bool, true, false, not, ◌&&◌, ◌||◌, Option, none, some, List, [], ◌∷◌,
  ◌++◌, if◌then◌else◌, ltb, leb, ◌==◌, length, take, drop, update, Ret, ret, err,
}
use sinux.Fs.Types.{
  FileType, dir, reg, enoent, ebadf, eacces, enospc, einval, has_creat, has_trunc, has_append,
  copied,
}
use sinux.Fs.FileSystem.{FileSystem}

abbrev pub max_mounts : ℕ
max_mounts = 32

abbrev pub slash : ℕ
slash = b'/'

-- `mount_t`; of `ops` only whether it has a `lookup`.
pub record Mount : Type 0 where
  pub path : List ℕ
  pub root : Option ℕ
  pub active : Bool
  pub can_lookup : Bool

-- `kstrncmp(path, prefix, kstrlen(prefix)) == 0` (Klib.Str.Compare.kstrncmp_iff)
abbrev pub starts_with : List ℕ → List ℕ → Bool
starts_with [] path = true
starts_with (c ∷ l) [] = false
starts_with (c ∷ l) (d ∷ path) = c == d && starts_with l path

-- The loop of `find_mount`: the rounds left, i, and the best mount with its length so far.
unfoldable pub find_from : ℕ → ℕ → List ℕ → (ℕ → Mount) → Option ℕ → ℕ → Option ℕ
find_from zero i path m best best_len = best
find_from (suc n) i path m best best_len =
    let len = length (m i).path in
    let better = find_from n (i + 1) path m (some i) len in
    let same = find_from n (i + 1) path m best best_len in
    if (m i).active && starts_with (m i).path path && ltb best_len len then better else same

unfoldable pub find_mount : List ℕ → (ℕ → Mount) → Option ℕ
unfolding find_from
find_mount path m = find_from max_mounts 0 path m none 0

-- `while (*p && *p != '/' && i < 255) component[i++] = *p++;` with the room left: the component, and
-- the rest of the path.
unfoldable pub component : ℕ → List ℕ → List ℕ × List ℕ
component zero p = ([], p)
component (suc n) [] = ([], [])
component (suc n) (c ∷ p) =
    let (l, r) = component n p in if c == slash then ([], c ∷ p) else (c ∷ l, r)

-- `if (*p == '/') p++;`
abbrev pub skip_slash : List ℕ → List ℕ
skip_slash [] = []
skip_slash (c ∷ p) = if c == slash then p else c ∷ p

-- `split_path`'s `for`: the index of the last slash from i on, or else of the one before.
unfoldable pub last_slash : ℕ → ℕ → List ℕ → ℕ
last_slash i last [] = last
last_slash i last (c ∷ p) = last_slash (i + 1) (if c == slash then i else last) p

-- The directory and the name.
unfoldable pub split_path : List ℕ → Option (List ℕ × List ℕ)
unfolding last_slash
split_path path =
    let last = last_slash 0 0 path in
    Option.map (λ p. if last == 0 then (slash ∷ [], drop 1 p) else (take last p, drop (last + 1) p))
      (copied path)

module _ (fs : FileSystem) where
  open fs use {State, has_lookup, lookup, has_create, create, has_unlink, unlink, type_of}

  pub record Vfs : Type 0 where
    pub mounts : ℕ → Mount
    pub mount_count : ℕ
    pub fs_state : State

  -- `kstrncpy(m->path, path, 256)` runs over the buffer from 256 bytes on.
  unfoldable pub vfs_mount_root : List ℕ → Bool → Option ℕ → Vfs → Option (Ret × Vfs)
  vfs_mount_root path can_lookup root v =
      if leb max_mounts v.mount_count
      then some (err enospc, v)
      else if ltb (length path) 256
      then some (
        ret 0,
        record v {
          mounts =
              update v.mounts v.mount_count
                (record { path = path; root = root; active = true; can_lookup = can_lookup });
          mount_count = v.mount_count + 1;
        },
      )
      else none

  abbrev pub vfs_mount : List ℕ → Bool → Vfs → Option (Ret × Vfs)
  vfs_mount path can_lookup v = vfs_mount_root path can_lookup none v

  -- The mounts are cleared, not their number.
  abbrev pub vfs_init : Vfs → Vfs
  vfs_init v = record v {
    mounts = λ i. record { path = []; root = none; active = false; can_lookup = false };
  }

  -- Going on with what a lookup gave.
  abbrev pub from_found : Option ℕ → (ℕ → Option ℕ) → Option ℕ
  from_found none next = none
  from_found (some i) next = next i

  -- The loop of `vfs_lookup` from inode cur. Every round passes a byte of the path, so that its length
  -- is fuel enough.
  unfoldable pub walk : ℕ → List ℕ → ℕ → State → Option ℕ
  walk zero p cur s = some cur
  walk (suc f) [] cur s = some cur
  walk (suc f) (c ∷ p) cur s =
      let (name, rest) = component 255 (c ∷ p) in
      let over = walk f (skip_slash rest) cur s in
      let into = from_found (lookup cur name s) (λ next. walk f (skip_slash rest) next s) in
      if length name == 0 then over else if has_lookup cur s then into else none

  -- From the root of a mount.
  unfoldable pub walk_mount : Mount → Option ℕ → List ℕ → State → Option ℕ
  walk_mount m none path s = none
  walk_mount m (some root) path s =
      let rel = skip_slash (drop (length m.path) path) in
      if length rel == 0
      then some root
      else if m.can_lookup
      then walk (length rel) rel root s
      else none

  unfoldable pub lookup_in : Option ℕ → (ℕ → Mount) → List ℕ → State → Option ℕ
  lookup_in none m path s = none
  lookup_in (some i) m path s = walk_mount (m i) (m i).root path s

  -- `none` is NULL.
  unfoldable pub vfs_lookup : List ℕ → Vfs → Option ℕ
  unfolding lookup_in walk_mount
  vfs_lookup path v = lookup_in (find_mount path v.mounts) v.mounts path v.fs_state

  abbrev pub is_dir : FileType → Bool
  is_dir dir = true
  is_dir _ = false

  abbrev pub with_state : Vfs → Option (Ret × State) → Option (Ret × Vfs)
  with_state v o = Option.map (λ r. (r.0, record v { fs_state = r.1 })) o

  -- From the parent on, in `vfs_create`.
  unfoldable pub create_under : Option ℕ → List ℕ → FileType → Vfs → Option (Ret × Vfs)
  create_under none name kind v = some (err enoent, v)
  create_under (some d) name kind v =
      if is_dir (type_of d v.fs_state)
      then if has_create d v.fs_state
        then with_state v (create d name kind v.fs_state)
        else some (err eacces, v)
      else some (err enoent, v)

  unfoldable pub create_split : Option (List ℕ × List ℕ) → FileType → Vfs → Option (Ret × Vfs)
  create_split none kind v = none
  create_split (some (d, name)) kind v =
      if length name == 0 then some (err einval, v) else create_under (vfs_lookup d v) name kind v

  unfoldable pub vfs_create : List ℕ → FileType → Vfs → Option (Ret × Vfs)
  unfolding create_split create_under
  vfs_create path kind v = create_split (split_path path) kind v

  unfoldable pub unlink_under : Option ℕ → List ℕ → Vfs → Option (Ret × Vfs)
  unlink_under none name v = some (err enoent, v)
  unlink_under (some d) name v =
      if has_unlink d v.fs_state
      then with_state v (unlink d name v.fs_state)
      else some (err eacces, v)

  unfoldable pub unlink_split : Option (List ℕ × List ℕ) → Vfs → Option (Ret × Vfs)
  unlink_split none v = none
  unlink_split (some (d, name)) v =
      if length name == 0 then some (err einval, v) else unlink_under (vfs_lookup d v) name v

  unfoldable pub vfs_unlink : List ℕ → Vfs → Option (Ret × Vfs)
  unfolding unlink_split unlink_under
  vfs_unlink path v = unlink_split (split_path path) v
