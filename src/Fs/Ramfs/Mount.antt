-- ===== src/Fs/Ramfs/Mount.antt =====
-- `ramfs_mount` of kernel/fs/ramfs.c: a file system's first directories and file. The directories'
-- names and `kmalloc`'s answer for the file are arguments; `none` is a fault.
use mathlib.Core.Option
use sinux.Prelude.{ℕ, Option, none, some, List, [], ◌∷◌, true, Ret, ret, err}
use sinux.Fs.Types.{dir, reg, enomem}
use sinux.Fs.Ramfs.{
  Ramfs, fault, full, slot, put_node, alloc_node, add_child, ramfs_lookup, ramfs_create,
  ramfs_write,
}
use sinux.Fs.Ramfs.Instance.{ramfs_ops}
use sinux.Fs.Vfs.{Vfs, vfs_mount_root}

-- The names, "bin" to "var", "etc", "hostname", and "sinux\n".
abbrev pub dirs : List (List ℕ)
dirs =
    (b'b' ∷ b'i' ∷ b'n' ∷ [])
    ∷ (b'd' ∷ b'e' ∷ b'v' ∷ [])
    ∷ (b'e' ∷ b't' ∷ b'c' ∷ [])
    ∷ (b't' ∷ b'm' ∷ b'p' ∷ [])
    ∷ (b'h' ∷ b'o' ∷ b'm' ∷ b'e' ∷ [])
    ∷ (b'p' ∷ b'r' ∷ b'o' ∷ b'c' ∷ [])
    ∷ (b'v' ∷ b'a' ∷ b'r' ∷ [])
    ∷ []

abbrev pub etc : List ℕ
etc = b'e' ∷ b't' ∷ b'c' ∷ []

abbrev pub hostname : List ℕ
hostname = b'h' ∷ b'o' ∷ b's' ∷ b't' ∷ b'n' ∷ b'a' ∷ b'm' ∷ b'e' ∷ []

abbrev pub host : List ℕ
host = b's' ∷ b'i' ∷ b'n' ∷ b'u' ∷ b'x' ∷ 10 ∷ []

-- The loop over `dirs`.
unfoldable pub mount_dirs : List (List ℕ) → ℕ → Ramfs → Option Ramfs
mount_dirs [] root s = some s
mount_dirs (n ∷ l) root s = elim (alloc_node n dir s) [
  | fault ↦ none
  | full ↦ mount_dirs l root s
  | slot d t ↦ mount_dirs l root (add_child root d t)
]

-- `if (hn)`: its bytes, and what a failed write left.
unfoldable pub write_host : Option (ℕ → ℕ) → Option ℕ → Ramfs → Option Ramfs
write_host fresh none s = some s
write_host fresh (some hn) s =
    Option.map (λ r. put_node s hn r.1.1) (ramfs_write fresh 0 host (s.nodes hn))

-- `if (etc)`
unfoldable pub mount_etc : Option (ℕ → ℕ) → Option ℕ → Ramfs → Option Ramfs
mount_etc fresh none s = some s
mount_etc fresh (some d) s = elim (ramfs_create d hostname reg s) [
  | none ↦ none
  | some r ↦ write_host fresh (ramfs_lookup d hostname r.1) r.1
]

unfoldable pub mount_from :
    Option (ℕ → ℕ) → ℕ → Option (Ret × Vfs ramfs_ops) → Option (Ret × Vfs ramfs_ops)
mount_from fresh root none = none
mount_from fresh root (some (r, v)) =
    Option.map (λ s. (ret 0, record v { fs_state = s }))
      (mount_etc fresh (ramfs_lookup root etc v.fs_state) v.fs_state)

-- What `vfs_mount_root` returns is not looked at.
unfoldable pub ramfs_mount : Option (ℕ → ℕ) → List ℕ → Vfs ramfs_ops → Option (Ret × Vfs ramfs_ops)
ramfs_mount fresh path v = elim (alloc_node (b'/' ∷ []) dir v.fs_state) [
  | fault ↦ none
  | full ↦ some (err enomem, v)
  | slot root s ↦ elim (mount_dirs dirs root s) [
    | none ↦ none
    | some t ↦
        mount_from fresh root
          (vfs_mount_root ramfs_ops path true (some root) (record v { fs_state = t }))
  ]
]
