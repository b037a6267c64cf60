-- ===== src/Fs/Vfs/Open.antt =====
-- Opening and closing files in kernel/fs/vfs.c. `kmalloc`'s answer is an argument. `none` for a whole
-- result is a fault.
use mathlib.Core.Option
use sinux.Prelude.{
  ℕ, ◌-◌, Bool, true, false, Option, none, some, List, if◌then◌else◌, leb, Ret, ret, err,
}
use sinux.Fs.Types.{reg, ebadf, has_creat, has_trunc, has_append, File}
use sinux.Fs.FileSystem.{FileSystem}
use sinux.Fs.Vfs.{Vfs, vfs_lookup, vfs_create}

-- `vfs_close`'s return value, and the file that is left: `none` once it is freed.
unfoldable pub vfs_close : Option File → Ret × Option File
vfs_close none = (err ebadf, none)
vfs_close (some f) =
    if leb f.refcount 1
    then (ret 0, none)
    else (ret 0, some (record f { refcount = f.refcount - 1 }))

-- `vfs_read`, `vfs_write` and `vfs_readdir` call the function that the file's inode has for it: `call f`
-- is what that gives, `none` where there is no function, and `without` is what is returned then.
abbrev pub dispatch : {A : Type 0} → A → (File → Option A) → Option File → A
dispatch without call none = without
dispatch without call (some f) = elim (call f) [ none ↦ without | some r ↦ r ]

abbrev pub vfs_read : {A : Type 0} → (File → Option (Ret × A)) → A → Option File → Ret × A
vfs_read call kept f = dispatch (err ebadf, kept) call f

abbrev pub vfs_write : {A : Type 0} → (File → Option (Ret × A)) → A → Option File → Ret × A
vfs_write call kept f = dispatch (err ebadf, kept) call f

abbrev pub vfs_readdir : {A : Type 0} → (File → Option (Ret × A)) → A → Option File → Ret × A
vfs_readdir call kept f = dispatch (ret 0, kept) call f

module _ (fs : FileSystem) where
  open fs use {State, on_open, set_size, size_of}

  -- From `kmalloc` on, in `vfs_open`.
  unfoldable pub opened : Bool → ℕ → ℕ → Vfs fs → Option File × Vfs fs
  opened false i flags v = (none, v)
  opened true i flags v =
      let s = on_open i v.fs_state in
      let t : State = if has_trunc flags then set_size i 0 s else s in
      (
        some (record {
          inode = i;
          pos = if has_append flags then size_of i t else 0;
          flags = flags;
          refcount = 1;
        }),
        record v { fs_state = t },
      )

  unfoldable pub opened_found : Bool → Option ℕ → ℕ → Vfs fs → Option File × Vfs fs
  opened_found mem none flags v = (none, v)
  opened_found mem (some i) flags v = opened mem i flags v

  unfoldable pub open_missing : Bool → List ℕ → ℕ → Vfs fs → Option (Option File × Vfs fs)
  open_missing mem path flags v =
      if has_creat flags
      then Option.map (λ r. opened_found mem (vfs_lookup fs path r.1) flags r.1)
          (vfs_create fs path reg v)
      else some (none, v)

  -- `none` for the file is NULL.
  unfoldable pub vfs_open : Bool → List ℕ → ℕ → Vfs fs → Option (Option File × Vfs fs)
  unfolding open_missing opened_found opened
  vfs_open mem path flags v = elim (vfs_lookup fs path v) [
    | none ↦ open_missing mem path flags v
    | some i ↦ some (opened mem i flags v)
  ]
