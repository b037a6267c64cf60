-- ===== src/Fs/Types.antt =====
-- The types and numbers of kernel/fs/vfs.h.
use sinux.Prelude.{ℕ, ◌/◌, ◌%◌, Bool, Option, none, some, List, if◌then◌else◌, ltb, ◌==◌, length}

pub data FileType : Type 0 where
  unknown reg dir chr blk fifo lnk : FileType

abbrev pub enoent : ℕ
enoent = 2

abbrev pub ebadf : ℕ
ebadf = 9

abbrev pub enomem : ℕ
enomem = 12

abbrev pub eacces : ℕ
eacces = 13

abbrev pub enospc : ℕ
enospc = 28

abbrev pub einval : ℕ
einval = 22

-- `O_CREAT`, `O_TRUNC` and `O_APPEND`, bits 6, 9 and 10.
abbrev pub has_creat : ℕ → Bool
has_creat flags = flags / 64 % 2 == 1

abbrev pub has_trunc : ℕ → Bool
has_trunc flags = flags / 512 % 2 == 1

abbrev pub has_append : ℕ → Bool
has_append flags = flags / 1024 % 2 == 1

-- `file_t`, with the inode's number for its address.
pub record File : Type 0 where
  pub inode : ℕ
  pub pos : ℕ
  pub flags : ℕ
  pub refcount : ℕ

-- What `kstrncpy(dst, name, 255)` leaves before the NUL. From 255 bytes on it runs over the end of
-- the buffer (Klib.Str.Copy): `none`, a fault.
abbrev pub copied : List ℕ → Option (List ℕ)
copied name = if ltb (length name) 255 then some name else none
