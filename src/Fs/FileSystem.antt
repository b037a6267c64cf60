-- ===== src/Fs/FileSystem.antt =====
-- `fs_ops_t` of kernel/fs/vfs.h: what the file layer asks of a file system, over a state of it. An inode is
-- a number; where the code tests a function pointer for NULL, `has_…` says whether it is there. A
-- lookup leaves the state as it is. `none` from `create` or `unlink` is a fault.
use sinux.Prelude.{ℕ, ◌≡◌, Bool, true, Option, none, some, List, Ret, ret}
use sinux.Fs.Types.{FileType}

pub record FileSystem : Type 1 where
  pub State : Type 0
  pub type_of : ℕ → State → FileType
  pub size_of : ℕ → State → ℕ
  pub set_size : ℕ → ℕ → State → State
  pub on_open : ℕ → State → State  -- `ops->open`, if it is there
  pub has_lookup : ℕ → State → Bool
  pub lookup : ℕ → List ℕ → State → Option ℕ
  pub has_create : ℕ → State → Bool
  pub create : ℕ → List ℕ → FileType → State → Option (Ret × State)
  pub has_unlink : ℕ → State → Bool
  pub unlink : ℕ → List ℕ → State → Option (Ret × State)

-- What a client relies on: an entry that is created is found, and no other is lost.
pub record CreateLaws (fs : FileSystem) : Type 1 where
  pub Valid : fs.State → Type 0
  pub Inode : fs.State → ℕ → Type 0
  pub create-lookup :
      (d : ℕ) (name : List ℕ) (kind : FileType) (s t : fs.State)
      → Valid s
      → Inode s d
      → fs.lookup d name s ≡ none
      → fs.create d name kind s ≡ some (ret 0, t)
      → (c : ℕ) × (fs.lookup d name t ≡ some c) × (fs.type_of c t ≡ kind)
  pub create-keeps :
      (d : ℕ) (name : List ℕ) (kind : FileType) (s t : fs.State) (b c : ℕ) (n : List ℕ)
      → Valid s
      → Inode s d
      → fs.lookup d name s ≡ none
      → fs.create d name kind s ≡ some (ret 0, t)
      → Inode s b
      → fs.lookup b n s ≡ some c
      → fs.lookup b n t ≡ some c
  pub create-has_lookup :
      (d : ℕ) (name : List ℕ) (kind : FileType) (s t : fs.State) (b : ℕ)
      → fs.create d name kind s ≡ some (ret 0, t)
      → fs.has_lookup b s ≡ true
      → fs.has_lookup b t ≡ true
  pub has_create-has_lookup :
      (d : ℕ) (s : fs.State) → fs.has_create d s ≡ true → fs.has_lookup d s ≡ true
  pub lookup-Inode :
      (b c : ℕ) (n : List ℕ) (s : fs.State)
      → Valid s
      → Inode s b
      → fs.lookup b n s ≡ some c
      → Inode s c
