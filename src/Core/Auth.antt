-- ===== src/Core/Auth.antt =====
-- kernel/core/auth.c: the accounts in memory. A user is named by its slot. What is asked of the file
-- layer, to write the accounts or to make a directory, is kept in order, the last first. `stack` is what
-- the stack held; `none` for a result is a fault.
pub mod Check
pub mod File
use mathlib.Core.Option
use sinux.Prelude.{
  ℕ, zero, suc, ◌+◌, Bool, true, false, ◌&&◌, Option, none, some, List, [], ◌∷◌, ◌++◌,
  if◌then◌else◌, ltb, leb, ◌==◌, length, update,
}
use sinux.Fs.Ramfs.{same_name}
use sinux.Klib.Sha256.Password.{sha256_make_hash, sha256_verify}

abbrev pub max_users : ℕ
max_users = 64

abbrev pub max_username : ℕ
max_username = 32

abbrev pub max_password : ℕ
max_password = 128

abbrev pub max_homedir : ℕ
max_homedir = 128

-- `user_entry_t`; a string is its bytes before the NUL.
pub record User : Type 0 where
  pub username : List ℕ
  pub password : List ℕ
  pub uid : ℕ
  pub gid : ℕ
  pub home : List ℕ
  pub shell : List ℕ
  pub active : Bool

pub data Request : Type 0 where
  auth_save : (ℕ → User) → ℕ → Request
  vfs_create_dir : List ℕ → Request

pub record Accounts : Type 0 where
  pub users : ℕ → User
  pub user_count : ℕ
  pub current : Option ℕ
  pub requests : List Request

abbrev pub root_name : List ℕ
root_name = b'r' ∷ b'o' ∷ b'o' ∷ b't' ∷ []

abbrev pub bin_sh : List ℕ
bin_sh = b'/' ∷ b'b' ∷ b'i' ∷ b'n' ∷ b'/' ∷ b's' ∷ b'h' ∷ []

-- The loop of `find_user`.
unfoldable pub find_user_from : ℕ → ℕ → List ℕ → (ℕ → User) → Option ℕ
find_user_from zero i name users = none
find_user_from (suc n) i name users =
    let rest = find_user_from n (i + 1) name users in
    if (users i).active && same_name (users i).username name then some i else rest

unfoldable pub find_user : List ℕ → Accounts → Option ℕ
find_user name a = find_user_from a.user_count 0 name a.users

abbrev pub is_true : Option Bool → Bool
is_true none = false
is_true (some b) = b

unfoldable pub check_user : (ℕ → ℕ) → Option ℕ → List ℕ → Accounts → Bool
check_user stack none pass a = false
check_user stack (some i) pass a =
    let password = (a.users i).password in
    if length password == 0 && length pass == 0
    then true
    else if length password == 64
    then is_true (sha256_verify stack pass (password ++ 0 ∷ []))
    else same_name password pass

unfoldable pub auth_check : (ℕ → ℕ) → List ℕ → List ℕ → Accounts → Bool
unfolding check_user
auth_check stack user pass a = check_user stack (find_user user a) pass a

unfoldable pub auth_switch : List ℕ → Accounts → Accounts
auth_switch user a = elim (find_user user a) [ none ↦ a | some i ↦ record a { current = some i } ]

unfoldable pub auth_login : (ℕ → ℕ) → List ℕ → List ℕ → Accounts → Bool × Accounts
auth_login stack user pass a =
    if auth_check stack user pass a then (true, auth_switch user a) else (false, a)

-- `kstrncpy` into an array of n bytes, which runs over it from n bytes on.
abbrev pub copied_to : ℕ → List ℕ → Option (List ℕ)
copied_to n l = if ltb (length l) n then some l else none

abbrev pub saved : Accounts → Accounts
saved a = record a { requests = auth_save a.users a.user_count ∷ a.requests }

abbrev pub put_user : Accounts → ℕ → User → Accounts
put_user a i u = record a { users = update a.users i u }

unfoldable pub set_password_of : Option ℕ → Option (List ℕ) → Accounts → Option Accounts
set_password_of none hash a = some a
set_password_of (some i) hash a =
    Option.map (λ h. saved (put_user a i (record (a.users i) { password = h }))) hash

unfoldable pub auth_set_password : (ℕ → ℕ) → List ℕ → List ℕ → Accounts → Option Accounts
unfolding set_password_of
auth_set_password stack user pass a =
    set_password_of (find_user user a) (copied_to max_password (sha256_make_hash stack pass)) a

abbrev pub new_user : List ℕ → List ℕ → ℕ → List ℕ → User
new_user name hash uid home = record {
  username = name;
  password = hash;
  uid = uid;
  gid = uid;
  home = home;
  shell = bin_sh;
  active = true;
}

-- The new slot, the directory, and the file.
unfoldable pub add_entry : User → Accounts → Accounts
add_entry u a =
    let b = record a { users = update a.users a.user_count u; user_count = a.user_count + 1 } in
    saved (record b { requests = vfs_create_dir u.home ∷ b.requests })

unfoldable pub add_new :
    (ℕ → ℕ) → List ℕ → List ℕ → ℕ → List ℕ → Accounts → Option (Bool × Accounts)
unfolding add_entry
add_new stack user pass uid home a =
    let hash = sha256_make_hash stack pass in
    if ltb (length user) max_username
      && ltb (length hash) max_password
      && ltb (length home) max_homedir
    then some (true, add_entry (new_user user hash uid home) a)
    else none

unfoldable pub add_unless :
    Option ℕ → (ℕ → ℕ) → List ℕ → List ℕ → ℕ → List ℕ → Accounts → Option (Bool × Accounts)
unfolding add_new
add_unless (some i) stack user pass uid home a = some (false, a)
add_unless none stack user pass uid home a =
    if leb max_users a.user_count then some (false, a) else add_new stack user pass uid home a

-- The result says whether it returned 0, and not -1.
unfoldable pub auth_add_user :
    (ℕ → ℕ) → List ℕ → List ℕ → ℕ → List ℕ → Accounts → Option (Bool × Accounts)
unfolding add_unless
auth_add_user stack user pass uid home a = add_unless (find_user user a) stack user pass uid home a

unfoldable pub del_found : Option ℕ → Accounts → Bool × Accounts
del_found none a = (false, a)
del_found (some i) a = (true, saved (put_user a i (record (a.users i) { active = false })))

unfoldable pub auth_del_user : List ℕ → Accounts → Bool × Accounts
unfolding del_found
auth_del_user user a =
    if same_name user root_name then (false, a) else del_found (find_user user a) a

unfoldable pub auth_current_uid : Accounts → ℕ
auth_current_uid a = elim a.current [ none ↦ 0 | some i ↦ (a.users i).uid ]

unfoldable pub auth_is_root : Accounts → Bool
auth_is_root a = elim a.current [ none ↦ true | some i ↦ (a.users i).uid == 0 ]
