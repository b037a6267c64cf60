-- ===== src/Core/Auth/File.antt =====
-- kernel/core/auth.c: the file of accounts, /etc/passwd, as the text that `auth_save` writes and the
-- bytes that `auth_load` reads; what is read or written beyond an array is `none`. The file layer is a
-- parameter: the bytes that it gives, none where the file cannot be opened.
pub mod Line
pub mod RoundTrip
pub mod Init
use mathlib.Core.Option
use sinux.Prelude.{
  ℕ, zero, suc, ◌+◌, ◌-◌, ◌*◌, ◌/◌, ◌%◌, ◌^◌, Bool, true, not, ◌&&◌, Option, none, some, List, [],
  ◌∷◌, ◌++◌, if◌then◌else◌, ltb, leb, ◌==◌, length, take, drop, update,
}
use sinux.Core.Auth.{
  User, Accounts, max_users, max_username, max_password, max_homedir, root_name, bin_sh, find_user,
  put_user, saved, vfs_create_dir,
}

abbrev pub max_shell : ℕ
max_shell = 64

-- `while (v) { num[--t] = '0' + v % 10; v /= 10; }`, over the digits that are there; 10 rounds are
-- enough for 32 bits.
unfoldable pub uid_from : ℕ → ℕ → List ℕ → List ℕ
uid_from zero v l = l
uid_from (suc f) v l =
    let more = uid_from f (v / 10) ((b'0' + v % 10) ∷ l) in if v == 0 then l else more

unfoldable pub uid_text : ℕ → List ℕ
uid_text v = if v == 0 then b'0' ∷ [] else uid_from 10 v []

-- One line of the file.
abbrev pub print_user : User → List ℕ
print_user u =
    u.username
    ++ (b':'
        ∷ (u.password
            ++ (b':'
                ∷ (uid_text u.uid ++ (b':' ∷ (u.home ++ (b':' ∷ (u.shell ++ (b'\n' ∷ [])))))))))

abbrev pub add_line : List ℕ → Option (List ℕ) → Option (List ℕ)
add_line l none = none
add_line l (some s) = if ltb (length l) 256 then some (l ++ s) else none

-- The loop of `auth_save`: the rounds left, and i.
unfoldable pub save_from : ℕ → ℕ → (ℕ → User) → Option (List ℕ)
save_from zero i users = some []
save_from (suc n) i users =
    let rest = save_from n (i + 1) users in
    if not (users i).active then rest else add_line (print_user (users i)) rest

-- What `auth_save` writes, line by line.
unfoldable pub auth_save_text : Accounts → Option (List ℕ)
auth_save_text a = save_from a.user_count 0 a.users

-- The file after `auth_save`, from its bytes before, none of them in a new file, where the file can be
-- opened and every write succeeds. O_TRUNC sets the size in the inode of kernel/fs/vfs.c, while the RAM file
-- system keeps its bytes and its own size: what is behind the new text stays.
unfoldable pub auth_save : List ℕ → Accounts → Option (List ℕ)
unfolding auth_save_text
auth_save old a = Option.map (λ text. text ++ drop (length text) old) (auth_save_text a)

-- A line, and what is behind its end.
unfoldable pub split_line : List ℕ → List ℕ × List ℕ
split_line [] = ([], [])
split_line (c ∷ s) = let (l, r) = split_line s in if c == b'\n' then ([], s) else (c ∷ l, r)

abbrev pub push : ℕ → List (List ℕ) → List (List ℕ)
push c [] = (c ∷ []) ∷ []
push c (f ∷ fs) = (c ∷ f) ∷ fs

-- The fields of a line, with n separators still to be found.
unfoldable pub split_fields : ℕ → List ℕ → List (List ℕ)
split_fields zero s = s ∷ []
split_fields (suc n) [] = [] ∷ []
split_fields (suc n) (c ∷ s) =
    let here = split_fields n s in
    let later = split_fields (suc n) s in if c == b':' then [] ∷ here else push c later

-- `while (*np >= '0' && *np <= '9') u->uid = u->uid * 10 + (*np++) - '0';`
unfoldable pub parse_uid : ℕ → List ℕ → ℕ
parse_uid n [] = n
parse_uid n (c ∷ s) =
    let rest = parse_uid ((n * 10 + (c - b'0')) % 2 ^ 32) s in
    if leb b'0' c && leb c b'9' then rest else n

abbrev pub append_user : User → Accounts → Accounts
append_user u a = record a { users = update a.users a.user_count u; user_count = a.user_count + 1 }

-- The copies of the fields into the arrays of the next account.
unfoldable pub load_user : List ℕ → List ℕ → List ℕ → List ℕ → List ℕ → Accounts → Option Accounts
load_user name password uid home shell a =
    if ltb (length name) max_username
      && (ltb (length password) max_password
          && (ltb (length home) max_homedir && ltb (length shell) max_shell))
    then some (
        append_user
          (record {
            username = name;
            password = password;
            uid = parse_uid 0 uid;
            gid = parse_uid 0 uid;
            home = home;
            shell = shell;
            active = true;
          })
          a)
    else none

unfoldable pub load_fields : List (List ℕ) → Accounts → Option Accounts
load_fields (name ∷ (password ∷ (uid ∷ (home ∷ (shell ∷ []))))) a =
    if ltb a.user_count max_users then load_user name password uid home shell a else some a
load_fields _ a = some a

abbrev pub and_then : (Accounts → Option Accounts) → Option Accounts → Option Accounts
and_then f none = none
and_then f (some a) = f a

-- The loop of `auth_load`, on the bytes before the NUL; `none` also where the fuel runs out.
unfoldable pub load_lines : ℕ → List ℕ → Accounts → Option Accounts
load_lines zero s a = none
load_lines (suc f) [] a = some a
load_lines (suc f) (c ∷ s) a =
    let (line, rest) = split_line (c ∷ s) in
    and_then (load_lines f rest) (load_fields (split_fields 4 line) a)

-- The bytes before the first NUL.
unfoldable pub c_string : List ℕ → List ℕ
c_string [] = []
c_string (c ∷ s) = if c == 0 then [] else c ∷ c_string s

-- `buf` holds 4095 bytes of the file and a NUL.
unfoldable pub auth_load : Option (List ℕ) → Accounts → Option Accounts
auth_load none a = some a
auth_load (some file) a = let s = c_string (take 4095 file) in load_lines (length s + 1) s a
