-- ===== src/Core/Auth/File/Init.antt =====
-- `auth_init` of kernel/core/auth.c: who is logged in at the start.
use mathlib.Core.Option
use sinux.Prelude.{ℕ, zero, suc, ◌+◌, true, Option, none, some, List, [], ◌∷◌, if◌then◌else◌, ◌==◌}
use sinux.Core.Auth.{User, Accounts, vfs_create_dir, root_name, bin_sh, find_user, saved}
use sinux.Core.Auth.File.{append_user, auth_load}

abbrev pub root_home : List ℕ
root_home = b'/' ∷ root_name

abbrev pub root_user : User
root_user = record {
  username = root_name;
  password = [];
  uid = 0;
  gid = 0;
  home = root_home;
  shell = bin_sh;
  active = true;
}

-- `if (user_count == 0) …`
abbrev pub with_root : Accounts → Accounts
with_root a = if a.user_count == 0 then saved (append_user root_user a) else a

-- `current = find_user("root"); if (!current) current = &users[0];`
abbrev pub log_in : Accounts → Accounts
log_in a = record a { current = elim (find_user root_name a) [ none ↦ some 0 | some i ↦ some i ] }

-- `vfs_create(users[i].home, FT_DIR)`, the rounds left, and i.
unfoldable pub make_homes : ℕ → ℕ → Accounts → Accounts
make_homes zero i a = a
make_homes (suc n) i a =
    let request = vfs_create_dir (a.users i).home in
    make_homes n (i + 1)
      (if (a.users i).active then record a { requests = request ∷ a.requests } else a)

abbrev pub make_dirs : Accounts → Accounts
make_dirs a =
    make_homes a.user_count 0 (record a { requests = vfs_create_dir root_home ∷ a.requests })

-- The first argument is the file's bytes, none where it cannot be opened.
unfoldable pub auth_init : Option (List ℕ) → Accounts → Option Accounts
auth_init file a =
    Option.map (λ b. make_dirs (log_in (with_root b)))
      (auth_load file (record a { user_count = 0 }))
