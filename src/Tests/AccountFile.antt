-- ===== src/Tests/AccountFile.antt =====
-- The file of one account, saved and loaded again.
use sinux.Prelude.{ℕ, ◌≡◌, refl, true, none, some, List, [], ◌∷◌, get_elem?, arith}
use sinux.Core.Auth.{User, Accounts, bin_sh, root_name}
use sinux.Core.Auth.File.{auth_save, auth_save_text, save_from, uid_text, uid_from, auth_load}
use sinux.Core.Auth.File.Line.{IsStored}
use sinux.Core.Auth.File.RoundTrip.{auth_load-save}

abbrev root : User
root = record {
  username = root_name;
  password = b'x' ∷ [];
  uid = 0;
  gid = 0;
  home = b'/' ∷ [];
  shell = bin_sh;
  active = true;
}

abbrev one : Accounts
one = record { users = λ i. root; user_count = 1; current = none; requests = [] }

abbrev nobody : Accounts
nobody = record one { user_count = 0 }

abbrev text : List ℕ
text =
    b'r'
    ∷ (b'o'
        ∷ (b'o'
            ∷ (b't'
                ∷ (b':'
                    ∷ (b'x'
                        ∷ (b':'
                            ∷ (b'0'
                                ∷ (b':'
                                    ∷ (b'/'
                                        ∷ (b':'
                                            ∷ (b'/'
                                                ∷ (b'b'
                                                    ∷ (b'i'
                                                        ∷ (b'n'
                                                            ∷ (b'/'
                                                            ∷ (b's'
                                                            ∷ (b'h' ∷ (b'\n' ∷ []))))))))))))))))))

saved_as : auth_save_text one ≡ some text
unfolding auth_save_text save_from uid_text uid_from
saved_as = refl

root-IsStored : IsStored root
root-IsStored = record {
  username = omega arith;
  password = omega arith;
  home = omega arith;
  shell = omega arith;
  short_name = omega arith;
  short_password = omega arith;
  short_home = omega arith;
  short_shell = omega arith;
  uid = omega arith;
  gid = refl;
  active = refl;
}

-- The file was empty.
file_after : auth_save [] one ≡ some text
unfolding auth_save auth_save_text save_from uid_text uid_from
file_after = refl

auth_load-save_example :
    (c : Accounts) × (auth_load (some text) nobody ≡ some c)
    × (c.user_count ≡ 1)
    × ((i : ℕ) (u : User) → get_elem? (root ∷ []) i ≡ some u → c.users i ≡ u)
auth_load-save_example =
    auth_load-save one nobody [] text text saved_as (omega arith) file_after (root-IsStored, tt)
      (omega arith) (omega arith) refl
