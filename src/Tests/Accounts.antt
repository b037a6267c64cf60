-- ===== src/Tests/Accounts.antt =====
-- A first account.
use sinux.Prelude.{ℕ, ◌≡◌, refl, true, none, List, [], ◌∷◌, arith}
use sinux.Klib.Sha256.Password.{sha256_make_hash}
use sinux.Core.Auth.{Accounts, find_user, find_user_from, new_user, add_entry, auth_check}
use sinux.Core.Auth.Check.{auth_check-add_user, auth_add_user-adds}

abbrev stack : ℕ → ℕ
stack = λ i. 7

abbrev nobody : Accounts
nobody = record { users = λ i. new_user [] [] 0 []; user_count = 0; current = none; requests = [] }

abbrev name : List ℕ
name = b'a' ∷ b'n' ∷ []

abbrev word : List ℕ
word = b'p' ∷ b'w' ∷ []

nobody_there : find_user name nobody ≡ none
unfolding find_user find_user_from
nobody_there = refl

auth_check-add_user_example :
    auth_check stack name word
      (add_entry (new_user name (sha256_make_hash stack word) 5 (b'/' ∷ [])) nobody)
    ≡ true
auth_check-add_user_example =
    auth_check-add_user stack stack name word 5 (b'/' ∷ []) nobody
      (add_entry (new_user name (sha256_make_hash stack word) 5 (b'/' ∷ [])) nobody) (omega arith)
      (auth_add_user-adds stack name word 5 (b'/' ∷ []) nobody (omega arith) nobody_there
        (omega arith) (omega arith) (omega arith))
