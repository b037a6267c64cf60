-- ===== src/Core/Auth/Check.antt =====
-- Who is let in by `auth_check` of kernel/core/auth.c.
use sinux.Prelude.{
  ℕ, zero, suc, ◌+◌, ◌*◌, ◌^◌, ◌<◌, ◌≡◌, refl, ap, ◌∙◌, inl, inr, Bool, true, false, ◌&&◌, Option,
  none, some, List, [], ◌∷◌, ◌++◌, ltb, lt→ltb, leb, ◌==◌, Bool-cases, arith, length, update,
  neq_false, ==_refl,
}
use sinux.Fs.Ramfs.{same_name}
use sinux.Fs.Ramfs.Names.{same_name_iff}
use sinux.Klib.Str.Compare.{NonZero}
use sinux.Klib.Sha256.Padding.{sha256}
use sinux.Klib.Sha256.Hmac.{length-sha256}
use sinux.Klib.Sha256.Hex.{sha256_to_hex}
use sinux.Klib.Sha256.Password.{
  salt, stretched, password_hash, sha256_make_hash, sha256_make_hash-password_hash,
  sha256_to_hex-NonZero, sha256_verify_iff,
}
use sinux.Core.Auth.{
  User, Accounts, max_users, find_user_from, find_user, check_user, auth_check, new_user, add_entry,
  add_new, add_unless, max_username, max_password, max_homedir, auth_add_user,
}

length-sha256_to_hex : (l : List ℕ) → length (sha256_to_hex l) ≡ 2 * length l
unfolding sha256_to_hex
length-sha256_to_hex [] = refl
length-sha256_to_hex (b ∷ l) = omega (arith, length-sha256_to_hex l)

length-stretched :
    (n : ℕ) (pass hash : List ℕ) → length hash ≡ 32 → length (stretched n pass hash) ≡ 32
unfolding stretched
length-stretched zero pass hash h = h
length-stretched (suc n) pass hash h =
    length-stretched n pass (sha256 (hash ++ pass)) (length-sha256 (hash ++ pass))

length-password_hash : (pass : List ℕ) → length (password_hash pass) ≡ 64
unfolding password_hash
length-password_hash pass =
    let hash = stretched 4096 pass (sha256 (salt ++ pass)) in
    length-sha256_to_hex hash
    ∙ ap (λ n. 2 * n)
        (length-stretched 4096 pass (sha256 (salt ++ pass)) (length-sha256 (salt ++ pass)))

password_hash-NonZero : (pass : List ℕ) → NonZero (password_hash pass)
unfolding password_hash
password_hash-NonZero pass = sha256_to_hex-NonZero (stretched 4096 pass (sha256 (salt ++ pass)))

-- A user whose stored password is the hash of a password is let in with that password.
check_user-right :
    (stack : ℕ → ℕ) (i : ℕ) (pass : List ℕ) (a : Accounts)
    → 8 * (32 + length pass) < 2 ^ 64
    → (a.users i).password ≡ password_hash pass
    → check_user stack (some i) pass a ≡ true
unfolding check_user
check_user-right stack i pass a small e =
    let len : length (a.users i).password ≡ 64 = ap length e ∙ length-password_hash pass in
    let digits : NonZero (a.users i).password = rw e (password_hash-NonZero pass) in
    let ok = (sha256_verify_iff stack pass (a.users i).password [] small digits).1 e in
    rw (len, ok) refl

find_rest :
    (n i : ℕ) (name : List ℕ) (users : ℕ → User)
    → find_user_from (suc n) i name users ≡ none
    → ((users i).active && same_name (users i).username name ≡ false)
      × (find_user_from n (i + 1) name users ≡ none)
unfolding find_user_from
find_rest n i name users h =
    elim (Bool-cases ((users i).active && same_name (users i).username name)) [
      | inl e ↦ let gone : some i ≡ none = rw e at h in cc
      | inr e ↦ (e, rw e at h)
    ]

-- A new entry behind those searched in vain is found.
find_user_from-new :
    (n i k : ℕ) (name : List ℕ) (users : ℕ → User) (u : User)
    → k ≡ i + n
    → (u.active && same_name u.username name) ≡ true
    → find_user_from n i name users ≡ none
    → find_user_from (suc n) i name (update users k u) ≡ some k
unfolding find_user_from
find_user_from-new zero i k name users u at right h =
    let same : k ≡ i = omega arith in rw (same, ==_refl i, right) refl
find_user_from-new (suc n) i k name users u at right h =
    let (other, rest) = find_rest n i name users h in
    let ne : (k == i) ≡ false = neq_false k i (λ e. omega arith) in
    rw (ne, other) (find_user_from-new n (i + 1) k name users u (omega arith) right rest)

find_user-add_entry :
    (u : User) (a : Accounts)
    → u.active ≡ true
    → find_user u.username a ≡ none
    → find_user u.username (add_entry u a) ≡ some a.user_count
unfolding find_user add_entry
find_user-add_entry u a active h =
    let named = (same_name_iff u.username u.username).1 refl in
    let right : (u.active && same_name u.username u.username) ≡ true = rw (active, named) refl in
    let more : a.user_count + 1 ≡ suc a.user_count = omega arith in
    rw more
      (find_user_from-new a.user_count 0 a.user_count u.username a.users u (omega arith) right h)

same_result :
    (r : Bool) (x b : Accounts)
    → ◌≡◌ {A = Option (Bool × Accounts)} (some (r, x)) (some (true, b))
    → (r ≡ true) × (x ≡ b)
same_result r x b e = (cc, cc)

-- What went well in an `auth_add_user` that returns 0.
add_new-ok :
    (stack : ℕ → ℕ) (user pass : List ℕ) (uid : ℕ) (home : List ℕ) (a b : Accounts)
    → add_new stack user pass uid home a ≡ some (true, b)
    → add_entry (new_user user (sha256_make_hash stack pass) uid home) a ≡ b
unfolding add_new
add_new-ok stack user pass uid home a b e =
    elim (Bool-cases (
      ltb (length user) max_username
      && ltb (length (sha256_make_hash stack pass)) max_password
      && ltb (length home) max_homedir)) [
        | inr long ↦
            let gone : ◌≡◌ {A = Option (Bool × Accounts)} none (some (true, b)) = rw long at e in cc
        | inl fits ↦
            (same_result true (add_entry (new_user user (sha256_make_hash stack pass) uid home) a) b
              (rw fits at e)).1
      ]

add_unless-ok :
    (o : Option ℕ) (stack : ℕ → ℕ) (user pass : List ℕ) (uid : ℕ) (home : List ℕ) (a b : Accounts)
    → add_unless o stack user pass uid home a ≡ some (true, b)
    → (o ≡ none) × (add_entry (new_user user (sha256_make_hash stack pass) uid home) a ≡ b)
unfolding add_unless
add_unless-ok (some i) stack user pass uid home a b e = let no = (same_result false a b e).0 in cc
add_unless-ok none stack user pass uid home a b e = elim (Bool-cases (leb max_users a.user_count)) [
  | inl full ↦ let no = (same_result false a b (rw full at e)).0 in cc
  | inr room ↦ (refl, add_new-ok stack user pass uid home a b (rw room at e))
]

added-password :
    (u : User) (a : Accounts) → ((add_entry u a).users a.user_count).password ≡ u.password
unfolding add_entry
added-password u a = rw (==_refl a.user_count) refl

-- After an `auth_add_user` that returns 0, `auth_check` lets the new user in with the password given,
-- one of fewer than 2^64 - 256 bits.
pub auth_check-add_user :
    (stack other : ℕ → ℕ) (user pass : List ℕ) (uid : ℕ) (home : List ℕ) (a b : Accounts)
    → 8 * (32 + length pass) < 2 ^ 64
    → auth_add_user stack user pass uid home a ≡ some (true, b)
    → auth_check other user pass b ≡ true
unfolding auth_check auth_add_user
auth_check-add_user stack other user pass uid home a b small e =
    let (missing, done) = add_unless-ok (find_user user a) stack user pass uid home a b e in
    let u = new_user user (sha256_make_hash stack pass) uid home in
    let found = find_user-add_entry u a refl missing in
    let password = added-password u a ∙ sha256_make_hash-password_hash stack pass small in
    rw (← done, found) (check_user-right other a.user_count pass (add_entry u a) small password)

-- A new name is added where there is room, and the strings fit their arrays.
pub auth_add_user-adds :
    (stack : ℕ → ℕ) (user pass : List ℕ) (uid : ℕ) (home : List ℕ) (a : Accounts)
    → 8 * (32 + length pass) < 2 ^ 64
    → find_user user a ≡ none
    → a.user_count < max_users
    → length user < max_username
    → length home < max_homedir
    → auth_add_user stack user pass uid home a
      ≡ some (true, add_entry (new_user user (sha256_make_hash stack pass) uid home) a)
unfolding auth_add_user add_unless add_new
auth_add_user-adds stack user pass uid home a small missing room name_fits home_fits =
    let len : length (sha256_make_hash stack pass) ≡ 64 =
      ap length (sha256_make_hash-password_hash stack pass small) ∙ length-password_hash pass in
    let free : leb max_users a.user_count ≡ false = ground arith in
    let one = lt→ltb (length user) max_username name_fits in
    let two = lt→ltb (length (sha256_make_hash stack pass)) max_password (omega arith) in
    let three = lt→ltb (length home) max_homedir home_fits in
    rw (missing, free, one, two, three) refl
