-- ===== src/Klib/Sha256/Password.antt =====
-- The hashes of passwords in lib/sha256.c. `stack` is what the stack held. A password is the list of
-- its bytes before the NUL.
use mathlib.Core.Option
use sinux.Prelude.{
  ℕ, zero, suc, ◌+◌, ◌*◌, ◌^◌, ◌<◌, ◌≡◌, refl, sym, ap, ◌∙◌, ◌↔◌, Bool, true, false, Option, none,
  some, List, [], ◌∷◌, ◌++◌, arith, length, ℤ, pos, negsuc,
}
use sinux.Klib.Str.{kstrcmp}
use sinux.Klib.Str.Compare.{NonZero, kstrcmp_iff}
use sinux.Klib.Sha256.{Ctx}
use sinux.Klib.Sha256.Padding.{sha256}
use sinux.Klib.Sha256.Hmac.{hash_two, hash_two-sha256, length-sha256}
use sinux.Klib.Sha256.Hex.{sha256_to_hex}

-- "Sinux_v1_salt_2026"
unfoldable pub salt : List ℕ
salt =
    83 ∷ 105 ∷ 110 ∷ 117 ∷ 120 ∷ 95 ∷ 118 ∷ 49 ∷ 95 ∷ 115 ∷ 97 ∷ 108 ∷ 116 ∷ 95 ∷ 50 ∷ 48 ∷ 50 ∷ 54
    ∷ []

unfoldable pub hash_rounds : ℕ → List ℕ → List ℕ × Ctx → List ℕ × Ctx
hash_rounds zero password r = r
hash_rounds (suc n) password (hash, ctx) = hash_rounds n password (hash_two ctx.buf hash password)

unfoldable pub sha256_make_hash : (ℕ → ℕ) → List ℕ → List ℕ
sha256_make_hash stack password =
    sha256_to_hex (hash_rounds 4096 password (hash_two stack salt password)).0

abbrev pub is_zero : ℤ → Bool
is_zero (pos zero) = true
is_zero _ = false

-- `none` is a comparison that runs over the end of the memory given.
unfoldable pub sha256_verify : (ℕ → ℕ) → List ℕ → List ℕ → Option Bool
sha256_verify stack password hash_hex =
    Option.map is_zero (kstrcmp (sha256_make_hash stack password ++ 0 ∷ []) hash_hex)

-- The hash of a password: of the salt and it, and 4096 times of the last hash and it.
unfoldable pub stretched : ℕ → List ℕ → List ℕ → List ℕ
stretched zero password hash = hash
stretched (suc n) password hash = stretched n password (sha256 (hash ++ password))

unfoldable pub password_hash : List ℕ → List ℕ
password_hash password = sha256_to_hex (stretched 4096 password (sha256 (salt ++ password)))

length-salt : length salt ≡ 18
unfolding salt
length-salt = refl

hash_rounds-stretched :
    (n : ℕ) (password : List ℕ) (r : List ℕ × Ctx)
    → 8 * (32 + length password) < 2 ^ 64
    → length r.0 ≡ 32
    → (hash_rounds n password r).0 ≡ stretched n password r.0
unfolding hash_rounds stretched
hash_rounds-stretched zero password r small h = refl
hash_rounds-stretched (suc n) password r small h =
    let this = hash_two-sha256 r.1.buf r.0 password (omega arith) in
    hash_rounds-stretched n password (hash_two r.1.buf r.0 password) small
      (ap length this ∙ length-sha256 (r.0 ++ password))
    ∙ ap (stretched n password) this

rounds-password :
    (n : ℕ) (stack : ℕ → ℕ) (password : List ℕ)
    → 8 * (32 + length password) < 2 ^ 64
    → (hash_rounds n password (hash_two stack salt password)).0
      ≡ stretched n password (sha256 (salt ++ password))
rounds-password n stack password small =
    let first = hash_two-sha256 stack salt password (omega (arith, length-salt)) in
    hash_rounds-stretched n password (hash_two stack salt password) small
      (ap length first ∙ length-sha256 (salt ++ password))
    ∙ ap (stretched n password) first

-- The hash that is kept of a password of fewer than 2^64 - 256 bits: SHA-256 of the salt and it, then
-- 4096 times SHA-256 of the last hash and it, in hexadecimal digits.
pub sha256_make_hash-password_hash :
    (stack : ℕ → ℕ) (password : List ℕ)
    → 8 * (32 + length password) < 2 ^ 64
    → sha256_make_hash stack password ≡ password_hash password
unfolding sha256_make_hash password_hash
sha256_make_hash-password_hash stack password small =
    ap sha256_to_hex (rounds-password 4096 stack password small)

pub sha256_to_hex-NonZero : (hash : List ℕ) → NonZero (sha256_to_hex hash)
unfolding sha256_to_hex
sha256_to_hex-NonZero [] = record {}
sha256_to_hex-NonZero (b ∷ hash) = (ground arith, (ground arith, sha256_to_hex-NonZero hash))

is_zero-eq : (z : ℤ) → is_zero z ≡ true → z ≡ pos 0
is_zero-eq (pos zero) h = refl
is_zero-eq (pos (suc n)) h = cc
is_zero-eq (negsuc n) h = cc

compared : (o : Option ℤ) → (Option.map is_zero o ≡ some true) ↔ (o ≡ some (pos 0))
compared none = ((λ h. cc), (λ h. cc))
compared (some z) = (
  (λ h. let zero : is_zero z ≡ true = cc in ap some (is_zero-eq z zero)),
  λ h. ap (Option.map is_zero) h,
)

-- `sha256_verify` accepts a password, of fewer than 2^64 - 256 bits, exactly when the string that is
-- stored is that password's hash.
pub sha256_verify_iff :
    (stack : ℕ → ℕ) (password stored behind : List ℕ)
    → 8 * (32 + length password) < 2 ^ 64
    → NonZero stored
    → (sha256_verify stack password (stored ++ 0 ∷ behind) ≡ some true)
      ↔ (stored ≡ password_hash password)
unfolding sha256_verify
sha256_verify_iff stack password stored behind small h =
    let hash = sha256_make_hash-password_hash stack password small in
    let digits : NonZero (sha256_make_hash stack password) =
      unfold sha256_make_hash in
      sha256_to_hex-NonZero (hash_rounds 4096 password (hash_two stack salt password)).0 in
    let test = kstrcmp_iff (sha256_make_hash stack password) stored [] behind digits h in
    let (to, from) =
      compared (kstrcmp (sha256_make_hash stack password ++ 0 ∷ []) (stored ++ 0 ∷ behind)) in
    ((λ e. sym (test.0 (to e)) ∙ hash), λ e. from (test.1 (hash ∙ sym e)))
