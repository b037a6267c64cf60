-- ===== src/Core/Auth/File/Line.antt =====
-- One line of the file of accounts of kernel/core/auth.c: its number, its fields and its end.
use mathlib.Core.List.{append_assoc}
use sinux.Prelude.{
  ℕ, zero, suc, ◌+◌, ◌-◌, ◌*◌, ◌/◌, ◌%◌, ◌^◌, ◌<◌, ◌≡◌, refl, ◌∙◌, ◌≢◌, inl, inr, true, ◌&&◌, some,
  List, [], ◌∷◌, ◌++◌, leb, ◌==◌, length, arith, Bool-cases, neq_false,
}
use sinux.Core.Auth.{User, Accounts, max_users, max_username, max_password, max_homedir}
use sinux.Core.Auth.File.{
  max_shell, uid_from, uid_text, print_user, split_line, split_fields, parse_uid, append_user,
  load_user, load_fields,
}

-- No NUL, no newline.
abbrev pub InLine : List ℕ → Type 0
InLine [] = Unit {0}
InLine (c ∷ s) = (c ≢ 0) × (c ≢ b'\n') × InLine s

-- No separator of fields either.
abbrev pub InField : List ℕ → Type 0
InField [] = Unit {0}
InField (c ∷ s) = (c ≢ 0) × (c ≢ b'\n') × (c ≢ b':') × InField s

pub InField-InLine : (s : List ℕ) → InField s → InLine s
InField-InLine [] h = tt
InField-InLine (c ∷ s) (a, b, d, h) = (a, b, InField-InLine s h)

pub InLine-append : (s t : List ℕ) → InLine s → InLine t → InLine (s ++ t)
InLine-append [] t h k = k
InLine-append (c ∷ s) t (a, b, h) k = (a, b, InLine-append s t h k)

pub split_line-InLine : (s t : List ℕ) → InLine s → split_line (s ++ (b'\n' ∷ t)) ≡ (s, t)
unfolding split_line
split_line-InLine [] t h = refl
split_line-InLine (c ∷ s) t (a, b, h) = rw (neq_false c b'\n' b, split_line-InLine s t h) refl

split_fields-InField :
    (n : ℕ) (s t : List ℕ)
    → InField s
    → split_fields (suc n) (s ++ (b':' ∷ t)) ≡ s ∷ split_fields n t
unfolding split_fields
split_fields-InField n [] t h = refl
split_fields-InField n (c ∷ s) t (a, b, d, h) =
    rw (neq_false c b':' d, split_fields-InField n s t h) refl

-- 10 ^ f
abbrev power : ℕ → ℕ
power zero = 1
power (suc f) = 10 * power f

uid_from-parse :
    (f v : ℕ) (l : List ℕ) → v < 2 ^ 32 → v < power f → parse_uid 0 (uid_from f v l) ≡ parse_uid v l
unfolding uid_from
uid_from-parse zero v l small h = let z : v ≡ 0 = omega arith in rw z refl
uid_from-parse (suc f) v l small h = elim (Bool-cases (v == 0)) [
  | inl e ↦ let z : v ≡ 0 = ground arith in rw z refl
  | inr ne ↦
      let digit : (leb b'0' (b'0' + v % 10) && leb (b'0' + v % 10) b'9') ≡ true = ground arith in
      let back : (v / 10 * 10 + (b'0' + v % 10 - b'0')) % 2 ^ 32 ≡ v = omega arith in
      rw ne (
        uid_from-parse f (v / 10) ((b'0' + v % 10) ∷ l) (omega arith) (omega arith)
        ∙ (unfold parse_uid in rw (digit, back) refl))
]

uid_text-parse : (v : ℕ) → v < 2 ^ 32 → parse_uid 0 (uid_text v) ≡ v
unfolding uid_text
uid_text-parse v small = elim (Bool-cases (v == 0)) [
  | inl e ↦ let z : v ≡ 0 = ground arith in rw z (unfold parse_uid in refl)
  | inr ne ↦ rw ne (uid_from-parse 10 v [] small (omega arith) ∙ (unfold parse_uid in refl))
]

uid_from-InField : (f v : ℕ) (l : List ℕ) → InField l → InField (uid_from f v l)
unfolding uid_from
uid_from-InField zero v l h = h
uid_from-InField (suc f) v l h = elim (Bool-cases (v == 0)) [
  | inl e ↦ rw e h
  | inr ne ↦ rw ne (
      uid_from-InField f (v / 10) ((b'0' + v % 10) ∷ l)
        ((λ e. omega arith), (λ e. omega arith), (λ e. omega arith), h))
]

uid_text-InField : (v : ℕ) → InField (uid_text v)
unfolding uid_text
uid_text-InField v = elim (Bool-cases (v == 0)) [
  | inl e ↦ rw e ((λ e. omega arith), (λ e. omega arith), (λ e. omega arith), tt)
  | inr ne ↦ rw ne (uid_from-InField 10 v [] tt)
]

-- What an account must be for its line to be read back: no separator in a field, and each fits.
pub record IsStored (u : User) : Type 0 where
  pub username : InField u.username
  pub password : InField u.password
  pub home : InField u.home
  pub shell : InLine u.shell
  pub short_name : length u.username < max_username
  pub short_password : length u.password < max_password
  pub short_home : length u.home < max_homedir
  pub short_shell : length u.shell < max_shell
  pub uid : u.uid < 2 ^ 32
  pub gid : u.gid ≡ u.uid
  pub active : u.active ≡ true

-- A line without its newline.
abbrev pub line_of : User → List ℕ
line_of u =
    u.username
    ++ (b':' ∷ (u.password ++ (b':' ∷ (uid_text u.uid ++ (b':' ∷ (u.home ++ (b':' ∷ u.shell)))))))

InField-then : (s t : List ℕ) → InField s → InLine t → InLine (s ++ (b':' ∷ t))
InField-then s t h k =
    InLine-append s (b':' ∷ t) (InField-InLine s h) ((λ e. omega arith), (λ e. omega arith), k)

pub line_of-InLine : (u : User) → IsStored u → InLine (line_of u)
line_of-InLine u h = InField-then u.username _ h.username (
    InField-then u.password _ h.password (
      InField-then (uid_text u.uid) _ (uid_text-InField u.uid)
        (InField-then u.home _ h.home h.shell)))

-- The text behind each field, bracketed to the right.
pub print_user-line_of : (u : User) (t : List ℕ) → print_user u ++ t ≡ line_of u ++ (b'\n' ∷ t)
print_user-line_of u t = simp append_assoc

pub split_fields-line_of :
    (u : User)
    → IsStored u
    → split_fields 4 (line_of u)
      ≡ u.username ∷ (u.password ∷ (uid_text u.uid ∷ (u.home ∷ (u.shell ∷ []))))
split_fields-line_of u h =
    rw
      (
        split_fields-InField 3 u.username
            (u.password ++ (b':' ∷ (uid_text u.uid ++ (b':' ∷ (u.home ++ (b':' ∷ u.shell))))))
            h.username,
        split_fields-InField 2 u.password (uid_text u.uid ++ (b':' ∷ (u.home ++ (b':' ∷ u.shell))))
            h.password,
        split_fields-InField 1 (uid_text u.uid) (u.home ++ (b':' ∷ u.shell))
            (uid_text-InField u.uid),
        split_fields-InField 0 u.home u.shell h.home,
      )
      (unfold split_fields in refl)

pub load_fields-IsStored :
    (u : User) (a : Accounts)
    → IsStored u
    → a.user_count < max_users
    → load_fields (u.username ∷ (u.password ∷ (uid_text u.uid ∷ (u.home ∷ (u.shell ∷ []))))) a
      ≡ some (append_user u a)
unfolding load_fields load_user
load_fields-IsStored u a h room = ground (
  arith,
  h.short_name,
  h.short_password,
  h.short_home,
  h.short_shell,
  uid_text-parse u.uid h.uid,
  h.gid,
  h.active,
)
