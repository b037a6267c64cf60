-- ===== src/Core/Auth/File/RoundTrip.antt =====
-- The file that `auth_save` of kernel/core/auth.c writes, as `auth_load` reads it.
use mathlib.Core.List.{append-nil}
use mathlib.Core.Option.{some-injective}
use sinux.Prelude.{
  sym, drop, ℕ, zero, suc, ◌+◌, ◌≤◌, ◌<◌, ◌≡◌, refl, ap, ◌∙◌, inl, inr, false, some, List, [], ◌∷◌,
  ◌++◌, if◌then◌else◌, ◌==◌, length, length-append, take, get_elem?, arith, Bool-cases, neq_false,
  Option-cases,
}
use sinux.Klib.Str.Compare.{NonZero}
use sinux.Core.Auth.{User, Accounts, max_users}
use sinux.Core.Auth.File.{
  print_user, save_from, auth_save_text, auth_save, split_line, split_fields, append_user,
  load_fields, load_lines, c_string, auth_load,
}
use sinux.Core.Auth.File.Line.{
  InLine, split_line-InLine, IsStored, line_of, line_of-InLine, print_user-line_of,
  split_fields-line_of, load_fields-IsStored,
}

-- The accounts in use among n slots from i on, in order.
abbrev pub listed : ℕ → ℕ → (ℕ → User) → List User
listed zero i users = []
listed (suc n) i users =
    if (users i).active then users i ∷ listed n (i + 1) users else listed n (i + 1) users

abbrev pub AllStored : List User → Type 0
AllStored [] = Unit {0}
AllStored (u ∷ l) = IsStored u × AllStored l

abbrev print_all : List User → List ℕ
print_all [] = []
print_all (u ∷ l) = print_user u ++ print_all l

abbrev append_all : List User → Accounts → Accounts
append_all [] a = a
append_all (u ∷ l) a = append_all l (append_user u a)

save_from-print_all :
    (n i : ℕ) (users : ℕ → User) (text : List ℕ)
    → save_from n i users ≡ some text
    → text ≡ print_all (listed n i users)
unfolding save_from
save_from-print_all zero i users text e = cc
save_from-print_all (suc n) i users text e = elim (Bool-cases (users i).active) [
  | inr off ↦ rw off (save_from-print_all n (i + 1) users text (rw off at e))
  | inl on ↦ elim (Option-cases (save_from n (i + 1) users)) [
    | inl none_left ↦ absurd (ground arith)
    | inr (rest, r) ↦
        let ih = save_from-print_all n (i + 1) users rest r in rw on (ground (arith, ih))
  ]
]

-- A line, read from the start of a text.
step :
    (f : ℕ) (s line rest : List ℕ) (a b : Accounts)
    → split_line s ≡ (line, rest)
    → 0 < length s
    → load_fields (split_fields 4 line) a ≡ some b
    → load_lines (suc f) s a ≡ load_lines f rest b
unfolding load_lines
step f [] line rest a b e pos g = absurd (omega arith)
step f (c ∷ s) line rest a b e pos g = rw (e, g) refl

load_lines-print_all :
    (l : List User) (f : ℕ) (a : Accounts)
    → AllStored l
    → a.user_count + length l ≤ max_users
    → length (print_all l) < f
    → load_lines f (print_all l) a ≡ some (append_all l a)
load_lines-print_all [] zero a h room enough = absurd (omega arith)
load_lines-print_all [] (suc f) a h room enough = unfold load_lines in refl
load_lines-print_all (u ∷ l) zero a h room enough = absurd (omega arith)
load_lines-print_all (u ∷ l) (suc f) a (h, hs) room enough =
    let text = print_user-line_of u (print_all l) in
    let size : length (print_user u ++ print_all l)
        ≡ length (line_of u) + suc (length (print_all l)) =
      ap (length {A = ℕ}) text ∙ length-append (line_of u) (b'\n' ∷ print_all l) in
    step f (print_user u ++ print_all l) (line_of u) (print_all l) a (append_user u a)
      (ap split_line text ∙ split_line-InLine (line_of u) (print_all l) (line_of-InLine u h))
      (omega (arith, size))
      (ap (λ w. load_fields w a) (split_fields-line_of u h)
        ∙ load_fields-IsStored u a h (omega arith))
    ∙ load_lines-print_all l f (append_user u a) hs (omega arith) (omega (arith, size))

-- What `append_all` leaves in the slots.
append_all_below :
    (l : List User) (a : Accounts) (j : ℕ) → j < a.user_count → (append_all l a).users j ≡ a.users j
append_all_below [] a j h = refl
append_all_below (u ∷ l) a j h =
    append_all_below l (append_user u a) j (omega arith)
    ∙ (let e : (a.user_count == j) ≡ false = ground arith in rw e refl)

append_all_at :
    (l : List User) (a : Accounts) (i : ℕ) (u : User)
    → get_elem? l i ≡ some u
    → (append_all l a).users (a.user_count + i) ≡ u
append_all_at [] a i u e = cc
append_all_at (x ∷ l) a zero u e =
    let at : a.user_count + 0 ≡ a.user_count = omega arith in
    rw at (append_all_below l (append_user x a) a.user_count (omega arith) ∙ ground (arith, e))
append_all_at (x ∷ l) a (suc i) u e =
    let at : a.user_count + suc i ≡ a.user_count + 1 + i = omega arith in
    rw at (append_all_at l (append_user x a) i u e)

append_all_count :
    (l : List User) (a : Accounts) → (append_all l a).user_count ≡ a.user_count + length l
append_all_count [] a = omega arith
append_all_count (u ∷ l) a = omega (arith, append_all_count l (append_user u a))

NonZero-append : (s t : List ℕ) → NonZero s → NonZero t → NonZero (s ++ t)
NonZero-append [] t h k = k
NonZero-append (c ∷ s) t (a, h) k = (a, NonZero-append s t h k)

InLine-NonZero : (s : List ℕ) → InLine s → NonZero s
InLine-NonZero [] h = tt
InLine-NonZero (c ∷ s) (a, b, h) = (a, InLine-NonZero s h)

print_all-NonZero : (l : List User) → AllStored l → NonZero (print_all l)
print_all-NonZero [] h = tt
print_all-NonZero (u ∷ l) (h, hs) = rw (print_user-line_of u (print_all l)) (
    NonZero-append (line_of u) (b'\n' ∷ print_all l)
      (InLine-NonZero (line_of u) (line_of-InLine u h))
      ((λ e. omega arith), print_all-NonZero l hs))

c_string-NonZero : (s : List ℕ) → NonZero s → c_string s ≡ s
unfolding c_string
c_string-NonZero [] h = refl
c_string-NonZero (c ∷ s) (a, h) = rw (neq_false c 0 a, c_string-NonZero s h) refl

take_all : (n : ℕ) (s : List ℕ) → length s ≤ n → take n s ≡ s
take_all zero [] h = refl
take_all zero (c ∷ s) h = absurd (omega arith)
take_all (suc n) [] h = refl
take_all (suc n) (c ∷ s) h = rw (take_all n s (omega arith)) refl

shift : (n i : ℕ) → n ≡ 0 → i ≡ n + i
shift n i e = omega arith

-- The text that is written, as it is loaded.
auth_load-text :
    (a b : Accounts) (text : List ℕ)
    → auth_save_text a ≡ some text
    → AllStored (listed a.user_count 0 a.users)
    → length text ≤ 4095
    → length (listed a.user_count 0 a.users) ≤ max_users
    → b.user_count ≡ 0
    → (c : Accounts) × (auth_load (some text) b ≡ some c)
      × (c.user_count ≡ length (listed a.user_count 0 a.users))
      × ((i : ℕ) (u : User) → get_elem? (listed a.user_count 0 a.users) i ≡ some u → c.users i ≡ u)
unfolding auth_load auth_save_text
auth_load-text a b text e stored small room empty =
    let l = listed a.user_count 0 a.users in
    let at : text ≡ print_all l = save_from-print_all a.user_count 0 a.users text e in
    let read : c_string (take 4095 text) ≡ print_all l =
      ap c_string (take_all 4095 text small ∙ at)
      ∙ c_string-NonZero (print_all l) (print_all-NonZero l stored) in
    (
      append_all l b,
      rw read
          (load_lines-print_all l (length (print_all l) + 1) b stored (omega arith) (omega arith)),
      omega (arith, append_all_count l b),
      λ i u g. ap (append_all l b).users (shift b.user_count i empty) ∙ append_all_at l b i u g,
    )

drop_all : (n : ℕ) (s : List ℕ) → length s ≤ n → drop n s ≡ []
drop_all zero [] h = refl
drop_all zero (c ∷ s) h = absurd (omega arith)
drop_all (suc n) [] h = refl
drop_all (suc n) (c ∷ s) h = drop_all n s (omega arith)

-- Accounts in use whose fields hold no separator and no NUL and fit their arrays, and whose group id is
-- their user id (the file has no field for it), are saved by `auth_save` in a text of at most 4095 bytes,
-- over a file that was not longer than that text. Then `auth_load` into an empty table loads
-- them again: as many, in the same order, each with all its fields as they were.
pub auth_load-save :
    (a b : Accounts) (old text file : List ℕ)
    → auth_save_text a ≡ some text
    → length old ≤ length text
    → auth_save old a ≡ some file
    → AllStored (listed a.user_count 0 a.users)
    → length text ≤ 4095
    → length (listed a.user_count 0 a.users) ≤ max_users
    → b.user_count ≡ 0
    → (c : Accounts) × (auth_load (some file) b ≡ some c)
      × (c.user_count ≡ length (listed a.user_count 0 a.users))
      × ((i : ℕ) (u : User) → get_elem? (listed a.user_count 0 a.users) i ≡ some u → c.users i ≡ u)
unfolding auth_save
auth_load-save a b old text file e over saved stored small room empty =
    let same : some text ≡ some file =
      ap some (sym (append-nil text))
      ∙ (ap (λ r. some (text ++ r)) (sym (drop_all (length text) old over)) ∙ (rw e at saved)) in
    let at : text ≡ file = some-injective _ _ same in
    rw (← at) (auth_load-text a b text e stored small room empty)
