-- ===== src/Proc/UserStack.antt =====
-- `build_user_stack` of kernel/proc/usermode.c: the stack that a program starts with. A string is the list
-- of its bytes before the NUL. `none` is a write behind the arrays of 64 pointers, whose length the
-- code does not test.
use sinux.Prelude.{
  ℕ, suc, ◌+◌, ◌-◌, ◌*◌, ◌/◌, ◌%◌, ◌^◌, ◌≤◌, ◌≡◌, refl, ap, false, ◌&&◌, ◌||◌, Option, none, some,
  List, [], ◌∷◌, ◌++◌, if◌then◌else◌, ltb, leb, arith, length, length-append, get_or,
}
use sinux.Mm.Phys.{Mem}

abbrev pub exec_max_args : ℕ
exec_max_args = 64

-- `sp -= n`
abbrev pub back : ℕ → ℕ → ℕ
back sp n = (sp + 2 ^ 64 - n) % 2 ^ 64

-- `kmemcpy(a, l, ...)`, and a store of 8 bytes
abbrev pub store_bytes : Mem → ℕ → List ℕ → Mem
store_bytes m a l b = if leb a b && ltb b (a + length l) then get_or l (b - a) 0 else m b

abbrev pub store64 : Mem → ℕ → ℕ → Mem
store64 m a w b = if leb a b && ltb b (a + 8) then w / 2 ^ (8 * (b - a)) % 256 else m b

-- The strings from the last to the first: their addresses, and the stack.
unfoldable pub push_strings : List (List ℕ) → ℕ → Mem → List ℕ × (ℕ × Mem)
push_strings [] sp m = ([], (sp, m))
push_strings (s ∷ l) sp m =
    let (at, top) = push_strings l sp m in
    let a = back top.0 (length s + 1) in (a ∷ at, (a, store_bytes top.1 a (s ++ 0 ∷ [])))

-- Words from the last to the first.
unfoldable pub push_words : List ℕ → ℕ × Mem → ℕ × Mem
push_words [] top = top
push_words (w ∷ l) top =
    let below = push_words l top in (back below.0 8, store64 below.1 (back below.0 8) w)

-- Behind the strings: the two arrays of pointers, each with its NULL, and argc.
unfoldable pub push_arrays : ℕ → List ℕ → List ℕ → ℕ × Mem → ℕ × Mem
push_arrays argc uarg uenv (sp, m) =
    push_words (argc ∷ [])
      (push_words (uarg ++ 0 ∷ []) (push_words (uenv ++ 0 ∷ []) (sp / 16 * 16, m)))

-- The stack pointer, and memory.
unfoldable pub build_user_stack : ℕ → List (List ℕ) → List (List ℕ) → Mem → Option (ℕ × Mem)
unfolding push_arrays
build_user_stack stack_top argv envp m =
    let (uenv, top) = push_strings envp stack_top m in
    let (uarg, low) = push_strings argv top.0 top.1 in
    if ltb exec_max_args (length argv) || ltb exec_max_args (length envp)
    then none
    else some (push_arrays (length argv) uarg uenv low)

length-push_strings :
    (l : List (List ℕ)) (sp : ℕ) (m : Mem) → length (push_strings l sp m).0 ≡ length l
unfolding push_strings
length-push_strings [] sp m = refl
length-push_strings (s ∷ l) sp m = ap suc (length-push_strings l sp m)

push_words-mod :
    (l : List ℕ) (top : ℕ × Mem)
    → top.0 % 8 ≡ 0
    → ((push_words l top).0 % 8 ≡ 0) × ((push_words l top).0 % 16 ≡ (top.0 + 8 * length l) % 16)
unfolding push_words
push_words-mod [] top h = (h, omega arith)
push_words-mod (w ∷ l) top h = let (a, b) = push_words-mod l top h in (omega arith, omega arith)

-- The stack pointer that a program starts with is a multiple of 16 when argc and the number of the
-- environment's strings make an odd number, and is 8 off when they make an even one: the code aligns it
-- before the pointers, and not after.
pub build_user_stack_lem :
    (stack_top : ℕ) (argv envp : List (List ℕ)) (m : Mem)
    → length argv ≤ exec_max_args
    → length envp ≤ exec_max_args
    → (t : ℕ × Mem) × (build_user_stack stack_top argv envp m ≡ some t)
      × (t.0 % 16 ≡ 8 * ((length argv + length envp + 1) % 2))
unfolding build_user_stack push_arrays
build_user_stack_lem stack_top argv envp m few_args few_env =
    let (uenv, top) = push_strings envp stack_top m in
    let (uarg, low) = push_strings argv top.0 top.1 in
    let bottom : ℕ × Mem = (low.0 / 16 * 16, low.1) in
    let one : ltb exec_max_args (length argv) ≡ false = ground arith in
    let two : ltb exec_max_args (length envp) ≡ false = ground arith in
    let e = push_words-mod (uenv ++ 0 ∷ []) bottom (omega arith) in
    let f = push_words-mod (uarg ++ 0 ∷ []) (push_words (uenv ++ 0 ∷ []) bottom) e.0 in
    let g =
      push_words-mod (length argv ∷ [])
        (push_words (uarg ++ 0 ∷ []) (push_words (uenv ++ 0 ∷ []) bottom)) f.0 in
    let env_len : length uenv ≡ length envp = length-push_strings envp stack_top m in
    let arg_len : length uarg ≡ length argv = length-push_strings argv top.0 top.1 in
    rw (one, two)
      (
        push_arrays (length argv) uarg uenv low,
        refl,
        omega (
          arith,
          e.1,
          f.1,
          g.1,
          env_len,
          arg_len,
          length-append uenv (0 ∷ []),
          length-append uarg (0 ∷ []),
        ),
      )
