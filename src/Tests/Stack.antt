-- ===== src/Tests/Stack.antt =====
-- A program's stack, for one argument and no environment.
use sinux.Prelude.{ℕ, ◌%◌, ◌≡◌, some, List, [], ◌∷◌, arith}
use sinux.Mm.Phys.{Mem}
use sinux.Proc.UserStack.{build_user_stack, build_user_stack_lem}

abbrev no_memory : Mem
no_memory = λ a. 0

abbrev arguments : List (List ℕ)
arguments = (b'l' ∷ b's' ∷ []) ∷ []

build_user_stack_lem_example :
    (t : ℕ × Mem) × (build_user_stack 140737486258176 arguments [] no_memory ≡ some t)
    × (t.0 % 16 ≡ 0)
build_user_stack_lem_example =
    build_user_stack_lem 140737486258176 arguments [] no_memory (omega arith) (omega arith)
