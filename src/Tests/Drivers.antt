-- ===== src/Tests/Drivers.antt =====
-- The keyboard with two characters that wait.
use sinux.Prelude.{ℕ, ◌≡◌, refl, true, some, List, [], ◌∷◌, arith}
use sinux.Drivers.Keyboard.{Keyboard, kbd_readline}
use sinux.Drivers.Keyboard.Queue.{IsValid}
use sinux.Drivers.Keyboard.Line.{IsLine, kbd_readline-IsLine}

-- Round the end of the ring.
abbrev keys : Keyboard
keys = record { buf = λ i. i; head = 1; tail = 511; shift = true }

keys-IsValid : IsValid keys
keys-IsValid = record { head_in = omega arith; tail_in = omega arith }

abbrev typed : List ℕ
typed = b'l' ∷ b'x' ∷ 8 ∷ b's' ∷ 10 ∷ b'q' ∷ []

kbd_readline-IsLine_example :
    (l : List ℕ) × (r : List ℕ) × (kbd_readline 4 typed ≡ some (l, r)) × IsLine 4 l
kbd_readline-IsLine_example = kbd_readline-IsLine 4 typed (omega arith) refl
