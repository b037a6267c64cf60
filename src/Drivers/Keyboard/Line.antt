-- ===== src/Drivers/Keyboard/Line.antt =====
-- The line editor of drivers/keyboard.c.
use sinux.Prelude.{
  ℕ, ◌+◌, ◌-◌, ◌≤◌, ◌<◌, ◌≡◌, refl, inl, inr, Bool, true, false, not, ◌&&◌, ◌||◌, some, List, [],
  ◌∷◌, ◌++◌, ltb, ◌==◌, Bool-cases, arith, length,
}
use sinux.Drivers.Keyboard.{drop_last, line_from, kbd_readline}

-- Enter is among the characters.
abbrev pub has_enter : List ℕ → Bool
has_enter [] = false
has_enter (c ∷ s) = c == 10 || has_enter s

-- Neither Enter nor Backspace is.
abbrev pub is_plain : List ℕ → Bool
is_plain [] = true
is_plain (c ∷ s) = not (c == 10) && not (c == 8) && is_plain s

is_plain-append : (b : List ℕ) (c : ℕ) → is_plain (b ++ c ∷ []) ≡ (is_plain b && is_plain (c ∷ []))
is_plain-append [] c = refl
is_plain-append (d ∷ b) c = ground (arith, is_plain-append b c)

length-append-one : (b : List ℕ) (c : ℕ) → length (b ++ c ∷ []) ≡ length b + 1
length-append-one [] c = refl
length-append-one (d ∷ b) c = omega (arith, length-append-one b c)

drop_last_lem :
    (b : List ℕ)
    → (length (drop_last b) ≤ length b) × (is_plain b ≡ true → is_plain (drop_last b) ≡ true)
drop_last_lem [] = (omega arith, λ h. h)
drop_last_lem (c ∷ []) = (omega arith, λ h. refl)
drop_last_lem (c ∷ d ∷ b) =
    let (a, h) = drop_last_lem (d ∷ b) in (omega (arith, a), λ e. ground (arith, h))

-- A line that fits, with room for its NUL, and without control characters of the editor.
abbrev pub IsLine : ℕ → List ℕ → Type 0
IsLine max b = (length b < max) × (is_plain b ≡ true)

line_from-ends :
    (max : ℕ) (b s : List ℕ)
    → IsLine max b
    → has_enter s ≡ true
    → (l : List ℕ) × (r : List ℕ) × (line_from max b s ≡ some (l, r)) × IsLine max l
unfolding line_from
line_from-ends max b [] fits h = cc
line_from-ends max b (c ∷ s) fits h = elim (Bool-cases (ltb (length b) (max - 1))) [
  | inr full ↦ (b, c ∷ s, rw full refl, fits)
  | inl room ↦ elim (Bool-cases (c == 10)) [
    | inl enter ↦ (b, s, rw (room, enter) refl, fits)
    | inr other ↦ elim (Bool-cases (c == 8)) [
      | inl back ↦
          let (a, p) = drop_last_lem b in
          rw (room, other, back)
            (line_from-ends max (drop_last b) s (omega (arith, a, fits.0), p fits.1) (ground arith))
      | inr typed ↦
          rw (room, other, typed)
            (line_from-ends max (b ++ c ∷ []) s
              (ground (arith, length-append-one b c), ground (arith, is_plain-append b c, fits.1))
              (ground arith))
    ]
  ]
]

-- If Enter is among the characters to come, and the buffer has a byte or more, `kbd_readline` ends;
-- the line and its NUL fit in the buffer, and no Enter or Backspace is left in the line.
pub kbd_readline-IsLine :
    (max : ℕ) (s : List ℕ)
    → 1 ≤ max
    → has_enter s ≡ true
    → (l : List ℕ) × (r : List ℕ) × (kbd_readline max s ≡ some (l, r)) × IsLine max l
unfolding kbd_readline
kbd_readline-IsLine max s h e = line_from-ends max [] s (omega arith, refl) e
