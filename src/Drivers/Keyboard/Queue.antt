-- ===== src/Drivers/Keyboard/Queue.antt =====
-- The characters that drivers/keyboard.c keeps are a queue of at most 511.
use sinux.Prelude.{
  ℕ, suc, ◌+◌, ◌-◌, ◌%◌, ◌<◌, ◌≡◌, refl, ◌≢◌, ◌⊎◌, inl, inr, Bool, true, false, not, ◌&&◌, none,
  some, List, [], ◌∷◌, ◌++◌, if◌then◌else◌, ltb, lt→ltb, ◌==◌, Bool-cases, arith, span, span-put,
}
use sinux.Drivers.Keyboard.{
  Keyboard, kbuf, key_char, put_char, is_shift_down, is_shift_up, handle_keyboard, kbd_haschar,
  kbd_getc,
}

pub record IsValid (k : Keyboard) : Type 0 where
  pub head_in : k.head < kbuf
  pub tail_in : k.tail < kbuf

-- How many characters there are.
abbrev pub stored : Keyboard → ℕ
stored k = (k.head + kbuf - k.tail) % kbuf

-- The characters, oldest first.
abbrev pub contents : Keyboard → List ℕ
contents k = span kbuf k.buf k.tail (stored k)

-- The code is a key's, with a character, and there is room for it.
abbrev pub is_typed : Keyboard → ℕ → Bool
is_typed k sc =
    not (is_shift_down sc) && ltb sc 128 && not (key_char k.shift sc == 0) && ltb (stored k) 511

stored-next :
    (k : Keyboard)
    → IsValid k
    → (k.head + 1) % kbuf ≢ k.tail
    → (((k.head + 1) % kbuf + kbuf - k.tail) % kbuf ≡ suc (stored k)) × (stored k < 511)
stored-next k v ne = let a = v.head_in in let b = v.tail_in in (omega arith, omega arith)

stored-full : (k : Keyboard) → IsValid k → (k.head + 1) % kbuf ≡ k.tail → stored k ≡ 511
stored-full k v e = let a = v.head_in in let b = v.tail_in in omega arith

put_char_lem :
    (c : ℕ) (k : Keyboard)
    → IsValid k
    → IsValid (put_char c k)
      × (contents (put_char c k)
          ≡ (if not (c == 0) && ltb (stored k) 511 then contents k ++ c ∷ [] else contents k))
unfolding put_char
put_char_lem c k v = elim (Bool-cases (c == 0)) [
  | inl z ↦ rw z (v, refl)
  | inr ne ↦ elim (Bool-cases ((k.head + 1) % kbuf == k.tail)) [
    | inl full ↦ let no = stored-full k v (ground arith) in rw (ne, full, no) (v, refl)
    | inr room ↦
        let (more, few) = stored-next k v (ground arith) in
        rw (ne, room, lt→ltb (stored k) 511 few, more)
          (
            record { head_in = omega arith; tail_in = v.tail_in },
            span-put kbuf k.buf c (stored k) k.tail k.head v.tail_in (omega (arith, few))
                (omega (arith, v.head_in, v.tail_in)),
          )
  ]
]

-- `handle_keyboard` keeps the queue in bounds, and appends the character of a key that is pressed,
-- by the table that the shift key selects, if it has one and fewer than 511 wait; by any other code
-- no character comes or goes.
pub handle_keyboard_lem :
    (sc : ℕ) (k : Keyboard)
    → IsValid k
    → IsValid (handle_keyboard sc k)
      × (contents (handle_keyboard sc k)
          ≡ (if is_typed k sc then contents k ++ key_char k.shift sc ∷ [] else contents k))
unfolding handle_keyboard
handle_keyboard_lem sc k v = elim (Bool-cases (is_shift_down sc)) [
  | inl d ↦ rw d (record { head_in = v.head_in; tail_in = v.tail_in }, refl)
  | inr d ↦ elim (Bool-cases (is_shift_up sc)) [
    | inl u ↦
        let high : ltb sc 128 ≡ false = ground arith in
        rw (d, u, high) (record { head_in = v.head_in; tail_in = v.tail_in }, refl)
    | inr u ↦ elim (Bool-cases (ltb sc 128)) [
      | inl l ↦ rw (d, u, l) (put_char_lem (key_char k.shift sc) k v)
      | inr l ↦ rw (d, u, l) (v, refl)
    ]
  ]
]

stored-take :
    (k : Keyboard)
    → IsValid k
    → k.tail ≢ k.head
    → stored k ≡ suc ((k.head + kbuf - (k.tail + 1) % kbuf) % kbuf)
stored-take k v ne = let a = v.head_in in let b = v.tail_in in omega arith

-- Where no character waits, `kbd_haschar` says so and `kbd_getc` waits; else `kbd_getc` takes the
-- oldest one and keeps the queue in bounds.
pub kbd_getc_lem :
    (k : Keyboard)
    → IsValid k
    → ((contents k ≡ []) × (kbd_haschar k ≡ false) × (kbd_getc k ≡ none))
      ⊎ ((c : ℕ) × (l : Keyboard) × (kbd_haschar k ≡ true)
          × (kbd_getc k ≡ some (c, l))
          × IsValid l
          × (contents k ≡ c ∷ contents l))
unfolding kbd_haschar kbd_getc
kbd_getc_lem k v = elim (Bool-cases (k.tail == k.head)) [
  | inl e ↦
      let same : k.tail ≡ k.head = ground arith in
      let nothing : stored k ≡ 0 = omega (arith, v.head_in) in
      inl (rw nothing refl, ground arith, rw e refl)
  | inr e ↦
      let more = stored-take k v (ground arith) in
      inr (
        k.buf k.tail,
        record k { tail = (k.tail + 1) % kbuf },
        ground arith,
        rw e refl,
        record { head_in = v.head_in; tail_in = omega arith },
        rw more refl,
      )
]
