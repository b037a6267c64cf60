-- ===== src/Drivers/Keyboard.antt =====
-- drivers/keyboard.c: scan codes to characters, the ring of characters that the interrupt handler
-- fills, and the line editor. A scan code is what `inb(0x60)` gives; the echo on the screen is not
-- modelled.
pub mod Queue
pub mod Line
use sinux.Prelude.{
  ℕ, zero, suc, ◌+◌, ◌-◌, ◌%◌, Bool, true, false, not, ◌&&◌, ◌||◌, Option, none, some, List, [],
  ◌∷◌, ◌++◌, if◌then◌else◌, ltb, ◌==◌, length, get_or, update,
}

-- The tables, up to their last entry that is not 0. 8 is '\b', 9 is '\t', 10 is '\n', 27 is Escape,
-- 34 and 39 are quotes, 92 is '\\'.
abbrev pub sc_normal : List ℕ
sc_normal =
    0 ∷ 27 ∷ b'1' ∷ b'2' ∷ b'3' ∷ b'4' ∷ b'5' ∷ b'6' ∷ b'7' ∷ b'8' ∷ b'9' ∷ b'0' ∷ b'-' ∷ b'=' ∷ 8
    ∷ 9 ∷ b'q' ∷ b'w' ∷ b'e' ∷ b'r' ∷ b't' ∷ b'y' ∷ b'u' ∷ b'i' ∷ b'o' ∷ b'p' ∷ b'[' ∷ b']' ∷ 10 ∷ 0
    ∷ b'a' ∷ b's' ∷ b'd' ∷ b'f' ∷ b'g' ∷ b'h' ∷ b'j' ∷ b'k' ∷ b'l' ∷ b';' ∷ 39 ∷ b'`' ∷ 0 ∷ 92
    ∷ b'z' ∷ b'x' ∷ b'c' ∷ b'v' ∷ b'b' ∷ b'n' ∷ b'm' ∷ b',' ∷ b'.' ∷ b'/' ∷ 0 ∷ b'*' ∷ 0 ∷ b' ' ∷ []

abbrev pub sc_shift : List ℕ
sc_shift =
    0 ∷ 27 ∷ b'!' ∷ b'@' ∷ b'#' ∷ b'$' ∷ b'%' ∷ b'^' ∷ b'&' ∷ b'*' ∷ b'(' ∷ b')' ∷ b'_' ∷ b'+' ∷ 8
    ∷ 9 ∷ b'Q' ∷ b'W' ∷ b'E' ∷ b'R' ∷ b'T' ∷ b'Y' ∷ b'U' ∷ b'I' ∷ b'O' ∷ b'P' ∷ b'{' ∷ b'}' ∷ 10 ∷ 0
    ∷ b'A' ∷ b'S' ∷ b'D' ∷ b'F' ∷ b'G' ∷ b'H' ∷ b'J' ∷ b'K' ∷ b'L' ∷ b':' ∷ 34 ∷ b'~' ∷ 0 ∷ b'|'
    ∷ b'Z' ∷ b'X' ∷ b'C' ∷ b'V' ∷ b'B' ∷ b'N' ∷ b'M' ∷ b'<' ∷ b'>' ∷ b'?' ∷ 0 ∷ b'*' ∷ 0 ∷ b' ' ∷ []

abbrev pub kbuf : ℕ
kbuf = 512

pub record Keyboard : Type 0 where
  pub buf : ℕ → ℕ
  pub head : ℕ
  pub tail : ℕ
  pub shift : Bool

-- `shift ? sc_shift[sc] : sc_normal[sc]`
unfoldable pub key_char : Bool → ℕ → ℕ
key_char sh sc = if sh then get_or sc_shift sc 0 else get_or sc_normal sc 0

unfoldable pub put_char : ℕ → Keyboard → Keyboard
put_char c k =
    let next = (k.head + 1) % kbuf in
    if c == 0
    then k
    else if next == k.tail
    then k
    else record k { buf = update k.buf k.head c; head = next }

abbrev pub is_shift_down : ℕ → Bool
is_shift_down sc = sc == 0x2a || sc == 0x36

abbrev pub is_shift_up : ℕ → Bool
is_shift_up sc = sc == 0xaa || sc == 0xb6

unfoldable pub handle_keyboard : ℕ → Keyboard → Keyboard
handle_keyboard sc k =
    if is_shift_down sc
    then record k { shift = true }
    else if is_shift_up sc
    then record k { shift = false }
    else if ltb sc 128
    then put_char (key_char k.shift sc) k
    else k

unfoldable pub kbd_haschar : Keyboard → Bool
kbd_haschar k = not (k.head == k.tail)

-- `none` is a reader that waits for a key.
unfoldable pub kbd_getc : Keyboard → Option (ℕ × Keyboard)
kbd_getc k =
    if k.tail == k.head then none else some (k.buf k.tail, record k { tail = (k.tail + 1) % kbuf })

abbrev pub drop_last : List ℕ → List ℕ
drop_last [] = []
drop_last (c ∷ []) = []
drop_last (c ∷ d ∷ l) = c ∷ drop_last (d ∷ l)

-- The loop of `kbd_readline`: the bytes of b that are written, and the characters that `kbd_getc`
-- still gives. `none` is a reader that waits.
unfoldable pub line_from : ℕ → List ℕ → List ℕ → Option (List ℕ × List ℕ)
line_from max b [] = if ltb (length b) (max - 1) then none else some (b, [])
line_from max b (c ∷ s) =
    let erased = line_from max (drop_last b) s in
    let typed = line_from max (b ++ c ∷ []) s in
    if ltb (length b) (max - 1)
    then if c == 10 then some (b, s) else if c == 8 then erased else typed
    else some (b, c ∷ s)

-- The line, before its NUL, and the characters that are left.
unfoldable pub kbd_readline : ℕ → List ℕ → Option (List ℕ × List ℕ)
unfolding line_from
kbd_readline max s = line_from max [] s
