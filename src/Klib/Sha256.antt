-- ===== src/Klib/Sha256.antt =====
-- lib/sha256.c, `data` as buf. A word is a number below 2^32, and bytes are numbers below 256; an array that is written
-- is a function of its index, and the arrays m and hash, filled from the front, are lists. An
-- array given with its length, and a string, is a list.
pub mod Stream
pub mod Padding
pub mod Final
pub mod Hmac
pub mod Password
pub mod Hex
use sinux.Prelude.{
  ℕ, zero, suc, ◌+◌, ◌-◌, ◌*◌, ◌/◌, ◌%◌, ◌^◌, Bool, List, [], ◌∷◌, ◌++◌, map, if◌then◌else◌, ◌&&◌,
  ltb, ◌==◌, length, get_or, replicate, update, bit_and, bit_or, bit_xor,
}

abbrev pub word : ℕ → ℕ
word n = n % 2 ^ 32

-- `ROTRIGHT`, and `~` on a word
unfoldable pub rotright : ℕ → ℕ → ℕ
rotright a b = bit_or (a / 2 ^ b) (word (a * 2 ^ (32 - b)))

abbrev pub complement : ℕ → ℕ
complement x = 2 ^ 32 - 1 - x

unfoldable pub ch : ℕ → ℕ → ℕ → ℕ
ch x y z = bit_xor (bit_and x y) (bit_and (complement x) z)

unfoldable pub maj : ℕ → ℕ → ℕ → ℕ
maj x y z = bit_xor (bit_xor (bit_and x y) (bit_and x z)) (bit_and y z)

unfoldable pub ep0 : ℕ → ℕ
ep0 x = bit_xor (bit_xor (rotright x 2) (rotright x 13)) (rotright x 22)

unfoldable pub ep1 : ℕ → ℕ
ep1 x = bit_xor (bit_xor (rotright x 6) (rotright x 11)) (rotright x 25)

unfoldable pub sig0 : ℕ → ℕ
sig0 x = bit_xor (bit_xor (rotright x 7) (rotright x 18)) (x / 2 ^ 3)

unfoldable pub sig1 : ℕ → ℕ
sig1 x = bit_xor (bit_xor (rotright x 17) (rotright x 19)) (x / 2 ^ 10)

unfoldable pub k : List ℕ
k =
    1116352408 ∷ 1899447441 ∷ 3049323471 ∷ 3921009573 ∷ 961987163 ∷ 1508970993 ∷ 2453635748
    ∷ 2870763221 ∷ 3624381080 ∷ 310598401 ∷ 607225278 ∷ 1426881987 ∷ 1925078388 ∷ 2162078206
    ∷ 2614888103 ∷ 3248222580 ∷ 3835390401 ∷ 4022224774 ∷ 264347078 ∷ 604807628 ∷ 770255983
    ∷ 1249150122 ∷ 1555081692 ∷ 1996064986 ∷ 2554220882 ∷ 2821834349 ∷ 2952996808 ∷ 3210313671
    ∷ 3336571891 ∷ 3584528711 ∷ 113926993 ∷ 338241895 ∷ 666307205 ∷ 773529912 ∷ 1294757372
    ∷ 1396182291 ∷ 1695183700 ∷ 1986661051 ∷ 2177026350 ∷ 2456956037 ∷ 2730485921 ∷ 2820302411
    ∷ 3259730800 ∷ 3345764771 ∷ 3516065817 ∷ 3600352804 ∷ 4094571909 ∷ 275423344 ∷ 430227734
    ∷ 506948616 ∷ 659060556 ∷ 883997877 ∷ 958139571 ∷ 1322822218 ∷ 1537002063 ∷ 1747873779
    ∷ 1955562222 ∷ 2024104815 ∷ 2227730452 ∷ 2361852424 ∷ 2428436474 ∷ 2756734187 ∷ 3204031479
    ∷ 3329325298 ∷ []

-- `state[8]`, and the variables a to h
pub record Regs : Type 0 where
  pub a : ℕ
  pub b : ℕ
  pub c : ℕ
  pub d : ℕ
  pub e : ℕ
  pub f : ℕ
  pub g : ℕ
  pub h : ℕ

-- `sha256_ctx_t`
pub record Ctx : Type 0 where
  pub buf : ℕ → ℕ
  pub datalen : ℕ
  pub bitlen : ℕ
  pub state : Regs

-- The first loop of `sha256_transform`: the words from byte j on, of the rounds left.
unfoldable pub load : ℕ → ℕ → (ℕ → ℕ) → List ℕ
load zero j buf = []
load (suc n) j buf =
    bit_or (bit_or (bit_or (word (buf j * 2 ^ 24)) (buf (j + 1) * 2 ^ 16)) (buf (j + 2) * 2 ^ 8))
      (buf (j + 3))
    ∷ load n (j + 4) buf

-- Its second loop, from m[i] on.
unfoldable pub extend : ℕ → ℕ → List ℕ → List ℕ
extend zero i m = m
extend (suc n) i m = extend n (i + 1) (
    m
    ++ word (
        sig1 (get_or m (i - 2) 0)
        + get_or m (i - 7) 0
        + sig0 (get_or m (i - 15) 0)
        + get_or m (i - 16) 0)
      ∷ [])

-- Its third loop, from round i on.
unfoldable pub turn : ℕ → List ℕ → Regs → Regs
turn i m s =
    let t1 = word (s.h + ep1 s.e + ch s.e s.f s.g + get_or k i 0 + get_or m i 0) in
    let t2 = word (ep0 s.a + maj s.a s.b s.c) in
    record {
      a = word (t1 + t2);
      b = s.a;
      c = s.b;
      d = s.c;
      e = word (s.d + t1);
      f = s.e;
      g = s.f;
      h = s.g;
    }

unfoldable pub turns : ℕ → ℕ → List ℕ → Regs → Regs
turns zero i m s = s
turns (suc n) i m s = turns n (i + 1) m (turn i m s)

unfoldable pub add_regs : Regs → Regs → Regs
add_regs s t = record {
  a = word (s.a + t.a);
  b = word (s.b + t.b);
  c = word (s.c + t.c);
  d = word (s.d + t.d);
  e = word (s.e + t.e);
  f = word (s.f + t.f);
  g = word (s.g + t.g);
  h = word (s.h + t.h);
}

-- What `sha256_transform` makes of `state`.
unfoldable pub compress : (ℕ → ℕ) → Regs → Regs
compress buf s = add_regs s (turns 64 0 (extend 48 16 (load 16 0 buf)) s)

abbrev pub sha256_transform : Ctx → Ctx
sha256_transform ctx = record ctx { state = compress ctx.buf ctx.state }

abbrev pub initial : Regs
initial = record {
  a = 1779033703;
  b = 3144134277;
  c = 1013904242;
  d = 2773480762;
  e = 1359893119;
  f = 2600822924;
  g = 528734635;
  h = 1541459225;
}

-- The buffer keeps what was on the stack.
abbrev pub sha256_init : (ℕ → ℕ) → Ctx
sha256_init buf = record { buf = buf; datalen = 0; bitlen = 0; state = initial }

-- A round of `sha256_update`.
unfoldable pub add_byte : Ctx → ℕ → Ctx
add_byte ctx x =
    let ctx' = record ctx { buf = update ctx.buf ctx.datalen x; datalen = ctx.datalen + 1 } in
    let full = record ctx' {
      state = compress ctx'.buf ctx'.state;
      bitlen = (ctx'.bitlen + 512) % 2 ^ 64;
      datalen = 0;
    } in
    if ctx.datalen + 1 == 64 then full else ctx'

unfoldable pub sha256_update : Ctx → List ℕ → Ctx
sha256_update ctx [] = ctx
sha256_update ctx (x ∷ l) = sha256_update (add_byte ctx x) l

-- n zeros from i on
unfoldable pub zero_fill : ℕ → ℕ → (ℕ → ℕ) → ℕ → ℕ
zero_fill zero i buf = buf
zero_fill (suc n) i buf = zero_fill n (i + 1) (update buf i 0)

-- The `if` of `sha256_final`: the mark and the zeros.
unfoldable pub close_block : Ctx → Ctx
close_block ctx =
    let i = ctx.datalen in
    let marked = update ctx.buf i 128 in
    let full = zero_fill (64 - (i + 1)) (i + 1) marked in
    if ltb i 56
    then record ctx { buf = zero_fill (56 - (i + 1)) (i + 1) marked }
    else record ctx { buf = zero_fill 56 0 full; state = compress full ctx.state }

-- The number of bits in bytes 56 to 63.
unfoldable pub put_length : ℕ → (ℕ → ℕ) → ℕ → ℕ
put_length n buf i = if ltb 55 i && ltb i 64 then n / 2 ^ (8 * (63 - i)) % 256 else buf i

unfoldable pub last_block : Ctx → Ctx
last_block ctx =
    let n = (ctx.bitlen + ctx.datalen * 8) % 2 ^ 64 in
    sha256_transform (record ctx { bitlen = n; buf = put_length n ctx.buf })

abbrev pub word_bytes : ℕ → List ℕ
word_bytes w = w / 2 ^ 24 % 256 ∷ w / 2 ^ 16 % 256 ∷ w / 2 ^ 8 % 256 ∷ w % 256 ∷ []

-- The bytes of `hash`.
unfoldable pub digest : Regs → List ℕ
digest s =
    word_bytes s.a
    ++ word_bytes s.b
    ++ word_bytes s.c
    ++ word_bytes s.d
    ++ word_bytes s.e
    ++ word_bytes s.f
    ++ word_bytes s.g
    ++ word_bytes s.h

-- The hash, and the context that it leaves.
unfoldable pub sha256_final : Ctx → List ℕ × Ctx
sha256_final ctx = let last = last_block (close_block ctx) in (digest last.state, last)

-- The stack's bytes come first.
unfoldable pub sha256_hash : (ℕ → ℕ) → List ℕ → List ℕ
sha256_hash stack buf = (sha256_final (sha256_update (sha256_init stack) buf)).0
