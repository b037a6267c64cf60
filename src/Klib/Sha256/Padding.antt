-- ===== src/Klib/Sha256/Padding.antt =====
-- `sha256_final` of lib/sha256.c: the padding.
use sinux.Prelude.{
  ℕ, zero, suc, ◌+◌, ◌-◌, ◌*◌, ◌/◌, ◌%◌, ◌^◌, ◌≤◌, ◌<◌, ◌≡◌, refl, sym, ap, ◌∙◌, List, [], ◌∷◌,
  ◌++◌, if◌then◌else◌, ltb, arith, length, length-replicate, get_or, replicate, update,
}
use sinux.Klib.Sha256.{Ctx, zero_fill, digest}
use sinux.Klib.Sha256.Stream.{after_blocks, get_or-append_left, get_or-append_right, Absorbed}

-- FIPS 180-4, 5.1.1: the mark, the fewest zeros that leave 8 bytes in a block, and the number of bits.
abbrev pub zeros : ℕ → ℕ
zeros len = (119 - len % 64) % 64

abbrev pub length_bytes : ℕ → List ℕ
length_bytes n =
    n / 2 ^ 56 % 256
    ∷ n / 2 ^ 48 % 256
    ∷ n / 2 ^ 40 % 256
    ∷ n / 2 ^ 32 % 256
    ∷ n / 2 ^ 24 % 256
    ∷ n / 2 ^ 16 % 256
    ∷ n / 2 ^ 8 % 256
    ∷ n % 256
    ∷ []

abbrev pub padding : ℕ → List ℕ
padding len = 128 ∷ replicate (zeros len) 0 ++ length_bytes (8 * len)

abbrev pub padded : List ℕ → List ℕ
padded l = l ++ padding (length l)

-- The hash of a message, by blocks of the padded message.
unfoldable pub sha256 : List ℕ → List ℕ
sha256 l = digest (after_blocks (length (padded l) / 64) (padded l))

pub zero_fill-at :
    (n i : ℕ) (f : ℕ → ℕ) (j : ℕ)
    → zero_fill n i f j ≡ (if ltb j i then f j else if ltb j (i + n) then 0 else f j)
unfolding zero_fill
zero_fill-at zero i f j = ground arith
zero_fill-at (suc n) i f j = ground (arith, zero_fill-at n (i + 1) (update f i 0) j)

get_or-replicate : (n i : ℕ) → get_or {A = ℕ} (replicate n 0) i 0 ≡ 0
get_or-replicate zero i = refl
get_or-replicate (suc n) zero = refl
get_or-replicate (suc n) (suc i) = get_or-replicate n i

-- The bytes behind the message.
padding-mark : (len : ℕ) → get_or (padding len) 0 0 ≡ 128
padding-mark len = refl

pub padding-zero : (len i : ℕ) → 1 ≤ i → i < 1 + zeros len → get_or (padding len) i 0 ≡ 0
padding-zero len zero a b = absurd (omega arith)
padding-zero len (suc i) a b =
    get_or-append_left (replicate (zeros len) 0) (length_bytes (8 * len)) i (
      let e : length {A = ℕ} (replicate (zeros len) 0) ≡ zeros len =
        length-replicate (zeros len) 0 in
      omega arith)
    ∙ get_or-replicate (zeros len) i

pub padding-length :
    (len i : ℕ)
    → 1 + zeros len ≤ i
    → get_or (padding len) i 0 ≡ get_or (length_bytes (8 * len)) (i - (1 + zeros len)) 0
padding-length len zero a = absurd (omega arith)
padding-length len (suc i) a =
    let e : length {A = ℕ} (replicate (zeros len) 0) ≡ zeros len = length-replicate (zeros len) 0 in
    let same : i - length {A = ℕ} (replicate (zeros len) 0) ≡ suc i - (1 + zeros len) =
      omega arith in
    get_or-append_right (replicate (zeros len) 0) (length_bytes (8 * len)) i (omega arith)
    ∙ ap (λ x. get_or (length_bytes (8 * len)) x 0) same

length_byte : (n j : ℕ) → j < 8 → get_or (length_bytes n) j 0 ≡ n / 2 ^ (8 * (7 - j)) % 256
length_byte n zero h = refl
length_byte n (suc zero) h = refl
length_byte n (suc (suc zero)) h = refl
length_byte n (suc (suc (suc zero))) h = refl
length_byte n (suc (suc (suc (suc zero)))) h = refl
length_byte n (suc (suc (suc (suc (suc zero))))) h = refl
length_byte n (suc (suc (suc (suc (suc (suc zero)))))) h = refl
length_byte n (suc (suc (suc (suc (suc (suc (suc zero))))))) h = omega arith
length_byte n (suc (suc (suc (suc (suc (suc (suc (suc j)))))))) h = absurd (omega arith)

-- A context with the last of the message's bytes, and the buffer of its last block.
module _ {l : List ℕ} {ctx : Ctx} (t : Absorbed l ctx) (small : 8 * length l < 2 ^ 64) where
  pub padded-rest : (i : ℕ) → i < ctx.datalen → ctx.buf i ≡ get_or (padded l) (64 * t.count + i) 0
  padded-rest i h =
      t.rest i h
      ∙ sym (get_or-append_left l (padding (length l)) (64 * t.count + i) (omega (arith, t.whole)))

  pub padded-behind :
      (n i : ℕ)
      → length l ≤ n
      → get_or (padding (length l)) (n - length l) 0 ≡ i
      → get_or (padded l) n 0 ≡ i
  padded-behind n i h e = get_or-append_right l (padding (length l)) n h ∙ e

  pub bits-eq : (ctx.bitlen + ctx.datalen * 8) % 2 ^ 64 ≡ 8 * length l
  bits-eq = omega (arith, t.whole, t.bits)

  -- Where the bytes of the length stand in block b, the last.
  pub padded-last :
      (b i : ℕ)
      → 64 * b + 56 ≡ length l + 1 + zeros (length l)
      → 56 ≤ i
      → i < 64
      → get_or (padded l) (64 * b + i) 0 ≡ 8 * length l / 2 ^ (8 * (63 - i)) % 256
  padded-last b i e h k =
      let at : 64 * b + i - length l - (1 + zeros (length l)) ≡ i - 56 = omega arith in
      let same : 7 - (i - 56) ≡ 63 - i = omega arith in
      padded-behind (64 * b + i) (8 * length l / 2 ^ (8 * (63 - i)) % 256) (omega arith) (
        padding-length (length l) (64 * b + i - length l) (omega arith)
        ∙ ap (λ x. get_or (length_bytes (8 * length l)) x 0) at
        ∙ length_byte (8 * length l) (i - 56) (omega arith)
        ∙ ap (λ x. 8 * length l / 2 ^ (8 * x) % 256) same)
