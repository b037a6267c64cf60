-- ===== src/Klib/Sha256/Hex.antt =====
-- `sha256_to_hex` of lib/sha256.c.
use sinux.Prelude.{
  ℕ, ◌+◌, ◌-◌, ◌*◌, ◌/◌, ◌%◌, ◌<◌, ◌≡◌, refl, List, [], ◌∷◌, if◌then◌else◌, ltb, arith,
}

-- `hex[]`: digit n is '0' + n, and from 10 on 'a' + n - 10.
abbrev pub hex_digit : ℕ → ℕ
hex_digit n = if ltb n 10 then b'0' + n else b'a' + (n - 10)

unfoldable pub sha256_to_hex : List ℕ → List ℕ
sha256_to_hex [] = []
sha256_to_hex (b ∷ hash) = hex_digit (b / 16 % 16) ∷ hex_digit (b % 16) ∷ sha256_to_hex hash

-- Reading digits.
abbrev pub digit_value : ℕ → ℕ
digit_value c = if ltb c b'a' then c - b'0' else c - b'a' + 10

abbrev pub of_hex : List ℕ → List ℕ
of_hex [] = []
of_hex (c ∷ []) = []
of_hex (c ∷ d ∷ l) = (digit_value c * 16 + digit_value d) ∷ of_hex l

abbrev pub AllBytes : List ℕ → Type 0
AllBytes [] = Unit
AllBytes (b ∷ l) = (b < 256) × AllBytes l

digit_value-hex_digit : (n : ℕ) → n < 16 → digit_value (hex_digit n) ≡ n
digit_value-hex_digit n h = ground arith

-- Reading the digits of a hash gives its bytes again, so that different hashes have different texts.
pub of_hex-sha256_to_hex : (hash : List ℕ) → AllBytes hash → of_hex (sha256_to_hex hash) ≡ hash
unfolding sha256_to_hex
of_hex-sha256_to_hex [] h = refl
of_hex-sha256_to_hex (b ∷ hash) (h, r) =
    let high = digit_value-hex_digit (b / 16 % 16) (omega arith) in
    let low = digit_value-hex_digit (b % 16) (omega arith) in
    let whole : b / 16 % 16 * 16 + b % 16 ≡ b = omega arith in
    rw (high, low, whole, of_hex-sha256_to_hex hash r) refl
