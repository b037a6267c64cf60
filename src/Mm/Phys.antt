-- ===== src/Mm/Phys.antt =====
-- Physical memory, identity-mapped, as the kernel reads and writes it: bytes at addresses, words
-- little-endian. Bits of one byte.
use sinux.Prelude.{
  ℕ, ◌+◌, ◌-◌, ◌*◌, ◌/◌, ◌%◌, ◌^◌, ◌<◌, ◌≡◌, refl, Bool, true, false, ◌&&◌, ◌||◌, not, arith,
  bit_and, bit_or, holds_below, holds_below-at, ltb, leb, ◌==◌, if◌then◌else◌,
}

abbrev pub Mem : Type 0
Mem = ℕ → ℕ

abbrev pub page_size : ℕ
page_size = 4096

abbrev pub u64 : ℕ → ℕ
u64 n = n % 2 ^ 64

-- `& ~(uint64_t)(PAGE_SIZE - 1)`
abbrev pub page_down : ℕ → ℕ
page_down n = n / 4096 * 4096

-- `(n + PAGE_SIZE - 1) & ~(uint64_t)(PAGE_SIZE - 1)`
abbrev pub page_up : ℕ → ℕ
page_up n = page_down (u64 (n + 4095))

abbrev pub read32 : Mem → ℕ → ℕ
read32 m a = m a + 256 * m (a + 1) + 65536 * m (a + 2) + 16777216 * m (a + 3)

abbrev pub read64 : Mem → ℕ → ℕ
read64 m a = read32 m a + 2 ^ 32 * read32 m (a + 4)

abbrev pub poke : Mem → ℕ → ℕ → Mem
poke m a v b = if a == b then v else m b

-- `kmemset(a, v, n)`
abbrev pub fill : Mem → ℕ → ℕ → ℕ → Mem
fill m a v n b = if leb a b && ltb b (a + n) then v else m b

-- `(b >> k) & 1u`
unfoldable pub bit_test : ℕ → ℕ → Bool
bit_test b k = b / 2 ^ k % 2 == 1

-- `b | (uint8_t)(1u << k)`
unfoldable pub bit_set : ℕ → ℕ → ℕ
bit_set b k = bit_or b (2 ^ k)

-- `b & (uint8_t)~(1u << k)`
unfoldable pub bit_clear : ℕ → ℕ → ℕ
bit_clear b k = bit_and b (255 - 2 ^ k)

beq : Bool → Bool → Bool
beq a b = if a then b else not b

set_row : ℕ → ℕ → ℕ → Bool
set_row b k j = beq (bit_test (bit_set b k) j) ((k == j) || bit_test b j)

set_table : holds_below 256 (λ b. holds_below 8 (λ k. holds_below 8 (λ j. set_row b k j))) ≡ true
unfolding holds_below set_row beq bit_test bit_set
set_table = refl

clear_row : ℕ → ℕ → ℕ → Bool
clear_row b k j = beq (bit_test (bit_clear b k) j) (not (k == j) && bit_test b j)

clear_table :
    holds_below 256 (λ b. holds_below 8 (λ k. holds_below 8 (λ j. clear_row b k j))) ≡ true
unfolding holds_below clear_row beq bit_test bit_clear
clear_table = refl

-- Clearing a bit that was just set, in a byte where it was clear, gives the byte back.
undo_row : ℕ → ℕ → Bool
undo_row b k = bit_test b k || (bit_clear (bit_set b k) k == b)

undo_table : holds_below 256 (λ b. holds_below 8 (λ k. undo_row b k)) ≡ true
unfolding holds_below undo_row bit_test bit_set bit_clear
undo_table = refl

byte_row : ℕ → ℕ → Bool
byte_row b k = ltb (bit_set b k) 256 && ltb (bit_clear b k) 256

byte_table : holds_below 256 (λ b. holds_below 8 (λ k. byte_row b k)) ≡ true
unfolding holds_below byte_row bit_set bit_clear
byte_table = refl

ones_table : holds_below 8 (λ k. bit_test 255 k) ≡ true
unfolding holds_below bit_test
ones_table = refl

in_table :
    (f : ℕ → ℕ → Bool) (b k : ℕ)
    → holds_below 256 (λ b. holds_below 8 (λ k. f b k)) ≡ true
    → b < 256
    → k < 8
    → f b k ≡ true
in_table f b k t hb hk = holds_below-at 8 _ k (holds_below-at 256 _ b t hb) hk

pub bit_test-set :
    (b k j : ℕ) → b < 256 → k < 8 → j < 8 → bit_test (bit_set b k) j ≡ ((k == j) || bit_test b j)
unfolding set_row beq
bit_test-set b k j hb hk hj =
    let h : set_row b k j ≡ true =
      holds_below-at 8 _ j
        (in_table (λ b k. holds_below 8 (λ j. set_row b k j)) b k set_table hb hk) hj in
    ground arith

pub bit_test-clear :
    (b k j : ℕ)
    → b < 256
    → k < 8
    → j < 8
    → bit_test (bit_clear b k) j ≡ (not (k == j) && bit_test b j)
unfolding clear_row beq
bit_test-clear b k j hb hk hj =
    let h : clear_row b k j ≡ true =
      holds_below-at 8 _ j
        (in_table (λ b k. holds_below 8 (λ j. clear_row b k j)) b k clear_table hb hk) hj in
    ground arith

pub bit_clear-set :
    (b k : ℕ) → b < 256 → k < 8 → bit_test b k ≡ false → bit_clear (bit_set b k) k ≡ b
unfolding undo_row
bit_clear-set b k hb hk e = ground (arith, in_table undo_row b k undo_table hb hk)

pub bit_set-lt : (b k : ℕ) → b < 256 → k < 8 → bit_set b k < 256
unfolding byte_row
bit_set-lt b k hb hk = ground (arith, in_table byte_row b k byte_table hb hk)

pub bit_clear-lt : (b k : ℕ) → b < 256 → k < 8 → bit_clear b k < 256
unfolding byte_row
bit_clear-lt b k hb hk = ground (arith, in_table byte_row b k byte_table hb hk)

pub bit_test-ones : (k : ℕ) → k < 8 → bit_test 255 k ≡ true
bit_test-ones k h = holds_below-at 8 bit_test_ones k ones_table h
  where
    bit_test_ones : ℕ → Bool
    bit_test_ones k = bit_test 255 k
