-- ===== src/Klib/Sha256/Stream.antt =====
-- `sha256_update` of lib/sha256.c: the blocks that it has gone through.
use sinux.Prelude.{
  ℕ, zero, suc, ◌+◌, ◌-◌, ◌*◌, ◌%◌, ◌^◌, ◌≤◌, ◌<◌, ◌≢◌, dec_lt, ◌≡◌, refl, sym, ap, ◌∙◌, inl, inr,
  List, [], ◌∷◌, ◌++◌, ◌==◌, Bool-cases, arith, length, length-append, get_or, update,
}
use mathlib.Core.List.{append_assoc, append-nil}
use sinux.Klib.Sha256.{Regs, Ctx, load, compress, initial, sha256_init, add_byte, sha256_update}

-- The reference: the state after the first n blocks of 64 bytes of a message.
abbrev pub block : List ℕ → ℕ → ℕ → ℕ
block l n i = get_or l (64 * n + i) 0

unfoldable pub after_blocks : ℕ → List ℕ → Regs
after_blocks zero l = initial
after_blocks (suc n) l = compress (block l n) (after_blocks n l)

pub load-agree :
    (n j : ℕ) (f g : ℕ → ℕ) → ((i : ℕ) → i < j + 4 * n → f i ≡ g i) → load n j f ≡ load n j g
unfolding load
load-agree zero j f g h = refl
load-agree (suc n) j f g h =
    rw
      (
        h j (omega arith),
        h (j + 1) (omega arith),
        h (j + 2) (omega arith),
        h (j + 3) (omega arith),
        load-agree n (j + 4) f g (λ i l. h i (omega arith)),
      )
      refl

-- Only the first 64 bytes of a buffer count.
pub compress-agree :
    (f g : ℕ → ℕ) (s : Regs) → ((i : ℕ) → i < 64 → f i ≡ g i) → compress f s ≡ compress g s
unfolding compress
compress-agree f g s h = rw (load-agree 16 0 f g (λ i l. h i (omega arith))) refl

pub get_or-append_left : (a b : List ℕ) (i : ℕ) → i < length a → get_or (a ++ b) i 0 ≡ get_or a i 0
get_or-append_left [] b i h = absurd (omega arith)
get_or-append_left (x ∷ a) b zero h = refl
get_or-append_left (x ∷ a) b (suc i) h = get_or-append_left a b i (omega arith)

pub get_or-append_right :
    (a b : List ℕ) (i : ℕ) → length a ≤ i → get_or (a ++ b) i 0 ≡ get_or b (i - length a) 0
get_or-append_right [] b i h = let e : i - 0 ≡ i = omega arith in rw e refl
get_or-append_right (x ∷ a) b zero h = absurd (omega arith)
get_or-append_right (x ∷ a) b (suc i) h =
    let e : suc i - suc (length a) ≡ i - length a = omega arith in
    rw e (get_or-append_right a b i (omega arith))

pub after_blocks-append :
    (n : ℕ) (a b : List ℕ) → 64 * n ≤ length a → after_blocks n (a ++ b) ≡ after_blocks n a
unfolding after_blocks
after_blocks-append zero a b h = refl
after_blocks-append (suc n) a b h = rw (after_blocks-append n a b (omega arith)) (
    compress-agree (block (a ++ b) n) (block a n) (after_blocks n a)
      (λ i l. get_or-append_left a b (64 * n + i) (omega arith)))

-- A context that has taken in the bytes l: all of their whole blocks, and the rest in its buffer.
pub record Absorbed (l : List ℕ) (ctx : Ctx) : Type 0 where
  pub count : ℕ
  pub whole : 64 * count + ctx.datalen ≡ length l
  pub room : ctx.datalen < 64
  pub bits : ctx.bitlen ≡ 512 * count % 2 ^ 64
  pub blocks : ctx.state ≡ after_blocks count l
  pub rest : (i : ℕ) → i < ctx.datalen → ctx.buf i ≡ block l count i

pub sha256_init-Absorbed : (stack : ℕ → ℕ) → Absorbed [] (sha256_init stack)
unfolding after_blocks
sha256_init-Absorbed stack = record {
  count = 0;
  whole = omega arith;
  room = omega arith;
  bits = refl;
  blocks = refl;
  rest = λ i h. absurd (omega arith);
}

module _ {l : List ℕ} {ctx : Ctx} (t : Absorbed l ctx) (x : ℕ) where
  -- The buffer with the next byte.
  next_rest :
      (i : ℕ) → i < ctx.datalen + 1 → update ctx.buf ctx.datalen x i ≡ block (l ++ x ∷ []) t.count i
  next_rest i h = elim (dec_lt i ctx.datalen) [
    | yes below ↦
        let kept = get_or-append_left l (x ∷ []) (64 * t.count + i) (omega (arith, t.whole)) in
        let old = t.rest i below in ground arith
    | no here ↦
        let at : i ≡ ctx.datalen = omega arith in
        let behind = get_or-append_right l (x ∷ []) (64 * t.count + i) (omega (arith, t.whole)) in
        let zero_left : 64 * t.count + i - length l ≡ 0 = omega (arith, t.whole) in
        let new : get_or (l ++ x ∷ []) (64 * t.count + i) 0 ≡ x = rw (behind, zero_left) refl in
        ground arith
  ]

  pub add_byte-Absorbed : Absorbed (l ++ x ∷ []) (add_byte ctx x)
  unfolding add_byte after_blocks
  add_byte-Absorbed =
      let whole = t.whole in
      let room = t.room in
      let longer = length-append l (x ∷ []) in
      let before = after_blocks-append t.count l (x ∷ []) (omega arith) in
      elim (Bool-cases (ctx.datalen + 1 == 64)) [
        | inl e ↦
            let full : ctx.datalen + 1 ≡ 64 = ground arith in
            let now =
              compress-agree (update ctx.buf ctx.datalen x) (block (l ++ x ∷ []) t.count) ctx.state
                (λ i h. next_rest i (omega arith)) in
            rw e (record {
              count = suc t.count;
              whole = omega arith;
              room = omega arith;
              bits = omega (arith, t.bits);
              blocks = now ∙ ap (compress (block (l ++ x ∷ []) t.count)) (t.blocks ∙ sym before);
              rest = λ i h. absurd (omega arith);
            })
        | inr e ↦
            let some_room : ctx.datalen + 1 ≢ 64 = ground arith in
            rw e (record {
              count = t.count;
              whole = omega arith;
              room = omega arith;
              bits = t.bits;
              blocks = t.blocks ∙ sym before;
              rest = next_rest;
            })
      ]

-- After `sha256_init` and any calls of `sha256_update`, which go byte by byte.
pub sha256_update-Absorbed :
    (m l : List ℕ) (ctx : Ctx) → Absorbed l ctx → Absorbed (l ++ m) (sha256_update ctx m)
unfolding sha256_update
sha256_update-Absorbed [] l ctx t = rw append-nil t
sha256_update-Absorbed (x ∷ m) l ctx t =
    let same : l ++ x ∷ m ≡ (l ++ x ∷ []) ++ m = rw append_assoc refl in
    rw same (sha256_update-Absorbed m (l ++ x ∷ []) (add_byte ctx x) (add_byte-Absorbed t x))
