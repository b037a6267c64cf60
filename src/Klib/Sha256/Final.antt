-- ===== src/Klib/Sha256/Final.antt =====
-- `sha256_final` and `sha256_hash` of lib/sha256.c against the standard's padding.
use sinux.Prelude.{
  ℕ, suc, ◌+◌, ◌-◌, ◌*◌, ◌/◌, ◌%◌, ◌^◌, ◌≤◌, ◌<◌, dec_lt, ◌≡◌, refl, sym, ap, ◌∙◌, false, List, [],
  ◌∷◌, ◌++◌, ltb, lt→ltb, arith, length, length-append, length-replicate, get_or, replicate, update,
}
use mathlib.Core.List.{append_assoc, append-nil}
use sinux.Klib.Sha256.{
  Ctx, compress, sha256_init, sha256_update, zero_fill, close_block, put_length, last_block, digest,
  sha256_final, sha256_hash,
}
use sinux.Klib.Sha256.Stream.{
  block, after_blocks, compress-agree, after_blocks-append, Absorbed, sha256_init-Absorbed,
  sha256_update-Absorbed,
}
use sinux.Klib.Sha256.Padding.{
  zeros, padding, padded, length_bytes, sha256, zero_fill-at, padding-zero, padded-rest,
  padded-behind, bits-eq, padded-last,
}

put_length-below : (n : ℕ) (f : ℕ → ℕ) (i : ℕ) → i < 56 → put_length n f i ≡ f i
unfolding put_length
put_length-below n f i h = ground arith

put_length-above :
    (n : ℕ) (f : ℕ → ℕ) (i : ℕ) → 56 ≤ i → i < 64 → put_length n f i ≡ n / 2 ^ (8 * (63 - i)) % 256
unfolding put_length
put_length-above n f i h k = ground arith

module _ {l : List ℕ} {ctx : Ctx} (t : Absorbed l ctx) (small : 8 * length l < 2 ^ 64) where
  -- The mark, and n zeros behind it.
  marked :
      (n i : ℕ)
      → i < ctx.datalen + 1 + n
      → n ≤ zeros (length l)
      → zero_fill n (ctx.datalen + 1) (update ctx.buf ctx.datalen 128) i
        ≡ get_or (padded l) (64 * t.count + i) 0
  marked n i h k =
      zero_fill-at n (ctx.datalen + 1) (update ctx.buf ctx.datalen 128) i
      ∙ elim (dec_lt i ctx.datalen) [
        | yes below ↦ let old = padded-rest t small i below in ground arith
        | no above ↦
            let whole = t.whole in
            elim (dec_lt ctx.datalen i) [
              | yes behind ↦
                  let nil = padded-behind t small (64 * t.count + i) 0 (omega arith) (
                    padding-zero (length l) (64 * t.count + i - length l) (omega arith)
                      (omega arith)) in
                  ground arith
              | no here ↦
                  let at : 64 * t.count + i - length l ≡ 0 = omega arith in
                  let mark =
                    padded-behind t small (64 * t.count + i) 128 (omega arith)
                      (ap (λ j. get_or (padding (length l)) j 0) at) in
                  ground arith
            ]
      ]

  -- Block b, if its last 8 bytes are the length's.
  with_length :
      (b : ℕ) (f : ℕ → ℕ)
      → 64 * b + 56 ≡ length l + 1 + zeros (length l)
      → ((i : ℕ) → i < 56 → f i ≡ get_or (padded l) (64 * b + i) 0)
      → (i : ℕ) → i < 64
      → put_length (8 * length l) f i ≡ block (padded l) b i
  with_length b f e below i h = elim (dec_lt i 56) [
    | yes j ↦ put_length-below (8 * length l) f i j ∙ below i j
    | no j ↦
        put_length-above (8 * length l) f i (omega arith) h
        ∙ sym (padded-last t small b i e (omega arith) h)
  ]

  length-padded : length (padded l) ≡ length l + 1 + zeros (length l) + 8
  length-padded =
      let fill : length {A = ℕ} (replicate (zeros (length l)) 0) ≡ zeros (length l) =
        length-replicate (zeros (length l)) 0 in
      let tail = length-append (replicate (zeros (length l)) 0) (length_bytes (8 * length l)) in
      omega (arith, length-append l (padding (length l)), tail, fill)

  -- The blocks before the last ones are the message's.
  blocks_before : ctx.state ≡ after_blocks t.count (padded l)
  blocks_before =
      t.blocks ∙ sym (after_blocks-append t.count l (padding (length l)) (omega (arith, t.whole)))

  -- A buffer of fewer than 56 bytes is the last block, with the padding.
  final_short :
      ctx.datalen < 56
      → (last_block (close_block ctx)).state ≡ after_blocks (length (padded l) / 64) (padded l)
  unfolding last_block close_block after_blocks
  final_short h =
      let n = 56 - (ctx.datalen + 1) in
      let buf = zero_fill n (ctx.datalen + 1) (update ctx.buf ctx.datalen 128) in
      let whole = t.whole in
      let closed : close_block ctx ≡ record ctx { buf = buf } = rw (lt→ltb ctx.datalen 56 h) refl in
      let number : length (padded l) / 64 ≡ suc t.count = omega (arith, length-padded) in
      let body =
        with_length t.count buf (omega arith) (λ i j. marked n i (omega arith) (omega arith)) in
      rw (closed, bits-eq t small, number)
        (compress-agree (put_length (8 * length l) buf) (block (padded l) t.count) ctx.state body
          ∙ ap (compress (block (padded l) t.count)) blocks_before)

  -- From 56 bytes on the mark ends this block, and the length is in one of its own.
  final_long :
      56 ≤ ctx.datalen
      → (last_block (close_block ctx)).state ≡ after_blocks (length (padded l) / 64) (padded l)
  unfolding last_block close_block after_blocks
  final_long h =
      let n = 64 - (ctx.datalen + 1) in
      let buf = zero_fill n (ctx.datalen + 1) (update ctx.buf ctx.datalen 128) in
      let last = zero_fill 56 0 buf in
      let whole = t.whole in
      let room = t.room in
      let long : ltb ctx.datalen 56 ≡ false = ground arith in
      let closed : close_block ctx ≡ record ctx { buf = last; state = compress buf ctx.state } =
        rw long refl in
      let number : length (padded l) / 64 ≡ suc (suc t.count) = omega (arith, length-padded) in
      let this =
        compress-agree buf (block (padded l) t.count) ctx.state
          (λ i j. marked n i (omega arith) (omega arith))
        ∙ ap (compress (block (padded l) t.count)) blocks_before in
      let body = with_length (suc t.count) last (omega arith) (λ i j.
        let nil =
          padded-behind t small (64 * suc t.count + i) 0 (omega arith) (
            padding-zero (length l) (64 * suc t.count + i - length l) (omega arith)
              (omega arith)) in
        let z = zero_fill-at 56 0 buf i in ground arith) in
      rw (closed, bits-eq t small, number)
        (compress-agree (put_length (8 * length l) last) (block (padded l) (suc t.count))
            (compress buf ctx.state) body
          ∙ ap (compress (block (padded l) (suc t.count))) this)

-- The hash of a context that has taken in a message.
pub sha256_final-Absorbed :
    (l : List ℕ) (ctx : Ctx)
    → Absorbed l ctx
    → 8 * length l < 2 ^ 64
    → (sha256_final ctx).0 ≡ sha256 l
unfolding sha256_final sha256
sha256_final-Absorbed l ctx t small = ap digest (elim (dec_lt ctx.datalen 56) [
  | yes h ↦ final_short t small h
  | no h ↦ final_long t small (omega arith)
])

-- The calls of `sha256_update` for the parts of a message, one after the other.
abbrev pub update_all : Ctx → List (List ℕ) → Ctx
update_all ctx [] = ctx
update_all ctx (part ∷ parts) = update_all (sha256_update ctx part) parts

abbrev concat : List (List ℕ) → List ℕ
concat [] = []
concat (part ∷ parts) = part ++ concat parts

update_all-Absorbed :
    (parts : List (List ℕ)) (l : List ℕ) (ctx : Ctx)
    → Absorbed l ctx
    → Absorbed (l ++ concat parts) (update_all ctx parts)
update_all-Absorbed [] l ctx t = rw append-nil t
update_all-Absorbed (part ∷ parts) l ctx t =
    let same : l ++ (part ++ concat parts) ≡ (l ++ part) ++ concat parts = rw append_assoc refl in
    rw same (
      update_all-Absorbed parts (l ++ part) (sha256_update ctx part)
        (sha256_update-Absorbed part l ctx t))

-- After `sha256_init`, whatever the stack held, and `sha256_update` for each part of a message of
-- fewer than 2^64 bits, however it is cut into parts, `sha256_final` gives the standard's hash of the
-- whole message: the padded message goes through `sha256_transform` block by block.
pub sha256_final-update :
    (stack : ℕ → ℕ) (parts : List (List ℕ))
    → 8 * length (concat parts) < 2 ^ 64
    → (sha256_final (update_all (sha256_init stack) parts)).0 ≡ sha256 (concat parts)
sha256_final-update stack parts small =
    sha256_final-Absorbed (concat parts) (update_all (sha256_init stack) parts)
      (update_all-Absorbed parts [] (sha256_init stack) (sha256_init-Absorbed stack)) small

-- `sha256_hash` of a message of fewer than 2^64 bits is the standard's hash, by blocks of the padded
-- message, whatever the stack held.
pub sha256_hash-sha256 :
    (stack : ℕ → ℕ) (l : List ℕ) → 8 * length l < 2 ^ 64 → sha256_hash stack l ≡ sha256 l
unfolding sha256_hash
sha256_hash-sha256 stack l small =
    sha256_final-Absorbed l (sha256_update (sha256_init stack) l)
      (sha256_update-Absorbed l [] (sha256_init stack) (sha256_init-Absorbed stack)) small
