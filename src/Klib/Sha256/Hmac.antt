-- ===== src/Klib/Sha256/Hmac.antt =====
-- HMAC in lib/sha256.c. `stack` and `buf` are what the stack held.
use sinux.Prelude.{
  ℕ, zero, suc, ◌+◌, ◌*◌, ◌^◌, ◌<◌, ◌≡◌, refl, ap, ◌∙◌, List, [], ◌∷◌, ◌++◌, if◌then◌else◌, ltb,
  arith, length, length-append, get_or, bit_xor,
}
use sinux.Klib.Sha256.{Ctx, digest, sha256_init, sha256_update, sha256_final, sha256_hash}
use sinux.Klib.Sha256.Stream.{sha256_init-Absorbed, sha256_update-Absorbed}
use sinux.Klib.Sha256.Padding.{sha256}
use sinux.Klib.Sha256.Final.{sha256_hash-sha256, sha256_final-Absorbed}

-- The array k: the key, or its hash, and zeros behind.
unfoldable pub hmac_key : (ℕ → ℕ) → List ℕ → ℕ → ℕ
hmac_key stack key i =
    if ltb 64 (length key) then get_or (sha256_hash stack key) i 0 else get_or key i 0

-- k_ipad and k_opad: n bytes from i on.
unfoldable pub key_pad : ℕ → ℕ → ℕ → (ℕ → ℕ) → List ℕ
key_pad zero i mask k = []
key_pad (suc n) i mask k = bit_xor (k i) mask ∷ key_pad n (i + 1) mask k

-- `sha256_init`, two calls of `sha256_update`, and `sha256_final`
unfoldable pub hash_two : (ℕ → ℕ) → List ℕ → List ℕ → List ℕ × Ctx
hash_two buf a b = sha256_final (sha256_update (sha256_update (sha256_init buf) a) b)

unfoldable pub sha256_hmac : (ℕ → ℕ) → (ℕ → ℕ) → List ℕ → List ℕ → List ℕ
sha256_hmac stack buf key msg =
    let k = hmac_key stack key in
    let (inner_hash, ctx) = hash_two buf (key_pad 64 0 54 k) msg in
    (hash_two ctx.buf (key_pad 64 0 92 k) inner_hash).0

pub hash_two-sha256 :
    (buf : ℕ → ℕ) (a b : List ℕ)
    → 8 * (length a + length b) < 2 ^ 64
    → (hash_two buf a b).0 ≡ sha256 (a ++ b)
unfolding hash_two
hash_two-sha256 buf a b small =
    let t = sha256_update-Absorbed a [] (sha256_init buf) (sha256_init-Absorbed buf) in
    sha256_final-Absorbed (a ++ b) (sha256_update (sha256_update (sha256_init buf) a) b)
      (sha256_update-Absorbed b a (sha256_update (sha256_init buf) a) t)
      (omega (arith, length-append a b))

-- A hash has 32 bytes.
pub length-sha256 : (l : List ℕ) → length (sha256 l) ≡ 32
unfolding sha256 digest
length-sha256 l = refl

length-key_pad : (n i mask : ℕ) (k : ℕ → ℕ) → length (key_pad n i mask k) ≡ n
unfolding key_pad
length-key_pad zero i mask k = refl
length-key_pad (suc n) i mask k = ap suc (length-key_pad n (i + 1) mask k)

-- RFC 2104: the key of a block, and the two hashes.
abbrev pub block_key : List ℕ → ℕ → ℕ
block_key key i = if ltb 64 (length key) then get_or (sha256 key) i 0 else get_or key i 0

abbrev pub hmac_with : (ℕ → ℕ) → List ℕ → List ℕ
hmac_with k msg = sha256 (key_pad 64 0 92 k ++ sha256 (key_pad 64 0 54 k ++ msg))

unfoldable pub hmac : List ℕ → List ℕ → List ℕ
hmac key msg = hmac_with (block_key key) msg

hmac_key-block_key :
    (stack : ℕ → ℕ) (key : List ℕ) → 8 * length key < 2 ^ 64 → hmac_key stack key ≡ block_key key
unfolding hmac_key
hmac_key-block_key stack key small =
    let pick : List ℕ → ℕ → ℕ =
      λ h i. if ltb 64 (length key) then get_or h i 0 else get_or key i 0 in
    ap pick (sha256_hash-sha256 stack key small)

-- The two hashes, with any key of a block.
hash_two-hmac_with :
    (buf : ℕ → ℕ) (k : ℕ → ℕ) (msg : List ℕ)
    → 8 * (64 + length msg) < 2 ^ 64
    → (hash_two
        (hash_two buf (key_pad 64 0 54 k) msg).1.buf
        (key_pad 64 0 92 k)
        (hash_two buf (key_pad 64 0 54 k) msg).0).0
      ≡ hmac_with k msg
hash_two-hmac_with buf k msg small =
    let inner =
      hash_two-sha256 buf (key_pad 64 0 54 k) msg (omega (arith, length-key_pad 64 0 54 k)) in
    let again = (hash_two buf (key_pad 64 0 54 k) msg).1.buf in
    ap (λ h. (hash_two again (key_pad 64 0 92 k) h).0) inner
    ∙ hash_two-sha256 again (key_pad 64 0 92 k) (sha256 (key_pad 64 0 54 k ++ msg))
        (omega (arith, length-key_pad 64 0 92 k, length-sha256 (key_pad 64 0 54 k ++ msg)))

-- `sha256_hmac` is the HMAC of RFC 2104 over SHA-256, for a key of fewer than 2^64 bits and a message
-- of fewer than 2^64 bits less a block.
pub sha256_hmac-hmac :
    (stack buf : ℕ → ℕ) (key msg : List ℕ)
    → 8 * length key < 2 ^ 64
    → 8 * (64 + length msg) < 2 ^ 64
    → sha256_hmac stack buf key msg ≡ hmac key msg
unfolding sha256_hmac hmac
sha256_hmac-hmac stack buf key msg small_key small =
    hash_two-hmac_with buf (hmac_key stack key) msg small
    ∙ ap (λ k. hmac_with k msg) (hmac_key-block_key stack key small_key)
