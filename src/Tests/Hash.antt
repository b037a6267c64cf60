-- ===== src/Tests/Hash.antt =====
-- lib/sha256.c on short texts.
use sinux.Prelude.{ℕ, ◌≡◌, ◌↔◌, true, some, List, [], ◌∷◌, arith}
use sinux.Klib.Sha256.{sha256_init, sha256_final}
use sinux.Klib.Sha256.Padding.{sha256}
use sinux.Klib.Sha256.Final.{update_all, sha256_final-update}
use sinux.Klib.Sha256.Hmac.{sha256_hmac, hmac, sha256_hmac-hmac}
use sinux.Klib.Sha256.Password.{sha256_verify, password_hash, sha256_verify_iff}

abbrev stack : ℕ → ℕ
stack = λ i. 7

abbrev text : List ℕ
text = b'a' ∷ b'b' ∷ b'c' ∷ []

-- "abc", in two calls.
sha256_final-update_example :
    (sha256_final (update_all (sha256_init stack) ((b'a' ∷ []) ∷ (b'b' ∷ b'c' ∷ []) ∷ []))).0
    ≡ sha256 text
sha256_final-update_example =
    sha256_final-update stack ((b'a' ∷ []) ∷ (b'b' ∷ b'c' ∷ []) ∷ []) (omega arith)

sha256_hmac-hmac_example : sha256_hmac stack stack text text ≡ hmac text text
sha256_hmac-hmac_example = sha256_hmac-hmac stack stack text text (omega arith) (omega arith)

sha256_verify_iff_example :
    (sha256_verify stack text (b'0' ∷ 0 ∷ 9 ∷ []) ≡ some true) ↔ ((b'0' ∷ []) ≡ password_hash text)
sha256_verify_iff_example =
    sha256_verify_iff stack text (b'0' ∷ []) (9 ∷ []) (omega arith) (omega arith, record {})
