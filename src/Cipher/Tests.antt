-- ===== src/Cipher/Tests.antt =====
-- The cipher on concrete texts, and the theorems at inputs that meet their hypotheses.
use python_kasa.Prelude.{ℕ, ◌≡◌, refl, List, [], ◌∷◌, length, take, drop}
use python_kasa.Exec.{ok}
use python_kasa.Cipher.{encrypt, decrypt, unpack_length}
use python_kasa.Cipher.Laws.{decrypt-encrypt}

-- `{}` and an e with an acute accent
abbrev request : List ℕ
request = 0x7b ∷ 0x7d ∷ 0xe9 ∷ []

abbrev message : List ℕ
message = 0 ∷ 0 ∷ 0 ∷ 4 ∷ 208 ∷ 173 ∷ 110 ∷ 199 ∷ []

encrypt-request : encrypt request ≡ ok message
unfolding encrypt
encrypt-request = refl

decrypt-encrypt_example :
    (unpack_length (take 4 message) ≡ ok (length (drop 4 message)))
    × (decrypt (drop 4 message) ≡ ok request)
decrypt-encrypt_example = decrypt-encrypt request {message = message} encrypt-request
