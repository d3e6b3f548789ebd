-- ===== src/Cipher/Laws.antt =====
-- The cipher undoes itself, byte by byte and message by message.
use python_kasa.Prelude.{
  ℕ, ◌+◌, ◌/◌, ◌%◌, ◌^◌, ◌<◌, ◌≡◌, refl, ap, ap₂, bit_xor, List, [], ◌∷◌, ◌++◌, length, All, arith,
  lt→ltb, subst, drop, take,
}
use python_kasa.Prelude.Bits.{bit_xor_cancel, bit_xor-lt}
use python_kasa.Exec.{ok, >>=-eq-ok, ok-injective}
use python_kasa.Cipher.{
  initialization_vector, xor_payload_from, xor_payload, xor_encrypted_payload_from, pack_length,
  unpack_length, encrypt, decrypt,
}
use python_kasa.Cipher.Utf8.{encode, decode-encode, encode-bytes}

-- The receiver's generator undoes the sender's, from any key.
pub xor_encrypted_payload_from-xor_payload_from :
    (key : ℕ) (bs : List ℕ) → xor_encrypted_payload_from key (xor_payload_from key bs) ≡ bs
unfolding xor_payload_from xor_encrypted_payload_from
xor_encrypted_payload_from-xor_payload_from key [] = refl
xor_encrypted_payload_from-xor_payload_from key (b ∷ bs) =
    ap₂ ◌∷◌ (bit_xor_cancel key b) (xor_encrypted_payload_from-xor_payload_from (bit_xor key b) bs)

-- And the sender's undoes the receiver's: no two ciphertexts have one plaintext.
pub xor_payload_from-xor_encrypted_payload_from :
    (key : ℕ) (cs : List ℕ) → xor_payload_from key (xor_encrypted_payload_from key cs) ≡ cs
unfolding xor_payload_from xor_encrypted_payload_from
xor_payload_from-xor_encrypted_payload_from key [] = refl
xor_payload_from-xor_encrypted_payload_from key (c ∷ cs) =
    rw (bit_xor_cancel key c) (ap (◌∷◌ c) (xor_payload_from-xor_encrypted_payload_from c cs))

length-xor_payload_from : (key : ℕ) (bs : List ℕ) → length (xor_payload_from key bs) ≡ length bs
unfolding xor_payload_from
length-xor_payload_from key [] = refl
length-xor_payload_from key (b ∷ bs) = omega (arith, length-xor_payload_from (bit_xor key b) bs)

-- `bytes` accepts what the generator yields: from a byte as the key and bytes as the payload
-- come bytes.
pub xor_payload_from-bytes :
    (key : ℕ) (bs : List ℕ)
    → key < 2 ^ 8
    → All (λ b. b < 2 ^ 8) bs
    → All (λ b. b < 2 ^ 8) (xor_payload_from key bs)
unfolding xor_payload_from
xor_payload_from-bytes key [] k h = tt
xor_payload_from-bytes key (b ∷ bs) k h =
    let k' = bit_xor-lt 8 key b k h.0 in (k', xor_payload_from-bytes (bit_xor key b) bs k' h.1)

unpack_length-pack_length :
    (n : ℕ) {block : List ℕ} → pack_length n ≡ ok block → unpack_length block ≡ ok n
unfolding pack_length unpack_length
unpack_length-pack_length n h = ground arith

-- Whatever `unpack_length` accepts is four bytes long.
split_block :
    (block rest : List ℕ) {n : ℕ}
    → unpack_length block ≡ ok n
    → (take 4 (block ++ rest) ≡ block) × (drop 4 (block ++ rest) ≡ rest)
unfolding unpack_length
split_block [] rest h = cc
split_block (a ∷ []) rest h = cc
split_block (a ∷ b ∷ []) rest h = cc
split_block (a ∷ b ∷ c ∷ []) rest h = cc
split_block (a ∷ b ∷ c ∷ d ∷ []) rest h = (refl, refl)
split_block (a ∷ b ∷ c ∷ d ∷ e ∷ block) rest h = cc

-- What the receiver makes of the block and the ciphertext.
Readable : List ℕ → List ℕ → Type 0
Readable request message =
    (unpack_length (take 4 message) ≡ ok (length (drop 4 message)))
    × (decrypt (drop 4 message) ≡ ok request)

Readable-parts :
    (request plain block : List ℕ)
    → encode request ≡ ok plain
    → pack_length (length plain) ≡ ok block
    → Readable request (block ++ xor_payload plain)
unfolding Readable decrypt xor_payload
Readable-parts request plain block encoded packed =
    let known = unpack_length-pack_length (length plain) packed in
    let (front, back) = split_block block (xor_payload plain) known in
    let size = length-xor_payload_from initialization_vector plain in
    let undone = xor_encrypted_payload_from-xor_payload_from initialization_vector plain in
    rw (front, back) (rw (size, undone) (known, decode-encode request encoded))

-- The message that `encrypt` makes is a block of four bytes that holds the length of the rest,
-- and a rest that `decrypt` turns back into the request.
pub decrypt-encrypt :
    (request : List ℕ) {message : List ℕ}
    → encrypt request ≡ ok message
    → (unpack_length (take 4 message) ≡ ok (length (drop 4 message)))
      × (decrypt (drop 4 message) ≡ ok request)
unfolding encrypt Readable
decrypt-encrypt request {message} h =
    let (plain, encoded, h1) = >>=-eq-ok (encode request) _ h in
    let (block, packed, h2) = >>=-eq-ok (pack_length (length plain)) _ h1 in
    subst (Readable request) (ok-injective h2) (Readable-parts request plain block encoded packed)

-- A text of code points with an encoding of fewer than 2 ^ 32 bytes is encrypted, to bytes.
pub encrypt_total :
    (request : List ℕ) {plain : List ℕ}
    → encode request ≡ ok plain
    → length plain < 2 ^ 32
    → (message : List ℕ) × (encrypt request ≡ ok message)
      × (length message ≡ length plain + 4)
      × All (λ b. b < 2 ^ 8) message
unfolding encrypt pack_length xor_payload
encrypt_total request {plain} encoded fits =
    let n = length plain in
    let payload = xor_payload plain in
    let bytes =
      xor_payload_from-bytes initialization_vector plain (omega arith)
        (encode-bytes request encoded) in
    (
      n / 2 ^ 24 ∷ n / 2 ^ 16 % 256 ∷ n / 2 ^ 8 % 256 ∷ n % 256 ∷ payload,
      rw encoded (rw (lt→ltb _ _ fits)),
      omega (arith, length-xor_payload_from initialization_vector plain),
      (omega arith, (omega arith, (omega arith, (omega arith, bytes)))),
    )
