-- ===== src/Cipher.antt =====
-- The autokey cipher of the legacy protocol: `encrypt`, `decrypt` and the two generators of
-- `TPLinkSmartHomeProtocol` (kasa/protocol.py). Bytes are numbers below 256, a text is its list
-- of code points.
pub mod Utf8
pub mod Laws
mod Tests
use python_kasa.Prelude.{
  ℕ, ◌+◌, ◌*◌, ◌/◌, ◌%◌, ◌^◌, ◌≤◌, ◌<◌, bit_xor, List, [], ◌∷◌, ◌++◌, length, ltb, if◌then◌else◌,
  Option, none, some,
}
use python_kasa.Exec.{Result, ok, err, struct_error, ◌>>=◌}
use python_kasa.Cipher.Utf8.{encode, decode}

abbrev pub initialization_vector : ℕ
initialization_vector = 171

-- TPLinkSmartHomeProtocol._xor_payload, from the key on
pub xor_payload_from : ℕ → List ℕ → List ℕ
xor_payload_from key [] = []
xor_payload_from key (b ∷ bs) = let key' = bit_xor key b in key' ∷ xor_payload_from key' bs

pub xor_payload : List ℕ → List ℕ
unfolding xor_payload_from
xor_payload unencrypted = xor_payload_from initialization_vector unencrypted

-- TPLinkSmartHomeProtocol._xor_encrypted_payload, from the key on
pub xor_encrypted_payload_from : ℕ → List ℕ → List ℕ
xor_encrypted_payload_from key [] = []
xor_encrypted_payload_from key (c ∷ cs) = bit_xor key c ∷ xor_encrypted_payload_from c cs

pub xor_encrypted_payload : List ℕ → List ℕ
unfolding xor_encrypted_payload_from
xor_encrypted_payload ciphertext = xor_encrypted_payload_from initialization_vector ciphertext

-- struct.pack(">I", n)
pub pack_length : ℕ → Result (List ℕ)
pack_length n =
    if ltb n (2 ^ 32)
    then ok (n / 2 ^ 24 ∷ n / 2 ^ 16 % 256 ∷ n / 2 ^ 8 % 256 ∷ n % 256 ∷ [])
    else err struct_error

-- struct.unpack(">I", block)[0]
unfoldable pub unpack_length : List ℕ → Result ℕ
unpack_length (a ∷ b ∷ c ∷ d ∷ []) = ok (a * 2 ^ 24 + b * 2 ^ 16 + c * 2 ^ 8 + d)
unpack_length _ = err struct_error

unfoldable pub encrypt : List ℕ → Result (List ℕ)
unfolding pack_length xor_payload encode
encrypt request = do
  plainbytes ← encode request
  header ← pack_length (length plainbytes)
  ok (header ++ xor_payload plainbytes)

unfoldable pub decrypt : List ℕ → Result (List ℕ)
unfolding xor_encrypted_payload decode
decrypt ciphertext = decode (xor_encrypted_payload ciphertext)
