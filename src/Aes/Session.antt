-- ===== src/Aes/Session.antt =====
-- `AesEncyptionSession` (kasa/aestransport.py).
use python_kasa.Prelude.{◌≡◌, refl, List, ℕ, String, take, drop, length, ◌==◌, not}
use python_kasa.Exec.{Result, ok, value_error, raise_if, ◌>>=◌, ◌>>◌}
use python_kasa.Bytes.{Bytes, Crypto, IsSound}
use python_kasa.Cipher.Utf8.{decode}

-- Base64, and decryption with the private key of a key pair, which the two decode themselves.
pub record Codec : Type 0 where
  pub b64encode : Bytes → String
  pub b64decode : String → Result Bytes
  -- private key, text in base64
  pub private_decrypt : String → String → Result Bytes

-- What base64 documents: decoding gives the bytes back.
pub record IsInverse (codec : Codec) : Type 0 where
  pub inverse : (a : Bytes) → codec.b64decode (codec.b64encode a) ≡ ok a

pub record AesEncryptionSession : Type 0 where
  pub key : Bytes
  pub iv : Bytes

module _ (c : Crypto) (codec : Codec) where
  -- The cipher's constructor takes no key of at most 16 bytes but one of 16, and no vector but one of 16.
  unfoldable pub new_session : Bytes → Bytes → Result AesEncryptionSession
  new_session key iv = do
    raise_if (not (length key == 16)) value_error
    raise_if (not (length iv == 16)) value_error
    ok (record { key = key; iv = iv })

  unfoldable pub create_from_keypair : String → String → Result AesEncryptionSession
  unfolding new_session
  create_from_keypair handshake_key private_key = do
    key_and_iv ← codec.private_decrypt private_key handshake_key
    new_session (take 16 key_and_iv) (drop 16 key_and_iv)

  -- Every message is encrypted from the same vector: a new encryptor is made for each.
  unfoldable pub encrypt : AesEncryptionSession → Bytes → String
  encrypt s data_ = codec.b64encode (c.cbc_encrypt s.key s.iv data_)

  unfoldable pub decrypt : AesEncryptionSession → String → Result (List ℕ)
  decrypt s data_ = do
    encrypted ← codec.b64decode data_
    unpadded ← c.cbc_decrypt s.key s.iv encrypted
    decode unpadded

  -- What an AES session encrypts, it decrypts, if the cipher and base64 do what they document.
  pub aes_decrypt-encrypt :
      (s : AesEncryptionSession) (data_ : Bytes)
      → IsSound c
      → IsInverse codec
      → decrypt s (encrypt s data_) ≡ decode data_
  unfolding encrypt decrypt
  aes_decrypt-encrypt s data_ sound inverse =
      rw (inverse.inverse (c.cbc_encrypt s.key s.iv data_), sound.inverse s.key s.iv data_) refl
