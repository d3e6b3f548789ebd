-- ===== src/Aes/Hashes.antt =====
-- `hash_credentials` (kasa/aestransport.py).
use python_kasa.Prelude.{ℕ, Bool, true, false, List, Option, none, some, String}
use python_kasa.Exec.{Result, ok, err, attribute_error, ◌>>=◌}
use python_kasa.Cipher.Utf8.{encode}
use python_kasa.Bytes.{Bytes}
use python_kasa.Credentials.{Credentials}
use python_kasa.Aes.Session.{Codec}

-- text.encode(), where None has no such method
abbrev encode_field : Option (List ℕ) → Result Bytes
encode_field none = err attribute_error
encode_field (some s) = encode s

module _ (codec : Codec) (sha1_hex : Bytes → Bytes) where
  -- The password in base64, for version 2 of its hash.
  abbrev hash_password : Bool → Bytes → String
  hash_password true pw = codec.b64encode (sha1_hex pw)
  hash_password false pw = codec.b64encode pw

  -- User name and password.
  unfoldable pub hash_credentials : Bool → Credentials → Result (String × String)
  hash_credentials login_v2 creds = encode_field creds.username >>= λ (un : Bytes).
      encode_field creds.password >>= λ (pw : Bytes).
      ok (codec.b64encode (sha1_hex un), hash_password login_v2 pw)
