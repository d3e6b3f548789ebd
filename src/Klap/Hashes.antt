-- ===== src/Klap/Hashes.antt =====
-- The hashes of the handshake (kasa/klaptransport.py), in the two versions of the transport.
use python_kasa.Prelude.{ℕ, List, [], ◌∷◌, ◌++◌, Option, none, some}
use python_kasa.Exec.{Result, ok, ◌>>=◌}
use python_kasa.Cipher.Utf8.{encode}
use python_kasa.Bytes.{Bytes, Crypto}
use python_kasa.Credentials.{Credentials, or_empty}

-- The class, and its subclass with the hashes of version 2.
pub data Version : Type 0 where
  v1 v2 : Version

-- "kasa@tp-link.net"
abbrev kasa_setup_email : List ℕ
kasa_setup_email =
    0x6b ∷ 0x61 ∷ 0x73 ∷ 0x61 ∷ 0x40 ∷ 0x74 ∷ 0x70 ∷ 0x2d ∷ 0x6c ∷ 0x69 ∷ 0x6e ∷ 0x6b ∷ 0x2e ∷ 0x6e
    ∷ 0x65 ∷ 0x74 ∷ []

-- "kasaSetup"
abbrev kasa_setup_password : List ℕ
kasa_setup_password = 0x6b ∷ 0x61 ∷ 0x73 ∷ 0x61 ∷ 0x53 ∷ 0x65 ∷ 0x74 ∷ 0x75 ∷ 0x70 ∷ []

abbrev pub kasa_setup : Credentials
kasa_setup = record { username = some kasa_setup_email; password = some kasa_setup_password }

module _ (c : Crypto) where
  -- What `generate_auth_hash` makes of the encoded user name and password.
  abbrev auth_digest : Version → Bytes → Bytes → Bytes
  auth_digest v1 un pw = c.md5 (c.md5 un ++ c.md5 pw)
  auth_digest v2 un pw = c.sha256 (c.sha1 un ++ c.sha1 pw)

  unfoldable pub generate_auth_hash : Version → Credentials → Result Bytes
  generate_auth_hash v creds = do
    un ← encode (or_empty creds.username)
    pw ← encode (or_empty creds.password)
    ok (auth_digest v un pw)

  abbrev pub handshake1_seed_auth_hash : Version → Bytes → Bytes → Bytes → Bytes
  handshake1_seed_auth_hash v1 local remote auth = c.sha256 (local ++ auth)
  handshake1_seed_auth_hash v2 local remote auth = c.sha256 (local ++ (remote ++ auth))

  abbrev pub handshake2_seed_auth_hash : Version → Bytes → Bytes → Bytes → Bytes
  handshake2_seed_auth_hash v1 local remote auth = c.sha256 (remote ++ auth)
  handshake2_seed_auth_hash v2 local remote auth = c.sha256 (remote ++ (local ++ auth))

-- `if not cache: cache = generate_auth_hash(…)`: an empty hash counts as none.
abbrev pub cached : Option Bytes → Result Bytes → Result Bytes
cached none fresh = fresh
cached (some []) fresh = fresh
cached (some (b ∷ bs)) fresh = ok (b ∷ bs)
