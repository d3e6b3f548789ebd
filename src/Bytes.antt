-- ===== src/Bytes.antt =====
-- Bytes as lists of numbers, and what the transports take from the cryptography packages.
pub mod Toy
use python_kasa.Prelude.{
  ℕ, ◌+◌, ◌-◌, ◌*◌, ◌/◌, ◌%◌, ◌^◌, ◌≡◌, refl, Bool, true, false, ◌&&◌, List, [], ◌∷◌, ◌==◌, ltb,
  length, drop, if◌then◌else◌, arith,
}
use python_kasa.Prelude.Int.{ℤ, pos, negsuc}
use python_kasa.Exec.{Result, ok, err, overflow_error}

abbrev pub Bytes : Type 0
Bytes = List ℕ

-- a == b
unfoldable pub equal : Bytes → Bytes → Bool
equal [] [] = true
equal [] (y ∷ ys) = false
equal (x ∷ xs) [] = false
equal (x ∷ xs) (y ∷ ys) = x == y && equal xs ys

pub equal→≡ : (a b : Bytes) → equal a b ≡ true → a ≡ b
unfolding equal
equal→≡ [] [] h = refl
equal→≡ [] (y ∷ ys) h = cc
equal→≡ (x ∷ xs) [] h = cc
equal→≡ (x ∷ xs) (y ∷ ys) h = ground (arith, equal→≡ xs ys)

pub equal_refl : (a : Bytes) → equal a a ≡ true
unfolding equal
equal_refl [] = refl
equal_refl (x ∷ xs) = ground (arith, equal_refl xs)

-- The last `n` of them, `a[-n:]`.
unfoldable pub last_bytes : ℕ → Bytes → Bytes
last_bytes n a = drop (length a - n) a

-- int.from_bytes(a, "big")
abbrev big_endian : ℕ → Bytes → ℕ
big_endian acc [] = acc
big_endian acc (b ∷ bs) = big_endian (acc * 256 + b) bs

-- int.from_bytes(a, "big", signed=True) of four bytes
unfoldable pub from_bytes : Bytes → ℤ
from_bytes a = let n = big_endian 0 a in if ltb n (2 ^ 31) then pos n else negsuc (2 ^ 32 - n - 1)

abbrev four_bytes : ℕ → Bytes
four_bytes n = n / 2 ^ 24 ∷ n / 2 ^ 16 % 256 ∷ n / 2 ^ 8 % 256 ∷ n % 256 ∷ []

-- z.to_bytes(4, "big", signed=True)
unfoldable pub to_bytes : ℤ → Result Bytes
to_bytes (pos n) = if ltb n (2 ^ 31) then ok (four_bytes n) else err overflow_error
to_bytes (negsuc n) =
    if ltb n (2 ^ 31) then ok (four_bytes (2 ^ 32 - n - 1)) else err overflow_error

-- A number that has four bytes is read back from them.
pub from_bytes-to_bytes : (z : ℤ) {a : Bytes} → to_bytes z ≡ ok a → from_bytes a ≡ z
unfolding from_bytes to_bytes
from_bytes-to_bytes (pos n) h = ground arith
from_bytes-to_bytes (negsuc n) h = ground arith

-- The hashes, and AES in CBC mode with PKCS7 padding. `cbc_decrypt` may refuse its input.
pub record Crypto : Type 0 where
  pub md5 : Bytes → Bytes
  pub sha1 : Bytes → Bytes
  pub sha256 : Bytes → Bytes
  -- key, initialisation vector, text
  pub cbc_encrypt : Bytes → Bytes → Bytes → Bytes
  pub cbc_decrypt : Bytes → Bytes → Bytes → Result Bytes

-- What the packages document of these: a SHA256 digest has 32 bytes, and decryption with the key
-- and vector of the encryption gives the text back.
pub record IsSound (c : Crypto) : Type 0 where
  pub digest_size : (a : Bytes) → length (c.sha256 a) ≡ 32
  pub inverse : (key iv text : Bytes) → c.cbc_decrypt key iv (c.cbc_encrypt key iv text) ≡ ok text
