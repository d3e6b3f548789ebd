-- ===== src/Bytes/Toy.antt =====
-- Hashes and a cipher to run the transports with.
use python_kasa.Prelude.{
  ℕ, zero, suc, ◌≤◌, ◌≡◌, refl, [], ◌∷◌, ◌++◌, arith, take, length, length-append,
}
use python_kasa.Exec.{ok}
use python_kasa.Bytes.{Bytes, Crypto, IsSound}

abbrev pub zeros : Bytes
zeros =
    0 ∷ 0 ∷ 0 ∷ 0 ∷ 0 ∷ 0 ∷ 0 ∷ 0 ∷ 0 ∷ 0 ∷ 0 ∷ 0 ∷ 0 ∷ 0 ∷ 0 ∷ 0 ∷ 0 ∷ 0 ∷ 0 ∷ 0 ∷ 0 ∷ 0 ∷ 0 ∷ 0
    ∷ 0 ∷ 0 ∷ 0 ∷ 0 ∷ 0 ∷ 0 ∷ 0 ∷ 0 ∷ []

-- The first 32 bytes of the text, filled up with zeros.
abbrev pub toy_digest : Bytes → Bytes
toy_digest a = take 32 (a ++ zeros)

abbrev pub toy : Crypto
toy = record {
  md5 = λ a. a;
  sha1 = λ a. a;
  sha256 = toy_digest;
  cbc_encrypt = λ key iv a. a;
  cbc_decrypt = λ key iv a. ok a;
}

length-take : (n : ℕ) (a : Bytes) → n ≤ length a → length (take n a) ≡ n
length-take zero [] h = refl
length-take zero (x ∷ a) h = refl
length-take (suc n) [] h = absurd (omega arith)
length-take (suc n) (x ∷ a) h = ground (arith, length-take n a)

pub toy-IsSound : IsSound toy
toy-IsSound = record {
  digest_size = λ a. length-take 32 (a ++ zeros) (omega (arith, length-append a zeros));
  inverse = λ key iv text. refl;
}
