-- ===== src/Klap/Session.antt =====
-- `KlapEncryptionSession` (kasa/klaptransport.py).
use python_kasa.Prelude.{
  ℕ, zero, suc, ◌-◌, ◌^◌, ◌≡◌, refl, sym, List, [], ◌∷◌, ◌++◌, length, take, drop, arith, ap,
}
use python_kasa.Prelude.Int.{ℤ, pos, negsuc, ◌+ℤ◌, ◌≤ℤ◌, int_laws}
use python_kasa.Exec.{Result, ok, err, overflow_error, ◌>>=◌, >>=-eq-ok, ok-injective}
use python_kasa.Bytes.{Bytes, Crypto, IsSound, last_bytes, from_bytes, to_bytes}
use python_kasa.Cipher.Utf8.{decode}

pub record KlapEncryptionSession : Type 0 where
  pub local_seed : Bytes
  pub remote_seed : Bytes
  pub user_hash : Bytes
  pub key : Bytes
  pub iv : Bytes
  pub seq : ℤ
  pub sig : Bytes

to_bytes_overflow : (z : ℤ) → pos (2 ^ 31) ≤ℤ z → to_bytes z ≡ err overflow_error
unfolding to_bytes
to_bytes_overflow (pos n) h = ground arith
to_bytes_overflow (negsuc n) h = absurd (omega arith)

module _ (c : Crypto) where
  open c use {sha256, cbc_encrypt, cbc_decrypt}

  -- b"lsk", b"iv", b"ldk"
  pub key_derive : Bytes → Bytes → Bytes → Bytes
  key_derive local_seed remote_seed user_hash =
      take 16 (sha256 (0x6c ∷ 0x73 ∷ 0x6b ∷ local_seed ++ (remote_seed ++ user_hash)))

  pub iv_derive : Bytes → Bytes → Bytes → Bytes × ℤ
  iv_derive local_seed remote_seed user_hash =
      let fulliv = sha256 (0x69 ∷ 0x76 ∷ local_seed ++ (remote_seed ++ user_hash)) in
      (take 12 fulliv, from_bytes (last_bytes 4 fulliv))

  pub sig_derive : Bytes → Bytes → Bytes → Bytes
  sig_derive local_seed remote_seed user_hash =
      take 28 (sha256 (0x6c ∷ 0x64 ∷ 0x6b ∷ local_seed ++ (remote_seed ++ user_hash)))

  -- `__init__`
  unfoldable pub new_session : Bytes → Bytes → Bytes → KlapEncryptionSession
  unfolding key_derive iv_derive sig_derive
  new_session l r u = record {
    local_seed = l;
    remote_seed = r;
    user_hash = u;
    key = key_derive l r u;
    iv = (iv_derive l r u).0;
    seq = (iv_derive l r u).1;
    sig = sig_derive l r u;
  }

  unfoldable pub iv_seq : KlapEncryptionSession → Result Bytes
  iv_seq s = do seq ← to_bytes s.seq; ok (s.iv ++ seq)

  -- `encrypt` from the new sequence number on: what is sent, with that number.
  unfoldable pub seal : KlapEncryptionSession → Bytes → Result (Bytes × ℤ)
  unfolding iv_seq
  seal s msg = do
    iv ← iv_seq s
    seq ← to_bytes s.seq
    let ciphertext = cbc_encrypt s.key iv msg
    ok (sha256 (s.sig ++ (seq ++ ciphertext)) ++ ciphertext, s.seq)

  abbrev pub advanced : KlapEncryptionSession → KlapEncryptionSession
  advanced s = record s { seq = s.seq +ℤ pos 1 }

  -- The sequence number is counted up first, and stays so if the rest raises.
  unfoldable pub encrypt :
      KlapEncryptionSession → Bytes → Result (Bytes × ℤ) × KlapEncryptionSession
  unfolding seal
  encrypt s msg = (seal (advanced s) msg, advanced s)

  unfoldable pub decrypt : KlapEncryptionSession → Bytes → Result (List ℕ)
  unfolding iv_seq
  decrypt s msg = do
    iv ← iv_seq s
    plaintextbytes ← cbc_decrypt s.key iv (drop 32 msg)
    decode plaintextbytes

  drop_digest : (n : ℕ) (digest rest : Bytes) → length digest ≡ n → drop n (digest ++ rest) ≡ rest
  drop_digest zero [] rest h = refl
  drop_digest zero (x ∷ d) rest h = absurd (omega arith)
  drop_digest (suc n) [] rest h = absurd (omega arith)
  drop_digest (suc n) (x ∷ d) rest h = drop_digest n d rest (omega arith)

  decrypt-sealed :
      (s : KlapEncryptionSession) (msg iv digest : Bytes)
      → IsSound c
      → iv_seq s ≡ ok iv
      → length digest ≡ 32
      → decrypt s (digest ++ cbc_encrypt s.key iv msg) ≡ decode msg
  unfolding decrypt
  decrypt-sealed s msg iv digest sound e size =
      rw (e, drop_digest 32 digest (cbc_encrypt s.key iv msg) size, sound.inverse s.key iv msg)

  -- If the hash and the cipher do what they document, a session with the same numbers decrypts
  -- what has been encrypted, and the number that goes with it is one more than the last.
  pub klap_decrypt-encrypt :
      (s : KlapEncryptionSession) (msg : Bytes) {payload : Bytes} {seq : ℤ}
      → IsSound c
      → (encrypt s msg).0 ≡ ok (payload, seq)
      → (decrypt (encrypt s msg).1 payload ≡ decode msg) × (seq ≡ s.seq +ℤ pos 1)
  unfolding encrypt
  klap_decrypt-encrypt s msg {payload} {seq} sound h =
      let t = advanced s in
      let (iv, e1, h1) = >>=-eq-ok (iv_seq t) _ h in
      let (number, e2, h2) = >>=-eq-ok (to_bytes t.seq) _ h1 in
      let ciphertext = cbc_encrypt t.key iv msg in
      let digest = sha256 (t.sig ++ (number ++ ciphertext)) in
      let sent = ok-injective h2 in
      (
        rw (ap (λ (p : Bytes × ℤ). p.0) (sym sent))
            (decrypt-sealed t msg iv digest sound e1 (sound.digest_size _)),
        ap (λ (p : Bytes × ℤ). p.1) (sym sent),
      )

  -- Past the last number of four bytes every call raises OverflowError, and the number it leaves
  -- is past it again: the session cannot be used any more.
  pub encrypt_overflow :
      (s : KlapEncryptionSession) (msg : Bytes)
      → pos (2 ^ 31 - 1) ≤ℤ s.seq
      → ((encrypt s msg).0 ≡ err overflow_error) × (pos (2 ^ 31 - 1) ≤ℤ (encrypt s msg).1.seq)
  unfolding encrypt
  encrypt_overflow s msg h =
      let n = s.seq +ℤ pos 1 in
      let large : pos (2 ^ 31) ≤ℤ n = omega int_laws in
      (rw (to_bytes_overflow n large), omega int_laws)
