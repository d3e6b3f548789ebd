-- ===== src/Cipher/Utf8.antt =====
-- `str.encode()` and `bytes.decode()`, which are UTF-8, on lists of code points.
use python_kasa.Prelude.{
  ℕ, ◌+◌, ◌-◌, ◌*◌, ◌/◌, ◌%◌, ◌<◌, ◌≡◌, refl, Bool, true, ◌&&◌, ◌||◌, List, [], ◌∷◌, ◌++◌, All, ltb,
  leb, if◌then◌else◌, arith,
}
use python_kasa.Exec.{Result, ok, err, unicode_error, ◌>>=◌, >>=-eq-ok}

-- A code point that has an encoding: below 0x110000, and no surrogate.
abbrev pub is_scalar : ℕ → Bool
is_scalar c = ltb c 0xd800 || (leb 0xe000 c && ltb c 0x110000)

abbrev pub encode_point : ℕ → List ℕ
encode_point c =
    if ltb c 0x80
    then c ∷ []
    else if ltb c 0x800
    then (0xc0 + c / 64) ∷ (0x80 + c % 64) ∷ []
    else if ltb c 0x10000
    then (0xe0 + c / 4096) ∷ (0x80 + c / 64 % 64) ∷ (0x80 + c % 64) ∷ []
    else (0xf0 + c / 262144) ∷ (0x80 + c / 4096 % 64) ∷ (0x80 + c / 64 % 64) ∷ (0x80 + c % 64) ∷ []

unfoldable pub encode : List ℕ → Result (List ℕ)
encode [] = ok []
encode (c ∷ cs) = do
  rest ← encode cs
  if is_scalar c then ok (encode_point c ++ rest) else err unicode_error

-- What the decoder has read of a character: how many bytes are to come, the digits so far, and
-- the least value that needs as many bytes.
pub record Partial : Type 0 where
  pub left : ℕ
  pub value : ℕ
  pub least : ℕ

-- The first byte of a character of two or more.
abbrev lead : ℕ → Result Partial
lead b =
    if leb 0xc0 b && ltb b 0xe0
    then ok (record { left = 1; value = b - 0xc0; least = 0x80 })
    else if leb 0xe0 b && ltb b 0xf0
    then ok (record { left = 2; value = b - 0xe0; least = 0x800 })
    else if leb 0xf0 b && ltb b 0xf8
    then ok (record { left = 3; value = b - 0xf0; least = 0x10000 })
    else err unicode_error

abbrev is_continuation : ℕ → Bool
is_continuation b = leb 0x80 b && ltb b 0xc0

-- The decoder between characters (`left` is 0), and within one.
pub decode_from : Partial → List ℕ → Result (List ℕ)
decode_from p [] = if ltb 0 p.left then err unicode_error else ok []
decode_from p (b ∷ bs) =
    let value = p.value * 64 + (b - 0x80) in
    let ascii = (do
      rest ← decode_from (record { left = 0; value = 0; least = 0 }) bs
      ok (b ∷ rest)) in
    let first = (do p' ← lead b; decode_from p' bs) in
    let last = (do
      rest ← decode_from (record { left = 0; value = 0; least = 0 }) bs
      ok (value ∷ rest)) in
    let next = decode_from (record { left = p.left - 1; value = value; least = p.least }) bs in
    if leb p.left 0
    then (if ltb b 0x80 then ascii else first)
    else if is_continuation b
    then (if leb p.left 1
        then (if leb p.least value && is_scalar value then last else err unicode_error)
        else next)
    else err unicode_error

unfoldable pub decode : List ℕ → Result (List ℕ)
unfolding decode_from
decode bs = decode_from (record { left = 0; value = 0; least = 0 }) bs

abbrev between : Partial
between = record { left = 0; value = 0; least = 0 }

decode-encode_point :
    (c : ℕ) (bs : List ℕ)
    → is_scalar c ≡ true
    → decode_from between (encode_point c ++ bs) ≡ (do rest ← decode_from between bs; ok (c ∷ rest))
unfolding decode_from
decode-encode_point c bs h = ground arith

-- What `encode` returns, `decode` reads back.
pub decode-encode : (s : List ℕ) {bs : List ℕ} → encode s ≡ ok bs → decode bs ≡ ok s
unfolding encode decode
decode-encode [] h = ground arith
decode-encode (c ∷ cs) h = ground (
  arith,
  >>=-eq-ok (encode cs) _ h,
  decode-encode cs {bs = (>>=-eq-ok (encode cs) _ h).0} (>>=-eq-ok (encode cs) _ h).1,
  decode-encode_point c (>>=-eq-ok (encode cs) _ h).0,
)

-- Every code point that is no surrogate has an encoding.
pub encode_total :
    (s : List ℕ) → All (λ c. is_scalar c ≡ true) s → (bs : List ℕ) × (encode s ≡ ok bs)
unfolding encode
encode_total [] h = ([], refl)
encode_total (c ∷ cs) h = let (bs, e) = encode_total cs h.1 in (encode_point c ++ bs, rw (e, h.0))

encode_point-bytes :
    (c : ℕ) (bs : List ℕ)
    → is_scalar c ≡ true
    → All (λ b. b < 256) bs
    → All (λ b. b < 256) (encode_point c ++ bs)
encode_point-bytes c bs h rest = ground arith

-- Every encoding is made of bytes.
pub encode-bytes : (s : List ℕ) {bs : List ℕ} → encode s ≡ ok bs → All (λ b. b < 256) bs
unfolding encode
encode-bytes [] h = ground arith
encode-bytes (c ∷ cs) h = ground (
  arith,
  encode-bytes cs {bs = (>>=-eq-ok (encode cs) _ h).0} (>>=-eq-ok (encode cs) _ h).1,
  encode_point-bytes c (>>=-eq-ok (encode cs) _ h).0,
)
