-- ===== src/Aes/Tests.antt =====
-- The AES transport against a toy device.
use Prim.Native.Char.{Char, code, nul}
use Prim.Native.String.{[] as empty, ◌∷◌ as ◌:+◌, char_at}
use python_kasa.Prelude.{
  ℕ, zero, suc, ◌+◌, ◌≡◌, refl, ◌∙◌, ap, true, false, [], ◌∷◌, none, some, String, ◌==◌, arith,
}
use python_kasa.Prelude.Int.{pos}
use python_kasa.Exec.{Result, ok}
use python_kasa.Exec.Triple.{Post}
use python_kasa.Json.{Value, num, str, obj, end, field, lookup, index}
use python_kasa.Cipher.Utf8.{encode}
use python_kasa.Bytes.{Bytes}
use python_kasa.Bytes.Toy.{toy}
use python_kasa.Aes
use python_kasa.Aes.{Surroundings, AesTransport, Response, Post as Message}
use python_kasa.Aes.Login
use python_kasa.Aes.Session
use python_kasa.Aes.Session.{AesEncryptionSession, Codec, IsInverse, aes_decrypt-encrypt}
use python_kasa.Aes.Laws.{IsConsistent, IsConnected, IsDisconnected, aes_handshake-outcome}
use python_kasa.Aes.Reachable.{started, logged_in, AesReachable-IsConsistent}
use python_kasa.Aes.Tokens.{HasNoToken, login-HasNoToken}

abbrev stroke : Char
stroke = char_at "|" 0

-- A byte in unary, with a stroke behind it.
abbrev spell : ℕ → String → String
spell zero s = stroke :+ s
spell (suc n) s = nul :+ spell n s

abbrev spell_all : Bytes → String
spell_all [] = empty
spell_all (b ∷ bs) = spell b (spell_all bs)

abbrev count : ℕ → String → Bytes
count n empty = []
count n (c :+ s) = elim (code c == 0) [ true ↦ count (suc n) s | false ↦ n ∷ count 0 s ]

count-spell : (n b : ℕ) (s : String) → count n (spell b s) ≡ (n + b) ∷ count 0 s
count-spell n zero s = ap (λ (k : ℕ). k ∷ count 0 s) (omega arith)
count-spell n (suc b) s = count-spell (suc n) b s ∙ ap (λ (k : ℕ). k ∷ count 0 s) (omega arith)

count-spell_all : (a : Bytes) → count 0 (spell_all a) ≡ a
count-spell_all [] = refl
count-spell_all (b ∷ bs) =
    count-spell 0 b (spell_all bs)
    ∙ ap (λ (k : ℕ). k ∷ count 0 (spell_all bs)) (omega arith)
    ∙ ap (λ (l : Bytes). b ∷ l) (count-spell_all bs)

abbrev unary : Codec
unary = record {
  b64encode = spell_all;
  b64decode = λ s. ok (count 0 s);
  private_decrypt = λ key text. ok (count 0 text);
}

unary-IsInverse : IsInverse unary
unary-IsInverse = record { inverse = λ a. ap (λ (l : Bytes). ok l) (count-spell_all a) }

abbrev session : AesEncryptionSession
session = record { key = 1 ∷ []; iv = 2 ∷ [] }

-- A device that refuses everything, and counts the requests.
abbrev refusal : Value
refusal = obj (field "error_code" (num (pos 9999)) end)

abbrev around : Surroundings
around = record {
  World = ℕ;
  crypto = toy;
  codec = unary;
  sha1_hex = λ a. a;
  post = λ m w. (
    ok (record { status_code = 200; json = ok refusal; tp_session_id = none; session_id = none }),
    w + 1,
  );
  close_client = λ w. (ok tt, w);
  now = λ w. (w, w);
  create_key_pair = λ w. (record { private_key = "a"; public_key = "b" }, w);
  pem = λ s. s;
  json_loads = λ text. ok (obj end);
  json_dumps = λ v. 72 ∷ [];
}

abbrev connected : AesTransport around
connected = record {
  credentials = record { username = some (97 ∷ []); password = some (98 ∷ []) };
  handshake_done = true;
  encryption_session = some session;
  session_expire_at = some 86400;
  session_cookie = none;
  login_token = str "token";
  tp_session_id = none;
  session_id = none;
  client_open = true;
  world = 7;
}

AesReachable-IsConsistent_example :
    IsConsistent around (Login.login around (72 ∷ []) (Aes.init around none 7)).1
AesReachable-IsConsistent_example =
    AesReachable-IsConsistent around (Login.login around (72 ∷ []) (Aes.init around none 7)).1
      (logged_in (72 ∷ []) (started none 7))

aes_handshake-outcome_example :
    Post (IsConnected around) (IsDisconnected around) (Aes.perform_handshake around connected)
aes_handshake-outcome_example = aes_handshake-outcome around connected

encoded_lem : encode (72 ∷ []) ≡ ok (72 ∷ [])
unfolding encode
encoded_lem = refl

abbrev answer : Result (ℕ × Value) × AesTransport around
answer =
    Aes.client_post around (Aes.token_in_url around connected.login_token)
      (Aes.passthrough_request around (Session.encrypt toy unary session (72 ∷ []))) connected

answered_lem : answer.0 ≡ ok (200, refusal)
unfolding Aes.client_post
answered_lem = refl

refused_lem : Aes.is_success around 200 refusal ≡ ok false
unfolding index lookup
refused_lem = refl

connected_lem : (Aes.needs_handshake around connected).0 ≡ ok false
unfolding Aes.needs_handshake Aes.handshake_session_expired
connected_lem = refl

login-HasNoToken_example :
    Post (λ s. Unit {0}) (HasNoToken around) (Login.login around (72 ∷ []) connected)
login-HasNoToken_example = login-HasNoToken around (72 ∷ []) connected connected_lem
