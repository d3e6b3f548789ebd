-- ===== src/Klap/Tests.antt =====
-- The KLAP transport against a toy device, with toy hashes and ciphers.
use python_kasa.Prelude.{
  ℕ, ◌^◌, ◌-◌, ◌+◌, ◌≡◌, refl, true, false, [], ◌∷◌, ◌++◌, Option, none, some, arith, take, drop,
}
use python_kasa.Prelude.Int.{pos, ◌+ℤ◌, ◌≤ℤ◌}
use python_kasa.Exec.{Result, ok, err, overflow_error}
use python_kasa.Exec.State.{◌>>=◌}
use python_kasa.Exec.Triple.{Post}
use python_kasa.Json.{null}
use python_kasa.Cipher.Utf8.{encode, decode}
use python_kasa.Bytes.{Bytes, equal, to_bytes}
use python_kasa.Credentials.{Credentials}
use python_kasa.Bytes.Toy.{zeros, toy_digest, toy, toy-IsSound}
use python_kasa.Klap
use python_kasa.Klap.{
  Surroundings, KlapTransport, Endpoint, request, handshake1, handshake2, Response, Post as Message,
}
use python_kasa.Klap.Hashes.{v1, handshake1_seed_auth_hash, generate_auth_hash}
use python_kasa.Klap.Session
use python_kasa.Klap.Session.{KlapEncryptionSession, klap_decrypt-encrypt, encrypt_overflow}
use python_kasa.Klap.Reachable.{started, shaken, sent, Reachable-IsConsistent}
use python_kasa.Klap.Laws.{perform_handshake1-proof, init-IsCached, first_answer, IsKnown}
use python_kasa.Klap.Handshake.{
  IsConnected, IsDisconnected, IsConsistent, perform_handshake-outcome,
}

abbrev user : Credentials
user = record { username = some (97 ∷ 98 ∷ []); password = some (99 ∷ []) }

abbrev user_hash : Bytes
user_hash = 97 ∷ 98 ∷ 99 ∷ []

abbrev seed : Bytes
seed = take 16 (1 ∷ 2 ∷ 3 ∷ zeros)

abbrev answer_of : ℕ → Bytes → Result Response
answer_of status body = ok (record { status_code = status; content = body; cookie = some "cookie" })

-- A device that knows the user's password and refuses every request. Its world is the clock.
abbrev device : Message → ℕ → Result Response × ℕ
device m w = (
  elim m.endpoint [
    | handshake1 ↦ answer_of 200 (take 16 zeros ++ toy_digest (m.payload ++ user_hash))
    | handshake2 ↦ answer_of 200 []
    | request ↦ answer_of 403 []
  ],
  w + 1,
)

abbrev around : Surroundings
around = record {
  World = ℕ;
  crypto = toy;
  post = device;
  close_client = λ w. (ok tt, w);
  now = λ w. (w, w);
  token_bytes = λ w. (seed, w);
  json_loads = λ text. ok null;
}

abbrev unconnected : KlapTransport v1 around
unconnected = record {
  credentials = user;
  local_auth_hash = user_hash;
  kasa_setup_auth_hash = none;
  blank_auth_hash = none;
  handshake_done = false;
  encryption_session = none;
  session_expire_at = none;
  session_cookie = none;
  client_cookie = none;
  client_open = true;
  world = 7;
}

abbrev some_session : KlapEncryptionSession
some_session = record {
  local_seed = seed;
  remote_seed = seed;
  user_hash = user_hash;
  key = take 16 zeros;
  iv = take 12 zeros;
  seq = pos 41;
  sig = take 28 zeros;
}

abbrev worn : KlapEncryptionSession
worn = record some_session { seq = pos (2 ^ 31 - 1) }

-- The digest of the toy, with the sequence number at its end, and the text.
abbrev sealed_text : Bytes
sealed_text = take 31 zeros ++ (42 ∷ 72 ∷ 105 ∷ [])

sealed_lem : (Session.encrypt toy some_session (72 ∷ 105 ∷ [])).0 ≡ ok (sealed_text, pos 42)
unfolding Session.encrypt Session.seal Session.iv_seq to_bytes ◌+ℤ◌
sealed_lem = refl

klap_decrypt-encrypt_example :
    (Session.decrypt toy (Session.encrypt toy some_session (72 ∷ 105 ∷ [])).1 sealed_text
      ≡ decode (72 ∷ 105 ∷ []))
    × (pos 42 ≡ some_session.seq +ℤ pos 1)
klap_decrypt-encrypt_example =
    klap_decrypt-encrypt toy some_session (72 ∷ 105 ∷ []) toy-IsSound sealed_lem

encrypt_overflow_example :
    ((Session.encrypt toy worn []).0 ≡ err overflow_error)
    × (pos (2 ^ 31 - 1) ≤ℤ (Session.encrypt toy worn []).1.seq)
encrypt_overflow_example = encrypt_overflow toy worn [] (omega arith)

perform_handshake-outcome_example :
    Post
      (IsConnected v1 around)
      (IsDisconnected v1 around)
      (Klap.perform_handshake v1 around unconnected)
perform_handshake-outcome_example = perform_handshake-outcome v1 around unconnected

handshake_agrees :
    (Klap.perform_handshake1 v1 around unconnected).0 ≡ ok (seed, take 16 zeros, user_hash)
unfolding Klap.perform_handshake1 ◌>>=◌ Klap.client_post Klap.check_local equal
handshake_agrees = refl

init_lem : Klap.init v1 around (some user) 7 ≡ ok unconnected
unfolding Klap.init generate_auth_hash encode
init_lem = refl

abbrev after_handshake : KlapTransport v1 around
after_handshake = (Klap.perform_handshake v1 around unconnected).1

Reachable-IsConsistent_example :
    IsConsistent v1 around (Klap.send v1 around (72 ∷ []) after_handshake).1
Reachable-IsConsistent_example =
    Reachable-IsConsistent v1 around (Klap.send v1 around (72 ∷ []) after_handshake).1
      (sent (72 ∷ []) (shaken (started (some user) 7 init_lem)))

perform_handshake1-proof_example :
    (body : Bytes) × (first_answer v1 around unconnected ≡ ok (200, some body))
    × (seed ≡ seed)
    × (take 16 zeros ≡ take 16 body)
    × (handshake1_seed_auth_hash toy v1 seed (take 16 zeros) user_hash ≡ drop 16 body)
    × IsKnown v1 around user user_hash
perform_handshake1-proof_example =
    perform_handshake1-proof v1 around unconnected
      (init-IsCached v1 around (some user) 7 unconnected init_lem) handshake_agrees

abbrev connected : KlapTransport v1 around
connected = record unconnected {
  handshake_done = true;
  encryption_session = some some_session;
  session_expire_at = some 86000;
}

abbrev session_after : KlapEncryptionSession
session_after = record some_session { seq = pos 42 }

fresh_lem : Klap.needs_handshake v1 around connected ≡ (ok false, connected)
unfolding Klap.needs_handshake Klap.handshake_session_expired
fresh_lem = refl

encoded_lem : encode (72 ∷ 105 ∷ []) ≡ ok (72 ∷ 105 ∷ [])
unfolding encode
encoded_lem = refl

sealed_after_lem :
    Session.encrypt toy some_session (72 ∷ 105 ∷ []) ≡ (ok (sealed_text, pos 42), session_after)
unfolding Session.encrypt Session.seal Session.iv_seq to_bytes ◌+ℤ◌
sealed_after_lem = refl

abbrev posted : Result (ℕ × Option Bytes) × KlapTransport v1 around
posted =
    Klap.client_post v1 around request (some (pos 42)) sealed_text
      (record connected { encryption_session = some session_after })

refused_lem : posted.0 ≡ ok (403, none)
unfolding Klap.client_post
refused_lem = refl
