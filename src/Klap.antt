-- ===== src/Klap.antt =====
-- `KlapTransport` and `TPlinkKlapTransportV2` (kasa/klaptransport.py): the two-stage handshake,
-- its session and the requests. The HTTP client, the clock, the random numbers, the hashes and
-- ciphers and the JSON reader are parameters.
pub mod Session
pub mod Hashes
pub mod Laws
pub mod Handshake
pub mod Reachable
mod Tests
use python_kasa.Prelude.{
  or_default, ℕ, ◌+◌, ◌≤◌, ◌<◌, Bool, true, false, not, ◌||◌, List, [], ◌∷◌, ◌++◌, Option, none,
  some, String, ◌=s=◌, ◌==◌, leb, take, drop, if◌then◌else◌,
}
use python_kasa.Prelude.Int.{ℤ}
use python_kasa.Exec.{
  Error, Result, NoneType, ok, err, smart_device, authentication, runtime_error, type_error,
  or_raise,
}
use python_kasa.Exec.State.{Exec, pure, throw, throw_if, lift, gets, modify, ◌>>=◌, ◌>>◌}
use python_kasa.Json.{Value}
use python_kasa.Cipher.Utf8.{encode}
use python_kasa.Klap.Hashes.{
  Version, kasa_setup, generate_auth_hash, handshake1_seed_auth_hash, handshake2_seed_auth_hash,
  cached,
}
use python_kasa.Bytes.{Bytes, Crypto, equal}
use python_kasa.Credentials.{Credentials, blank, equal_credentials}
use python_kasa.Http.Transport.{BaseTransport}
use python_kasa.Klap.Session
use python_kasa.Klap.Session.{KlapEncryptionSession}

-- The last part of the URL.
pub data Endpoint : Type 0 where
  handshake1 handshake2 request : Endpoint

pub record Post : Type 0 where
  pub endpoint : Endpoint
  pub seq : Option ℤ
  pub payload : Bytes
  pub cookie : Option String

-- An answer: the status, the body, and the TP_SESSIONID cookie that the client now holds.
pub record Response : Type 0 where
  pub status_code : ℕ
  pub content : Bytes
  pub cookie : Option String

pub record Surroundings : Type 1 where
  pub World : Type 0
  pub crypto : Crypto
  pub post : Post → World → Result Response × World
  -- client.aclose(), which may raise
  pub close_client : World → Result NoneType × World
  -- time.time(), in seconds
  pub now : World → ℕ × World
  -- secrets.token_bytes(16)
  pub token_bytes : World → Bytes × World
  pub json_loads : List ℕ → Result Value

-- A cookie that is set and not empty.
abbrev pub sent_cookie : Option String → Option String
sent_cookie none = none
sent_cookie (some s) = if s =s= "" then none else some s

module _ (v : Version) (env : Surroundings) where
  open env use {World, crypto, post, close_client, now, token_bytes, json_loads}

  pub record KlapTransport : Type 0 where
    pub credentials : Credentials
    pub local_auth_hash : Bytes
    pub kasa_setup_auth_hash : Option Bytes
    pub blank_auth_hash : Option Bytes
    pub handshake_done : Bool
    pub encryption_session : Option KlapEncryptionSession
    pub session_expire_at : Option ℕ
    pub session_cookie : Option String
    -- the client's TP_SESSIONID cookie, and whether there is a client
    pub client_cookie : Option String
    pub client_open : Bool
    pub world : World

  -- `__init__`; the HTTP client is there from the start. No credentials are blank ones.
  unfoldable pub init : Option Credentials → World → Result KlapTransport
  init credentials world = elim (generate_auth_hash crypto v (or_default credentials blank)) [
    | err e ↦ err e
    | ok auth ↦ ok (record {
      credentials = or_default credentials blank;
      local_auth_hash = auth;
      kasa_setup_auth_hash = none;
      blank_auth_hash = none;
      handshake_done = false;
      encryption_session = none;
      session_expire_at = none;
      session_cookie = none;
      client_cookie = none;
      client_open = true;
      world = world;
    })
  ]

  abbrev pub receive : Result Response → Exec KlapTransport (ℕ × Option Bytes)
  receive (err e) s = (err e, s)
  receive (ok r) s = (
    ok (r.status_code, if r.status_code == 200 then some r.content else none),
    record s { client_cookie = r.cookie },
  )

  -- The status, and the body where the status is 200.
  pub client_post : Endpoint → Option ℤ → Bytes → Exec KlapTransport (ℕ × Option Bytes)
  client_post endpoint seq payload s =
      let message : Post = record {
        endpoint = endpoint;
        seq = seq;
        payload = payload;
        cookie = sent_cookie s.session_cookie;
      } in
      let r = post message s.world in
      receive r.0 (record s { client_open = true; client_cookie = none; world = r.1 })

  abbrev pub new_seed : Exec KlapTransport Bytes
  new_seed s = let r = token_bytes s.world in (ok r.0, record s { world = r.1 })

  abbrev pub read_clock : Exec KlapTransport ℕ
  read_clock s = let r = now s.world in (ok r.0, record s { world = r.1 })

  -- The seeds and the hash of the credentials that the device has shown to know.
  abbrev pub Agreement : Type 0
  Agreement = Bytes × Bytes × Bytes

  -- Whether the device's hash is that of the credentials with this hash.
  abbrev pub matches : Bytes → Bytes → Bytes → Bytes → Bool
  matches local remote server auth =
      equal (handshake1_seed_auth_hash crypto v local remote auth) server

  -- The third test of `perform_handshake1`: blank credentials, if the user's are not.
  pub check_blank : Bytes → Bytes → Bytes → Exec KlapTransport Agreement
  check_blank local remote server = do
    credentials ← gets (λ s. s.credentials)
    throw_if (equal_credentials credentials blank) authentication
    known ← gets (λ s. s.blank_auth_hash)
    auth ← lift (cached known (generate_auth_hash crypto v blank))
    modify (λ s. record s { blank_auth_hash = some auth })
    throw_if (not (matches local remote server auth)) authentication
    pure (local, remote, auth)

  -- The second test: the credentials of the kasa setup.
  pub check_kasa_setup : Bytes → Bytes → Bytes → Exec KlapTransport Agreement
  check_kasa_setup local remote server = do
    known ← gets (λ s. s.kasa_setup_auth_hash)
    auth ← lift (cached known (generate_auth_hash crypto v kasa_setup))
    modify (λ s. record s { kasa_setup_auth_hash = some auth })
    if matches local remote server auth
        then pure (local, remote, auth)
        else check_blank local remote server

  -- The first test: the user's credentials.
  pub check_local : Bytes → Bytes → Bytes → Exec KlapTransport Agreement
  check_local local remote server = do
    auth ← gets (λ s. s.local_auth_hash)
    if matches local remote server auth
        then pure (local, remote, auth)
        else check_kasa_setup local remote server

  abbrev pub expect_body : ℕ → Option Bytes → Exec KlapTransport Bytes
  expect_body status none = throw authentication
  expect_body status (some a) = if status == 200 then pure a else throw authentication

  pub perform_handshake1 : Exec KlapTransport Agreement
  perform_handshake1 = do
    local_seed ← new_seed
    answer ← client_post handshake1 none local_seed
    data_ ← expect_body answer.0 answer.1
    check_local local_seed (take 16 data_) (drop 16 data_)

  pub perform_handshake2 : Agreement → Exec KlapTransport KlapEncryptionSession
  perform_handshake2 (local_seed, remote_seed, auth_hash) = do
    answer ←
        client_post handshake2 none
          (handshake2_seed_auth_hash crypto v local_seed remote_seed auth_hash)
    throw_if (not (answer.0 == 200)) authentication
    pure (Session.new_session crypto local_seed remote_seed auth_hash)

  pub perform_handshake : Exec KlapTransport NoneType
  perform_handshake = do
    modify
        (λ s. record s { handshake_done = false; session_expire_at = none; session_cookie = none })
    agreement ← perform_handshake1
    modify (λ s. record s { session_cookie = s.client_cookie })
    time ← read_clock
    modify (λ s. record s { session_expire_at = some (time + 86400) })
    session ← perform_handshake2 agreement
    modify (λ s. record s { encryption_session = some session; handshake_done = true })

  -- `_handshake_session_expired`, which reads the clock only if there is an expiry time
  pub handshake_session_expired : Exec KlapTransport Bool
  handshake_session_expired s = elim s.session_expire_at [
    | none ↦ (ok true, s)
    | some t ↦ (ok (leb t (now s.world).0), record s { world = (now s.world).1 })
  ]

  pub needs_handshake : Exec KlapTransport Bool
  needs_handshake s = if s.handshake_done then handshake_session_expired s else (ok true, s)

  -- An unset session would leave `payload` unbound.
  abbrev pub seal_request : List ℕ → Option KlapEncryptionSession → Exec KlapTransport (Bytes × ℤ)
  seal_request text none s = (err runtime_error, s)
  seal_request text (some session) s = elim (encode text) [
    | err e ↦ (err e, s)
    | ok msg ↦
        let r = Session.encrypt crypto session msg in
        (r.0, record s { encryption_session = some r.1 })
  ]

  abbrev pub open_response : Option KlapEncryptionSession → Bytes → Result (List ℕ)
  open_response none body = err runtime_error
  open_response (some session) body = Session.decrypt crypto session body

  -- After the request has been posted.
  pub finish_send : ℕ → Option Bytes → Exec KlapTransport Value
  finish_send status body =
      if status == 200
      then (do
        session ← gets (λ s. s.encryption_session)
        response ← lift (or_raise body type_error)
        text ← lift (open_response session response)
        lift (json_loads text))
      else if status == 403
      then (do modify (λ s. record s { handshake_done = false }); throw authentication)
      else throw smart_device

  pub send : List ℕ → Exec KlapTransport Value
  send text = do
    needed ← needs_handshake
    throw_if needed smart_device
    session ← gets (λ s. s.encryption_session)
    sealed ← seal_request text session
    answer ← client_post request (some sealed.1) sealed.0
    finish_send answer.0 answer.1

  unfoldable pub close : Exec KlapTransport NoneType
  close s =
      let r = if s.client_open then close_client s.world else (ok tt, s.world) in
      (r.0, record s { client_open = false; world = r.1 })

  abbrev pub transport : BaseTransport
  transport = record {
    State = KlapTransport;
    needs_handshake = needs_handshake;
    needs_login = pure false;
    login = λ text. throw smart_device;
    handshake = perform_handshake;
    send = send;
    close = close;
  }
