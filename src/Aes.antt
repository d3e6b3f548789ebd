-- ===== src/Aes.antt =====
-- `AesTransport` (kasa/aestransport.py): the handshake with a key pair, the two kinds of login and
-- the requests. The HTTP client, the clock, the key pairs, the hashes and the codecs are parameters.
pub mod Session
pub mod Hashes
pub mod Login
pub mod Laws
pub mod Tokens
pub mod Reachable
mod Tests
use python_kasa.Prelude.{
  or_default, ℕ, ◌+◌, Bool, true, false, not, ◌&&◌, List, Option, none, some, String, ◌=s=◌, ◌==◌,
  leb, if◌then◌else◌,
}
use python_kasa.Exec.{
  Error, Result, NoneType, ok, err, smart_device, authentication, attribute_error, type_error,
  or_raise, is_smart_device_exception,
}
use python_kasa.Exec.State.{Exec, pure, throw, throw_if, lift, gets, modify, ◌>>=◌, ◌>>◌}
use python_kasa.Json.{Value, null, str, obj, Fields, end, field, put, index, truthy, is_zero}
use python_kasa.Cipher.Utf8.{encode}
use python_kasa.Bytes.{Bytes, Crypto}
use python_kasa.Credentials.{Credentials, blank}
use python_kasa.Http.Transport.{BaseTransport}
use python_kasa.Aes.Session
use python_kasa.Aes.Session.{AesEncryptionSession, Codec}

-- The body, the token in the URL and the cookie that is sent.
pub record Post : Type 0 where
  pub json : Fields
  pub token : Value
  pub cookie : Option String

-- An answer: the status, the body as resp.json() reads it, and the cookies the client now holds.
pub record Response : Type 0 where
  pub status_code : ℕ
  pub json : Result Value
  pub tp_session_id : Option String
  pub session_id : Option String

pub record KeyPair : Type 0 where
  pub private_key : String
  pub public_key : String

pub record Surroundings : Type 1 where
  pub World : Type 0
  pub crypto : Crypto
  pub codec : Codec
  -- the hexadecimal digest, as bytes
  pub sha1_hex : Bytes → Bytes
  pub post : Post → World → Result Response × World
  -- client.aclose(), which may raise
  pub close_client : World → Result NoneType × World
  pub now : World → ℕ × World
  pub create_key_pair : World → KeyPair × World
  -- the public key between its header and footer lines
  pub pem : String → String
  pub json_loads : List ℕ → Result Value
  pub json_dumps : Value → List ℕ

module _ (env : Surroundings) where
  open env use {
    World, crypto, codec, sha1_hex, post, close_client, now, create_key_pair, pem, json_loads,
    json_dumps,
  }

  -- No login token is null.
  pub record AesTransport : Type 0 where
    pub credentials : Credentials
    pub handshake_done : Bool
    pub encryption_session : Option AesEncryptionSession
    pub session_expire_at : Option ℕ
    pub session_cookie : Option String
    pub login_token : Value
    -- the client's cookies, and whether there is a client
    pub tp_session_id : Option String
    pub session_id : Option String
    pub client_open : Bool
    pub world : World

  -- `__init__`; the HTTP client is there from the start. No credentials are blank ones.
  unfoldable pub init : Option Credentials → World → AesTransport
  init credentials world = record {
    credentials = or_default credentials blank;
    handshake_done = false;
    encryption_session = none;
    session_expire_at = none;
    session_cookie = none;
    login_token = null;
    tp_session_id = none;
    session_id = none;
    client_open = true;
    world = world;
  }

  abbrev pub receive : Result Response → Exec AesTransport (ℕ × Value)
  receive (err e) s = (err e, s)
  receive (ok r) s =
      let t = record s { tp_session_id = r.tp_session_id; session_id = r.session_id } in
      if r.status_code == 200
      then elim r.json [ err e ↦ (err e, t) | ok body ↦ (ok (200, body), t) ]
      else (ok (r.status_code, null), t)

  -- A cookie that is set and not empty.
  abbrev sent_cookie : Option String → Option String
  sent_cookie none = none
  sent_cookie (some c) = if c =s= "" then none else some c

  -- The status, and the body where the status is 200; `token` is null where the URL has none.
  unfoldable pub client_post : Value → Fields → Exec AesTransport (ℕ × Value)
  client_post token json s =
      let message : Post = record {
        json = json;
        token = token;
        cookie = sent_cookie s.session_cookie;
      } in
      let r = post message s.world in
      receive r.0
        (record s { client_open = true; tp_session_id = none; session_id = none; world = r.1 })

  abbrev pub session_of : Option AesEncryptionSession → Result AesEncryptionSession
  session_of o = or_raise o attribute_error

  -- body["error_code"] == 0, read only where the status is 200
  abbrev pub is_success : ℕ → Value → Result Bool
  is_success status body =
      if status == 200
      then elim (index "error_code" body) [ err e ↦ err e | ok code ↦ ok (is_zero code) ]
      else ok false

  -- resp_dict["result"]["response"].encode(), as the text that base64 reads
  abbrev pub text_of : Value → Result String
  text_of (str s) = ok s
  text_of v = err attribute_error

  -- What is done with the answer to a securePassthrough.
  unfoldable pub open_passthrough : Bool → Value → Exec AesTransport Value
  open_passthrough true body = do
    session ← gets (λ s. s.encryption_session)
    key ← lift (session_of session)
    result ← lift (index "result" body)
    response ← lift (index "response" result)
    text ← lift (text_of response)
    decrypted ← lift (Session.decrypt crypto codec key text)
    lift (json_loads decrypted)
  open_passthrough false body = do
    modify (λ s. record s { handshake_done = false; login_token = null })
    throw authentication

  abbrev pub passthrough_request : String → Fields
  passthrough_request payload =
      field "method" (str "securePassthrough")
        (field "params" (obj (field "request" (str payload) end)) end)

  -- if self._login_token: url += …
  abbrev pub token_in_url : Value → Value
  token_in_url token = if truthy token then token else null

  unfoldable pub send_secure_passthrough : List ℕ → Exec AesTransport Value
  send_secure_passthrough request = do
    token ← gets (λ s. token_in_url s.login_token)
    session ← gets (λ s. s.encryption_session)
    key ← lift (session_of session)
    text ← lift (encode request)
    answer ← client_post token (passthrough_request (Session.encrypt crypto codec key text))
    success ← lift (is_success answer.0 answer.1)
    open_passthrough success answer.1

  abbrev pub handshake_request : String → Fields
  handshake_request public_key =
      field "method" (str "handshake")
        (field "params" (obj (field "key" (str (pem public_key)) end)) end)

  abbrev new_key_pair : Exec AesTransport KeyPair
  new_key_pair s = let r = create_key_pair s.world in (ok r.0, record s { world = r.1 })

  abbrev read_clock : Exec AesTransport ℕ
  read_clock s = let r = now s.world in (ok r.0, record s { world = r.1 })

  -- The TP_SESSIONID cookie, and SESSIONID if there is none or it is empty.
  abbrev pub received_cookie : AesTransport → Option String
  received_cookie s = elim (sent_cookie s.tp_session_id) [ none ↦ s.session_id | some c ↦ some c ]

  -- The branch of `perform_handshake` for a device that agrees.
  unfoldable pub accept_handshake : KeyPair → Value → Exec AesTransport NoneType
  accept_handshake key_pair body = do
    result ← lift (index "result" body)
    handshake_key ← lift (index "key" result)
    modify (λ s. record s { session_cookie = received_cookie s })
    time ← read_clock
    modify (λ s. record s { session_expire_at = some (time + 86400) })
    text ← lift (text_of handshake_key)
    session ← lift (Session.create_from_keypair crypto codec text key_pair.private_key)
    modify (λ s. record s { encryption_session = some session; handshake_done = true })

  unfoldable pub perform_handshake : Exec AesTransport NoneType
  perform_handshake = do
    modify
        (λ s. record s { handshake_done = false; session_expire_at = none; session_cookie = none })
    key_pair ← new_key_pair
    answer ← client_post null (handshake_request key_pair.public_key)
    success ← lift (is_success answer.0 answer.1)
    throw_if (not success) authentication
    accept_handshake key_pair answer.1

  -- `_handshake_session_expired`, which reads the clock only if there is an expiry time
  unfoldable pub handshake_session_expired : Exec AesTransport Bool
  handshake_session_expired s = elim s.session_expire_at [
    | none ↦ (ok true, s)
    | some t ↦ (ok (leb t (now s.world).0), record s { world = (now s.world).1 })
  ]

  unfoldable pub needs_handshake : Exec AesTransport Bool
  needs_handshake s = if s.handshake_done then handshake_session_expired s else (ok true, s)

  abbrev pub is_none : Value → Bool
  is_none null = true
  is_none _ = false

  abbrev pub needs_login : Exec AesTransport Bool
  needs_login s = (ok (is_none s.login_token), s)

  -- After the passthrough of a request.
  unfoldable pub finish_send : Value → Exec AesTransport Value
  finish_send resp = do
    code ← lift (index "error_code" resp)
    if is_zero code then pure resp else (do
      modify (λ s. record s { handshake_done = false; login_token = null })
      throw smart_device)

  unfoldable pub send : List ℕ → Exec AesTransport Value
  send request = do
    new ← needs_handshake
    throw_if new smart_device
    login ← needs_login
    throw_if login smart_device
    resp ← send_secure_passthrough request
    finish_send resp

  unfoldable pub close : Exec AesTransport NoneType
  close s =
      let r = if s.client_open then close_client s.world else (ok tt, s.world) in
      (r.0, record s { client_open = false; world = r.1 })
