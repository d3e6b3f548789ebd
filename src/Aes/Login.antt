-- ===== src/Aes/Login.antt =====
-- The login of `AesTransport` (kasa/aestransport.py), with hashed credentials of two versions.
use python_kasa.Prelude.{ℕ, Bool, true, false, List, if◌then◌else◌}
use python_kasa.Exec.{
  Result, NoneType, ok, err, smart_device, authentication, type_error, is_smart_device_exception,
}
use python_kasa.Exec.State.{Exec, throw_if, lift, gets, modify, ◌>>=◌, ◌>>◌}
use python_kasa.Json.{Value, null, str, obj, end, field, put, index}
use python_kasa.Http.Transport.{BaseTransport}
use python_kasa.Aes
use python_kasa.Aes.{Surroundings, AesTransport}
use python_kasa.Aes.Hashes.{hash_credentials}

-- login_request_dict["params"] = …
abbrev set_params : Value → Value → Result Value
set_params params (obj d) = ok (obj (put "params" params d))
set_params params v = err type_error

module _ (env : Surroundings) where
  open env use {codec, sha1_hex, json_loads, json_dumps}

  -- `except SmartDeviceException as ex: raise AuthenticationException(ex) from ex`
  abbrev pub as_authentication :
      {A : Type 0} → Result A × AesTransport env → Result A × AesTransport env
  as_authentication (ok a, s) = (ok a, s)
  as_authentication (err e, s) =
      (err (if is_smart_device_exception e then authentication else e), s)

  abbrev pub login_passthrough : Value → Exec (AesTransport env) Value
  login_passthrough request s =
      as_authentication (Aes.send_secure_passthrough env (json_dumps request) s)

  unfoldable pub perform_login : List ℕ → Bool → Exec (AesTransport env) NoneType
  perform_login login_request login_v2 = do
    modify (λ s. record s { login_token = null })
    login_request_dict ← lift (json_loads login_request)
    credentials ← gets (λ s. s.credentials)
    hashed ← lift (hash_credentials codec sha1_hex login_v2 credentials)
    request ← lift (
        set_params (obj (field "password" (str hashed.1) (field "username" (str hashed.0) end)))
          login_request_dict)
    resp ← login_passthrough request
    result ← lift (index "result" resp)
    token ← lift (index "token" result)
    modify (λ s. record s { login_token = token })

  -- The body of the `try` in `login`.
  unfoldable pub first_login : List ℕ → Exec (AesTransport env) NoneType
  first_login request = do
    new ← Aes.needs_handshake env
    throw_if new smart_device
    perform_login request false

  unfoldable pub second_login : List ℕ → Exec (AesTransport env) NoneType
  second_login request = do Aes.perform_handshake env; perform_login request true

  -- `except AuthenticationException:`
  abbrev pub or_second :
      List ℕ → Result NoneType × AesTransport env → Result NoneType × AesTransport env
  or_second request (ok r, s) = (ok r, s)
  or_second request (err authentication, s) = second_login request s
  or_second request (err e, s) = (err e, s)

  unfoldable pub login : List ℕ → Exec (AesTransport env) NoneType
  login request s = or_second request (first_login request s)

  abbrev pub transport : BaseTransport
  transport = record {
    State = AesTransport env;
    needs_handshake = Aes.needs_handshake env;
    needs_login = Aes.needs_login env;
    login = login;
    handshake = Aes.perform_handshake env;
    send = Aes.send env;
    close = Aes.close env;
  }
