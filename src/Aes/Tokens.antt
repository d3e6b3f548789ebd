-- ===== src/Aes/Tokens.antt =====
-- The login token of the AES transport.
use python_kasa.Prelude.{ℕ, ◌≡◌, refl, Bool, true, false, List, arith}
use python_kasa.Exec.{Result, NoneType, ok, err, authentication}
use python_kasa.Exec.State.{lift, ◌>>=◌, Keeps, keeps_rules, Keeps-bind}
use python_kasa.Exec.Triple.{Post, Triple, Triple-bind, Triple-modify, Triple-Keeps}
use python_kasa.Json.{Value, null, Fields}
use python_kasa.Aes
use python_kasa.Aes.{Surroundings, AesTransport}
use python_kasa.Aes.Login

module _ (env : Surroundings) where
  abbrev pub HasNoToken : AesTransport env → Type 0
  HasNoToken s = s.login_token ≡ null

  client_post-HasNoToken :
      (token : Value) (json : Fields) → Keeps HasNoToken (Aes.client_post env token json)
  unfolding Aes.client_post
  client_post-HasNoToken token json = record { at = λ s h. ground arith }

  open_passthrough-HasNoToken :
      (b : Bool) (body : Value) → Keeps HasNoToken (Aes.open_passthrough env b body)
  unfolding Aes.open_passthrough ◌>>=◌
  open_passthrough-HasNoToken b body = record { at = λ s h. ground arith }

  send_secure_passthrough-HasNoToken :
      (request : List ℕ) → Keeps HasNoToken (Aes.send_secure_passthrough env request)
  unfolding Aes.send_secure_passthrough
  send_secure_passthrough-HasNoToken request =
      search (keeps_rules, client_post-HasNoToken, open_passthrough-HasNoToken) depth 10

  as_authentication-HasNoToken :
      (o : Result Value × AesTransport env)
      → HasNoToken o.1
      → HasNoToken (Login.as_authentication env o).1
  as_authentication-HasNoToken (ok a, s) h = h
  as_authentication-HasNoToken (err e, s) h = h

  login_passthrough-HasNoToken :
      (request : Value) → Keeps HasNoToken (Login.login_passthrough env request)
  login_passthrough-HasNoToken request = record {
    at = λ s h. as_authentication-HasNoToken _ ((send_secure_passthrough-HasNoToken _).at s h);
  }

  accept_handshake-HasNoToken :
      (key_pair : Aes.KeyPair) (body : Value)
      → Keeps HasNoToken (Aes.accept_handshake env key_pair body)
  unfolding Aes.accept_handshake ◌>>=◌
  accept_handshake-HasNoToken key_pair body = record { at = λ s h. ground arith }

  perform_handshake-HasNoToken : Keeps HasNoToken (Aes.perform_handshake env)
  perform_handshake-HasNoToken =
      unfold Aes.perform_handshake in
      Keeps-bind _ _ (record { at = λ s h. h })
        λ _.
          Keeps-bind _ _ (record { at = λ s h. h })
            λ key_pair. Keeps-bind _ _ (client_post-HasNoToken _ _) λ answer.
              Keeps-bind _ _ (search keeps_rules depth 2) λ success.
                Keeps-bind _ _ (search keeps_rules depth 2)
                  λ _. accept_handshake-HasNoToken key_pair answer.1

  lift-HasNoToken : {A : Type 0} (r : Result A) → Triple HasNoToken (lift r) HasNoToken HasNoToken
  lift-HasNoToken r = Triple-Keeps _ (search keeps_rules depth 2) (λ s h. h)

  perform_login-Triple :
      (request : List ℕ) (login_v2 : Bool)
      → Triple (λ s. Unit {0}) (Login.perform_login env request login_v2) (λ s. Unit {0}) HasNoToken
  perform_login-Triple request login_v2 =
      unfold Login.perform_login in
      Triple-bind HasNoToken _ _ (Triple-modify _ (λ s h. refl)) λ _.
        Triple-bind HasNoToken _ _ (lift-HasNoToken _) λ login_request.
          Triple-bind HasNoToken _ _ (Triple-Keeps _ (search keeps_rules depth 2) (λ s h. h))
            λ credentials. Triple-bind HasNoToken _ _ (lift-HasNoToken _) λ hashed.
              Triple-bind HasNoToken _ _ (lift-HasNoToken _) λ full.
                Triple-bind HasNoToken _ _
                  (Triple-Keeps _ (login_passthrough-HasNoToken full) (λ s h. h))
                  λ resp. Triple-bind HasNoToken _ _ (lift-HasNoToken _) λ result.
                    Triple-bind HasNoToken _ _ (lift-HasNoToken _)
                      λ token. Triple-modify _ (λ s h. tt)

  second_login-Triple :
      (request : List ℕ)
      → Triple HasNoToken (Login.second_login env request) (λ s. Unit {0}) HasNoToken
  second_login-Triple request =
      unfold Login.second_login in
      Triple-bind HasNoToken _ _ (Triple-Keeps _ perform_handshake-HasNoToken (λ s h. h))
        λ _. record { at = λ s h. (perform_login-Triple request true).at s tt }

  first_login-connected :
      (request : List ℕ) (s : AesTransport env)
      → (Aes.needs_handshake env s).0 ≡ ok false
      → Login.first_login env request s
        ≡ Login.perform_login env request false (Aes.needs_handshake env s).1
  unfolding Login.first_login ◌>>=◌
  first_login-connected request s h = ground arith

  or_second-Post :
      (request : List ℕ) (o : Result NoneType × AesTransport env)
      → Post (λ s. Unit {0}) HasNoToken o
      → Post (λ s. Unit {0}) HasNoToken (Login.or_second env request o)
  or_second-Post request (ok r, s) h = tt
  or_second-Post request (err authentication, s) h = (second_login-Triple request).at s h
  or_second-Post request (err e, s) h = h

  -- A login after a handshake that raises, in the first way or in the second, leaves no token, so
  -- that the protocol logs in again before the next request.
  pub login-HasNoToken :
      (request : List ℕ) (s : AesTransport env)
      → (Aes.needs_handshake env s).0 ≡ ok false
      → Post (λ s. Unit {0}) HasNoToken (Login.login env request s)
  unfolding Login.login
  login-HasNoToken request s h =
      or_second-Post request (Login.first_login env request s)
        (rw (first_login-connected request s h) ((perform_login-Triple request false).at _ tt))
