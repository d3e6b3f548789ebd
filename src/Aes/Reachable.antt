-- ===== src/Aes/Reachable.antt =====
-- The states of an AES transport that its users can bring about (kasa/aestransport.py).
use python_kasa.Prelude.{ℕ, Bool, true, false, List, Option, arith}
use python_kasa.Exec.{Result, NoneType, ok, err, authentication}
use python_kasa.Exec.State.{Keeps, Keeps-bind, Keeps-lift, Keeps-gets, Keeps-throw_if}
use python_kasa.Json.{Value}
use python_kasa.Exec.Triple.{Post}
use python_kasa.Credentials.{Credentials}
use python_kasa.Aes
use python_kasa.Aes.{Surroundings, AesTransport}
use python_kasa.Aes.Login
use python_kasa.Aes.Laws.{
  IsConsistent, IsConnected, IsDisconnected, needs_handshake-IsConsistent,
  send_secure_passthrough-IsConsistent, aes_handshake-outcome, aes_send-IsConsistent,
}

module _ (env : Surroundings) where
  -- A new transport, and what a call leaves, whether it returned or raised.
  pub data AesReachable : AesTransport env → Type 0 where
    started :
        (credentials : Option Credentials) (world : env.World)
        → AesReachable (Aes.init env credentials world)
    checked : {s : AesTransport env} → AesReachable s → AesReachable (Aes.needs_handshake env s).1
    shaken : {s : AesTransport env} → AesReachable s → AesReachable (Aes.perform_handshake env s).1
    sent :
        {s : AesTransport env} (text : List ℕ)
        → AesReachable s
        → AesReachable (Aes.send env text s).1
    logged_in :
        {s : AesTransport env} (text : List ℕ)
        → AesReachable s
        → AesReachable (Login.login env text s).1
    closed : {s : AesTransport env} → AesReachable s → AesReachable (Aes.close env s).1

  init-IsConsistent :
      (credentials : Option Credentials) (world : env.World)
      → IsConsistent env (Aes.init env credentials world)
  unfolding Aes.init
  init-IsConsistent credentials world = ground arith

  Post-IsConsistent :
      {A : Type 0} (o : Result A × AesTransport env)
      → Post (IsConnected env) (IsDisconnected env) o
      → IsConsistent env o.1
  Post-IsConsistent (ok a, s) h = λ _. (h.1, h.2)
  Post-IsConsistent (err e, s) h = λ done. absurd (cc)

  as_authentication-IsConsistent :
      (o : Result Value × AesTransport env)
      → IsConsistent env o.1
      → IsConsistent env (Login.as_authentication env o).1
  as_authentication-IsConsistent (ok a, s) h = h
  as_authentication-IsConsistent (err e, s) h = h

  login_passthrough-IsConsistent :
      (request : Value) → Keeps (IsConsistent env) (Login.login_passthrough env request)
  login_passthrough-IsConsistent request = record {
    at = λ s h.
        as_authentication-IsConsistent _ ((send_secure_passthrough-IsConsistent env _).at s h);
  }

  perform_login-IsConsistent :
      (request : List ℕ) (login_v2 : Bool)
      → Keeps (IsConsistent env) (Login.perform_login env request login_v2)
  perform_login-IsConsistent request login_v2 =
      unfold Login.perform_login in
      Keeps-bind _ _ (record { at = λ s h. h })
        λ _. Keeps-bind _ _ (Keeps-lift _) λ dict. Keeps-bind _ _ (Keeps-gets _) λ credentials.
          Keeps-bind _ _ (Keeps-lift _) λ hashed. Keeps-bind _ _ (Keeps-lift _) λ full.
            Keeps-bind _ _ (login_passthrough-IsConsistent full) λ resp.
              Keeps-bind _ _ (Keeps-lift _)
                λ result. Keeps-bind _ _ (Keeps-lift _) λ token. record { at = λ s h. h }

  perform_handshake-IsConsistent : Keeps (IsConsistent env) (Aes.perform_handshake env)
  perform_handshake-IsConsistent = record {
    at = λ s h. Post-IsConsistent _ (aes_handshake-outcome env s);
  }

  first_login-IsConsistent :
      (request : List ℕ) → Keeps (IsConsistent env) (Login.first_login env request)
  first_login-IsConsistent request =
      unfold Login.first_login in
      Keeps-bind _ _ (needs_handshake-IsConsistent env)
        λ new. Keeps-bind _ _ (Keeps-throw_if _ _) λ _. perform_login-IsConsistent request false

  second_login-IsConsistent :
      (request : List ℕ) → Keeps (IsConsistent env) (Login.second_login env request)
  second_login-IsConsistent request =
      unfold Login.second_login in
      Keeps-bind _ _ perform_handshake-IsConsistent λ _. perform_login-IsConsistent request true

  or_second-IsConsistent :
      (request : List ℕ) (o : Result NoneType × AesTransport env)
      → IsConsistent env o.1
      → IsConsistent env (Login.or_second env request o).1
  or_second-IsConsistent request (ok r, s) h = h
  or_second-IsConsistent request (err authentication, s) h =
      (second_login-IsConsistent request).at s h
  or_second-IsConsistent request (err e, s) h = h

  login-IsConsistent : (request : List ℕ) → Keeps (IsConsistent env) (Login.login env request)
  login-IsConsistent request = record {
    at = λ s h.
        unfold Login.login in
        or_second-IsConsistent request _ ((first_login-IsConsistent request).at s h);
  }

  close-IsConsistent :
      (s : AesTransport env) → IsConsistent env s → IsConsistent env (Aes.close env s).1
  unfolding Aes.close
  close-IsConsistent s h = h

  -- However an AES transport has been used, with calls that returned and calls that raised, it counts as
  -- connected only with a session and an expiry time.
  pub AesReachable-IsConsistent : (s : AesTransport env) → AesReachable s → IsConsistent env s
  AesReachable-IsConsistent _ (started credentials world) = init-IsConsistent credentials world
  AesReachable-IsConsistent _ (checked {s} r) =
      (needs_handshake-IsConsistent env).at s (AesReachable-IsConsistent s r)
  AesReachable-IsConsistent _ (shaken {s} r) =
      Post-IsConsistent (Aes.perform_handshake env s) (aes_handshake-outcome env s)
  AesReachable-IsConsistent _ (sent {s} text r) =
      (aes_send-IsConsistent env text).at s (AesReachable-IsConsistent s r)
  AesReachable-IsConsistent _ (logged_in {s} text r) =
      (login-IsConsistent text).at s (AesReachable-IsConsistent s r)
  AesReachable-IsConsistent _ (closed {s} r) = close-IsConsistent s (AesReachable-IsConsistent s r)
