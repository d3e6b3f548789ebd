-- ===== src/Aes/Laws.antt =====
-- The AES transport's handshake, login and requests as a state machine.
use python_kasa.Prelude.{ℕ, ◌≡◌, refl, Bool, true, false, List, arith, is_some}
use python_kasa.Exec.{Result}
use python_kasa.Exec.State.{lift, ◌>>=◌, Keeps, keeps_rules}
use python_kasa.Exec.Triple.{Post, Triple, Triple-bind, Triple-modify, Triple-Keeps}
use python_kasa.Json.{Value, Fields}
use python_kasa.Aes
use python_kasa.Aes.{Surroundings, AesTransport}

module _ (env : Surroundings) where
  -- The state between calls: a transport that counts as connected has a session with an expiry time.
  abbrev pub IsConsistent : AesTransport env → Type 0
  IsConsistent s =
      (s.handshake_done ≡ true)
      → (is_some s.encryption_session ≡ true) × (is_some s.session_expire_at ≡ true)

  client_post-IsConsistent :
      (token : Value) (json : Fields) → Keeps IsConsistent (Aes.client_post env token json)
  unfolding Aes.client_post
  client_post-IsConsistent token json = record { at = λ s h. ground arith }

  open_passthrough-IsConsistent :
      (b : Bool) (body : Value) → Keeps IsConsistent (Aes.open_passthrough env b body)
  unfolding Aes.open_passthrough ◌>>=◌
  open_passthrough-IsConsistent b body = record { at = λ s h. ground arith }

  pub send_secure_passthrough-IsConsistent :
      (request : List ℕ) → Keeps IsConsistent (Aes.send_secure_passthrough env request)
  unfolding Aes.send_secure_passthrough
  send_secure_passthrough-IsConsistent request =
      search (keeps_rules, client_post-IsConsistent, open_passthrough-IsConsistent) depth 10

  pub needs_handshake-IsConsistent : Keeps IsConsistent (Aes.needs_handshake env)
  unfolding Aes.needs_handshake Aes.handshake_session_expired
  needs_handshake-IsConsistent = record { at = λ s h. ground arith }

  needs_login-IsConsistent : Keeps IsConsistent (Aes.needs_login env)
  needs_login-IsConsistent = record { at = λ s h. h }

  finish_send-IsConsistent : (resp : Value) → Keeps IsConsistent (Aes.finish_send env resp)
  unfolding Aes.finish_send ◌>>=◌
  finish_send-IsConsistent resp = record { at = λ s h. ground arith }

  -- A request never makes a transport count as connected that has no session or expiry time.
  pub aes_send-IsConsistent : (request : List ℕ) → Keeps IsConsistent (Aes.send env request)
  unfolding Aes.send
  aes_send-IsConsistent request =
      search
        (
          keeps_rules, needs_handshake-IsConsistent, needs_login-IsConsistent,
          send_secure_passthrough-IsConsistent, finish_send-IsConsistent,
        )
        depth 10

  -- While the handshake is under way: not connected, and with an expiry time if `timed` is set.
  abbrev Underway : Bool → AesTransport env → Type 0
  Underway timed s = (s.handshake_done ≡ false) × (is_some s.session_expire_at ≡ timed)

  client_post-Underway :
      (b : Bool) (token : Value) (json : Fields)
      → Keeps (Underway b) (Aes.client_post env token json)
  unfolding Aes.client_post
  client_post-Underway b token json = record { at = λ s h. ground arith }

  new_key_pair-Underway : (b : Bool) → Keeps (Underway b) (Aes.new_key_pair env)
  new_key_pair-Underway b = record { at = λ s h. h }

  read_clock-Underway : (b : Bool) → Keeps (Underway b) (Aes.read_clock env)
  read_clock-Underway b = record { at = λ s h. h }

  abbrev pub IsConnected : AesTransport env → Type 0
  IsConnected s =
      (s.handshake_done ≡ true)
      × (is_some s.encryption_session ≡ true)
      × (is_some s.session_expire_at ≡ true)

  abbrev pub IsDisconnected : AesTransport env → Type 0
  IsDisconnected s = s.handshake_done ≡ false

  lift-Underway :
      {A : Type 0} (b : Bool) (r : Result A)
      → Triple (Underway b) (lift r) (Underway b) IsDisconnected
  lift-Underway b r = Triple-Keeps _ (search keeps_rules depth 2) (λ s h. h.0)

  accept_handshake-Triple :
      (key_pair : Aes.KeyPair) (body : Value)
      → Triple (Underway false) (Aes.accept_handshake env key_pair body) IsConnected IsDisconnected
  accept_handshake-Triple key_pair body =
      unfold Aes.accept_handshake in
      Triple-bind (Underway false) _ _ (lift-Underway false _) λ result.
        Triple-bind (Underway false) _ _ (lift-Underway false _) λ handshake_key.
          Triple-bind (Underway false) _ _ (Triple-modify _ (λ s h. h)) λ _.
            Triple-bind (Underway false) _ _
              (Triple-Keeps _ (read_clock-Underway false) (λ s h. h.0))
              λ time. Triple-bind (Underway true) _ _ (Triple-modify _ (λ s h. (h.0, refl))) λ _.
                Triple-bind (Underway true) _ _ (lift-Underway true _) λ text.
                  Triple-bind (Underway true) _ _ (lift-Underway true _)
                    λ session. Triple-modify _ (λ s h. (refl, refl, h.1))

  perform_handshake-Triple :
      Triple (λ s. Unit {0}) (Aes.perform_handshake env) IsConnected IsDisconnected
  perform_handshake-Triple =
      unfold Aes.perform_handshake in
      Triple-bind (Underway false) _ _ (Triple-modify _ (λ s h. (refl, refl))) λ _.
        Triple-bind (Underway false) _ _ (Triple-Keeps _ (new_key_pair-Underway false) (λ s h. h.0))
          λ key_pair.
            Triple-bind (Underway false) _ _
              (Triple-Keeps _ (client_post-Underway false _ _) (λ s h. h.0))
              λ answer. Triple-bind (Underway false) _ _ (lift-Underway false _) λ success.
                Triple-bind (Underway false) _ _
                  (Triple-Keeps _ (search keeps_rules depth 2) (λ s h. h.0))
                  λ _. accept_handshake-Triple key_pair answer.1

  -- A handshake with the AES transport that returns leaves a session with an expiry time, and one
  -- that raises leaves the transport to be connected again, whatever state it began in.
  pub aes_handshake-outcome :
      (s : AesTransport env) → Post IsConnected IsDisconnected (Aes.perform_handshake env s)
  aes_handshake-outcome s = perform_handshake-Triple.at s tt
