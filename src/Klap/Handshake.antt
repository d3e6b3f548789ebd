-- ===== src/Klap/Handshake.antt =====
-- The KLAP handshake as a state machine: when the transport counts as connected.
use python_kasa.Prelude.{ℕ, ◌≡◌, refl, Bool, true, false, List, Option, none, some, arith, is_some}
use python_kasa.Prelude.Int.{ℤ}
use python_kasa.Exec.{ok, err, smart_device, authentication}
use python_kasa.Exec.State.{Keeps, keeps_rules, ◌>>=◌}
use python_kasa.Exec.Triple.{Post, Triple, Triple-bind, Triple-modify, Triple-Keeps}
use python_kasa.Bytes.{Bytes}
use python_kasa.Klap
use python_kasa.Klap.{Surroundings, KlapTransport, Endpoint, request}
use python_kasa.Klap.Hashes.{Version}
use python_kasa.Klap.Session
use python_kasa.Klap.Session.{KlapEncryptionSession}
use python_kasa.Cipher.Utf8.{encode}

module _ (v : Version) (env : Surroundings) where
  -- While the handshake is under way: not connected, and with an expiry time if `timed` is set.
  abbrev Underway : Bool → KlapTransport v env → Type 0
  Underway timed s = (s.handshake_done ≡ false) × (is_some s.session_expire_at ≡ timed)

  client_post-Underway :
      (b : Bool) (endpoint : Endpoint) (seq : Option ℤ) (payload : Bytes)
      → Keeps (Underway b) (Klap.client_post v env endpoint seq payload)
  unfolding Klap.client_post
  client_post-Underway b endpoint seq payload = record { at = λ s h. ground arith }

  new_seed-Underway : (b : Bool) → Keeps (Underway b) (Klap.new_seed v env)
  new_seed-Underway b = record { at = λ s h. h }

  read_clock-Underway : (b : Bool) → Keeps (Underway b) (Klap.read_clock v env)
  read_clock-Underway b = record { at = λ s h. h }

  check_local-Underway :
      (b : Bool) (local remote server : Bytes)
      → Keeps (Underway b) (Klap.check_local v env local remote server)
  unfolding Klap.check_local Klap.check_kasa_setup Klap.check_blank ◌>>=◌
  check_local-Underway b local remote server = record { at = λ s h. ground arith }

  expect_body-Underway :
      (b : Bool) (status : ℕ) (body : Option Bytes)
      → Keeps (Underway b) (Klap.expect_body v env status body)
  expect_body-Underway b status body = record { at = λ s h. ground arith }

  perform_handshake1-Underway : (b : Bool) → Keeps (Underway b) (Klap.perform_handshake1 v env)
  unfolding Klap.perform_handshake1
  perform_handshake1-Underway b =
      search
        (
          keeps_rules, new_seed-Underway, client_post-Underway, expect_body-Underway,
          check_local-Underway,
        )
        depth 8

  perform_handshake2-Underway :
      (b : Bool) (a : Klap.Agreement v env) → Keeps (Underway b) (Klap.perform_handshake2 v env a)
  unfolding Klap.perform_handshake2
  perform_handshake2-Underway b (local, remote, auth) =
      search (keeps_rules, client_post-Underway) depth 8

  -- Connected: there is a session with an expiry time.
  abbrev pub IsConnected : KlapTransport v env → Type 0
  IsConnected s =
      (s.handshake_done ≡ true)
      × (is_some s.encryption_session ≡ true)
      × (is_some s.session_expire_at ≡ true)

  abbrev pub IsDisconnected : KlapTransport v env → Type 0
  IsDisconnected s = s.handshake_done ≡ false

  -- A handshake that returns leaves a session with an expiry time, and one that raises leaves the
  -- transport to be connected again, whatever state it began in.
  pub perform_handshake-outcome :
      (s : KlapTransport v env) → Post IsConnected IsDisconnected (Klap.perform_handshake v env s)
  perform_handshake-outcome s = whole.at s tt
    where
      whole : Triple (λ s. Unit {0}) (Klap.perform_handshake v env) IsConnected IsDisconnected
      whole =
          unfold Klap.perform_handshake in
          Triple-bind (Underway false) _ _ (Triple-modify _ (λ s h. (refl, refl))) λ _.
            Triple-bind (Underway false) _ _
              (Triple-Keeps _ (perform_handshake1-Underway false) (λ s h. h.0))
              λ agreement. Triple-bind (Underway false) _ _ (Triple-modify _ (λ s h. h)) λ _.
                Triple-bind (Underway false) _ _
                  (Triple-Keeps _ (read_clock-Underway false) (λ s h. h.0))
                  λ time.
                    Triple-bind (Underway true) _ _ (Triple-modify _ (λ s h. (h.0, refl))) λ _.
                      Triple-bind (Underway true) _ _
                        (Triple-Keeps _ (perform_handshake2-Underway true agreement) (λ s h. h.0))
                        λ session. Triple-modify _ (λ s h. (refl, refl, h.1))

  -- The state of the transport between calls: if it counts as connected, it is.
  abbrev pub IsConsistent : KlapTransport v env → Type 0
  IsConsistent s =
      (s.handshake_done ≡ true)
      → (is_some s.encryption_session ≡ true) × (is_some s.session_expire_at ≡ true)

  client_post-IsConsistent :
      (endpoint : Endpoint) (seq : Option ℤ) (payload : Bytes)
      → Keeps IsConsistent (Klap.client_post v env endpoint seq payload)
  unfolding Klap.client_post
  client_post-IsConsistent endpoint seq payload = record { at = λ s h. ground arith }

  pub needs_handshake-IsConsistent : Keeps IsConsistent (Klap.needs_handshake v env)
  unfolding Klap.needs_handshake Klap.handshake_session_expired
  needs_handshake-IsConsistent = record { at = λ s h. ground arith }

  finish_send-IsConsistent :
      (status : ℕ) (body : Option Bytes) → Keeps IsConsistent (Klap.finish_send v env status body)
  unfolding Klap.finish_send ◌>>=◌
  finish_send-IsConsistent status body = record { at = λ s h. ground arith }

  seal_request-IsConsistent :
      (text : List ℕ) (session : Option KlapEncryptionSession)
      → Keeps IsConsistent (Klap.seal_request v env text session)
  seal_request-IsConsistent text none = record { at = λ s h. h }
  seal_request-IsConsistent text (some session) = record { at = λ s h. ground arith }

  -- A request never makes a transport count as connected that has no session or expiry time,
  -- whether it returns or raises.
  pub send-IsConsistent : (text : List ℕ) → Keeps IsConsistent (Klap.send v env text)
  unfolding Klap.send
  send-IsConsistent text =
      search
        (
          keeps_rules, needs_handshake-IsConsistent, seal_request-IsConsistent,
          client_post-IsConsistent, finish_send-IsConsistent,
        )
        depth 10

  -- Before a handshake nothing is posted: the request raises SmartDeviceException.
  pub send-disconnected :
      (text : List ℕ) (s : KlapTransport v env)
      → s.handshake_done ≡ false
      → Klap.send v env text s ≡ (err smart_device, s)
  unfolding Klap.send Klap.needs_handshake ◌>>=◌
  send-disconnected text s h = ground arith

  -- The answer of status 403 to a request raises AuthenticationException, and makes the next
  -- request wait for a new handshake.
  pub send-forbidden :
      (text : List ℕ) (s t : KlapTransport v env) (session next : KlapEncryptionSession)
      (msg payload : Bytes) (seq : ℤ) (body : Option Bytes)
      → Klap.needs_handshake v env s ≡ (ok false, t)
      → t.encryption_session ≡ some session
      → encode text ≡ ok msg
      → Session.encrypt env.crypto session msg ≡ (ok (payload, seq), next)
      → let u : KlapTransport v env = record t { encryption_session = some next } in
        let answer = Klap.client_post v env request (some seq) payload u in
        answer.0 ≡ ok (403, body)
        → (Klap.send v env text s
            ≡ (err authentication, record answer.1 { handshake_done = false }))
          × (Klap.needs_handshake v env (Klap.send v env text s).1
              ≡ (ok true, (Klap.send v env text s).1))
  unfolding Klap.send Klap.finish_send Klap.needs_handshake ◌>>=◌
  send-forbidden text s t session next msg payload seq body fresh known encoded sealed refused =
      ground arith
