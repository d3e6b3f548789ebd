-- ===== src/Klap/Reachable.antt =====
-- The states of a KLAP transport that its users can bring about (kasa/klaptransport.py).
use python_kasa.Prelude.{ℕ, ◌≡◌, List, Option, arith}
use python_kasa.Exec.{Result, ok, err}
use python_kasa.Exec.Triple.{Post}
use python_kasa.Credentials.{Credentials}
use python_kasa.Klap
use python_kasa.Klap.{Surroundings, KlapTransport}
use python_kasa.Klap.Hashes.{Version}
use python_kasa.Klap.Handshake.{
  IsConsistent, IsConnected, IsDisconnected, needs_handshake-IsConsistent,
  perform_handshake-outcome, send-IsConsistent,
}

module _ (v : Version) (env : Surroundings) where
  -- A new transport, and what a call leaves, whether it returned or raised.
  pub data Reachable : KlapTransport v env → Type 0 where
    started :
        (credentials : Option Credentials) (world : env.World) {s : KlapTransport v env}
        → Klap.init v env credentials world ≡ ok s
        → Reachable s
    checked : {s : KlapTransport v env} → Reachable s → Reachable (Klap.needs_handshake v env s).1
    shaken : {s : KlapTransport v env} → Reachable s → Reachable (Klap.perform_handshake v env s).1
    sent :
        {s : KlapTransport v env} (text : List ℕ)
        → Reachable s
        → Reachable (Klap.send v env text s).1
    closed : {s : KlapTransport v env} → Reachable s → Reachable (Klap.close v env s).1

  init-IsConsistent :
      (credentials : Option Credentials) (world : env.World) (s : KlapTransport v env)
      → Klap.init v env credentials world ≡ ok s
      → IsConsistent v env s
  unfolding Klap.init
  init-IsConsistent credentials world s h = ground arith

  Post-IsConsistent :
      {A : Type 0} (o : Result A × KlapTransport v env)
      → Post (IsConnected v env) (IsDisconnected v env) o
      → IsConsistent v env o.1
  Post-IsConsistent (ok a, s) h = λ _. (h.1, h.2)
  Post-IsConsistent (err e, s) h = λ done. absurd (cc)

  close-IsConsistent :
      (s : KlapTransport v env) → IsConsistent v env s → IsConsistent v env (Klap.close v env s).1
  unfolding Klap.close
  close-IsConsistent s h = h

  -- However a transport has been used, with calls that returned and calls that raised, it counts as
  -- connected only with a session and an expiry time.
  pub Reachable-IsConsistent : (s : KlapTransport v env) → Reachable s → IsConsistent v env s
  Reachable-IsConsistent s (started credentials world h) = init-IsConsistent credentials world s h
  Reachable-IsConsistent _ (checked {s} r) =
      (needs_handshake-IsConsistent v env).at s (Reachable-IsConsistent s r)
  Reachable-IsConsistent _ (shaken {s} r) =
      Post-IsConsistent (Klap.perform_handshake v env s) (perform_handshake-outcome v env s)
  Reachable-IsConsistent _ (sent {s} text r) =
      (send-IsConsistent v env text).at s (Reachable-IsConsistent s r)
  Reachable-IsConsistent _ (closed {s} r) = close-IsConsistent s (Reachable-IsConsistent s r)
