-- ===== src/Http/Transport.antt =====
-- `BaseTransport` (kasa/protocol.py): what the HTTP protocols ask of a transport.
use python_kasa.Prelude.{ℕ, List, Bool}
use python_kasa.Exec.{NoneType}
use python_kasa.Exec.State.{Exec}
use python_kasa.Json.{Value}

pub record BaseTransport : Type 1 where
  pub State : Type 0
  pub needs_handshake : Exec State Bool
  pub needs_login : Exec State Bool
  pub login : List ℕ → Exec State NoneType
  pub handshake : Exec State NoneType
  pub send : List ℕ → Exec State Value
  pub close : Exec State NoneType
