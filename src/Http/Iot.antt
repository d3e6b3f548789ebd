-- ===== src/Http/Iot.antt =====
-- `IotProtocol` (kasa/iotprotocol.py).
use python_kasa.Prelude.{ℕ, List, Bool, true, false}
use python_kasa.Exec.{Result, NoneType, smart_device}
use python_kasa.Exec.State.{Exec, pure, throw_if, ◌>>=◌, ◌>>◌}
use python_kasa.Json.{Value}
use python_kasa.Http.Transport.{BaseTransport}
use python_kasa.Http

-- `if c: await m`
abbrev pub when : {S : Type 0} → Bool → Exec S NoneType → Exec S NoneType
when true m = m
when false m = pure tt

module _ (transport : BaseTransport) where
  open transport use {State, needs_handshake, needs_login, handshake, send, close}

  pub execute_query : List ℕ → Exec State Value
  execute_query request = do
    new ← needs_handshake
    when new handshake
    login ← needs_login
    throw_if login smart_device
    send request

  pub query : List ℕ → ℕ → State → Result Value × State
  query request retry_count = Http.query_loop (execute_query request) close retry_count
