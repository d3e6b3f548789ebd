-- ===== src/Protocol.antt =====
-- `TPLinkSmartHomeProtocol` (kasa/protocol.py): the connection, one exchange, and the retry loop.
-- The sockets and the JSON codec are a parameter. `query_lock` makes the calls follow one
-- another, so a call is a function of the state that the one before left.
pub mod Laws
pub mod Attempts
mod Tests
use python_kasa.Prelude.{
  ℕ, zero, suc, ◌+◌, ◌≤◌, ◌≡◌, refl, Bool, true, false, not, ◌||◌, List, [], ◌∷◌, ◌==◌, leb,
  if◌then◌else◌,
}
use python_kasa.Exec.{
  Error, Result, NoneType, ok, err, smart_device, assertion_error, connection_refused, os_error,
}
use python_kasa.Exec.State.{Exec, pure, throw, throw_if, lift, gets, modify, ◌>>=◌, ◌>>◌}
use python_kasa.Json.{Value, Fields}
use python_kasa.Cipher.{encrypt, decrypt, unpack_length}
use python_kasa.Retry.{Step, return, raise, again, for_retry}

-- What asyncio's streams and the JSON codec do. A timeout of `asyncio_timeout` shows as an
-- operation that fails with `timeout_error`.
pub record Network : Type 1 where
  pub World : Type 0
  pub open_connection : World → Result NoneType × World
  pub set_nodelay : World → Result NoneType × World
  -- writer.write and writer.drain
  pub send : List ℕ → World → Result NoneType × World
  pub readexactly : ℕ → World → Result (List ℕ) × World
  -- writer.close, which asyncio documents to begin closing and not to raise, and writer.wait_closed,
  -- whose errors are suppressed
  pub close_writer : World → World
  pub json_loads : List ℕ → Result Value
  pub json_dumps : Fields → List ℕ

-- A request is a JSON text or a dict.
pub data Request : Type 0 where
  raw : List ℕ → Request
  dict : Fields → Request

-- errno.EHOSTDOWN, errno.EHOSTUNREACH, errno.ECONNREFUSED
abbrev pub is_no_retry_error : ℕ → Bool
is_no_retry_error n = n == 112 || n == 113 || n == 111

-- What the handlers around `_connect` do with an error, at round `retry` of `retry_count + 1`.
abbrev pub after_connect_error : {A : Type 0} → ℕ → ℕ → Error → Step A
after_connect_error retry_count retry connection_refused = raise smart_device
after_connect_error retry_count retry (os_error n) =
    if is_no_retry_error n || leb retry_count retry then raise smart_device else again
after_connect_error retry_count retry e =
    if leb retry_count retry then raise smart_device else again

-- The handler around `_execute_query`.
abbrev pub after_query_error : {A : Type 0} → ℕ → ℕ → Step A
after_query_error retry_count retry = if leb retry_count retry then raise smart_device else again

module _ (net : Network) where
  open net use {
    World, open_connection, set_nodelay, send, readexactly, close_writer, json_loads, json_dumps,
  }

  -- `reader` and `writer` are set and cleared together.
  pub record Connection : Type 0 where
    pub connected : Bool
    pub world : World

  -- An operation of the network leaves the two fields of the object alone.
  abbrev pub on_world : {A : Type 0} → (World → Result A × World) → Exec Connection A
  on_world op s = let r = op s.world in (r.0, record s { world = r.1 })

  pub connect : Exec Connection NoneType
  connect s =
      let fresh = (do
        on_world open_connection
        modify (λ t. record t { connected = true })
        on_world set_nodelay) in
      if s.connected then (ok tt, s) else fresh s

  -- The second half of `_execute_query`: the block with the length, and the response.
  pub read_response : Exec Connection Value
  read_response = do
    packed_block_size ← on_world (readexactly 4)
    length ← lift (unpack_length packed_block_size)
    buffer ← on_world (readexactly length)
    response ← lift (decrypt buffer)
    lift (json_loads response)

  -- `_execute_query`
  pub execute_query : List ℕ → Exec Connection Value
  execute_query request = do
    connected ← gets (λ s. s.connected)
    throw_if (not connected) assertion_error
    message ← lift (encrypt request)
    on_world (send message)
    read_response

  pub close : Connection → Connection
  close s = record {
    connected = false;
    world = if s.connected then close_writer s.world else s.world;
  }

  -- What follows the call of `_execute_query` in a round.
  abbrev pub finish_round : ℕ → ℕ → Result Value × Connection → Step Value × Connection
  finish_round retry_count retry (ok v, s) = (return v, s)
  finish_round retry_count retry (err e, s) = (after_query_error retry_count retry, close s)

  abbrev pub after_connect : List ℕ → ℕ → ℕ → Result NoneType × Connection → Step Value × Connection
  after_connect request retry_count retry (ok _, s) =
      finish_round retry_count retry (execute_query request s)
  after_connect request retry_count retry (err e, s) =
      (after_connect_error retry_count retry e, close s)

  -- One round of the loop in `_query`.
  pub round : List ℕ → ℕ → ℕ → Connection → Step Value × Connection
  round request retry_count retry s = after_connect request retry_count retry (connect s)

  -- "this should never be reached"
  abbrev pub unreachable : Connection → Result Value × Connection
  unreachable s = (err smart_device, close s)

  pub query_text : List ℕ → ℕ → Connection → Result Value × Connection
  query_text request retry_count s =
      for_retry (round request retry_count) unreachable (suc retry_count) 0 s

  pub query : Request → ℕ → Connection → Result Value × Connection
  query (raw request) retry_count s = query_text request retry_count s
  query (dict request) retry_count s = query_text (json_dumps request) retry_count s
