-- ===== src/Http/Smart.antt =====
-- `SmartProtocol` (kasa/smartprotocol.py).
use python_kasa.Prelude.{ℕ, List, Bool, true, false, String, Option, none, some}
use python_kasa.Prelude.Int.{ℤ}
use python_kasa.Exec.{Result, NoneType, ok, err, runtime_error}
use python_kasa.Exec.State.{Exec, pure, lift, gets, ◌>>=◌, ◌>>◌}
use python_kasa.Json.{Value, null, num, str, obj, Fields, end, field, contains, index}
use python_kasa.Http.Transport.{BaseTransport}
use python_kasa.Http.Iot.{when}
use python_kasa.Http

-- What the requests take from their surroundings: the id generator, the clock in milliseconds,
-- the hash of a random UUID, and the JSON writer.
pub record Surroundings : Type 1 where
  pub World : Type 0
  pub generate_id : World → Result ℤ × World
  pub now : World → ℤ × World
  pub new_uuid : World → String × World
  pub json_dumps : Fields → List ℕ

-- A request is a method's name, or a dict whose first entry is the method with its parameters.
pub data Request : Type 0 where
  method : String → Request
  dict : Fields → Request

-- `next(iter(request))` of an empty dict ends the coroutine with a RuntimeError.
abbrev pub method_of : Request → Result (String × Value)
method_of (method m) = ok (m, null)
method_of (dict end) = err runtime_error
method_of (dict (field m params rest)) = ok (m, params)

-- None in JSON is null.
abbrev pub optional_text : Option String → Value
optional_text none = null
optional_text (some s) = str s

-- The end of `query`: the result, or an empty dict if the response has none.
abbrev select : Value → Bool → Result Value
select response true = index "result" response
select response false = ok (obj end)

abbrev pick : Value → Result Bool → Result Value
pick response (ok found) = select response found
pick response (err e) = err e

unfoldable pub result_of : Result Value → Result Value
unfolding contains index
result_of (err e) = err e
result_of (ok response) = pick response (contains "result" response)

module _ (transport : BaseTransport) (env : Surroundings) where
  open transport use {State}
  open env use {World, generate_id, now, new_uuid, json_dumps}

  pub record SmartProtocol : Type 0 where
    pub transport_state : State
    pub terminal_uuid : Option String
    pub world : World

  abbrev pub on_transport : {A : Type 0} → Exec State A → Exec SmartProtocol A
  on_transport m s = let r = m s.transport_state in (r.0, record s { transport_state = r.1 })

  abbrev next_id : Exec SmartProtocol ℤ
  next_id s = let r = generate_id s.world in (r.0, record s { world = r.1 })

  abbrev read_clock : Exec SmartProtocol ℤ
  read_clock s = let r = now s.world in (ok r.0, record s { world = r.1 })

  abbrev renew_uuid : Exec SmartProtocol NoneType
  renew_uuid s =
      let r = new_uuid s.world in (ok tt, record s { terminal_uuid = some r.0; world = r.1 })

  pub get_smart_request : String → Value → Exec SmartProtocol (List ℕ)
  get_smart_request m params = do
    id ← next_id
    time ← read_clock
    uuid ← gets (λ s. s.terminal_uuid)
    pure (
        json_dumps (
          field "method" (str m) (
            field "params" params (
              field "requestID" (num id) (
                field "request_time_milis" (num time)
                  (field "terminal_uuid" (optional_text uuid) end))))))

  pub log_in : Exec SmartProtocol NoneType
  log_in = do
    renew_uuid
    login_request ← get_smart_request "login_device" null
    on_transport (transport.login login_request)

  pub execute_query : Request → Exec SmartProtocol Value
  execute_query request = do
    (smart_method, smart_params) ← lift (method_of request)
    new ← on_transport transport.needs_handshake
    when new (on_transport transport.handshake)
    login ← on_transport transport.needs_login
    when login log_in
    smart_request ← get_smart_request smart_method smart_params
    on_transport (transport.send smart_request)

  pub close : Exec SmartProtocol NoneType
  close = on_transport transport.close

  pub query : Request → ℕ → SmartProtocol → Result Value × SmartProtocol
  query request retry_count s =
      let r = Http.query_loop (execute_query request) close retry_count s in (result_of r.0, r.1)
