-- ===== src/Strip/Sockets.antt =====
-- `SmartStripPlug` (kasa/smartstrip.py): its requests, and the properties that it reads in the sysinfo of
-- the strip.
use python_kasa.Prelude.{
  Bool, false, not, [], ◌∷◌, Option, none, some, String, ◌=s=◌, if◌then◌else◌,
}
use Prim.Native.String.{◌++◌ as text_append}
use python_kasa.Prelude.Int.{ℤ, pos}
use python_kasa.Exec.{Result, ok, err, smart_device, type_error, ◌>>=◌}
use python_kasa.Exec.State.{Exec}
use python_kasa.Numbers.{Float}
use python_kasa.Json.{
  Value, null, num, str, obj, Items, nil, cons, Fields, end, field, index, truthy,
}
use python_kasa.Json.Merge.{merge}
use python_kasa.Device.{SmartDevice, Protocol}
use python_kasa.Device.Requests
use python_kasa.Device.Answers
use python_kasa.Device.Methods.{Owner}
use python_kasa.Device.Properties.{guarded, sys_info}
use python_kasa.Device.Properties
use python_kasa.Device.Switch.{instant}
use python_kasa.Modules.Emeter.{number_of}
use python_kasa.Modules.Usage.{month_arguments}
use python_kasa.Strip.{Socket, items}

-- `_create_request`: the ids of the socket's own, whatever is passed.
unfoldable pub create_request : String → String → Value → Socket → Fields
create_request target cmd arg c = Requests.create_request target cmd arg (some (c.child_id ∷ []))

module _ (protocol : Protocol) where
  open protocol use {World}

  -- `_query_helper`, which is the strip's; of the device only the connection is used.
  unfoldable pub query_helper : String → String → Value → Exec (Socket × World) Value
  query_helper target cmd arg (c, w) =
      let r = Answers.query_helper protocol target cmd arg (some (c.child_id ∷ [])) (c.device, w) in
      (r.0, (c, r.1.1))

  -- The socket as the object of the methods that it inherits.
  abbrev pub socket_owner : Owner
  socket_owner = record {
    State = Socket × World;
    device = λ s. s.0.device;
    create_request = λ target cmd arg s. create_request target cmd arg s.0;
    query_helper = query_helper;
  }

  unfoldable pub turn_on : Exec (Socket × World) Value
  unfolding query_helper
  turn_on = query_helper "system" "set_relay_state" (obj (field "state" (num (pos 1)) end))

  unfoldable pub turn_off : Exec (Socket × World) Value
  unfolding query_helper
  turn_off = query_helper "system" "set_relay_state" (obj (field "state" (num (pos 0)) end))

-- plug["id"] == self.child_id
abbrev is_text : String → Value → Bool
is_text key (str s) = s =s= key
is_text key v = false

unfoldable pub find_child : String → Items → Result Value
find_child child_id nil = err smart_device
find_child child_id (cons plug rest) =
    let others = find_child child_id rest in
    index "id" plug >>= λ (id : Value). if is_text child_id id then ok plug else others

-- `_get_child_info`
unfoldable pub get_child_info : String → SmartDevice → Result Value
unfolding find_child sys_info
get_child_info child_id parent = do
  info ← sys_info parent
  children ← index "children" info
  plugs ← items children
  find_child child_id plugs

-- A property of the socket, guarded by its own last update, that reads a key of its information.
abbrev child_property : String → String → SmartDevice → Socket → Result Value
child_property name key parent c =
    guarded name (λ _. do info ← get_child_info c.child_id parent; index key info) c.device

unfoldable pub is_on : SmartDevice → Socket → Result Bool
unfolding get_child_info
is_on parent c = child_property "is_on" "state" parent c >>= λ (v : Value). ok (truthy v)

unfoldable pub is_off : SmartDevice → Socket → Result Bool
unfolding is_on
is_off parent c = guarded "is_off" (λ _. is_on parent c >>= λ (b : Bool). ok (not b)) c.device

unfoldable pub led : Socket → Result Bool
led c = guarded "led" (λ _. ok false) c.device

-- f"{self.mac}_{self.child_id}"
unfoldable pub device_id : Socket → Result String
unfolding Properties.mac
device_id c =
    guarded "device_id"
      (λ s. do mac ← Properties.mac s; ok (text_append mac (text_append "_" c.child_id))) c.device

unfoldable pub alias : SmartDevice → Socket → Result Value
unfolding get_child_info
alias parent c = child_property "alias" "alias" parent c

unfoldable pub next_action : SmartDevice → Socket → Result Value
unfolding get_child_info
next_action parent c = child_property "next_action" "next_action" parent c

abbrev started : (Float → ℤ) → ℤ → String → SmartDevice → Result (Option ℤ)
started rounded now child_id parent = do
  info ← get_child_info child_id parent
  on_time ← index "on_time" info
  seconds ← number_of on_time
  ok (some (instant rounded now seconds))

unfoldable pub on_since : (Float → ℤ) → ℤ → SmartDevice → Socket → Result (Option ℤ)
unfolding is_off get_child_info
on_since rounded now parent c =
    guarded "on_since"
      (λ _. do
        off ← is_off parent c
        (if off then ok none else started rounded now c.child_id parent))
      c.device

-- f"Socket for {sys_info['model']}", for a model that is a text
abbrev model_text : Value → Result String
model_text (str s) = ok (text_append "Socket for " s)
model_text v = err type_error

unfoldable pub model : SmartDevice → Socket → Result String
unfolding sys_info
model parent c =
    guarded "model" (λ _. do info ← sys_info parent; name ← index "model" info; model_text name)
      c.device

-- `_create_emeter_request`, with the year and the month that are given or are those of now
unfoldable pub create_emeter_request : ℤ → ℤ → Socket → Result Value
unfolding create_request merge
create_emeter_request year month c = do
  realtime ← merge (obj end) (create_request "emeter" "get_realtime" null c)
  months ← merge realtime (create_request "emeter" "get_monthstat" (month_arguments year) c)
  merge months (
      create_request "emeter" "get_daystat"
        (obj (field "month" (num month) (field "year" (num year) end))) c)
