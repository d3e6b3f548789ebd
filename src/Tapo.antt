-- ===== src/Tapo.antt =====
-- `TapoDevice` (kasa/tapo/tapodevice.py). An attribute that no update has set is `none`, and reading it
-- raises AttributeError. `_last_update` and `_data` are one dict. Base64 is a parameter, with Python's
-- str of a value that is no text and the name of a time zone without one.
pub mod Plug
pub mod Bulb
pub mod Laws
pub mod Bounds
mod Tests
use python_kasa.Prelude.{
  ℕ, Bool, true, false, not, Option, none, some, String, or_default, if◌then◌else◌,
}
use python_kasa.Prelude.Int.{ℤ, pos, negsuc, between_ℤ}
use python_kasa.Exec.{
  Error, Result, NoneType, ok, err, authentication, attribute_error, value_error, type_error,
  raise_if, or_raise, ◌>>=◌,
}
use python_kasa.Exec.State.{Exec, modify, lift, throw_if, pure, ◌>>=◌ as bind}
use python_kasa.Numbers.{Number, int, Floats, div, truncate}
use python_kasa.Json.{
  Value, null, flag, num, real, str, arr, obj, Fields, end, field, put, lookup, truthy,
}
use python_kasa.Credentials.{Credentials}
use python_kasa.Http.Smart.{Request, method, dict}
use python_kasa.Device.Mac.{replace_dashes}
use python_kasa.Device.Properties.{Location, text_of, get_field}
use python_kasa.EmeterStatus.{value_of}
use python_kasa.Modules.Emeter.{number_of}

pub record TapoDevice : Type 0 where
  pub credentials : Option Credentials
  pub components : Option Value
  pub info : Option Value
  pub usage : Option Value
  pub time : Option Value
  -- `_data` and `_last_update`
  pub data_ : Option Fields
  pub discovery_info : Value
  -- the attributes of a plug
  pub energy : Option Value
  pub emeter : Option Value

-- What the device asks, a `SmartProtocol`.
pub record Protocol : Type 1 where
  pub World : Type 0
  pub query : Request → World → Result Value × World

-- self._name
abbrev pub attribute : {A : Type 0} → Option A → Result A
attribute a = or_raise a attribute_error

-- self._info.get(key)
unfoldable pub get_info : String → TapoDevice → Result Value
get_info key d = attribute d.info >>= get_field key

abbrev pub has_username : Option Credentials → Bool
has_username none = false
has_username (some c) = elim c.username [ none ↦ false | some u ↦ true ]

module _ (protocol : Protocol) where
  abbrev pub State : Type 0
  State = TapoDevice × protocol.World

  -- A query whose answer is kept in an attribute.
  unfoldable pub fetch : Request → (Value → TapoDevice → TapoDevice) → Exec State Value
  fetch request store (d, w) =
      let r = protocol.query request w in
      elim r.0 [ err e ↦ (err e, (d, r.1)) | ok v ↦ (ok v, (store v d, r.1)) ]

  abbrev new_data : Value → Value → Value → Value → Fields
  new_data components info usage time =
      field "components" components
        (field "info" info (field "usage" usage (field "time" time end)))

  -- `update`
  unfoldable pub update : Exec State NoneType
  unfolding fetch
  update =
      bind (λ s. throw_if (not (has_username s.0.credentials)) authentication s)
        λ _.
          bind (fetch (method "component_nego") (λ v d. record d { components = some v }))
            λ components.
              bind (fetch (method "get_device_info") (λ v d. record d { info = some v })) λ info.
                bind (fetch (method "get_device_usage") (λ v d. record d { usage = some v }))
                  λ usage.
                    bind (fetch (method "get_device_time") (λ v d. record d { time = some v }))
                      λ time. modify (λ (d, w).
                        (record d { data_ = some (new_data components info usage time) }, w))

  -- `_query_helper`: the target and the ids of children are dropped.
  unfoldable pub query_helper : String → String → Value → Exec State Value
  query_helper target cmd arg (d, w) =
      let r = protocol.query (dict (field cmd arg end)) w in (r.0, (d, r.1))

  -- protocol.query({"set_device_info": …})
  unfoldable pub set_device_info : Fields → Exec State Value
  set_device_info params (d, w) =
      let r = protocol.query (dict (field "set_device_info" (obj params) end)) w in (r.0, (d, r.1))

  abbrev switched : Bool → Exec State NoneType
  switched on s =
      let r = set_device_info (field "device_on" (flag on) end) s in
      (r.0 >>= λ (_ : Value). ok tt, r.1)

  unfoldable pub turn_on : Exec State NoneType
  unfolding set_device_info
  turn_on = switched true

  unfoldable pub turn_off : Exec State NoneType
  unfolding set_device_info
  turn_off = switched false

unfoldable pub sys_info : TapoDevice → Result Value
sys_info d = attribute d.info

unfoldable pub internal_state : TapoDevice → Result Fields
internal_state d = attribute d.data_

unfoldable pub is_on : TapoDevice → Result Bool
unfolding get_info
is_on d = get_info "device_on" d >>= λ (v : Value). ok (truthy v)

-- `update_from_discover_info`
abbrev pub update_from_discover_info : Value → TapoDevice → TapoDevice
update_from_discover_info info d = record d { discovery_info = info }

-- A time zone has an offset in minutes and perhaps a name; less than a day either way.
pub record TapoTime : Type 0 where
  pub timestamp : Number
  pub offset : Number
  pub region : Option String

module _ (repr : Value → String) where
  abbrev str_info : String → TapoDevice → Result String
  str_info key d = get_info key d >>= λ (v : Value). ok (text_of repr v)

  unfoldable pub model : TapoDevice → Result String
  unfolding get_info
  model d = str_info "model" d

  unfoldable pub mac : TapoDevice → Result String
  unfolding get_info replace_dashes
  mac d = str_info "mac" d >>= λ (s : String). ok (replace_dashes s)

  unfoldable pub device_id : TapoDevice → Result String
  unfolding get_info
  device_id d = str_info "device_id" d

  -- base64.b64decode(…).decode()
  module _ (decode_base64 : String → Result String) where
    unfoldable pub alias : TapoDevice → Result String
    unfolding get_info
    alias d = str_info "nickname" d >>= decode_base64

    unfoldable pub hw_info : TapoDevice → Result Fields
    unfolding get_info alias
    hw_info d = get_info "fw_ver" d >>= λ (sw_ver : Value).
        get_info "hw_ver" d >>= λ (hw_ver : Value). get_info "mac" d >>= λ (mac_ : Value).
        get_info "type" d >>= λ (type_ : Value). get_info "device_id" d >>= λ (hw_id : Value).
        alias d >>= λ (dev_name : String). get_info "oem_id" d >>= λ (oem_id : Value). ok (
          field "sw_ver" sw_ver (
            field "hw_ver" hw_ver (
              field "mac" mac_ (
                field "type" type_ (
                  field "hwId" hw_id
                    (field "dev_name" (str dev_name) (field "oemId" oem_id end)))))))

    unfoldable pub state_information : TapoDevice → Result Fields
    unfolding get_info
    state_information d = get_info "overheated" d >>= λ (overheated : Value).
        get_info "signal_level" d >>= λ (signal_level : Value).
        str_info "ssid" d >>= decode_base64 >>= λ (ssid : String). ok (
          field "overheated" overheated
            (field "signal_level" signal_level (field "SSID" (str ssid) end)))

  abbrev get_time : String → TapoDevice → Result Value
  get_time key d = attribute d.time >>= get_field key

  abbrev region_of : Value → Option String
  region_of v = if truthy v then some (text_of repr v) else none

  unfoldable pub time : TapoDevice → Result TapoTime
  time d = get_time "time_diff" d >>= number_of >>= λ (offset : Number).
      get_time "region" d >>= λ (region : Value).
      raise_if (not (between_ℤ (negsuc 1438) (truncate offset) (pos 1439))) value_error
      >>= λ (_ : NoneType). get_time "timestamp" d >>= number_of >>= λ (timestamp : Number).
          ok (record { timestamp = timestamp; offset = offset; region = region_of region })

  unfoldable pub timezone : (Number → String) → TapoDevice → Result Fields
  unfolding time
  timezone utc_name d = time d >>= λ (t : TapoTime).
      ok (field "timezone" (str (or_default t.region (utc_name t.offset))) end)

module _ (floats : Floats) where
  abbrev degrees : String → TapoDevice → Result Value
  degrees key d = get_info key d >>= number_of >>= λ (n : Number).
      div floats n (int (pos 10000)) >>= λ (q : Number). ok (value_of q)

  unfoldable pub location : TapoDevice → Result Location
  unfolding get_info div
  location d = degrees "latitude" d >>= λ (latitude : Value).
      degrees "longitude" d >>= λ (longitude : Value).
      ok (record { latitude = latitude; longitude = longitude })

-- `int_of` is Python's int.
unfoldable pub rssi : (Value → Result ℤ) → TapoDevice → Result (Option ℤ)
unfolding get_info
rssi int_of d = get_info "rssi" d >>= λ (v : Value).
    if truthy v then (int_of v >>= λ (n : ℤ). ok (some n)) else ok none
