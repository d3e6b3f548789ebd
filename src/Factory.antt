-- ===== src/Factory.antt =====
-- The choice of classes (kasa/device_factory.py).
pub mod Names
pub mod Connect
use python_kasa.Prelude.{
  ℕ, Bool, true, false, not, List, [], ◌∷◌, Option, none, some, String, ◌=s=◌, or_default,
  if◌then◌else◌,
}
use python_kasa.Exec.{
  Result, NoneType, ok, err, smart_device, unsupported_device, attribute_error, raise_if, ◌>>=◌,
}
use python_kasa.Json.{Value, null, str, obj, Fields, lookup, contains, index}
use python_kasa.Device.{is_none}
use python_kasa.Factory.Names.{lower_has}

pub data DeviceClass : Type 0 where
  smart_plug smart_bulb smart_strip smart_dimmer smart_light_strip tapo_plug tapo_bulb : DeviceClass

pub data ProtocolClass : Type 0 where
  iot_protocol smart_protocol : ProtocolClass

pub data TransportClass : Type 0 where
  klap_transport klap_transport_v2 aes_transport : TransportClass

-- sysinfo.get("type", sysinfo.get("mic_type"))
abbrev type_field : Value → Result Value
type_field (obj d) = ok (or_default (lookup "type" d) (or_default (lookup "mic_type" d) null))
type_field v = err attribute_error

-- type_.lower(), up to the lowering
abbrev type_text : Value → Result String
type_text (str s) = ok s
type_text v = err attribute_error

-- `"dev_name" in sysinfo and "Dimmer" in sysinfo["dev_name"]`
abbrev is_named_dimmer : Value → Result Bool
is_named_dimmer sysinfo = contains "dev_name" sysinfo >>= λ (named : Bool).
    if named then index "dev_name" sysinfo >>= contains "Dimmer" else ok false

abbrev plug_class : Bool → DeviceClass
plug_class true = smart_strip
plug_class false = smart_plug

abbrev bulb_class : Bool → DeviceClass
bulb_class true = smart_light_strip
bulb_class false = smart_bulb

abbrev class_of_text : Value → String → Result DeviceClass
class_of_text sysinfo type_ =
    if lower_has "smartplug" type_
    then (contains "children" sysinfo >>= λ (c : Bool). ok (plug_class c))
    else if lower_has "smartbulb" type_
    then (contains "length" sysinfo >>= λ (c : Bool). ok (bulb_class c))
    else err unsupported_device

abbrev class_of : Value → Value → Bool → Result DeviceClass
class_of sysinfo type_ true = ok smart_dimmer
class_of sysinfo type_ false = type_text type_ >>= class_of_text sysinfo

unfoldable pub get_device_class_from_sys_info : Value → Result DeviceClass
get_device_class_from_sys_info info = contains "system" info >>= λ (has_system : Bool).
    raise_if (not has_system) smart_device >>= λ (_ : NoneType).
    index "system" info >>= λ (system : Value).
    contains "get_sysinfo" system >>= λ (has_sysinfo : Bool).
    raise_if (not has_sysinfo) smart_device >>= λ (_ : NoneType).
    index "get_sysinfo" system >>= λ (sysinfo : Value). type_field sysinfo >>= λ (type_ : Value).
    raise_if (is_none type_) smart_device >>= λ (_ : NoneType).
    is_named_dimmer sysinfo >>= class_of sysinfo type_

unfoldable pub get_device_class_from_type_name : String → Option DeviceClass
get_device_class_from_type_name name =
    if name =s= "SMART.TAPOPLUG"
    then some tapo_plug
    else if name =s= "SMART.TAPOBULB"
    then some tapo_bulb
    else if name =s= "SMART.KASAPLUG"
    then some tapo_plug
    else if name =s= "IOT.SMARTPLUGSWITCH"
    then some smart_plug
    else none

unfoldable pub get_protocol_from_connection_name : String → Option (ProtocolClass × TransportClass)
get_protocol_from_connection_name name =
    if name =s= "IOT.KLAP"
    then some (iot_protocol, klap_transport)
    else if name =s= "SMART.AES"
    then some (smart_protocol, aes_transport)
    else if name =s= "SMART.KLAP"
    then some (smart_protocol, klap_transport_v2)
    else none
