-- ===== src/Discover.antt =====
-- The discovery protocol (kasa/discover.py): datagrams to devices, and the tables of hosts. The JSON
-- reader and the validation of the new kind of response are parameters.
pub mod Hosts
pub mod Single
pub mod Entries
pub mod Answers
mod Tests
use Prim.Native.String.{slice, ◌++◌ as text_append}
use text.Mathlib.Text.{find?}
use python_kasa.Prelude.{
  ℕ, Bool, true, false, ◌||◌, List, [], ◌∷◌, Option, none, some, String, ◌=s=◌, ◌==◌, drop,
  or_default, if◌then◌else◌,
}
use python_kasa.Exec.{
  Error, Result, NoneType, ok, err, smart_device, unsupported_device, authentication, or_raise,
  ◌>>=◌,
}
use python_kasa.Json.{Value, null, obj, Fields, end, contains, index}
use python_kasa.Cipher.{decrypt}
use python_kasa.Bytes.{Bytes}
use python_kasa.Device.{SmartDevice, Module}
use python_kasa.Device.Children.{update_from_discover_info}
use python_kasa.Factory.{
  DeviceClass, smart_plug, tapo_plug, tapo_bulb, ProtocolClass, TransportClass,
  get_device_class_from_sys_info, get_device_class_from_type_name,
  get_protocol_from_connection_name,
}

-- What `DiscoveryResult` makes of a response: the fields that are read, and `get_dict()`.
pub record DiscoveryResult : Type 0 where
  pub device_type : String
  pub encrypt_type : Option String
  pub as_dict : Value

pub record Parsers : Type 0 where
  pub json_loads : List ℕ → Result Value
  -- json_loads of bytes
  pub json_loads_bytes : Bytes → Result Value
  -- DiscoveryResult(**result)
  pub discovery_result : Value → Result DiscoveryResult

-- What is kept of a device that was found: its class, the protocol that replaces the one of its
-- constructor, and the information from the response.
pub record Found : Type 0 where
  pub device_class : DeviceClass
  pub protocol : Option (ProtocolClass × TransportClass)
  pub info : Value

-- A device as its constructor leaves it, less its modules, which discovery does not read.
abbrev blank_device : SmartDevice
blank_device = record {
  last_update = null;
  sys_info = null;
  discovery_info = null;
  features = none;
  modules = [];
  emeter = record { module_name = "emeter"; query = end; response_size = 2048 };
}

-- `update_from_discover_info`, which the Tapo devices override with an assignment.
abbrev accept_info : DeviceClass → Value → Result NoneType
accept_info tapo_plug info = ok tt
accept_info tapo_bulb info = ok tt
accept_info c info = (update_from_discover_info info blank_device).0

-- `except Exception as ex: raise …`
abbrev as_error {ℓ} : {A : Type ℓ} → Error → Result A → Result A
as_error e (ok a) = ok a
as_error e (err x) = err e

-- type_.split('.')[0]
abbrev before_dot : String → String
before_dot t = elim (find? t ".") [ none ↦ t | some i ↦ slice t 0 i ]

abbrev connection_name : DiscoveryResult → String
connection_name d =
    text_append (before_dot d.device_type) (text_append "." (or_default d.encrypt_type "None"))

module _ (parsers : Parsers) where
  open parsers use {json_loads, json_loads_bytes, discovery_result}

  abbrev class_of_result : Value → Result DeviceClass
  class_of_result result = discovery_result result >>= λ (d : DiscoveryResult).
      or_raise (get_device_class_from_type_name d.device_type) unsupported_device

  unfoldable pub get_device_class : Value → Result DeviceClass
  get_device_class info = contains "result" info >>= λ (new : Bool).
      if new then (index "result" info >>= class_of_result) else get_device_class_from_sys_info info

  unfoldable pub get_device_instance_legacy : Bytes → Result Found
  get_device_instance_legacy data_ =
      as_error smart_device (decrypt data_ >>= json_loads) >>= λ (info : Value).
      get_device_class info >>= λ (device_class : DeviceClass).
      accept_info device_class info >>= λ (_ : NoneType).
      ok (record { device_class = device_class; protocol = none; info = info })

  unfoldable pub get_device_instance : Bytes → Result Found
  get_device_instance data_ =
      as_error unsupported_device (
        json_loads_bytes (drop 16 data_) >>= λ (info : Value).
        index "result" info >>= discovery_result)
      >>= λ (d : DiscoveryResult).
          or_raise (get_device_class_from_type_name d.device_type) unsupported_device
          >>= λ (device_class : DeviceClass).
              or_raise (get_protocol_from_connection_name (connection_name d)) unsupported_device
              >>= λ (protocol : ProtocolClass × TransportClass).
                  accept_info device_class d.as_dict >>= λ (_ : NoneType). ok (record {
                    device_class = device_class;
                    protocol = some protocol;
                    info = d.as_dict;
                  })
