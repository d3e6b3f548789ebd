-- ===== src/Factory/Connect.antt =====
-- `connect` (kasa/device_factory.py). The constructors and the updates of the classes are an interface:
-- which protocol object a device has is a value of `Link`.
use python_kasa.Prelude.{Option, none, some}
use python_kasa.Exec.{Result, NoneType}
use python_kasa.Exec.State.{Exec, pure, lift, ◌>>=◌, ◌>>◌}
use python_kasa.Json.{Value}
use python_kasa.DeviceTypes.{
  DeviceType, plug, bulb, strip, dimmer, light_strip, tapo_plug as type_tapo_plug,
  tapo_bulb as type_tapo_bulb,
}
use python_kasa.Factory.{
  DeviceClass, smart_plug, smart_bulb, smart_strip, smart_dimmer, smart_light_strip, tapo_plug,
  tapo_bulb, ProtocolClass, get_device_class_from_sys_info,
}

-- DEVICE_TYPE_TO_CLASS.get(device_type)
abbrev pub device_type_to_class : DeviceType → Option DeviceClass
device_type_to_class plug = some smart_plug
device_type_to_class bulb = some smart_bulb
device_type_to_class strip = some smart_strip
device_type_to_class dimmer = some smart_dimmer
device_type_to_class light_strip = some smart_light_strip
device_type_to_class type_tapo_plug = some tapo_plug
device_type_to_class type_tapo_bulb = some tapo_bulb
device_type_to_class _ = none

-- device_type and (klass := DEVICE_TYPE_TO_CLASS.get(device_type))
abbrev pub known_class : Option DeviceType → Option DeviceClass
known_class none = none
known_class (some t) = device_type_to_class t

-- A protocol object: the one that the constructor of a class makes (`none` for `SmartDevice` itself), or
-- one of the class that is given.
pub data Link : Type 0 where
  own : Option DeviceClass → Link
  given : ProtocolClass → Link

pub record Devices : Type 1 where
  pub World : Type 0
  -- `update` of a new device of the class
  pub update : DeviceClass → Link → World → Result NoneType × World
  -- `update` of a new `SmartDevice`, and its `internal_state`
  pub update_unknown : Link → World → Result Value × World

pub record Connected : Type 0 where
  pub device_class : DeviceClass
  pub protocol : Link

-- if protocol_class is not None: dev.protocol = …
abbrev pub link_of : Option DeviceClass → Option ProtocolClass → Link
link_of device_class none = own device_class
link_of device_class (some protocol_class) = given protocol_class

module _ (devices : Devices) where
  open devices use {World, update, update_unknown}

  unfoldable pub connect_known : DeviceClass → Link → Exec World Connected
  connect_known klass protocol = do
    update klass protocol
    pure (record { device_class = klass; protocol = protocol })

  -- The connection of the unknown device is used again.
  unfoldable pub connect_unknown : Link → Exec World Connected
  unfolding connect_known
  connect_unknown protocol = do
    internal_state ← update_unknown protocol
    device_class ← lift (get_device_class_from_sys_info internal_state)
    connect_known device_class protocol

  unfoldable pub connect : Option DeviceType → Option ProtocolClass → Exec World Connected
  unfolding connect_known connect_unknown
  connect device_type protocol_class = elim (known_class device_type) [
    | some klass ↦ connect_known klass (link_of (some klass) protocol_class)
    | none ↦ connect_unknown (link_of none protocol_class)
  ]
