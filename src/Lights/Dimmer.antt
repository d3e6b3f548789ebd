-- ===== src/Lights/Dimmer.antt =====
-- `SmartDimmer` (kasa/smartdimmer.py) and the relay and led of `SmartPlug` (kasa/smartplug.py).
use python_kasa.Prelude.{Bool, true, false, not, Option, none, some, String, if◌then◌else◌}
use python_kasa.Prelude.Int.{ℤ, pos, leb_ℤ, eq_ℤ}
use python_kasa.Exec.{Result, NoneType, ok, smart_device, value_error, raise_if, ◌>>=◌}
use python_kasa.Json.{Value, num, obj, end, field, contains}
use python_kasa.Device.{SmartDevice, Protocol, State, requires_update}
use python_kasa.Lights.{guarded_sys_info, check_brightness, command}

abbrev pub dimmer_service : String
dimmer_service = "smartlife.iot.dimmer"

unfoldable pub is_dimmable : SmartDevice → Result Bool
is_dimmable s = requires_update "is_dimmable" s >>= λ (_ : NoneType).
    guarded_sys_info s >>= λ (info : Value). contains "brightness" info

unfoldable pub check_transition : ℤ → ℤ → Result (String × String × Value)
check_transition brightness transition = check_brightness brightness >>= λ (_ : NoneType).
    raise_if (leb_ℤ transition (pos 0)) value_error >>= λ (_ : NoneType). ok (
      dimmer_service,
      "set_dimmer_transition",
      obj (field "brightness" (num brightness) (field "duration" (num transition) end)),
    )

-- Dimmers do not support a brightness of 0.
abbrev pub coerced : ℤ → ℤ
coerced brightness = if eq_ℤ brightness (pos 0) then pos 1 else brightness

abbrev brightness_command : ℤ → Option ℤ → Result (String × String × Value)
brightness_command brightness none =
    ok (dimmer_service, "set_brightness", obj (field "brightness" (num brightness) end))
brightness_command brightness (some transition) = check_transition brightness transition

unfoldable pub check_set_brightness : ℤ → Option ℤ → SmartDevice → Result (String × String × Value)
unfolding check_transition
check_set_brightness brightness transition s =
    requires_update "set_brightness" s >>= λ (_ : NoneType). is_dimmable s >>= λ (dimmable : Bool).
    raise_if (not dimmable) smart_device >>= λ (_ : NoneType).
    check_brightness brightness >>= λ (_ : NoneType).
    brightness_command (coerced brightness) transition

-- "set_relay_state" of a plug
abbrev pub relay_command : ℤ → String × String × Value
relay_command state = ("system", "set_relay_state", obj (field "state" (num state) end))

abbrev check_turn_off : Option ℤ → Result (String × String × Value)
check_turn_off none = ok (relay_command (pos 0))
check_turn_off (some transition) = check_transition (pos 0) transition

-- int(not state)
abbrev pub off_flag : Bool → ℤ
off_flag true = pos 0
off_flag false = pos 1

module _ (protocol : Protocol) where
  unfoldable pub set_brightness : ℤ → Option ℤ → State protocol → Result Value × State protocol
  set_brightness brightness transition =
      command protocol (check_set_brightness brightness transition)

  unfoldable pub set_dimmer_transition : ℤ → ℤ → State protocol → Result Value × State protocol
  set_dimmer_transition brightness transition =
      command protocol (λ _. check_transition brightness transition)

  unfoldable pub turn_off : Option ℤ → State protocol → Result Value × State protocol
  turn_off transition = command protocol (λ _. check_turn_off transition)

  -- The methods of a plug.
  unfoldable pub plug_turn_on : State protocol → Result Value × State protocol
  plug_turn_on = command protocol (λ _. ok (relay_command (pos 1)))

  unfoldable pub plug_turn_off : State protocol → Result Value × State protocol
  plug_turn_off = command protocol (λ _. ok (relay_command (pos 0)))

  unfoldable pub set_led : Bool → State protocol → Result Value × State protocol
  set_led state =
      command protocol
        (λ _. ok ("system", "set_led_off", obj (field "off" (num (off_flag state)) end)))
