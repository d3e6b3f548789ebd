-- ===== src/Lights/Bulb.antt =====
-- `SmartBulb` (kasa/smartbulb.py).
use text.Mathlib.Text.{starts_with}
use python_kasa.Prelude.{
  ℕ, Bool, true, false, not, ◌&&◌, ◌||◌, Option, none, some, String, ◌=s=◌, List, [], ◌∷◌,
  if◌then◌else◌,
}
use python_kasa.Prelude.Int.{ℤ, pos, between_ℤ, ltb_ℤ}
use python_kasa.Exec.{
  Result, NoneType, ok, err, smart_device, value_error, type_error, raise_if, ◌>>=◌,
}
use python_kasa.Json.{Value, num, str, obj, Fields, end, field, put, has, lookup, truthy, index}
use python_kasa.Device.{SmartDevice, Protocol, State, requires_update}
use python_kasa.Lights.{sys_info_flag, guarded_sys_info, check_brightness, command}

abbrev pub light_service : String
light_service = "smartlife.iot.smartbulb.lightingservice"

-- state[key] = value, unless the value is None
abbrev pub put_some : String → Option ℤ → Fields → Fields
put_some key none state = state
put_some key (some v) state = put key (num v) state

-- NON_COLOR_MODE_FLAGS.issuperset(state)
abbrev pub only_flags : Fields → Bool
only_flags end = true
only_flags (field k v d) = (k =s= "transition_period" || k =s= "on_off") && only_flags d

abbrev pub on_by_default : Fields → Fields
on_by_default state = if has "on_off" state then state else put "on_off" (num (pos 1)) state

-- bool(state["on_off"]), which is there
abbrev pub turns_on : Fields → Bool
turns_on state = elim (lookup "on_off" state) [ none ↦ false | some v ↦ truthy v ]

abbrev pub with_default_flag : Fields → Fields
with_default_flag state =
    put "ignore_default" (num (if turns_on state && only_flags state then pos 0 else pos 1)) state

-- The state that `set_light_state` sends.
unfoldable pub light_state_request : Fields → Option ℤ → Fields
light_state_request state transition =
    with_default_flag (on_by_default (put_some "transition_period" transition state))

abbrev pub is_color : SmartDevice → Result Bool
is_color s = sys_info_flag "is_color" "is_color" s

abbrev pub is_dimmable : SmartDevice → Result Bool
is_dimmable s = sys_info_flag "is_dimmable" "is_dimmable" s

abbrev pub is_variable_color_temp : SmartDevice → Result Bool
is_variable_color_temp s = sys_info_flag "is_variable_color_temp" "is_variable_color_temp" s

abbrev light_command : Fields → Option ℤ → Result (String × String × Value)
light_command state transition =
    ok (light_service, "transition_light_state", obj (light_state_request state transition))

-- `if value is not None: self._raise_for_invalid_brightness(value)`
abbrev pub check_value : Option ℤ → Result NoneType
check_value none = ok tt
check_value (some v) = check_brightness v

abbrev pub hs_state : ℤ → ℤ → Fields
hs_state hue saturation =
    field "hue" (num hue)
      (field "saturation" (num saturation) (field "color_temp" (num (pos 0)) end))

unfoldable pub check_hsv :
    ℤ → ℤ → Option ℤ → Option ℤ → SmartDevice → Result (String × String × Value)
check_hsv hue saturation value transition s = requires_update "set_hsv" s >>= λ (_ : NoneType).
    is_color s >>= λ (color : Bool). raise_if (not color) smart_device >>= λ (_ : NoneType).
    raise_if (not (between_ℤ (pos 0) hue (pos 360))) value_error >>= λ (_ : NoneType).
    raise_if (not (between_ℤ (pos 0) saturation (pos 100))) value_error >>= λ (_ : NoneType).
    check_value value >>= λ (_ : NoneType).
    light_command (put_some "brightness" value (hs_state hue saturation)) transition

-- TPLINK_KELVIN; its patterns are literal, so that re.match tests for a prefix.
abbrev pub tplink_kelvin : List (String × ℕ × ℕ)
tplink_kelvin =
    ("LB130", 2500, 9000)
    ∷ ("LB120", 2700, 6500)
    ∷ ("LB230", 2500, 9000)
    ∷ ("KB130", 2500, 9000)
    ∷ ("KL130", 2500, 9000)
    ∷ ("KL125", 2500, 6500)
    ∷ ("KL135", 2500, 6500)
    ∷ ("KL120(EU)", 2700, 6500)
    ∷ ("KL120(US)", 2700, 5000)
    ∷ ("KL430", 2500, 9000)
    ∷ []

abbrev pub find_range : String → List (String × ℕ × ℕ) → ℕ × ℕ
find_range model [] = (2700, 5000)
find_range model ((prefix, lo, hi) ∷ rest) =
    if starts_with model prefix then (lo, hi) else find_range model rest

abbrev pub range_of_model : Value → Result (ℕ × ℕ)
range_of_model (str model) = ok (find_range model tplink_kelvin)
range_of_model v = err type_error

unfoldable pub valid_temperature_range : SmartDevice → Result (ℕ × ℕ)
valid_temperature_range s = requires_update "valid_temperature_range" s >>= λ (_ : NoneType).
    is_variable_color_temp s >>= λ (variable : Bool).
    raise_if (not variable) smart_device >>= λ (_ : NoneType).
    guarded_sys_info s >>= λ (info : Value). index "model" info >>= range_of_model

unfoldable pub check_color_temp :
    ℤ → Option ℤ → Option ℤ → SmartDevice → Result (String × String × Value)
check_color_temp temp brightness transition s =
    requires_update "set_color_temp" s >>= λ (_ : NoneType).
    is_variable_color_temp s >>= λ (variable : Bool).
    raise_if (not variable) smart_device >>= λ (_ : NoneType).
    valid_temperature_range s >>= λ (limits : ℕ × ℕ).
    raise_if (ltb_ℤ temp (pos limits.0) || ltb_ℤ (pos limits.1) temp) value_error
    >>= λ (_ : NoneType).
        light_command (put_some "brightness" brightness (field "color_temp" (num temp) end))
          transition

unfoldable pub check_set_brightness : ℤ → Option ℤ → SmartDevice → Result (String × String × Value)
check_set_brightness brightness transition s =
    requires_update "set_brightness" s >>= λ (_ : NoneType). is_dimmable s >>= λ (dimmable : Bool).
    raise_if (not dimmable) smart_device >>= λ (_ : NoneType).
    check_brightness brightness >>= λ (_ : NoneType).
    light_command (field "brightness" (num brightness) end) transition

module _ (protocol : Protocol) where
  unfoldable pub set_light_state :
      Fields → Option ℤ → State protocol → Result Value × State protocol
  set_light_state state transition = command protocol (λ _. light_command state transition)

  unfoldable pub set_hsv :
      ℤ → ℤ → Option ℤ → Option ℤ → State protocol → Result Value × State protocol
  set_hsv hue saturation value transition =
      command protocol (check_hsv hue saturation value transition)

  unfoldable pub set_color_temp :
      ℤ → Option ℤ → Option ℤ → State protocol → Result Value × State protocol
  set_color_temp temp brightness transition =
      command protocol (check_color_temp temp brightness transition)

  unfoldable pub set_brightness : ℤ → Option ℤ → State protocol → Result Value × State protocol
  set_brightness brightness transition =
      command protocol (check_set_brightness brightness transition)

  unfoldable pub turn_off : Option ℤ → State protocol → Result Value × State protocol
  turn_off = set_light_state (field "on_off" (num (pos 0)) end)

  unfoldable pub turn_on : Option ℤ → State protocol → Result Value × State protocol
  turn_on = set_light_state (field "on_off" (num (pos 1)) end)
