-- ===== src/Tapo/Bulb.antt =====
-- `TapoBulb` (kasa/tapo/tapobulb.py). The argument `transition` is ignored, as the source says.
use python_kasa.Prelude.{
  Bool, false, not, ◌||◌, List, [], ◌∷◌, Option, none, some, String, ◌=s=◌, if◌then◌else◌,
  or_default,
}
use python_kasa.Prelude.Int.{ℤ, pos, negsuc, between_ℤ, ltb_ℤ}
use python_kasa.Exec.{
  Result, NoneType, ok, err, smart_device, value_error, type_error, key_error, index_error,
  attribute_error, not_implemented, raise_if, ◌>>=◌,
}
use python_kasa.Exec.State.{Exec}
use python_kasa.Json.{
  Value, null, flag, num, str, arr, obj, nil, cons, Fields, end, field, lookup, contains, truthy,
}
use python_kasa.Lights.{check_brightness}
use python_kasa.Tapo.{TapoDevice, Protocol, State, attribute, set_device_info}

abbrev pub available_effects : List (String × String)
available_effects = ("L1", "Party") ∷ ("L2", "Relax") ∷ []

abbrev effect_name : String → List (String × String) → String
effect_name id [] = ""
effect_name id ((key, name) ∷ rest) = if key =s= id then name else effect_name id rest

-- AVAILABLE_EFFECTS.get(x, ""), for what can be a key
abbrev name_of : Value → Result String
name_of (str id) = ok (effect_name id available_effects)
name_of (arr xs) = err type_error
name_of (obj d) = err type_error
name_of v = ok ""

-- self._info.get(key, default)
unfoldable pub info_or : String → Value → TapoDevice → Result Value
info_or key default d = attribute d.info >>= λ (info : Value). elim info [
  | obj fields ↦ ok (or_default (lookup key fields) default)
  | _ ↦ err attribute_error
]

-- key in self._info
abbrev in_info : String → TapoDevice → Result Bool
in_info key d = attribute d.info >>= contains key

abbrev pub has_emeter : Bool
has_emeter = false

unfoldable pub is_color : TapoDevice → Result Bool
is_color d = in_info "hue" d

unfoldable pub is_dimmable : TapoDevice → Result Bool
is_dimmable d = in_info "brightness" d

unfoldable pub is_variable_color_temp : TapoDevice → Result Bool
unfolding info_or
is_variable_color_temp d =
    info_or "color_temp_range" (flag false) d >>= λ (v : Value). ok (truthy v)

unfoldable pub has_effects : TapoDevice → Result Bool
has_effects d = in_info "dynamic_light_effect_enable" d

abbrev zeros : Value
zeros = arr (cons (num (pos 0)) (cons (num (pos 0)) nil))

-- The limits, ct_range[0] and ct_range[1].
abbrev limits_of : Value → Result (Value × Value)
limits_of (arr (cons lo (cons hi rest))) = ok (lo, hi)
limits_of (arr xs) = err index_error
limits_of (obj d) = err key_error
limits_of v = err type_error

unfoldable pub valid_temperature_range : TapoDevice → Result (Value × Value)
unfolding info_or
valid_temperature_range d = info_or "color_temp_range" zeros d >>= limits_of

unfoldable pub effect_list : TapoDevice → Result (Option (List String))
unfolding has_effects
effect_list d = has_effects d >>= λ (b : Bool). ok (if b then some ("L1" ∷ "L2" ∷ []) else none)

abbrev Hsv : Type 0
Hsv = Value × Value × Value

unfoldable pub hsv : TapoDevice → Result Hsv
unfolding is_color info_or
hsv d = is_color d >>= λ (color : Bool). raise_if (not color) smart_device >>= λ (_ : NoneType).
    info_or "hue" (num (pos 0)) d >>= λ (h : Value).
    info_or "saturation" (num (pos 0)) d >>= λ (s : Value).
    info_or "brightness" (num (pos 0)) d >>= λ (v : Value). ok (h, s, v)

unfoldable pub color_temp : TapoDevice → Result Value
unfolding is_variable_color_temp info_or
color_temp d = is_variable_color_temp d >>= λ (variable : Bool).
    raise_if (not variable) smart_device >>= λ (_ : NoneType).
    info_or "color_temp" (num (negsuc 0)) d

unfoldable pub brightness : TapoDevice → Result Value
unfolding is_dimmable info_or
brightness d = is_dimmable d >>= λ (dimmable : Bool).
    raise_if (not dimmable) smart_device >>= λ (_ : NoneType).
    info_or "brightness" (num (negsuc 0)) d

abbrev is_empty_text : Value → Bool
is_empty_text (str s) = s =s= ""
is_empty_text v = false

unfoldable pub effect : TapoDevice → Result Fields
unfolding info_or brightness
effect d = info_or "dynamic_light_effect_id" (str "") d >>= λ (current : Value).
    brightness d >>= λ (level : Value). name_of current >>= λ (name : String). ok (
      field "brightness" level (
        field "enable" (flag (not (is_empty_text current)))
          (field "id" current (field "name" (str name) end))))

-- A limit that is an integer, as devices report it.
abbrev int_limit : Value → Result ℤ
int_limit (num n) = ok n
int_limit v = err type_error

abbrev pub optional_int : Option ℤ → Value
optional_int none = null
optional_int (some n) = num n

abbrev pub check_value : Option ℤ → Result NoneType
check_value none = ok tt
check_value (some v) = check_brightness v

-- What `set_hsv` sends; a value that is not given is sent as null.
unfoldable pub hsv_params : ℤ → ℤ → Option ℤ → TapoDevice → Result Fields
unfolding is_color
hsv_params hue saturation value d = is_color d >>= λ (color : Bool).
    raise_if (not color) smart_device >>= λ (_ : NoneType).
    raise_if (not (between_ℤ (pos 0) hue (pos 360))) value_error >>= λ (_ : NoneType).
    raise_if (not (between_ℤ (pos 0) saturation (pos 100))) value_error >>= λ (_ : NoneType).
    check_value value >>= λ (_ : NoneType). ok (
      field "hue" (num hue)
        (field "saturation" (num saturation) (field "brightness" (optional_int value) end)))

unfoldable pub temp_params : ℤ → TapoDevice → Result Fields
unfolding is_variable_color_temp valid_temperature_range
temp_params temp d = is_variable_color_temp d >>= λ (variable : Bool).
    raise_if (not variable) smart_device >>= λ (_ : NoneType).
    valid_temperature_range d >>= λ (limits : Value × Value). int_limit limits.0 >>= λ (lo : ℤ).
    int_limit limits.1 >>= λ (hi : ℤ).
    raise_if (ltb_ℤ temp lo || ltb_ℤ hi temp) value_error >>= λ (_ : NoneType).
    ok (field "color_temp" (num temp) end)

unfoldable pub brightness_params : ℤ → TapoDevice → Result Fields
unfolding is_dimmable
brightness_params level d = is_dimmable d >>= λ (dimmable : Bool).
    raise_if (not dimmable) smart_device >>= λ (_ : NoneType).
    ok (field "brightness" (num level) end)

module _ (protocol : Protocol) where
  -- Checks, and then one request.
  unfoldable pub send_checked : (TapoDevice → Result Fields) → Exec (State protocol) Value
  unfolding set_device_info
  send_checked check (d, w) = elim (check d) [
    | err e ↦ (err e, (d, w))
    | ok params ↦ set_device_info protocol params (d, w)
  ]

  unfoldable pub set_hsv : ℤ → ℤ → Option ℤ → Exec (State protocol) Value
  unfolding send_checked
  set_hsv hue saturation value = send_checked (hsv_params hue saturation value)

  unfoldable pub set_color_temp : ℤ → Exec (State protocol) Value
  unfolding send_checked temp_params
  set_color_temp temp = send_checked (temp_params temp)

  unfoldable pub set_brightness : ℤ → Exec (State protocol) Value
  unfolding send_checked brightness_params
  set_brightness level = send_checked (brightness_params level)

  -- `set_effect` raises before the request that stands below it.
  unfoldable pub set_effect : String → Exec (State protocol) NoneType
  set_effect name s = (err not_implemented, s)

-- `state_information`, with the presets left out, which are always empty
unfoldable pub state_information :
    TapoDevice → Result (Value × Bool × Option (Value × (Value × Value)) × Option Hsv)
unfolding brightness is_dimmable is_variable_color_temp color_temp valid_temperature_range is_color
    hsv
state_information d = brightness d >>= λ (level : Value). is_dimmable d >>= λ (dimmable : Bool).
    is_variable_color_temp d >>= λ (variable : Bool).
    (if variable
      then (color_temp d >>= λ (temp : Value).
          valid_temperature_range d >>= λ (r : Value × Value). ok (some (temp, r)))
      else ok none)
    >>= λ (temperature : Option (Value × (Value × Value))). is_color d >>= λ (color : Bool).
        (if color then (hsv d >>= λ (c : Hsv). ok (some c)) else ok none)
        >>= λ (shown : Option Hsv). ok (level, dimmable, temperature, shown)
