-- ===== src/Lights/Reports.antt =====
-- The state that a bulb reports, its presets and its behaviours (kasa/smartbulb.py). The pydantic models
-- are records; the parsers that fill them are parameters.
use python_kasa.Prelude.{
  ℕ, Bool, true, false, not, List, [], ◌∷◌, Option, none, some, String, length, if◌then◌else◌,
}
use python_kasa.Prelude.Int.{ℤ, pos, leb_ℤ}
use python_kasa.Exec.{Result, ok, err, smart_device, type_error, raise_if, ◌>>=◌, ◌>>◌}
use python_kasa.Json.{
  Value, null, num, str, obj, Items, nil, cons, Fields, end, field, put, index, contains, truthy,
}
use python_kasa.Device.{SmartDevice, is_none}
use python_kasa.Device.Properties.{guarded, sys_info}
use python_kasa.Lights.Bulb.{
  light_service, put_some, is_color, is_dimmable, is_variable_color_temp, valid_temperature_range,
}
use python_kasa.Modules.Usage.{entries_of}

-- {**x, key: v}
abbrev with_item : String → Value → Value → Result Value
with_item key v (obj d) = ok (obj (put key v d))
with_item key v _ = err type_error

abbrev off_state : Value → Value → Result Value
off_state is_on light_state = do
  state ← index "dft_on_state" light_state
  with_item "on_off" is_on state

-- A bulb that is off keeps its state under another key.
unfoldable pub current_state : Value → Result Value
current_state light_state = do
  raise_if (is_none light_state) smart_device
  is_on ← index "on_off" light_state
  (if truthy is_on then ok light_state else off_state is_on light_state)

-- The property `light_state`.
unfoldable pub light_state : SmartDevice → Result Value
unfolding sys_info current_state
light_state =
    guarded "light_state"
      (λ s. do info ← sys_info s; state ← index "light_state" info; current_state state)

unfoldable pub has_effects : SmartDevice → Result Bool
unfolding sys_info
has_effects =
    guarded "has_effects" (λ s. do info ← sys_info s; contains "lighting_effect_state" info)

abbrev pub Hsv : Type 0
Hsv = Value × Value × Value

unfoldable pub hsv : SmartDevice → Result Hsv
unfolding light_state
hsv = guarded "hsv" (λ s. do
  color ← is_color s
  raise_if (not color) smart_device
  state ← light_state s
  hue ← index "hue" state
  saturation ← index "saturation" state
  value ← index "brightness" state
  ok (hue, saturation, value))

module _ (int_of : Value → Result ℤ) where
  unfoldable pub color_temp : SmartDevice → Result ℤ
  unfolding light_state
  color_temp = guarded "color_temp" (λ s. do
    variable ← is_variable_color_temp s
    raise_if (not variable) smart_device
    state ← light_state s
    temp ← index "color_temp" state
    int_of temp)

  unfoldable pub brightness : SmartDevice → Result ℤ
  unfolding light_state
  brightness = guarded "brightness" (λ s. do
    dimmable ← is_dimmable s
    raise_if (not dimmable) smart_device
    state ← light_state s
    value ← index "brightness" state
    int_of value)

unfoldable pub is_on : SmartDevice → Result Bool
unfolding light_state
is_on =
    guarded "is_on" (λ s. do state ← light_state s; value ← index "on_off" state; ok (truthy value))

-- Bulbs have an emeter.
unfoldable pub has_emeter : SmartDevice → Result Bool
has_emeter = guarded "has_emeter" (λ s. ok true)

pub record SmartBulbPreset : Type 0 where
  pub preset_index : ℤ
  pub brightness : ℤ
  pub hue : Option ℤ
  pub saturation : Option ℤ
  pub color_temp : Option ℤ
  pub custom : Option ℤ
  pub id : Option String
  pub mode : Option ℤ

abbrev put_text : String → Option String → Fields → Fields
put_text key none d = d
put_text key (some s) d = put key (str s) d

-- preset.dict(exclude_none=True)
unfoldable pub preset_dict : SmartBulbPreset → Fields
unfolding put
preset_dict p = put_some "mode" p.mode (
    put_text "id" p.id (
      put_some "custom" p.custom (
        put_some "color_temp" p.color_temp (
          put_some "saturation" p.saturation (
            put_some "hue" p.hue
              (field "index" (num p.preset_index) (field "brightness" (num p.brightness) end)))))))

module _ (parse_preset : Value → Result SmartBulbPreset) where
  parse_presets : Items → Result (List SmartBulbPreset)
  parse_presets nil = ok []
  parse_presets (cons vals rest) = do
    preset ← parse_preset vals
    others ← parse_presets rest
    ok (preset ∷ others)

  unfoldable pub presets : SmartDevice → Result (List SmartBulbPreset)
  unfolding sys_info parse_presets
  presets = guarded "presets" (λ s. do
    info ← sys_info s
    raw ← index "preferred_state" info
    entries ← entries_of raw
    parse_presets entries)

  -- The checks of `save_preset`, and the command it sends. The presets are read twice.
  unfoldable pub check_save_preset :
      SmartBulbPreset → SmartDevice → Result (String × String × Value)
  unfolding presets preset_dict
  check_save_preset preset s = do
    found ← presets s
    raise_if (leb_ℤ (pos (length found)) (pos 0)) smart_device
    again ← presets s
    raise_if (leb_ℤ (pos (length again)) preset.preset_index) smart_device
    ok (light_service, "set_preferred_state", obj (preset_dict preset))

pub data BehaviorMode : Type 0 where
  last preset_mode : BehaviorMode

abbrev pub mode_value : BehaviorMode → String
mode_value last = "last_status"
mode_value preset_mode = "customize_preset"

pub record TurnOnBehavior : Type 0 where
  pub preset : Option ℤ
  pub mode : BehaviorMode

pub record TurnOnBehaviors : Type 0 where
  pub soft : TurnOnBehavior
  pub hard : TurnOnBehavior

abbrev pub mode_for : Option ℤ → BehaviorMode
mode_for none = last
mode_for (some index_) = preset_mode

-- `_mode_based_on_preset`, which runs on construction and on each assignment
unfoldable pub mode_based_on_preset : TurnOnBehavior → TurnOnBehavior
mode_based_on_preset b = record b { mode = mode_for b.preset }

unfoldable pub new_behavior : Option ℤ → BehaviorMode → TurnOnBehavior
unfolding mode_based_on_preset
new_behavior preset mode = mode_based_on_preset (record { preset = preset; mode = mode })

unfoldable pub assign_preset : Option ℤ → TurnOnBehavior → TurnOnBehavior
unfolding mode_based_on_preset
assign_preset preset b = mode_based_on_preset (record b { preset = preset })

unfoldable pub assign_mode : BehaviorMode → TurnOnBehavior → TurnOnBehavior
unfolding mode_based_on_preset
assign_mode mode b = mode_based_on_preset (record b { mode = mode })

abbrev index_value : Option ℤ → Value
index_value none = null
index_value (some n) = num n

-- behavior.dict(by_alias=True)
abbrev pub behavior_dict : TurnOnBehavior → Fields
behavior_dict b = field "index" (index_value b.preset) (field "mode" (str (mode_value b.mode)) end)

abbrev pub behaviors_dict : TurnOnBehaviors → Fields
behaviors_dict bs =
    field "soft_on" (obj (behavior_dict bs.soft))
      (field "hard_on" (obj (behavior_dict bs.hard)) end)

-- `state_information`: what is said of the color temperature and of the color, where there is any
pub record BulbInformation : Type 0 where
  pub level : ℤ
  pub dimmable : Bool
  pub temperature : Option (ℤ × (ℕ × ℕ))
  pub color : Option Hsv
  pub saved : List SmartBulbPreset

abbrev only_if : {A : Type 0} → Bool → Result A → Result (Option A)
only_if true r = r >>= λ (a : _). ok (some a)
only_if false r = ok none

module _ (int_of : Value → Result ℤ) (parse_preset : Value → Result SmartBulbPreset) where
  abbrev temperatures : SmartDevice → Result (ℤ × (ℕ × ℕ))
  temperatures s = do
    temp ← color_temp int_of s
    limits ← valid_temperature_range s
    ok (temp, limits)

  unfoldable pub state_information : SmartDevice → Result BulbInformation
  unfolding brightness presets color_temp hsv valid_temperature_range
  state_information = guarded "state_information" (λ s. do
    level ← brightness int_of s
    dimmable ← is_dimmable s
    variable ← is_variable_color_temp s
    temperature ← only_if variable (temperatures s)
    color ← is_color s
    shown ← only_if color (hsv s)
    saved ← presets parse_preset s
    ok (record {
      level = level;
      dimmable = dimmable;
      temperature = temperature;
      color = shown;
      saved = saved;
    }))
