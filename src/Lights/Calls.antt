-- ===== src/Lights/Calls.antt =====
-- The other commands of bulbs (kasa/smartbulb.py) and dimmers (kasa/smartdimmer.py).
use Prim.Native.String.{◌++◌ as text_append}
use python_kasa.Prelude.{Bool, not, Option, none, some, String}
use python_kasa.Prelude.Int.{ℤ, pos}
use python_kasa.Exec.{Result, NoneType, ok, smart_device, raise_if, ◌>>=◌, ◌>>◌}
use python_kasa.Exec.State.{Exec}
use python_kasa.Json.{Value, null, num, str, obj, Fields, end, field, index}
use python_kasa.Device.{SmartDevice, Protocol, State, requires_update}
use python_kasa.Device.Answers.{query_helper}
use python_kasa.Device.Properties.{guarded, sys_info}
use python_kasa.Device.Switch.{plug_state_information}
use python_kasa.Numbers.{Float}
use python_kasa.Lights.{command}
use python_kasa.Lights.Bulb.{light_service}
use python_kasa.Lights.Dimmer.{dimmer_service, is_dimmable, check_transition, relay_command}
use python_kasa.Lights.Reports.{SmartBulbPreset, TurnOnBehaviors, behaviors_dict, check_save_preset}

module _ (protocol : Protocol) where
  unfoldable pub get_light_details : Exec (State protocol) Value
  get_light_details = query_helper protocol light_service "get_light_details" null none

  unfoldable pub get_light_state : Exec (State protocol) Value
  get_light_state = query_helper protocol light_service "get_light_state" null none

  -- `parse` is pydantic's `parse_obj`.
  unfoldable pub get_turn_on_behavior :
      (Value → Result TurnOnBehaviors) → Exec (State protocol) TurnOnBehaviors
  get_turn_on_behavior parse s =
      let r = query_helper protocol light_service "get_default_behavior" null none s in
      (r.0 >>= parse, r.1)

  unfoldable pub set_turn_on_behavior : TurnOnBehaviors → Exec (State protocol) Value
  set_turn_on_behavior behavior =
      query_helper protocol light_service "set_default_behavior" (obj (behaviors_dict behavior))
        none

  -- `set_alias` of a bulb, with its own target
  unfoldable pub set_alias : String → Exec (State protocol) Value
  set_alias alias =
      query_helper protocol "smartlife.iot.common.system" "set_dev_alias"
        (obj (field "alias" (str alias) end)) none

  unfoldable pub save_preset :
      (Value → Result SmartBulbPreset)
      → SmartBulbPreset
      → State protocol
      → Result Value × State protocol
  unfolding command check_save_preset
  save_preset parse_preset preset = command protocol (check_save_preset parse_preset preset)

pub data ButtonAction : Type 0 where
  no_action instant gentle customized : ButtonAction

pub data ActionType : Type 0 where
  double_click long_press : ActionType

pub data FadeType : Type 0 where
  fade_on fade_off : FadeType

-- str(member) of these enumerations is the name of the member, and not its value.
abbrev pub button_action_text : ButtonAction → String
button_action_text no_action = "ButtonAction.NoAction"
button_action_text instant = "ButtonAction.Instant"
button_action_text gentle = "ButtonAction.Gentle"
button_action_text customized = "ButtonAction.Preset"

abbrev pub action_type_text : ActionType → String
action_type_text double_click = "ActionType.DoubleClick"
action_type_text long_press = "ActionType.LongPress"

abbrev pub fade_type_text : FadeType → String
fade_type_text fade_on = "FadeType.FadeOn"
fade_type_text fade_off = "FadeType.FadeOff"

abbrev button_payload : ButtonAction → Option ℤ → Fields
button_payload action none = field "mode" (str (button_action_text action)) end
button_payload action (some index_) =
    field "mode" (str (button_action_text action)) (field "index" (num index_) end)

unfoldable pub button_command :
    ActionType → ButtonAction → Option ℤ → SmartDevice → Result (String × String × Value)
button_command action_type action index_ s = do
  requires_update "set_button_action" s
  ok (
    dimmer_service,
    text_append "set_" (action_type_text action_type),
    obj (button_payload action index_),
  )

unfoldable pub fade_command : FadeType → ℤ → SmartDevice → Result (String × String × Value)
fade_command fade_type time s = do
  requires_update "set_fade_time" s
  ok (
    dimmer_service,
    text_append "set_" (text_append (fade_type_text fade_type) "_time"),
    obj (field "fadeTime" (num time) end),
  )

module _ (int_of : Value → Result ℤ) where
  -- `brightness` of a dimmer
  unfoldable pub dimmer_brightness : SmartDevice → Result ℤ
  unfolding is_dimmable sys_info
  dimmer_brightness = guarded "brightness" (λ s. do
    dimmable ← is_dimmable s
    raise_if (not dimmable) smart_device
    info ← sys_info s
    value ← index "brightness" info
    int_of value)

  -- `turn_on` of a dimmer: a transition goes to the brightness it has.
  unfoldable pub check_turn_on : Option ℤ → SmartDevice → Result (String × String × Value)
  unfolding dimmer_brightness check_transition
  check_turn_on none s = do requires_update "turn_on" s; ok (relay_command (pos 1))
  check_turn_on (some transition) s = do
    requires_update "turn_on" s
    brightness ← dimmer_brightness s
    check_transition brightness transition

  -- `state_information` of a dimmer: that of a plug, and the brightness
  unfoldable pub dimmer_state_information :
      (Float → ℤ) → ℤ → SmartDevice → Result ((Bool × Option ℤ) × ℤ)
  unfolding plug_state_information dimmer_brightness
  dimmer_state_information rounded now = guarded "state_information" (λ s. do
    info ← plug_state_information rounded now s
    brightness ← dimmer_brightness s
    ok (info, brightness))

module _ (protocol : Protocol) where
  unfoldable pub dimmer_turn_on :
      (Value → Result ℤ) → Option ℤ → State protocol → Result Value × State protocol
  unfolding command check_turn_on
  dimmer_turn_on int_of transition = command protocol (check_turn_on int_of transition)

  unfoldable pub get_behaviors : State protocol → Result Value × State protocol
  unfolding command
  get_behaviors = command protocol (λ s. do
    requires_update "get_behaviors" s
    ok (dimmer_service, "get_default_behavior", obj end))

  unfoldable pub set_button_action :
      ActionType → ButtonAction → Option ℤ → State protocol → Result NoneType × State protocol
  unfolding command button_command
  set_button_action action_type action index_ s =
      let r = command protocol (button_command action_type action index_) s in
      (r.0 >>= λ (_ : Value). ok tt, r.1)

  unfoldable pub set_fade_time : FadeType → ℤ → State protocol → Result NoneType × State protocol
  unfolding command fade_command
  set_fade_time fade_type time s =
      let r = command protocol (fade_command fade_type time) s in
      (r.0 >>= λ (_ : Value). ok tt, r.1)
