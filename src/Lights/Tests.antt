-- ===== src/Lights/Tests.antt =====
-- A bulb and a dimmer after an update.
use python_kasa.Prelude.{ℕ, ◌+◌, ◌≡◌, refl, ◌⊎◌, true, [], none, some, String, ◌=s=◌, if◌then◌else◌}
use python_kasa.Prelude.Int.{ℤ, pos, ◌≤ℤ◌}
use python_kasa.Exec.{ok, err, timeout_error}
use python_kasa.Json.{null, num, str, obj, Fields, end, field, lookup, index, contains}
use python_kasa.Lights.Reports.{is_on, hsv}
use python_kasa.Lights.Echo.{sent_hsv, taking_over, hsv-set_hsv}
use python_kasa.Device.{SmartDevice, Protocol, requires_update}
use python_kasa.Device.Answers.{query_helper}
use python_kasa.Lights.{sys_info_flag}
use python_kasa.Lights.Bulb
use python_kasa.Lights.Dimmer
use python_kasa.Lights.Laws.{check_set_brightness-range}
use python_kasa.Lights.States.{sent_value, ComesBack, SaysMore, light_state_request-values}

abbrev silent : Protocol
silent = record { World = ℕ; query = λ request w. (err timeout_error, w + 1) }

abbrev sysinfo : Fields
sysinfo = field "model" (str "KL130(EU)") (
    field "is_color" (num (pos 1))
      (field "is_variable_color_temp" (num (pos 1)) (field "brightness" (num (pos 30)) end)))

abbrev lamp : SmartDevice
lamp = record {
  last_update = obj (field "system" (obj (field "get_sysinfo" (obj sysinfo) end)) end);
  sys_info = obj sysinfo;
  discovery_info = null;
  features = none;
  modules = [];
  emeter = record { module_name = "emeter"; query = end; response_size = 2048 };
}

abbrev on_state : Fields
on_state = field "on_off" (num (pos 1)) end

light_state_request-values_example :
    (ignored : ℤ) × (lookup "on_off" (Bulb.light_state_request on_state (some (pos 500))) ≡ (
      if "ignore_default" =s= "on_off"
      then some (num ignored)
      else sent_value on_state (some (pos 500)) "on_off"))
    × (((ignored ≡ pos 0) × ComesBack on_state) ⊎ ((ignored ≡ pos 1) × SaysMore on_state))
light_state_request-values_example = light_state_request-values on_state (some (pos 500)) "on_off"

known_lem : (name : String) → requires_update name lamp ≡ ok tt
unfolding requires_update
known_lem name = refl

color_lem : Bulb.is_color lamp ≡ ok true
unfolding sys_info_flag requires_update index lookup
color_lem = refl

variable_lem : Bulb.is_variable_color_temp lamp ≡ ok true
unfolding sys_info_flag requires_update index lookup
variable_lem = refl

range_lem : Bulb.valid_temperature_range lamp ≡ ok (2500, 9000)
unfolding Bulb.valid_temperature_range sys_info_flag requires_update index lookup
range_lem = refl

dimmed_lem :
    Dimmer.check_set_brightness (pos 0) none lamp
    ≡ ok (Dimmer.dimmer_service, "set_brightness", obj (field "brightness" (num (pos 1)) end))
unfolding Dimmer.check_set_brightness Dimmer.is_dimmable requires_update contains lookup
dimmed_lem = refl

check_set_brightness-range_example :
    (b : ℤ) × (obj (field "brightness" (num (pos 1)) end) ≡ obj (field "brightness" (num b) end))
    × (pos 1 ≤ℤ b)
    × (b ≤ℤ pos 100)
    × ((b ≡ pos 0) ⊎ ((pos 0 ≡ pos 0) × (b ≡ pos 1)))
check_set_brightness-range_example = check_set_brightness-range (pos 0) lamp dimmed_lem

abbrev sent_state : Fields
sent_state = sent_hsv (pos 240) (pos 90) (pos 20) none

passed_lem :
    Bulb.check_hsv (pos 240) (pos 90) (some (pos 20)) none lamp
    ≡ ok (Bulb.light_service, "transition_light_state", obj sent_state)
unfolding Bulb.check_hsv sys_info_flag requires_update index lookup
passed_lem = refl

hsv-set_hsv_example :
    (state : Fields) × (Bulb.set_hsv silent (pos 240) (pos 90) (some (pos 20)) none (lamp, 0)
      ≡ query_helper silent Bulb.light_service "transition_light_state" (obj state) none (lamp, 0))
    × (is_on (taking_over state sysinfo lamp) ≡ ok true)
    × (hsv (taking_over state sysinfo lamp) ≡ ok (num (pos 240), num (pos 90), num (pos 20)))
hsv-set_hsv_example =
    hsv-set_hsv silent (lamp, 0) sysinfo (pos 240) (pos 90) (pos 20) none refl refl passed_lem
