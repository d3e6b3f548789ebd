-- ===== src/Modules/Sensors.antt =====
-- `Motion` (kasa/modules/motion.py) and `AmbientLight` (kasa/modules/ambientlight.py): configuration of
-- the sensors of dimmers.
use python_kasa.Prelude.{Bool, true, false, Option, none, some, String, if◌then◌else◌}
use python_kasa.Prelude.Int.{ℤ, pos}
use python_kasa.Exec.{Result, ok, err, smart_device, value_error, ◌>>=◌}
use python_kasa.Exec.State.{Exec, throw}
use python_kasa.Json.{Value, null, num, obj, Fields, end, field, truthy}
use python_kasa.Modules.{Host, data_at, call, query_for_command}
use python_kasa.Modules.Keys.{equals_int}

pub data Range : Type 0 where
  far mid near custom : Range

abbrev pub range_value : Range → ℤ
range_value far = pos 0
range_value mid = pos 1
range_value near = pos 2
range_value custom = pos 3

-- Range(value), by equality of values
unfoldable pub range_of : Value → Result Range
range_of v =
    if equals_int (pos 0) v
    then ok far
    else if equals_int (pos 1) v
    then ok mid
    else if equals_int (pos 2) v
    then ok near
    else if equals_int (pos 3) v
    then ok custom
    else err value_error

-- The property `range` of `Motion`.
unfoldable pub range : String → Value → Result Range
unfolding data_at range_of
range name last_update = do index_ ← data_at name "trigger_index" last_update; range_of index_

-- The property `enabled` of both sensors.
unfoldable pub enabled : String → Value → Result Bool
unfolding data_at
enabled name last_update = do state ← data_at name "enable" last_update; ok (truthy state)

unfoldable pub inactivity_timeout : String → Value → Result Value
unfolding data_at
inactivity_timeout name last_update = data_at name "cold_time" last_update

unfoldable pub presets : String → Value → Result Value
unfolding data_at
presets name last_update = data_at name "level_array" last_update

-- The payload of `set_range`.
abbrev pub range_payload : Option Range → Option ℤ → Result Value
range_payload sensor (some decimeters) =
    ok (obj (field "index" (num (range_value custom)) (field "value" (num decimeters) end)))
range_payload (some sensor) none = ok (obj (field "index" (num (range_value sensor)) end))
range_payload none none = err smart_device

abbrev pub int_of_bool : Bool → ℤ
int_of_bool true = pos 1
int_of_bool false = pos 0

module _ (host : Host) where
  open host use {State}

  -- `query` of both sensors
  unfoldable pub config_query : String → State → Fields
  unfolding query_for_command
  config_query name s = query_for_command host name "get_config" null s

  -- `set_enabled` of both sensors
  unfoldable pub set_enabled : String → Bool → Exec State Value
  unfolding call
  set_enabled name state =
      call host name "set_enable" (obj (field "enable" (num (int_of_bool state)) end))

  unfoldable pub set_range : String → Option Range → Option ℤ → Exec State Value
  unfolding call
  set_range name sensor custom_range = elim (range_payload sensor custom_range) [
    | ok payload ↦ call host name "set_trigger_sens" payload
    | err e ↦ throw e
  ]

  unfoldable pub set_inactivity_timeout : String → ℤ → Exec State Value
  unfolding call
  set_inactivity_timeout name timeout =
      call host name "set_cold_time" (obj (field "cold_time" (num timeout) end))

  unfoldable pub current_brightness : String → Exec State Value
  unfolding call
  current_brightness name = call host name "get_current_brt" null

  unfoldable pub set_brightness_limit : String → ℤ → Exec State Value
  unfolding call
  set_brightness_limit name value =
      call host name "set_brt_level"
        (obj (field "index" (num (pos 0)) (field "value" (num value) end)))
