-- ===== src/LightStrip.antt =====
-- `SmartLightStrip` (kasa/smartlightstrip.py). The table of effects is a global that all strips of a
-- program share: `set_effect` writes into it.
pub mod Laws
mod Tests
use python_kasa.Prelude.{
  Bool, true, false, not, List, [], ◌∷◌, Option, none, some, String, ◌=s=◌, if◌then◌else◌,
}
use python_kasa.Prelude.Int.{ℤ}
use python_kasa.Exec.{Result, NoneType, ok, err, smart_device, raise_if, ◌>>=◌, ◌>>◌}
use python_kasa.Exec.State.{Exec}
use python_kasa.Json.{Value, num, obj, Fields, end, field, put, index, lookup}
use python_kasa.Device.{SmartDevice, Protocol, requires_update}
use python_kasa.Device
use python_kasa.Device.Properties.{guarded, sys_info}
use python_kasa.Effects.{Table, effect_names_v1}
use python_kasa.Lights.{command}
use python_kasa.Lights.Bulb.{put_some}
use python_kasa.Lights.Reports.{has_effects}

unfoldable pub strip_length : SmartDevice → Result Value
unfolding sys_info
strip_length = guarded "length" (λ s. do info ← sys_info s; index "length" info)

unfoldable pub effect : SmartDevice → Result Value
unfolding sys_info
effect = guarded "effect" (λ s. do info ← sys_info s; index "lighting_effect_state" info)

unfoldable pub effect_list : SmartDevice → Result (Option (List String))
unfolding has_effects
effect_list =
    guarded "effect_list"
      (λ s. do supported ← has_effects s; ok (if supported then some effect_names_v1 else none))

-- What `state_information` adds to that of a bulb: the length, and the name of the effect if there is one
unfoldable pub strip_information : SmartDevice → Result (Value × Option Value)
unfolding strip_length has_effects effect
strip_information = guarded "state_information" (λ s. do
  size ← strip_length s
  supported ← has_effects s
  (if supported
      then (do state ← effect s; name ← index "name" state; ok (size, some name))
      else ok (size, none)))

-- EFFECT_MAPPING_V1.get(name)
unfoldable pub find_effect : String → Table → Option Fields
find_effect name [] = none
find_effect name ((other, d) ∷ table) = if other =s= name then some d else find_effect name table

-- The dict of an effect, changed in its place.
unfoldable pub change_effect : String → Fields → Table → Table
change_effect name d [] = []
change_effect name d ((other, e) ∷ table) =
    if other =s= name then (other, d) ∷ table else (other, e) ∷ change_effect name d table

-- What is given overrides what the effect has.
unfoldable pub override : Option ℤ → Option ℤ → Fields → Fields
unfolding put
override brightness transition d =
    put_some "transition" transition (put_some "brightness" brightness d)

abbrev pub custom_command : Fields → SmartDevice → Result (String × String × Value)
custom_command effect_dict s = do
  requires_update "set_custom_effect" s
  supported ← has_effects s
  raise_if (not supported) smart_device
  ok ("smartlife.iot.lighting_effect", "set_lighting_effect", obj effect_dict)

module _ (protocol : Protocol) where
  -- The table, and the device with the world.
  abbrev pub State : Type 0
  State = Table × Device.State protocol

  unfoldable pub set_custom_effect : Fields → Exec State NoneType
  unfolding command has_effects
  set_custom_effect effect_dict (table, s) =
      let r = command protocol (custom_command effect_dict) s in
      (r.0 >>= λ (_ : Value). ok tt, (table, r.1))

  abbrev set_known_effect : String → Option ℤ → Option ℤ → Option Fields → Exec State NoneType
  set_known_effect name brightness transition none s = (err smart_device, s)
  set_known_effect name brightness transition (some d) (table, s) =
      let changed = override brightness transition d in
      set_custom_effect changed (change_effect name changed table, s)

  unfoldable pub set_effect : String → Option ℤ → Option ℤ → Exec State NoneType
  unfolding set_custom_effect find_effect change_effect override
  set_effect name brightness transition (table, s) = elim (requires_update "set_effect" s.0) [
    | err e ↦ (err e, (table, s))
    | ok _ ↦ set_known_effect name brightness transition (find_effect name table) (table, s)
  ]
