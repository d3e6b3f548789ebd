-- ===== src/LightStrip/Tests.antt =====
-- A strip that has been updated, and a protocol that fails: the table changes all the same.
use python_kasa.Prelude.{ℕ, ◌+◌, ◌≡◌, refl, List, [], ◌∷◌, none, some}
use python_kasa.Prelude.Int.{pos}
use python_kasa.Exec.{err, smart_device, timeout_error}
use python_kasa.Json.{null, num, obj, Fields, end, field, lookup, put}
use python_kasa.Device.{SmartDevice, Protocol, requires_update}
use python_kasa.Effects.{effect_mapping_v1}
use python_kasa.Effects.Second.{effect_ocean}
use python_kasa.LightStrip.{State, find_effect, change_effect, set_effect, set_custom_effect}
use python_kasa.LightStrip.Laws.{
  IsNamed, Call, set_effects, set_effects-IsNamed, set_effect-remembers,
}

abbrev broken : Protocol
broken = record { World = ℕ; query = λ request w. (err timeout_error, w + 1) }

abbrev strip : SmartDevice
strip = record {
  last_update = obj end;
  sys_info = obj (field "lighting_effect_state" (obj end) end);
  discovery_info = null;
  features = none;
  modules = [];
  emeter = record { module_name = "emeter"; query = end; response_size = 2048 };
}

abbrev start : State broken
start = (effect_mapping_v1, (strip, 0))

abbrev calls : List Call
calls =
    record { name = "Ocean"; brightness = some (pos 7); transition = none }
    ∷ record { name = "Storm"; brightness = some (pos 7); transition = none }
    ∷ []

set_effects-IsNamed_example : IsNamed (set_effects broken calls start).0
set_effects-IsNamed_example = set_effects-IsNamed broken calls start refl

unknown_lem : set_effect broken "Storm" none none start ≡ (err smart_device, start)
unfolding set_effect requires_update find_effect effect_mapping_v1 lookup
unknown_lem = refl

abbrev dimmed : Fields
dimmed = put "brightness" (num (pos 7)) effect_ocean

set_effect-remembers_example :
    let t = (set_effect broken "Ocean" (some (pos 7)) none start).1 in
    (find_effect "Ocean" t.0 ≡ some dimmed)
    × (set_effect broken "Ocean" none none t
        ≡ set_custom_effect broken dimmed (change_effect "Ocean" dimmed t.0, t.1))
unfolding find_effect effect_mapping_v1 lookup
set_effect-remembers_example =
    set_effect-remembers broken "Ocean" (pos 7) start {d = effect_ocean} refl refl
