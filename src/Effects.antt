-- ===== src/Effects.antt =====
-- The built-in effects of light strips (kasa/effects.py), and the table of them that a strip looks in.
pub mod Literals
pub mod First
pub mod Second
use python_kasa.Prelude.{
  List, [], ◌∷◌, Option, none, some, String, ◌=s=◌, if◌then◌else◌, ◌≡◌, refl, All, map,
}
use python_kasa.Json.{Value, str, Fields, lookup}
use python_kasa.Effects.First.{
  effect_aurora, effect_bubbling_cauldron, effect_candy_cane, effect_christmas, effect_flicker,
  effect_hanukkah, effect_haunted_mansion,
}
use python_kasa.Effects.Second.{
  effect_icicle, effect_lightning, effect_ocean, effect_rainbow, effect_raindrop, effect_spring,
  effect_valentines,
}

abbrev pub effects_list_v1 : List Fields
effects_list_v1 =
    effect_aurora ∷ effect_bubbling_cauldron ∷ effect_candy_cane ∷ effect_christmas ∷ effect_flicker
    ∷ effect_hanukkah ∷ effect_haunted_mansion ∷ effect_icicle ∷ effect_lightning ∷ effect_ocean
    ∷ effect_rainbow ∷ effect_raindrop ∷ effect_spring ∷ effect_valentines ∷ []

-- The table of effects by name. Its dicts are those of the list, and not copies.
abbrev pub Table : Type 0
Table = List (String × Fields)

-- effect["name"], which every effect of the list has as a text
unfoldable pub name_of : Fields → String
unfolding lookup
name_of effect = elim (lookup "name" effect) [ some (str name) ↦ name | _ ↦ "" ]

abbrev pub effect_names_v1 : List String
effect_names_v1 = map name_of effects_list_v1

abbrev by_name : List Fields → Table
by_name [] = []
by_name (effect ∷ effects) = (name_of effect, effect) ∷ by_name effects

-- The comprehension {effect["name"]: effect for effect in EFFECTS_LIST_V1}; the names are distinct.
unfoldable pub effect_mapping_v1 : Table
unfolding name_of
effect_mapping_v1 = by_name effects_list_v1
