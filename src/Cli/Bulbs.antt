-- ===== src/Cli/Bulbs.antt =====
-- The commands for lights: brightness, temperature, hsv, effect, presets and the turn-on behavior
-- (kasa/cli.py).
use python_kasa.Prelude.{
  Bool, true, false, not, ◌||◌, List, [], ◌∷◌, Option, none, some, String, ◌=s=◌, if◌then◌else◌,
}
use python_kasa.Prelude.Int.{ℤ, pos, eq_ℤ}
use python_kasa.Exec.{Result, NoneType, ok}
use python_kasa.Exec.State.{Exec, pure, lift, ◌>>=◌}
use python_kasa.Json.{Value}
use python_kasa.Lights.Reports.{SmartBulbPreset, TurnOnBehavior, TurnOnBehaviors, assign_preset}
use python_kasa.Cli.{Reply, refused, misused, shown, showing, sending, if_able}

-- A light as these commands use it.
pub record Light : Type 1 where
  pub World : Type 0
  pub Hsv : Type 0
  pub Range : Type 0
  pub is_dimmable : Result Bool
  pub brightness : Result ℤ
  pub set_brightness : ℤ → Option ℤ → World → Result Value × World
  pub is_variable_color_temp : Result Bool
  pub color_temp : Result ℤ
  pub valid_temperature_range : Result Range
  pub set_color_temp : ℤ → Option ℤ → World → Result Value × World
  pub is_color : Result Bool
  pub hsv : Result Hsv
  pub set_hsv : ℤ → ℤ → ℤ → Option ℤ → World → Result Value × World
  pub has_effects : Result Bool
  pub effect_list : Result (List String)
  pub set_effect : String → World → Result Value × World
  pub presets : Result (List SmartBulbPreset)
  pub save_preset : SmartBulbPreset → World → Result Value × World
  pub get_turn_on_behavior : World → Result TurnOnBehaviors × World
  pub set_turn_on_behavior : TurnOnBehaviors → World → Result Value × World

abbrev pub is_listed : String → List String → Bool
is_listed effect [] = false
is_listed effect (name ∷ names) = name =s= effect || is_listed effect names

abbrev pub find_preset : ℤ → List SmartBulbPreset → Option SmartBulbPreset
find_preset index [] = none
find_preset index (p ∷ ps) = if eq_ℤ p.preset_index index then some p else find_preset index ps

abbrev pub or_kept : Option ℤ → Option ℤ → Option ℤ
or_kept none old = old
or_kept (some n) old = some n

abbrev pub or_brightness : Option ℤ → ℤ → ℤ
or_brightness none old = old
or_brightness (some n) old = n

-- The values of a preset that the options change.
unfoldable pub modify_preset :
    Option ℤ → Option ℤ → Option ℤ → Option ℤ → SmartBulbPreset → SmartBulbPreset
modify_preset brightness hue saturation temperature p = record p {
  brightness = or_brightness brightness p.brightness;
  hue = or_kept hue p.hue;
  saturation = or_kept saturation p.saturation;
  color_temp = or_kept temperature p.color_temp;
}

pub data BehaviorType : Type 0 where
  type_soft type_hard : BehaviorType

-- behavior = getattr(settings, type), with an assignment to its preset
abbrev pub change_behavior :
    BehaviorType → (TurnOnBehavior → TurnOnBehavior) → TurnOnBehaviors → TurnOnBehaviors
change_behavior type_soft f settings = record settings { soft = f settings.soft }
change_behavior type_hard f settings = record settings { hard = f settings.hard }

-- `last` goes before a preset; without both the behavior stays.
abbrev pub new_preset : Bool → Option ℤ → TurnOnBehavior → TurnOnBehavior
new_preset true preset b = assign_preset none b
new_preset false (some index) b = assign_preset (some index) b
new_preset false none b = b

-- bool(preset): the index 0 counts as no preset here
abbrev pub is_nonzero : Option ℤ → Bool
is_nonzero none = false
is_nonzero (some n) = not (eq_ℤ n (pos 0))

module _ (light : Light) where
  open light use {World}

  unfoldable pub brightness : Option ℤ → Option ℤ → Exec World (Reply ℤ Value)
  brightness none transition = if_able light.is_dimmable (showing light.brightness)
  brightness (some level) transition =
      if_able light.is_dimmable (sending (light.set_brightness level transition))

  -- The color temperature and its range are read, and the range is returned.
  abbrev show_range : Exec World (Reply light.Range Value)
  show_range = do _ ← lift light.color_temp; showing light.valid_temperature_range

  unfoldable pub temperature : Option ℤ → Option ℤ → Exec World (Reply light.Range Value)
  temperature none transition = if_able light.is_variable_color_temp show_range
  temperature (some kelvin) transition =
      if_able light.is_variable_color_temp (sending (light.set_color_temp kelvin transition))

  -- One value that is missing shows the color: the test for a wrong number of values comes after it.
  unfoldable pub hsv :
      Option ℤ → Option ℤ → Option ℤ → Option ℤ → Exec World (Reply light.Hsv Value)
  hsv (some h) (some s) (some v) transition =
      if_able light.is_color (sending (light.set_hsv h s v transition))
  hsv h s v transition = if_able light.is_color (showing light.hsv)

  abbrev set_listed : String → List String → Exec World (Reply NoneType Value)
  set_listed name names world =
      if is_listed name names then sending (light.set_effect name) world else (ok misused, world)

  unfoldable pub effect : Option String → Exec World (Reply NoneType Value)
  effect none = if_able light.has_effects (do _ ← lift light.effect_list; pure misused)
  effect (some name) =
      if_able light.has_effects (do names ← lift light.effect_list; set_listed name names)

  unfoldable pub presets_list : Bool → Exec World (Reply (List SmartBulbPreset) Value)
  presets_list is_bulb = if_able (ok is_bulb) (showing light.presets)

  abbrev save_modified :
      (SmartBulbPreset → SmartBulbPreset)
      → Option SmartBulbPreset
      → Exec World (Reply NoneType Value)
  save_modified modified none = pure refused
  save_modified modified (some p) = sending (light.save_preset (modified p))

  unfoldable pub presets_modify :
      ℤ → Option ℤ → Option ℤ → Option ℤ → Option ℤ → Exec World (Reply NoneType Value)
  unfolding modify_preset
  presets_modify index brightness hue saturation temperature = do
    presets ← lift light.presets
    save_modified (modify_preset brightness hue saturation temperature) (find_preset index presets)

  -- What is done with the settings that have been read.
  abbrev pub behavior_of :
      Option BehaviorType
      → Bool
      → Option ℤ
      → TurnOnBehaviors
      → Exec World (Reply TurnOnBehaviors Value)
  behavior_of (some type) is_last preset settings =
      sending
        (light.set_turn_on_behavior (change_behavior type (new_preset is_last preset) settings))
  behavior_of none is_last preset settings =
      if is_last || is_nonzero preset then pure refused else pure (shown settings)

  unfoldable pub turn_on_behavior :
      Option BehaviorType → Bool → Option ℤ → Exec World (Reply TurnOnBehaviors Value)
  turn_on_behavior type is_last preset = do
    settings ← light.get_turn_on_behavior
    behavior_of type is_last preset settings
