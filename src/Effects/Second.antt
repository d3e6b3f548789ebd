-- ===== src/Effects/Second.antt =====
-- The second half of the built-in effects (kasa/effects.py), its keys in the order of the literal.
use python_kasa.Prelude.{[], ◌∷◌}
use python_kasa.Json.{Fields, str}
use python_kasa.Effects.Literals.{int, ints, rows, dict}

abbrev pub effect_icicle : Fields
effect_icicle = dict (
    ("custom", int 0)
    ∷ ("id", str "joqVjlaTsgzmuQQBAlHRkkPAqkBUiqeb")
    ∷ ("brightness", int 70)
    ∷ ("name", str "Icicle")
    ∷ ("segments", ints (0 ∷ []))
    ∷ ("expansion_strategy", int 1)
    ∷ ("enable", int 1)
    ∷ ("type", str "sequence")
    ∷ ("duration", int 0)
    ∷ ("transition", int 400)
    ∷ ("direction", int 4)
    ∷ ("spread", int 3)
    ∷ ("repeat_times", int 0)
    ∷ (
      "sequence",
      rows (
          (190 ∷ 100 ∷ 70 ∷ [])
          ∷ (190 ∷ 100 ∷ 70 ∷ [])
          ∷ (190 ∷ 30 ∷ 50 ∷ [])
          ∷ (190 ∷ 100 ∷ 70 ∷ [])
          ∷ (190 ∷ 100 ∷ 70 ∷ [])
          ∷ []),
    )
    ∷ [])

abbrev pub effect_lightning : Fields
effect_lightning = dict (
    ("custom", int 0)
    ∷ ("id", str "ojqpUUxdGHoIugGPknrUcRoyJiItsjuE")
    ∷ ("brightness", int 100)
    ∷ ("name", str "Lightning")
    ∷ ("segments", ints (7 ∷ 20 ∷ 23 ∷ 32 ∷ 34 ∷ 35 ∷ 49 ∷ 65 ∷ 66 ∷ 74 ∷ 80 ∷ []))
    ∷ ("expansion_strategy", int 1)
    ∷ ("enable", int 1)
    ∷ ("type", str "random")
    ∷ ("hue_range", ints (240 ∷ 240 ∷ []))
    ∷ ("saturation_range", ints (10 ∷ 11 ∷ []))
    ∷ ("brightness_range", ints (90 ∷ 100 ∷ []))
    ∷ ("duration", int 0)
    ∷ ("transition", int 50)
    ∷ ("init_states", rows ((240 ∷ 30 ∷ 100 ∷ []) ∷ []))
    ∷ ("fadeoff", int 150)
    ∷ ("random_seed", int 600)
    ∷ (
      "backgrounds",
      rows (
          (200 ∷ 100 ∷ 100 ∷ [])
          ∷ (200 ∷ 50 ∷ 10 ∷ [])
          ∷ (210 ∷ 10 ∷ 50 ∷ [])
          ∷ (240 ∷ 10 ∷ 0 ∷ [])
          ∷ []),
    )
    ∷ [])

abbrev pub effect_ocean : Fields
effect_ocean = dict (
    ("custom", int 0)
    ∷ ("id", str "oJjUMosgEMrdumfPANKbkFmBcAdEQsPy")
    ∷ ("brightness", int 30)
    ∷ ("name", str "Ocean")
    ∷ ("segments", ints (0 ∷ []))
    ∷ ("expansion_strategy", int 1)
    ∷ ("enable", int 1)
    ∷ ("type", str "sequence")
    ∷ ("duration", int 0)
    ∷ ("transition", int 2000)
    ∷ ("direction", int 3)
    ∷ ("spread", int 16)
    ∷ ("repeat_times", int 0)
    ∷ ("sequence", rows ((198 ∷ 84 ∷ 30 ∷ []) ∷ (198 ∷ 70 ∷ 30 ∷ []) ∷ (198 ∷ 10 ∷ 30 ∷ []) ∷ []))
    ∷ [])

abbrev pub effect_rainbow : Fields
effect_rainbow = dict (
    ("custom", int 0)
    ∷ ("id", str "izRhLCQNcDzIKdpMPqSTtBMuAIoreAuT")
    ∷ ("brightness", int 100)
    ∷ ("name", str "Rainbow")
    ∷ ("segments", ints (0 ∷ []))
    ∷ ("expansion_strategy", int 1)
    ∷ ("enable", int 1)
    ∷ ("type", str "sequence")
    ∷ ("duration", int 0)
    ∷ ("transition", int 1500)
    ∷ ("direction", int 1)
    ∷ ("spread", int 12)
    ∷ ("repeat_times", int 0)
    ∷ (
      "sequence",
      rows (
          (0 ∷ 100 ∷ 100 ∷ [])
          ∷ (100 ∷ 100 ∷ 100 ∷ [])
          ∷ (200 ∷ 100 ∷ 100 ∷ [])
          ∷ (300 ∷ 100 ∷ 100 ∷ [])
          ∷ []),
    )
    ∷ [])

abbrev pub effect_raindrop : Fields
effect_raindrop = dict (
    ("custom", int 0)
    ∷ ("id", str "QbDFwiSFmLzQenUOPnJrsGqyIVrJrRsl")
    ∷ ("brightness", int 30)
    ∷ ("name", str "Raindrop")
    ∷ ("segments", ints (0 ∷ []))
    ∷ ("expansion_strategy", int 1)
    ∷ ("enable", int 1)
    ∷ ("type", str "random")
    ∷ ("hue_range", ints (200 ∷ 200 ∷ []))
    ∷ ("saturation_range", ints (10 ∷ 20 ∷ []))
    ∷ ("brightness_range", ints (10 ∷ 30 ∷ []))
    ∷ ("duration", int 0)
    ∷ ("transition", int 1000)
    ∷ ("init_states", rows ((200 ∷ 40 ∷ 100 ∷ []) ∷ []))
    ∷ ("fadeoff", int 1000)
    ∷ ("random_seed", int 24)
    ∷ ("backgrounds", rows ((200 ∷ 40 ∷ 0 ∷ []) ∷ []))
    ∷ [])

abbrev pub effect_spring : Fields
effect_spring = dict (
    ("custom", int 0)
    ∷ ("id", str "URdUpEdQbnOOechDBPMkKrwhSupLyvAg")
    ∷ ("brightness", int 100)
    ∷ ("name", str "Spring")
    ∷ ("segments", ints (0 ∷ []))
    ∷ ("expansion_strategy", int 1)
    ∷ ("enable", int 1)
    ∷ ("type", str "random")
    ∷ ("hue_range", ints (0 ∷ 90 ∷ []))
    ∷ ("saturation_range", ints (30 ∷ 100 ∷ []))
    ∷ ("brightness_range", ints (90 ∷ 100 ∷ []))
    ∷ ("duration", int 600)
    ∷ ("transition", int 0)
    ∷ ("transition_range", ints (2000 ∷ 6000 ∷ []))
    ∷ ("init_states", rows ((80 ∷ 30 ∷ 100 ∷ []) ∷ []))
    ∷ ("fadeoff", int 1000)
    ∷ ("random_seed", int 20)
    ∷ ("backgrounds", rows ((130 ∷ 100 ∷ 40 ∷ []) ∷ []))
    ∷ [])

abbrev pub effect_valentines : Fields
effect_valentines = dict (
    ("custom", int 0)
    ∷ ("id", str "QglBhMShPHUAuxLqzNEefFrGiJwahOmz")
    ∷ ("brightness", int 100)
    ∷ ("name", str "Valentines")
    ∷ ("segments", ints (0 ∷ []))
    ∷ ("expansion_strategy", int 1)
    ∷ ("enable", int 1)
    ∷ ("type", str "random")
    ∷ ("hue_range", ints (340 ∷ 340 ∷ []))
    ∷ ("saturation_range", ints (30 ∷ 40 ∷ []))
    ∷ ("brightness_range", ints (90 ∷ 100 ∷ []))
    ∷ ("duration", int 600)
    ∷ ("transition", int 2000)
    ∷ ("init_states", rows ((340 ∷ 30 ∷ 100 ∷ []) ∷ []))
    ∷ ("fadeoff", int 3000)
    ∷ ("random_seed", int 100)
    ∷ ("backgrounds", rows ((340 ∷ 20 ∷ 50 ∷ []) ∷ (20 ∷ 50 ∷ 50 ∷ []) ∷ (0 ∷ 100 ∷ 50 ∷ []) ∷ []))
    ∷ [])
