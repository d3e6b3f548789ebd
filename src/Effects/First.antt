-- ===== src/Effects/First.antt =====
-- The first half of the built-in effects (kasa/effects.py), its keys in the order of the literal.
use python_kasa.Prelude.{[], ◌∷◌}
use python_kasa.Json.{Fields, str}
use python_kasa.Effects.Literals.{int, ints, rows, dict}

abbrev pub effect_aurora : Fields
effect_aurora = dict (
    ("custom", int 0)
    ∷ ("id", str "xqUxDhbAhNLqulcuRMyPBmVGyTOyEMEu")
    ∷ ("brightness", int 100)
    ∷ ("name", str "Aurora")
    ∷ ("segments", ints (0 ∷ []))
    ∷ ("expansion_strategy", int 1)
    ∷ ("enable", int 1)
    ∷ ("type", str "sequence")
    ∷ ("duration", int 0)
    ∷ ("transition", int 1500)
    ∷ ("direction", int 4)
    ∷ ("spread", int 7)
    ∷ ("repeat_times", int 0)
    ∷ (
      "sequence",
      rows (
          (120 ∷ 100 ∷ 100 ∷ [])
          ∷ (240 ∷ 100 ∷ 100 ∷ [])
          ∷ (260 ∷ 100 ∷ 100 ∷ [])
          ∷ (280 ∷ 100 ∷ 100 ∷ [])
          ∷ []),
    )
    ∷ [])

abbrev pub effect_bubbling_cauldron : Fields
effect_bubbling_cauldron = dict (
    ("custom", int 0)
    ∷ ("id", str "tIwTRQBqJpeNKbrtBMFCgkdPTbAQGfRP")
    ∷ ("brightness", int 100)
    ∷ ("name", str "Bubbling Cauldron")
    ∷ ("segments", ints (0 ∷ []))
    ∷ ("expansion_strategy", int 1)
    ∷ ("enable", int 1)
    ∷ ("type", str "random")
    ∷ ("hue_range", ints (100 ∷ 270 ∷ []))
    ∷ ("saturation_range", ints (80 ∷ 100 ∷ []))
    ∷ ("brightness_range", ints (50 ∷ 100 ∷ []))
    ∷ ("duration", int 0)
    ∷ ("transition", int 200)
    ∷ ("init_states", rows ((270 ∷ 100 ∷ 100 ∷ []) ∷ []))
    ∷ ("fadeoff", int 1000)
    ∷ ("random_seed", int 24)
    ∷ ("backgrounds", rows ((270 ∷ 40 ∷ 50 ∷ []) ∷ []))
    ∷ [])

abbrev pub effect_candy_cane : Fields
effect_candy_cane = dict (
    ("custom", int 0)
    ∷ ("id", str "HCOttllMkNffeHjEOLEgrFJjbzQHoxEJ")
    ∷ ("brightness", int 100)
    ∷ ("name", str "Candy Cane")
    ∷ ("segments", ints (0 ∷ 1 ∷ 2 ∷ 3 ∷ 4 ∷ 5 ∷ 6 ∷ 7 ∷ 8 ∷ 9 ∷ 10 ∷ 11 ∷ 12 ∷ 13 ∷ 14 ∷ 15 ∷ []))
    ∷ ("expansion_strategy", int 1)
    ∷ ("enable", int 1)
    ∷ ("type", str "sequence")
    ∷ ("duration", int 700)
    ∷ ("transition", int 500)
    ∷ ("direction", int 1)
    ∷ ("spread", int 1)
    ∷ ("repeat_times", int 0)
    ∷ (
      "sequence",
      rows (
          (0 ∷ 0 ∷ 100 ∷ [])
          ∷ (0 ∷ 0 ∷ 100 ∷ [])
          ∷ (360 ∷ 81 ∷ 100 ∷ [])
          ∷ (0 ∷ 0 ∷ 100 ∷ [])
          ∷ (0 ∷ 0 ∷ 100 ∷ [])
          ∷ (360 ∷ 81 ∷ 100 ∷ [])
          ∷ (360 ∷ 81 ∷ 100 ∷ [])
          ∷ (0 ∷ 0 ∷ 100 ∷ [])
          ∷ (0 ∷ 0 ∷ 100 ∷ [])
          ∷ (360 ∷ 81 ∷ 100 ∷ [])
          ∷ (360 ∷ 81 ∷ 100 ∷ [])
          ∷ (360 ∷ 81 ∷ 100 ∷ [])
          ∷ (360 ∷ 81 ∷ 100 ∷ [])
          ∷ (0 ∷ 0 ∷ 100 ∷ [])
          ∷ (0 ∷ 0 ∷ 100 ∷ [])
          ∷ (360 ∷ 81 ∷ 100 ∷ [])
          ∷ []),
    )
    ∷ [])

abbrev pub effect_christmas : Fields
effect_christmas = dict (
    ("custom", int 0)
    ∷ ("id", str "bwTatyinOUajKrDwzMmqxxJdnInQUgvM")
    ∷ ("brightness", int 100)
    ∷ ("name", str "Christmas")
    ∷ ("segments", ints (0 ∷ []))
    ∷ ("expansion_strategy", int 1)
    ∷ ("enable", int 1)
    ∷ ("type", str "random")
    ∷ ("hue_range", ints (136 ∷ 146 ∷ []))
    ∷ ("saturation_range", ints (90 ∷ 100 ∷ []))
    ∷ ("brightness_range", ints (50 ∷ 100 ∷ []))
    ∷ ("duration", int 5000)
    ∷ ("transition", int 0)
    ∷ ("init_states", rows ((136 ∷ 0 ∷ 100 ∷ []) ∷ []))
    ∷ ("fadeoff", int 2000)
    ∷ ("random_seed", int 100)
    ∷ (
      "backgrounds",
      rows (
          (136 ∷ 98 ∷ 75 ∷ [])
          ∷ (136 ∷ 0 ∷ 0 ∷ [])
          ∷ (350 ∷ 0 ∷ 100 ∷ [])
          ∷ (350 ∷ 97 ∷ 94 ∷ [])
          ∷ []),
    )
    ∷ [])

abbrev pub effect_flicker : Fields
effect_flicker = dict (
    ("custom", int 0)
    ∷ ("id", str "bCTItKETDFfrKANolgldxfgOakaarARs")
    ∷ ("brightness", int 100)
    ∷ ("name", str "Flicker")
    ∷ ("segments", ints (1 ∷ []))
    ∷ ("expansion_strategy", int 1)
    ∷ ("enable", int 1)
    ∷ ("type", str "random")
    ∷ ("hue_range", ints (30 ∷ 40 ∷ []))
    ∷ ("saturation_range", ints (100 ∷ 100 ∷ []))
    ∷ ("brightness_range", ints (50 ∷ 100 ∷ []))
    ∷ ("duration", int 0)
    ∷ ("transition", int 0)
    ∷ ("transition_range", ints (375 ∷ 500 ∷ []))
    ∷ ("init_states", rows ((30 ∷ 81 ∷ 80 ∷ []) ∷ []))
    ∷ [])

abbrev pub effect_hanukkah : Fields
effect_hanukkah = dict (
    ("custom", int 0)
    ∷ ("id", str "CdLeIgiKcQrLKMINRPTMbylATulQewLD")
    ∷ ("brightness", int 100)
    ∷ ("name", str "Hanukkah")
    ∷ ("segments", ints (1 ∷ []))
    ∷ ("expansion_strategy", int 1)
    ∷ ("enable", int 1)
    ∷ ("type", str "random")
    ∷ ("hue_range", ints (200 ∷ 210 ∷ []))
    ∷ ("saturation_range", ints (0 ∷ 100 ∷ []))
    ∷ ("brightness_range", ints (50 ∷ 100 ∷ []))
    ∷ ("duration", int 1500)
    ∷ ("transition", int 0)
    ∷ ("transition_range", ints (400 ∷ 500 ∷ []))
    ∷ ("init_states", rows ((35 ∷ 81 ∷ 80 ∷ []) ∷ []))
    ∷ [])

abbrev pub effect_haunted_mansion : Fields
effect_haunted_mansion = dict (
    ("custom", int 0)
    ∷ ("id", str "oJnFHsVQzFUTeIOBAhMRfVeujmSauhjJ")
    ∷ ("brightness", int 80)
    ∷ ("name", str "Haunted Mansion")
    ∷ ("segments", ints (80 ∷ []))
    ∷ ("expansion_strategy", int 2)
    ∷ ("enable", int 1)
    ∷ ("type", str "random")
    ∷ ("hue_range", ints (45 ∷ 45 ∷ []))
    ∷ ("saturation_range", ints (10 ∷ 10 ∷ []))
    ∷ ("brightness_range", ints (0 ∷ 80 ∷ []))
    ∷ ("duration", int 0)
    ∷ ("transition", int 0)
    ∷ ("transition_range", ints (50 ∷ 1500 ∷ []))
    ∷ ("init_states", rows ((45 ∷ 10 ∷ 100 ∷ []) ∷ []))
    ∷ ("fadeoff", int 200)
    ∷ ("random_seed", int 1)
    ∷ ("backgrounds", rows ((45 ∷ 10 ∷ 100 ∷ []) ∷ []))
    ∷ [])
