-- ===== src/EmeterStatus/Tests.antt =====
-- A status of a device of either kind.
use python_kasa.Prelude.{◌≡◌, refl, true, ◌⊎◌, none, false}
use python_kasa.Prelude.Int.{pos}
use python_kasa.Exec.{ok, key_error, type_error}
use python_kasa.Numbers.Toy.{toy_floats, toy_ratio}
use python_kasa.Json.{Fields, num, real, null, field, end, lookup}
use python_kasa.EmeterStatus.{
  get_item, power, total, get_item-raises, is_valid_key, has_unit, base_key,
}

abbrev newer : Fields
newer = field "voltage_mv" (num (pos 230000)) (field "power_mw" (num (pos 1500)) end)

abbrev older : Fields
older = field "voltage" (num (pos 230)) end

power_lem : power toy_floats newer ≡ ok (real (toy_ratio (pos 1500) (pos 1000)))
unfolding power lookup
power_lem = refl

upscaled_lem : get_item toy_floats "voltage_mv" older ≡ ok (num (pos 230000))
unfolding get_item lookup
upscaled_lem = refl

total_lem : total toy_floats newer ≡ ok null
unfolding total lookup
total_lem = refl

get_item-raises_example :
    (lookup "total_wh" older ≡ none)
    × (((key_error ≡ key_error) × (is_valid_key "total_wh" ≡ false))
        ⊎ ((key_error ≡ key_error)
            × (has_unit "total_wh" ≡ true)
            × (lookup (base_key "total_wh") older ≡ none))
        ⊎ (key_error ≡ type_error))
unfolding get_item lookup
get_item-raises_example = get_item-raises toy_floats "total_wh" older refl
