-- ===== src/Modules/Emeter.antt =====
-- `Emeter` (kasa/modules/emeter.py): energy by day and month, in the unit that the caller wants. A
-- reading is a number: Python would repeat a text or a list in its place.
use python_kasa.Prelude.{Bool, true, false, List, [], Option, String, if◌then◌else◌}
use python_kasa.Prelude.Int.{pos}
use python_kasa.Exec.{Result, ok, err, type_error, key_error, ◌>>=◌}
use python_kasa.Numbers.{Number, int, float, Floats, mul}
use python_kasa.Json.{Value, flag, num, real, str, arr, obj, cons, index, contains, truthy}
use python_kasa.Modules.{data_at}
use python_kasa.Modules.Keys.{Key, whole, lookup}
use python_kasa.Modules.Usage.{Date, entries_of, collect, daily_data, monthly_data}

abbrev pub number_of : Value → Result Number
number_of (num n) = ok (int n)
number_of (real x) = ok (float x)
number_of (flag true) = ok (int (pos 1))
number_of (flag false) = ok (int (pos 0))
number_of v = err type_error

-- data[0] of what counts as true
abbrev pub first_entry : Value → Result Value
first_entry (arr (cons x xs)) = ok x
first_entry (str s) = ok (str s)
first_entry (obj d) = err key_error
first_entry v = err type_error

module _ (floats : Floats) where
  -- The key of the values and what they are multiplied by.
  abbrev pub unit : Bool → Bool → String × Number
  unit true true = ("energy_wh", float (floats.ratio (pos 1) (pos 1000)))
  unit true false = ("energy_wh", int (pos 1))
  unit false true = ("energy", int (pos 1))
  unit false false = ("energy", int (pos 1000))

  -- entry[value_key] * scale
  abbrev pub reading : String × Number → Value → Result Number
  reading u entry = do value ← index u.0 entry; number ← number_of value; ok (mul floats number u.1)

  -- `_convert_stat_data` for data that is not empty
  unfoldable pub convert_some : String → Value → Bool → Result (List (Key × Number))
  unfolding collect
  convert_some entry_key raw kwh = do
    first ← first_entry raw
    in_wh ← contains "energy_wh" first
    entries ← entries_of raw
    collect (reading (unit in_wh kwh)) entry_key entries []

  unfoldable pub convert_energy : String → Value → Bool → Result (List (Key × Number))
  unfolding convert_some
  convert_energy entry_key raw kwh = if truthy raw then convert_some entry_key raw kwh else ok []

  unfoldable pub emeter_today : String → Date → Value → Result (Option Number)
  unfolding convert_energy daily_data
  emeter_today name now last_update = do
    raw ← daily_data name last_update
    converted ← convert_energy "day" raw true
    ok (lookup (whole now.day) converted)

  unfoldable pub emeter_this_month : String → Date → Value → Result (Option Number)
  unfolding convert_energy monthly_data
  emeter_this_month name now last_update = do
    raw ← monthly_data name last_update
    converted ← convert_energy "month" raw true
    ok (lookup (whole now.month) converted)

-- `realtime`: the dict that an `EmeterStatus` is made of.
unfoldable pub realtime : String → Value → Result Value
unfolding data_at
realtime name last_update = data_at name "get_realtime" last_update
