-- ===== src/Modules/Tests.antt =====
-- Statistics with two entries for one day, a host with one answer, and the sensors' checks.
use python_kasa.Prelude.{ℕ, ◌≡◌, refl, false, List, [], ◌∷◌, none, some, Bool}
use python_kasa.Prelude.Int.{pos}
use python_kasa.Exec.{ok, err, smart_device, value_error}
use python_kasa.Numbers.{int, mul, ◌*ℤ◌}
use python_kasa.Numbers.Toy.{toy_floats}
use python_kasa.Json.{
  Value, null, num, obj, arr, Items, nil, cons, Fields, end, field, index, contains, lookup, put,
}
use python_kasa.Json.Merge.{merge}
use python_kasa.Device.Requests.{create_request}
use python_kasa.Modules.{Host}
use python_kasa.Modules.Keys
use python_kasa.Modules.Keys.{Key, whole}
use python_kasa.Modules.Usage.{times_at, convert_stat_data}
use python_kasa.Modules.Emeter.{convert_energy}
use python_kasa.Modules.Laws.{convert_energy-last, usage_at-convert, last_reading, energy_of}
use python_kasa.Modules.Time.{check_datetime, time_query}
use python_kasa.Modules.Sensors.{set_range, near}

abbrev entry : ℕ → ℕ → Fields → Value
entry day time rest = obj (field "day" (num (pos day)) (field "time" (num (pos time)) rest))

abbrev in_wh : ℕ → Fields
in_wh n = field "energy_wh" (num (pos n)) end

abbrev entries : Items
entries = cons (entry 4 5 (in_wh 7)) (cons (entry 5 6 (in_wh 8)) (cons (entry 4 9 (in_wh 2)) nil))

abbrev converted : List (Key × Value)
converted = (whole (pos 4), num (pos 9)) ∷ (whole (pos 5), num (pos 6)) ∷ []

usage_at-convert_example : some (num (pos 9)) ≡ Keys.lookup (whole (pos 4)) converted
unfolding times_at convert_stat_data index lookup
usage_at-convert_example = usage_at-convert "day" (pos 4) (arr entries) {d = converted} refl refl

convert_energy-last_example :
    (known : Bool) × (contains "energy_wh" (entry 4 5 (in_wh 7)) ≡ ok known)
    × (Keys.lookup
          (whole (pos 4))
          ((whole (pos 4), int (pos 2)) ∷ (whole (pos 5), int (pos 8)) ∷ [])
        ≡ last_reading (energy_of toy_floats known false) "day" (whole (pos 4)) entries none)
unfolding convert_energy index contains lookup mul
convert_energy-last_example =
    convert_energy-last toy_floats "day" (entry 4 5 (in_wh 7))
      (cons (entry 5 6 (in_wh 8)) (cons (entry 4 9 (in_wh 2)) nil)) false (whole (pos 4)) refl

-- Swapping the units would show here: 3 kWh are 3000 Wh.
thousandfold_lem :
    energy_of toy_floats false false (obj (field "energy" (num (pos 3)) end)) ≡ ok (int (pos 3000))
unfolding index lookup mul ◌*ℤ◌
thousandfold_lem = refl

-- A device that answers every command with null.
abbrev silent : Host
silent = record {
  State = ℕ;
  last_update = λ n. null;
  create_request = λ target cmd arg n. create_request target cmd arg none;
  query_helper = λ target cmd arg n. (ok null, n);
}

-- Both queries of the clock stand in the dict, though the method drops the result of the merge.
time_query_lem :
    time_query silent "time" 0
    ≡ ok (obj (field "time" (obj (field "get_time" null (field "get_timezone" null end))) end))
unfolding time_query create_request merge lookup put
time_query_lem = refl

set_range_lem :
    (set_range silent "smartlife.iot.PIR" none none 0 ≡ (err smart_device, 0))
    × (set_range silent "smartlife.iot.PIR" (some near) none 0 ≡ (ok null, 0))
unfolding set_range
set_range_lem = (refl, refl)

-- The 29th of February of a year that is none.
no_leap_day_lem :
    check_datetime (record {
      year = pos 1900;
      month = pos 2;
      mday = pos 29;
      hour = pos 0;
      minute = pos 0;
      sec = pos 0;
    })
    ≡ err value_error
unfolding check_datetime
no_leap_day_lem = refl
