-- ===== src/Modules/Calls.antt =====
-- The methods of `Usage`, `Emeter` and `Time` (kasa/modules/usage.py, emeter.py, time.py) that ask the
-- device. The date is read when the year or the month is not given.
use python_kasa.Prelude.{Bool, List, Option, none, some, String, or_default, if◌then◌else◌}
use python_kasa.Prelude.Int.{ℤ}
use python_kasa.Exec.{Result, ok, err, is_smart_device_exception}
use python_kasa.Exec.State.{Exec, lift, ◌>>=◌}
use python_kasa.Numbers.{Number, Floats}
use python_kasa.Json.{Value, null, index}
use python_kasa.Modules.{Host, call}
use python_kasa.Modules.Keys.{Key}
use python_kasa.Modules.Time.{DateTime, datetime_of}
use python_kasa.Modules.Usage.{Date, day_arguments, month_arguments, convert_stat_data}
use python_kasa.Modules.Emeter.{convert_energy}

module _ (host : Host) where
  open host use {State}

  unfoldable pub get_raw_daystat : String → Date → Option ℤ → Option ℤ → Exec State Value
  unfolding call
  get_raw_daystat name now year month =
      call host name "get_daystat"
        (day_arguments (or_default year now.year) (or_default month now.month))

  unfoldable pub get_raw_monthstat : String → Date → Option ℤ → Exec State Value
  unfolding call
  get_raw_monthstat name now year =
      call host name "get_monthstat" (month_arguments (or_default year now.year))

  -- `get_daystat` and `get_monthstat` of `Usage`
  unfoldable pub usage_daystat :
      String → Date → Option ℤ → Option ℤ → Exec State (List (Key × Value))
  unfolding get_raw_daystat convert_stat_data
  usage_daystat name now year month = do
    stats ← get_raw_daystat name now year month
    days ← lift (index "day_list" stats)
    lift (convert_stat_data "day" days)

  unfoldable pub usage_monthstat : String → Date → Option ℤ → Exec State (List (Key × Value))
  unfolding get_raw_monthstat convert_stat_data
  usage_monthstat name now year = do
    stats ← get_raw_monthstat name now year
    months ← lift (index "month_list" stats)
    lift (convert_stat_data "month" months)

  unfoldable pub erase_usage : String → Exec State Value
  unfolding call
  erase_usage name = call host name "erase_runtime_stat" null

  -- `erase_stats` of `Emeter`
  unfoldable pub erase_energy : String → Exec State Value
  unfolding call
  erase_energy name = call host name "erase_emeter_stat" null

  unfoldable pub get_realtime : String → Exec State Value
  unfolding call
  get_realtime name = call host name "get_realtime" null

  module _ (floats : Floats) where
    -- `get_daystat` and `get_monthstat` of `Emeter`
    unfoldable pub emeter_daystat :
        String → Date → Option ℤ → Option ℤ → Bool → Exec State (List (Key × Number))
    unfolding get_raw_daystat convert_energy
    emeter_daystat name now year month kwh = do
      stats ← get_raw_daystat name now year month
      days ← lift (index "day_list" stats)
      lift (convert_energy floats "day" days kwh)

    unfoldable pub emeter_monthstat :
        String → Date → Option ℤ → Bool → Exec State (List (Key × Number))
    unfolding get_raw_monthstat convert_energy
    emeter_monthstat name now year kwh = do
      stats ← get_raw_monthstat name now year
      months ← lift (index "month_list" stats)
      lift (convert_energy floats "month" months kwh)

  -- `except SmartDeviceException: return None`
  abbrev or_no_time : Result DateTime × State → Result (Option DateTime) × State
  or_no_time (ok t, s) = (ok (some t), s)
  or_no_time (err e, s) = if is_smart_device_exception e then (ok none, s) else (err e, s)

  unfoldable pub get_time : String → Exec State (Option DateTime)
  unfolding call datetime_of
  get_time name s = or_no_time ((do res ← call host name "get_time" null; lift (datetime_of res)) s)

  unfoldable pub get_timezone : String → Exec State Value
  unfolding call
  get_timezone name = call host name "get_timezone" null
