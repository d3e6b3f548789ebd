-- ===== src/Modules/Time.antt =====
-- `Time` (kasa/modules/time.py), with the checks of Python's `datetime`, and `Cloud`
-- (kasa/modules/cloud.py), whose CloudInfo a third-party parser reads.
use python_kasa.Prelude.{ℕ, ◌%◌, Bool, true, false, not, ◌&&◌, ◌||◌, String, ◌==◌, if◌then◌else◌}
use python_kasa.Prelude.Int.{ℤ, pos, between_ℤ}
use python_kasa.Exec.{Result, ok, err, type_error, value_error, raise_if, ◌>>=◌, ◌>>◌}
use python_kasa.Json.{Value, null, flag, num, str, obj, Fields, end, field, index}
use python_kasa.Modules.{Host, data_at, query_for_command, add_query}

pub record DateTime : Type 0 where
  pub year : ℤ
  pub month : ℤ
  pub mday : ℤ
  pub hour : ℤ
  pub minute : ℤ
  pub sec : ℤ

abbrev is_leap : ℕ → Bool
is_leap y = (y % 4 == 0) && (not (y % 100 == 0) || (y % 400 == 0))

abbrev pub days_in_month : ℤ → ℤ → ℕ
days_in_month (pos year) (pos month) =
    if month == 2
    then (if is_leap year then 29 else 28)
    else if (month == 4) || (month == 6) || (month == 9) || (month == 11)
    then 30
    else 31
days_in_month _ _ = 31

-- An integer argument; a float is refused.
abbrev int_argument : Value → Result ℤ
int_argument (num n) = ok n
int_argument (flag true) = ok (pos 1)
int_argument (flag false) = ok (pos 0)
int_argument v = err type_error

-- The checks of the constructor of `datetime`.
unfoldable pub check_datetime : DateTime → Result DateTime
check_datetime t = do
  raise_if (not (between_ℤ (pos 1) t.year (pos 9999))) value_error
  raise_if (not (between_ℤ (pos 1) t.month (pos 12))) value_error
  raise_if (not (between_ℤ (pos 1) t.mday (pos (days_in_month t.year t.month)))) value_error
  raise_if (not (between_ℤ (pos 0) t.hour (pos 23))) value_error
  raise_if (not (between_ℤ (pos 0) t.minute (pos 59))) value_error
  raise_if (not (between_ℤ (pos 0) t.sec (pos 59))) value_error
  ok t

-- datetime(res["year"], …): all keys are read before an argument is looked at.
unfoldable pub datetime_of : Value → Result DateTime
unfolding check_datetime
datetime_of res = do
  year ← index "year" res
  month ← index "month" res
  mday ← index "mday" res
  hour ← index "hour" res
  minute ← index "min" res
  sec ← index "sec" res
  y ← int_argument year
  mo ← int_argument month
  d ← int_argument mday
  h ← int_argument hour
  mi ← int_argument minute
  s ← int_argument sec
  check_datetime (record { year = y; month = mo; mday = d; hour = h; minute = mi; sec = s })

-- The property `time`.
unfoldable pub time : String → Value → Result DateTime
unfolding data_at datetime_of
time name last_update = do res ← data_at name "get_time" last_update; datetime_of res

-- The property `timezone`.
unfoldable pub timezone : String → Value → Result Value
unfolding data_at
timezone name last_update = data_at name "get_timezone" last_update

-- The property `info` of `Cloud`; `parse_info` is pydantic's `parse_obj`.
unfoldable pub cloud_info : {A : Type 0} → (Value → Result A) → String → Value → Result A
unfolding data_at
cloud_info parse_info name last_update = do
  info ← data_at name "get_info" last_update
  parse_info info

module _ (host : Host) where
  -- `query` of `Time`: the result of its `merge` is dropped, but it is the same dict as `q`.
  unfoldable pub time_query : String → host.State → Result Value
  unfolding add_query query_for_command
  time_query name s =
      add_query host name "get_timezone" null s
        (obj (query_for_command host name "get_time" null s))

  -- The requests that the methods of `Cloud` return, without sending them.
  unfoldable pub cloud_query : String → host.State → Fields
  unfolding query_for_command
  cloud_query name s = query_for_command host name "get_info" null s

  unfoldable pub get_available_firmwares : String → host.State → Fields
  unfolding query_for_command
  get_available_firmwares name s = query_for_command host name "get_intl_fw_list" null s

  unfoldable pub set_server : String → String → host.State → Fields
  unfolding query_for_command
  set_server name url s =
      query_for_command host name "set_server_url" (obj (field "server" (str url) end)) s

  unfoldable pub connect : String → String → String → host.State → Fields
  unfolding query_for_command
  connect name username password s =
      query_for_command host name "bind"
        (obj (field "username" (str username) (field "password" (str password) end))) s

  unfoldable pub disconnect : String → host.State → Fields
  unfolding query_for_command
  disconnect name s = query_for_command host name "unbind" null s
