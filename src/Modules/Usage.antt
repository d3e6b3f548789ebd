-- ===== src/Modules/Usage.antt =====
-- `Usage` (kasa/modules/usage.py): the query, and statistics by day and month. The date is a parameter.
use python_kasa.Prelude.{
  List, [], ◌∷◌, ◌++◌, or_default, Option, none, some, String, ◌=s=◌, if◌then◌else◌,
}
use python_kasa.Prelude.Int.{ℤ}
use python_kasa.Exec.{Result, ok, err, type_error, ◌>>=◌}
use python_kasa.Json.{Value, null, num, str, arr, obj, Items, nil, cons, end, field, index, truthy}
use python_kasa.Modules.{Host, data_at, query_for_command, add_query}
use python_kasa.Modules.Keys.{Key, hash_key, equals_int, put}

-- What `datetime.now()` says.
pub record Date : Type 0 where
  pub year : ℤ
  pub month : ℤ
  pub day : ℤ

abbrev pub day_arguments : ℤ → ℤ → Value
day_arguments year month = obj (field "year" (num year) (field "month" (num month) end))

abbrev pub month_arguments : ℤ → Value
month_arguments year = obj (field "year" (num year) end)

-- `daily_data` and `monthly_data`
unfoldable pub daily_data : String → Value → Result Value
unfolding data_at
daily_data name last_update = do
  stats ← data_at name "get_daystat" last_update
  index "day_list" stats

unfoldable pub monthly_data : String → Value → Result Value
unfolding data_at
monthly_data name last_update = do
  stats ← data_at name "get_monthstat" last_update
  index "month_list" stats

-- [x["time"] for x in entries if x[entry_key] == today]; the condition comes first.
unfoldable pub times_at : String → ℤ → Items → Result (List Value)
times_at entry_key today nil = ok []
times_at entry_key today (cons x xs) = do
  found ← index entry_key x
  here ← (if equals_int today found then (do t ← index "time" x; ok (t ∷ [])) else ok [])
  rest ← times_at entry_key today xs
  ok (here ++ rest)

-- `return converted.pop()`, or None for an empty list
abbrev pub pop : List Value → Option Value
pop [] = none
pop (x ∷ xs) = some (or_default (pop xs) x)

-- A list to go through. The items of a text and of a dict are texts, which have no entries.
abbrev pub entries_of : Value → Result Items
entries_of (arr xs) = ok xs
entries_of (obj end) = ok nil
entries_of (str s) = if s =s= "" then ok nil else err type_error
entries_of v = err type_error

-- `usage_today` and `usage_this_month`, from the entries
abbrev pub usage_at : String → ℤ → Value → Result (Option Value)
usage_at entry_key today raw = do
  entries ← entries_of raw
  converted ← times_at entry_key today entries
  ok (pop converted)

unfoldable pub usage_today : String → Date → Value → Result (Option Value)
unfolding daily_data times_at
usage_today name now last_update = do raw ← daily_data name last_update; usage_at "day" now.day raw

unfoldable pub usage_this_month : String → Date → Value → Result (Option Value)
unfolding monthly_data times_at
usage_this_month name now last_update = do
  raw ← monthly_data name last_update
  usage_at "month" now.month raw

module _ {V : Type 0} where
  -- The comprehension {entry[entry_key]: read(entry) for entry in data}; the key comes first.
  unfoldable pub collect :
      (Value → Result V) → String → Items → List (Key × V) → Result (List (Key × V))
  unfolding put
  collect read entry_key nil converted = ok converted
  collect read entry_key (cons x xs) converted = do
    key ← index entry_key x
    value ← read x
    hashed ← hash_key key
    collect read entry_key xs (put hashed value converted)

-- `_convert_stat_data`
unfoldable pub convert_stat_data : String → Value → Result (List (Key × Value))
unfolding collect
convert_stat_data entry_key raw =
    if truthy raw
    then (do entries ← entries_of raw; collect (index "time") entry_key entries [])
    else ok []

module _ (host : Host) where
  -- `query`
  unfoldable pub usage_query : String → Date → host.State → Result Value
  unfolding add_query query_for_command
  usage_query name now s = do
    let req = obj (query_for_command host name "get_realtime" null s)
    with_days ← add_query host name "get_daystat" (day_arguments now.year now.month) s req
    add_query host name "get_monthstat" (month_arguments now.year) s with_days
