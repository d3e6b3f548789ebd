-- ===== src/Modules/Laws.antt =====
-- Statistics against their reference: the last entry of a day counts, in all methods.
use python_kasa.Prelude.{
  ◌≡◌, refl, Bool, true, false, List, [], ◌∷◌, ◌++◌, Option, none, some, String, if◌then◌else◌,
  arith, ◌∙◌, sym, ap,
}
use python_kasa.Prelude.Int.{ℤ, pos}
use python_kasa.Exec.{Result, ok, err, ◌>>=◌, >>=-eq-ok, ok-injective}
use python_kasa.Numbers.{Number, int, float, Floats, mul}
use python_kasa.Json.{
  Value, null, flag, num, real, str, obj, end, field, Items, nil, cons, arr, index, contains,
}
use python_kasa.Modules.Keys.{Key, whole, hash_key, same_key, equals_int, lookup, put, lookup-put}
use python_kasa.Modules.Usage.{collect, times_at, pop, usage_at, convert_stat_data}
use python_kasa.Modules.Emeter.{convert_energy, number_of, reading, unit}

-- `entry` is about the day.
abbrev pub is_at : String → Key → Value → Bool
is_at entry_key day entry = elim (index entry_key entry >>= hash_key) [
  | ok key ↦ same_key key day
  | err e ↦ false
]

module _ {V : Type 0} where
  abbrev known : Result V → Option V
  known (ok v) = some v
  known (err e) = none

  -- What is read of the last entry about the day, and `before` if there is none.
  abbrev pub last_reading : (Value → Result V) → String → Key → Items → Option V → Option V
  last_reading read entry_key day nil before = before
  last_reading read entry_key day (cons x xs) before =
      last_reading read entry_key day xs (if is_at entry_key day x then known (read x) else before)

  collect-lookup :
      (read : Value → Result V) (entry_key : String) (day : Key) (xs : Items)
      (before : List (Key × V)) {d : List (Key × V)}
      → collect read entry_key xs before ≡ ok d
      → lookup day d ≡ last_reading read entry_key day xs (lookup day before)
  unfolding collect
  collect-lookup read entry_key day nil before h = ap (lookup day) (sym (ok-injective h))
  collect-lookup read entry_key day (cons x xs) before h =
      let (key, e1, h1) = >>=-eq-ok (index entry_key x) _ h in
      let (value, e2, h2) = >>=-eq-ok (read x) _ h1 in
      let (hashed, e3, h3) = >>=-eq-ok (hash_key key) _ h2 in
      ground (
        arith,
        lookup-put hashed day value before,
        collect-lookup read entry_key day xs (put hashed value before) h3,
      )

-- A quantity that an entry has under a key, times a factor.
abbrev pub quantity : Floats → String → Number → Value → Result Number
quantity floats key factor entry = do
  value ← index key entry
  number ← number_of value
  ok (mul floats number factor)

-- The energy of an entry in kWh, or else in Wh. Devices whose statistics have "energy_wh" count Wh, and all
-- other ones give kWh under "energy".
abbrev pub energy_of : Floats → Bool → Bool → Value → Result Number
energy_of floats counts_wh true =
    if counts_wh
    then quantity floats "energy_wh" (float (floats.ratio (pos 1) (pos 1000)))
    else quantity floats "energy" (int (pos 1))
energy_of floats counts_wh false =
    if counts_wh
    then quantity floats "energy_wh" (int (pos 1))
    else quantity floats "energy" (int (pos 1000))

unit-energy_of :
    (floats : Floats) (in_wh kwh : Bool)
    → reading floats (unit floats in_wh kwh) ≡ energy_of floats in_wh kwh
unit-energy_of floats true true = refl
unit-energy_of floats true false = refl
unit-energy_of floats false true = refl
unit-energy_of floats false false = refl

-- Where the statistics of a month or a year are converted, a day or month has the energy of its last entry:
-- in kWh, a count of Wh times 1/1000 or kWh as they are; in Wh, a count of Wh as it is or kWh times 1000. The
-- first entry alone tells which of the two the device gives.
pub convert_energy-last :
    (floats : Floats) (entry_key : String) (first : Value) (rest : Items) (kwh : Bool) (day : Key)
    {d : List (Key × Number)}
    → convert_energy floats entry_key (arr (cons first rest)) kwh ≡ ok d
    → (counts_wh : Bool) × (contains "energy_wh" first ≡ ok counts_wh)
      × (lookup day d
          ≡ last_reading (energy_of floats counts_wh kwh) entry_key day (cons first rest) none)
unfolding convert_energy lookup
convert_energy-last floats entry_key first rest kwh day h =
    let (in_wh, e, h1) = >>=-eq-ok (contains "energy_wh" first) _ h in
    (
      in_wh,
      e,
      collect-lookup (reading floats (unit floats in_wh kwh)) entry_key day (cons first rest) [] h1
          ∙ ap (λ read. last_reading read entry_key day (cons first rest) none)
              (unit-energy_of floats in_wh kwh),
    )

after : Option Value → Option Value → Option Value
after none before = before
after (some v) before = some v

pop-append : (here rest : List Value) → pop (here ++ rest) ≡ after (pop rest) (pop here)
unfolding after
pop-append [] rest = ground arith
pop-append (x ∷ here) rest = ground (arith, pop-append here rest)

times_at-last :
    (entry_key : String) (n : ℤ) (xs : Items) (before : Option Value) {ts : List Value}
    → times_at entry_key n xs ≡ ok ts
    → after (pop ts) before ≡ last_reading (index "time") entry_key (whole n) xs before
unfolding times_at after
times_at-last entry_key n nil before h = ground arith
times_at-last entry_key n (cons x xs) before h =
    let (found, e1, h1) = >>=-eq-ok (index entry_key x) _ h in
    let (here, e2, h2) =
      >>=-eq-ok
        (if equals_int n found then (index "time" x >>= λ (t : Value). ok (t ∷ [])) else ok []) _
        h1 in
    let (rest, e3, h3) = >>=-eq-ok (times_at entry_key n xs) _ h2 in
    ground (
      arith,
      pop-append here rest,
      times_at-last entry_key n xs
          (if is_at entry_key (whole n) x then known (index "time" x) else before) e3,
    )

after-none : (v : Option Value) → after v none ≡ v
unfolding after
after-none none = refl
after-none (some v) = refl

items-agree :
    (entry_key : String) (n : ℤ) (xs : Items) {ts : List Value} {d : List (Key × Value)}
    → times_at entry_key n xs ≡ ok ts
    → collect (index "time") entry_key xs [] ≡ ok d
    → pop ts ≡ lookup (whole n) d
unfolding lookup
items-agree entry_key n xs {ts} h k =
    sym (after-none (pop ts))
    ∙ times_at-last entry_key n xs none h
    ∙ sym (collect-lookup (index "time") entry_key (whole n) xs [] k)

-- The usage of today or of this month, where it can be read, is what the converted statistics of the
-- same entries hold for that day or month; it is absent where they hold nothing.
pub usage_at-convert :
    (entry_key : String) (n : ℤ) (raw : Value) {used : Option Value} {d : List (Key × Value)}
    → usage_at entry_key n raw ≡ ok used
    → convert_stat_data entry_key raw ≡ ok d
    → used ≡ lookup (whole n) d
unfolding convert_stat_data times_at lookup
usage_at-convert entry_key n (arr nil) h k = ground arith
usage_at-convert entry_key n (arr (cons x xs)) h k =
    let (ts, times, same) = >>=-eq-ok (times_at entry_key n (cons x xs)) _ h in
    sym (ok-injective same) ∙ items-agree entry_key n (cons x xs) times k
usage_at-convert entry_key n (obj end) h k = ground arith
usage_at-convert entry_key n (obj (field j v d)) h k = cc
usage_at-convert entry_key n (str s) h k = ground arith
usage_at-convert entry_key n null h k = cc
usage_at-convert entry_key n (flag b) h k = cc
usage_at-convert entry_key n (num m) h k = cc
usage_at-convert entry_key n (real x) h k = cc
