-- ===== src/Strip/Readings.antt =====
-- Energy readings of a strip (kasa/smartstrip.py), which are the sums of those of its sockets.
use python_kasa.Prelude.{ℕ, Bool, List, [], ◌∷◌, Option, none, some, String, length, or_default}
use python_kasa.Prelude.Int.{ℤ, pos}
use python_kasa.Exec.{Result, NoneType, ok, err, type_error, ◌>>=◌}
use python_kasa.Exec.State.{Exec}
use python_kasa.Numbers.{Number, int, Floats, add, div, truncate}
use python_kasa.Json.{Fields, end, field}
use python_kasa.Device.{SmartDevice, Protocol, requires_update, verify_emeter}
use python_kasa.Device.Methods
use python_kasa.Device.Properties.{guarded}
use python_kasa.Device.Readings
use python_kasa.Modules.Emeter.{number_of}
use python_kasa.Modules.Keys.{Key, text, lookup, put}
use python_kasa.Modules.Usage.{Date}
use python_kasa.Strip.{Socket, Strip}
use python_kasa.Strip.Sockets.{socket_owner}
use python_kasa.Strip.Sums.{merge_sums, zero_float}

-- The entries of a status, as numbers that can be added.
unfoldable pub readings_of : Fields → Result (List (Key × Number))
readings_of end = ok []
readings_of (field k v d) = number_of v >>= λ (n : Number).
    readings_of d >>= λ (rest : List (Key × Number)). ok ((text k, n) ∷ rest)

module _ {A : Type 0} (get : Socket → Result A) where
  -- [get(plug) for plug in self.children]
  unfoldable pub of_each : List Socket → Result (List A)
  of_each [] = ok []
  of_each (c ∷ cs) = get c >>= λ (a : A). of_each cs >>= λ (rest : List A). ok (a ∷ rest)

module _ (floats : Floats) where
  -- emeter["voltage_mv"] = int(emeter["voltage_mv"] / len(self.children))
  unfoldable pub average_voltage : ℕ → List (Key × Number) → Result (List (Key × Number))
  unfolding div
  average_voltage count sums =
      div floats (or_default (lookup (text "voltage_mv") sums) zero_float) (int (pos count))
      >>= λ (average : Number). ok (put (text "voltage_mv") (int (truncate average)) sums)

  unfoldable pub all_readings : List Fields → Result (List (List (Key × Number)))
  unfolding readings_of
  all_readings [] = ok []
  all_readings (d ∷ ds) = readings_of d >>= λ (r : List (Key × Number)).
      all_readings ds >>= λ (rest : List (List (Key × Number))). ok (r ∷ rest)

  abbrev sum_readings : List Socket → List Fields → Result (List (Key × Number))
  sum_readings children statuses = all_readings statuses >>= λ (ds : List (List (Key × Number))).
      average_voltage (length children) (merge_sums floats ds)

  -- The property `emeter_realtime`.
  unfoldable pub emeter_realtime : Strip → Result (List (Key × Number))
  unfolding all_readings average_voltage merge_sums of_each
  emeter_realtime s =
      guarded "emeter_realtime"
        (λ _.
          of_each (λ c. Readings.emeter_realtime c.device) s.children >>= sum_readings s.children)
        s.device

  -- sum(values) of what may be None, which cannot be added
  unfoldable pub sum_present : Number → List (Option Number) → Result Number
  unfolding add
  sum_present total [] = ok total
  sum_present total (none ∷ ns) = err type_error
  sum_present total (some n ∷ ns) = sum_present (add floats total n) ns

  unfoldable pub emeter_this_month : Date → Strip → Result Number
  unfolding of_each sum_present Readings.energy_this_month
  emeter_this_month now s =
      guarded "emeter_this_month"
        (λ _.
          of_each (λ c. Readings.energy_this_month floats now c.device) s.children
          >>= sum_present (int (pos 0)))
        s.device

  unfoldable pub emeter_today : Date → Strip → Result Number
  unfolding of_each sum_present Readings.energy_today
  emeter_today now s =
      guarded "emeter_today"
        (λ _.
          of_each (λ c. Readings.energy_today floats now c.device) s.children
          >>= sum_present (int (pos 0)))
        s.device

  unfoldable pub sum_numbers : Number → List Number → Number
  unfolding add
  sum_numbers total [] = total
  sum_numbers total (n ∷ ns) = sum_numbers (add floats total n) ns

  unfoldable pub current_consumption : Strip → Result Number
  unfolding of_each sum_numbers Readings.current_consumption
  current_consumption s =
      of_each (λ c. Readings.current_consumption floats c.device) s.children
      >>= λ (ns : List Number). ok (sum_numbers (int (pos 0)) ns)

  module _ (protocol : Protocol) where
    open protocol use {World}

    -- A list of awaited calls: the sockets share the connection, one after another.
    unfoldable pub await_each :
        {A : Type 0} → Exec (Socket × World) A → List Socket → World → Result (List A) × World
    await_each {A} call [] w = (ok [], w)
    await_each {A} call (c ∷ cs) w =
        let r = call (c, w) in
        elim r.0 [
          | err e ↦ (err e, r.1.1)
          | ok a ↦
              let rest = await_each call cs r.1.1 in
              (rest.0 >>= λ (found : List A). ok (a ∷ found), rest.1)
        ]

    abbrev over_children :
        {A B : Type 0}
        → Exec (Socket × World) A
        → (List A → Result B)
        → (SmartDevice → Result NoneType)
        → Strip
        → World
        → Result B × World
    over_children call combine check s w = elim (check s.device) [
      | err e ↦ (err e, w)
      | ok _ ↦ let r = await_each call s.children w in (r.0 >>= combine, r.1)
    ]

    -- `@requires_update` with the name, then `_verify_emeter`
    abbrev verified : String → SmartDevice → Result NoneType
    verified name s = requires_update name s >>= λ (_ : NoneType). verify_emeter s

    -- These methods leave the strip as it is.
    unfoldable pub get_emeter_realtime : Strip → World → Result (List (Key × Number)) × World
    unfolding await_each Methods.get_emeter_realtime all_readings average_voltage merge_sums
    get_emeter_realtime s =
        over_children (Methods.get_emeter_realtime (socket_owner protocol))
          (sum_readings s.children) (verified "get_emeter_realtime") s

    unfoldable pub get_emeter_daily :
        Date → Option ℤ → Option ℤ → Bool → Strip → World → Result (List (Key × Number)) × World
    unfolding await_each Methods.get_emeter_daily merge_sums
    get_emeter_daily now year month kwh =
        over_children (Methods.get_emeter_daily (socket_owner protocol) floats now year month kwh)
          (λ ds. ok (merge_sums floats ds)) (verified "get_emeter_daily")

    unfoldable pub get_emeter_monthly :
        Date → Option ℤ → Bool → Strip → World → Result (List (Key × Number)) × World
    unfolding await_each Methods.get_emeter_monthly merge_sums
    get_emeter_monthly now year kwh =
        over_children (Methods.get_emeter_monthly (socket_owner protocol) floats now year kwh)
          (λ ds. ok (merge_sums floats ds)) (verified "get_emeter_monthly")

    unfoldable pub erase_emeter_stats : Strip → World → Result NoneType × World
    unfolding await_each Methods.erase_emeter_stats
    erase_emeter_stats =
        over_children (Methods.erase_emeter_stats (socket_owner protocol)) (λ _. ok tt)
          (requires_update "erase_emeter_stats")
