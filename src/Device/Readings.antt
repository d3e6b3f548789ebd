-- ===== src/Device/Readings.antt =====
-- The time and the energy readings of a device's modules (kasa/smartdevice.py).
use python_kasa.Prelude.{Option}
use python_kasa.Exec.{Result, ok, err, type_error, ◌>>=◌, ◌>>◌}
use python_kasa.Numbers.{Number, Floats}
use python_kasa.Json.{Value, obj, Fields}
use python_kasa.EmeterStatus
use python_kasa.EmeterStatus.{value_of}
use python_kasa.Modules.Emeter
use python_kasa.Modules.Emeter.{number_of, emeter_today, emeter_this_month}
use python_kasa.Modules.Time
use python_kasa.Modules.Time.{DateTime}
use python_kasa.Modules.Usage.{Date}
use python_kasa.Device.{SmartDevice, verify_emeter}
use python_kasa.Device.Properties.{guarded, module_named}

unfoldable pub time : SmartDevice → Result DateTime
unfolding module_named
time = guarded "time" (λ s. do m ← module_named "time" s; Time.time m.module_name s.last_update)

unfoldable pub timezone : SmartDevice → Result Value
unfolding module_named
timezone =
    guarded "timezone"
      (λ s. do m ← module_named "time" s; Time.timezone m.module_name s.last_update)

abbrev pub fields_of : Value → Result Fields
fields_of (obj d) = ok d
fields_of v = err type_error

-- The readings of the emeter module; EmeterStatus(x) is made of a dict.
unfoldable pub emeter_realtime : SmartDevice → Result Fields
unfolding verify_emeter module_named
emeter_realtime = guarded "emeter_realtime" (λ s. do
  verify_emeter s
  m ← module_named "emeter" s
  readings ← Emeter.realtime m.module_name s.last_update
  fields_of readings)

module _ (floats : Floats) where
  unfoldable pub energy_today : Date → SmartDevice → Result (Option Number)
  unfolding verify_emeter module_named
  energy_today now = guarded "emeter_today" (λ s. do
    verify_emeter s
    m ← module_named "emeter" s
    emeter_today floats m.module_name now s.last_update)

  unfoldable pub energy_this_month : Date → SmartDevice → Result (Option Number)
  unfolding verify_emeter module_named
  energy_this_month now = guarded "emeter_this_month" (λ s. do
    verify_emeter s
    m ← module_named "emeter" s
    emeter_this_month floats m.module_name now s.last_update)

  -- `float` of a number, kept as it is
  unfoldable pub current_consumption : SmartDevice → Result Number
  unfolding verify_emeter emeter_realtime
  current_consumption = guarded "current_consumption" (λ s. do
    verify_emeter s
    status ← emeter_realtime s
    power ← EmeterStatus.get_item floats "power" status
    number_of power)
