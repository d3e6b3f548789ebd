-- ===== src/Tapo/Plug.antt =====
-- `TapoPlug` (kasa/tapo/tapoplug.py).
use python_kasa.Prelude.{Bool, true, Option, none, some, String, if◌then◌else◌}
use python_kasa.Prelude.Int.{ℤ, pos}
use python_kasa.Exec.{Result, NoneType, ok, err, ◌>>=◌}
use python_kasa.Exec.State.{Exec, ◌>>=◌ as bind}
use python_kasa.Numbers.{Float, Floats, float, mul}
use python_kasa.Json.{Value, Fields, end, field, put, truthy}
use python_kasa.Device.Properties.{get_field}
use python_kasa.Device.Switch.{instant}
use python_kasa.EmeterStatus.{value_of}
use python_kasa.Http.Smart.{method}
use python_kasa.Modules.Emeter.{number_of}
use python_kasa.Tapo
use python_kasa.Tapo.{TapoDevice, Protocol, State, attribute, get_info, fetch}

module _ (protocol : Protocol) where
  -- self._data[key] = value
  abbrev store : String → Value → TapoDevice → Result Fields
  store key v d = attribute d.data_ >>= λ (fields : Fields). ok (put key v fields)

  unfoldable pub put_data : String → Value → Exec (State protocol) NoneType
  unfolding put
  put_data key v (d, w) = elim (store key v d) [
    | err e ↦ (err e, (d, w))
    | ok fields ↦ (ok tt, (record d { data_ = some fields }, w))
  ]

  -- `update` of a plug: the data of the device, with the energy and the power
  unfoldable pub update : Exec (State protocol) NoneType
  unfolding put_data Tapo.update fetch
  update = bind (Tapo.update protocol) λ _.
      bind (fetch protocol (method "get_energy_usage") (λ v d. record d { energy = some v }))
        λ energy.
          bind (fetch protocol (method "get_current_power") (λ v d. record d { emeter = some v }))
            λ emeter. bind (put_data "energy" energy) λ _. put_data "emeter" emeter

-- `has_emeter`, with its guard: what `requires_update` looks in is `_last_update`
abbrev pub has_emeter : Bool
has_emeter = true

unfoldable pub get_energy : String → TapoDevice → Result Value
get_energy key d = attribute d.energy >>= get_field key

module _ (floats : Floats) where
  -- `_convert_energy_data` with the scale 1 / 1000
  unfoldable pub convert_energy_data : Value → Result Value
  unfolding mul
  convert_energy_data v =
      if truthy v
      then (number_of v >>= λ (n : _).
          ok (value_of (mul floats n (float (floats.ratio (pos 1) (pos 1000))))))
      else ok v

  unfoldable pub emeter_today : TapoDevice → Result Value
  unfolding convert_energy_data get_energy
  emeter_today d = get_energy "today_energy" d >>= convert_energy_data

  unfoldable pub emeter_this_month : TapoDevice → Result Value
  unfolding convert_energy_data get_energy
  emeter_this_month d = get_energy "month_energy" d >>= convert_energy_data

  -- `emeter_realtime`: the dict of the status, with the energy of today as its total
  unfoldable pub emeter_realtime : TapoDevice → Result Fields
  unfolding emeter_today get_energy
  emeter_realtime d = get_energy "current_power" d >>= λ (power : Value).
      emeter_today d >>= λ (total : Value). ok (field "power_mw" power (field "total" total end))

abbrev started : (Float → ℤ) → ℤ → Value → Result (Option ℤ)
started rounded now on_time = number_of on_time >>= λ (n : _). ok (some (instant rounded now n))

unfoldable pub on_since : (Float → ℤ) → ℤ → TapoDevice → Result (Option ℤ)
unfolding get_info
on_since rounded now d = get_info "device_on" d >>= λ (on : Value).
    if truthy on then (get_info "on_time" d >>= started rounded now) else ok none

-- What `state_information` adds to that of a device.
unfoldable pub plug_information : (Float → ℤ) → ℤ → TapoDevice → Result (Option ℤ × Value × Value)
unfolding on_since get_info
plug_information rounded now d = on_since rounded now d >>= λ (since : Option ℤ).
    get_info "auto_off_status" d >>= λ (status : Value).
    get_info "auto_off_remain_time" d >>= λ (remaining : Value). ok (since, status, remaining)
