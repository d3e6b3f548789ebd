-- ===== src/Device/Switch.antt =====
-- Whether a device is on, and since when: `SmartDevice` (kasa/smartdevice.py) and `SmartPlug`
-- (kasa/smartplug.py).
use python_kasa.Prelude.{Bool, true, not, Option, none, some, if◌then◌else◌}
use python_kasa.Prelude.Int.{ℤ, pos, ◌-ℤ◌}
use python_kasa.Exec.{Result, ok, err, not_implemented, ◌>>=◌}
use python_kasa.Numbers.{Float, Number, int, float, ◌*ℤ◌}
use python_kasa.Json.{Value, contains, index, truthy}
use python_kasa.Modules.Emeter.{number_of}
use python_kasa.Modules.Keys.{equals_int}
use python_kasa.Device.{SmartDevice}
use python_kasa.Device.Properties.{guarded, sys_info}

-- Seconds before now, in microseconds, which a float is rounded to.
abbrev microseconds : (Float → ℤ) → Number → ℤ
microseconds rounded (int n) = n *ℤ pos 1000000
microseconds rounded (float x) = rounded x

-- `now` is in seconds, without the microseconds that `replace` sets to 0.
abbrev pub instant : (Float → ℤ) → ℤ → Number → ℤ
instant rounded now seconds = (now *ℤ pos 1000000) -ℤ microseconds rounded seconds

-- `is_on` of the subclass; that of the base class raises NotImplementedError.
module _ (is_on : SmartDevice → Result Bool) where
  unfoldable pub is_off : SmartDevice → Result Bool
  is_off = guarded "is_off" (λ s. is_on s >>= λ (b : Bool). ok (not b))

  abbrev since : (Float → ℤ) → ℤ → Value → Result (Option ℤ)
  since rounded now info = do
    on_time ← index "on_time" info
    seconds ← number_of on_time
    ok (some (instant rounded now seconds))

  unfoldable pub on_since : (Float → ℤ) → ℤ → SmartDevice → Result (Option ℤ)
  unfolding is_off
  on_since rounded now = guarded "on_since" (λ s. do
    known ← contains "on_time" s.sys_info
    off ← (if known then is_off s else ok true)
    (if off then ok none else since rounded now s.sys_info))

-- `is_on`, `turn_on`, `turn_off` and `state_information` of the base class.
abbrev pub abstract : {A : Type 0} → Result A
abstract = err not_implemented

-- `is_on` of a plug (kasa/smartplug.py)
unfoldable pub plug_is_on : SmartDevice → Result Bool
unfolding sys_info
plug_is_on =
    guarded "is_on" (λ s. do info ← sys_info s; relay ← index "relay_state" info; ok (truthy relay))

-- bool(1 - x), which is false exactly for 1
abbrev pub is_led_on : Value → Result Bool
is_led_on v = number_of v >>= λ (n : Number). ok (not (equals_int (pos 1) v))

-- `led` of a plug
unfoldable pub led : SmartDevice → Result Bool
unfolding sys_info
led = guarded "led" (λ s. do info ← sys_info s; led_off ← index "led_off" info; is_led_on led_off)

-- `state_information` of a plug: the values of "LED state" and "On since"
unfoldable pub plug_state_information : (Float → ℤ) → ℤ → SmartDevice → Result (Bool × Option ℤ)
unfolding led on_since plug_is_on
plug_state_information rounded now =
    guarded "state_information"
      (λ s. do lit ← led s; started ← on_since plug_is_on rounded now s; ok (lit, started))
