-- ===== src/Lights.antt =====
-- Commands of bulbs, dimmers and plugs (kasa/smartbulb.py, kasa/smartdimmer.py, kasa/smartplug.py): the
-- checks of their arguments and the requests they send. Arguments declared as integers are integers.
pub mod Bulb
pub mod Dimmer
pub mod Reports
pub mod Calls
pub mod Echo
pub mod States
pub mod Laws
mod Tests
use python_kasa.Prelude.{
  ℕ, Bool, true, false, not, ◌&&◌, Option, none, some, String, ◌=s=◌, ◌||◌, if◌then◌else◌,
}
use python_kasa.Prelude.Int.{ℤ, pos, between_ℤ}
use python_kasa.Exec.{Error, Result, NoneType, ok, err, value_error, raise_if, ◌>>=◌}
use python_kasa.Json.{Value, num, obj, Fields, end, field, index, truthy}
use python_kasa.Device
use python_kasa.Device.{SmartDevice, Protocol, State, requires_update}
use python_kasa.Device.Answers.{query_helper}

-- The property `sys_info`, with its guard.
abbrev pub guarded_sys_info : SmartDevice → Result Value
guarded_sys_info s = requires_update "sys_info" s >>= λ (_ : NoneType). ok s.sys_info

-- `bool(self.sys_info[key])` as a property of the name `name`
unfoldable pub sys_info_flag : String → String → SmartDevice → Result Bool
sys_info_flag name key s = requires_update name s >>= λ (_ : NoneType).
    guarded_sys_info s >>= λ (info : Value). index key info >>= λ (v : Value). ok (truthy v)

-- `_raise_for_invalid_brightness`, and the dimmer's test of the same range
abbrev pub check_brightness : ℤ → Result NoneType
check_brightness value = raise_if (not (between_ℤ (pos 0) value (pos 100))) value_error

module _ (protocol : Protocol) where
  -- A method of a device that checks its arguments and then sends one command: the target, the
  -- command and its argument.
  unfoldable pub command :
      (SmartDevice → Result (String × String × Value))
      → State protocol
      → Result Value × State protocol
  command check (s, w) = elim (check s) [
    | err e ↦ (err e, (s, w))
    | ok (target, cmd, arg) ↦ query_helper protocol target cmd arg none (s, w)
  ]
