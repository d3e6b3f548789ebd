-- ===== src/Device/Methods.antt =====
-- The commands of `SmartDevice` (kasa/smartdevice.py), its modules' calls, and the device as the host
-- of its modules.
use python_kasa.Prelude.{Bool, List, Option, none, String}
use python_kasa.Prelude.Int.{ℤ}
use python_kasa.Exec.{Result, NoneType}
use python_kasa.Exec.State.{Exec, pure, lift, ◌>>=◌, ◌>>◌}
use python_kasa.Numbers.{Number, Floats}
use python_kasa.Json.{Value, null, num, str, obj, Fields, end, field}
use python_kasa.Modules.{Host}
use python_kasa.Modules.Calls
use python_kasa.Modules.Keys.{Key}
use python_kasa.Modules.Time.{DateTime}
use python_kasa.Modules.Usage.{Date}
use python_kasa.Device
use python_kasa.Device.{Module, SmartDevice, Protocol, verify_emeter, requires_update}
use python_kasa.Device.Requests.{create_request}
use python_kasa.Device.Answers
use python_kasa.Device.Properties.{module_named}
use python_kasa.Device.Readings.{fields_of}

-- An object of `SmartDevice` or of a subclass that overrides how requests are made and sent.
pub record Owner : Type 1 where
  pub State : Type 0
  pub device : State → SmartDevice
  pub create_request : String → String → Value → State → Fields
  pub query_helper : String → String → Value → Exec State Value

abbrev pub smart_device_owner : Protocol → Owner
smart_device_owner protocol = record {
  State = Device.State protocol;
  device = λ s. s.0;
  create_request = λ target cmd arg s. create_request target cmd arg none;
  query_helper = λ target cmd arg. Answers.query_helper protocol target cmd arg none;
}

module _ (owner : Owner) where
  open owner use {State, query_helper}

  abbrev pub owner_host : Host
  owner_host = record {
    State = State;
    last_update = λ s. (owner.device s).last_update;
    create_request = owner.create_request;
    query_helper = query_helper;
  }

  abbrev read : {A : Type 0} → (SmartDevice → Result A) → Exec State A
  read f s = (f (owner.device s), s)

  unfoldable pub get_sys_info : Exec State Value
  get_sys_info = query_helper "system" "get_sysinfo" null

  unfoldable pub set_alias : String → Exec State Value
  set_alias alias = query_helper "system" "set_dev_alias" (obj (field "alias" (str alias) end))

  unfoldable pub set_mac : String → Exec State Value
  set_mac mac = query_helper "system" "set_mac_addr" (obj (field "mac" (str mac) end))

  unfoldable pub reboot : ℤ → Exec State NoneType
  reboot delay = do
    answer ← query_helper "system" "reboot" (obj (field "delay" (num delay) end))
    pure tt

  unfoldable pub get_time : Exec State (Option DateTime)
  unfolding module_named
  get_time = do m ← read (module_named "time"); Calls.get_time owner_host m.module_name

  unfoldable pub get_timezone : Exec State Value
  unfolding module_named
  get_timezone = do m ← read (module_named "time"); Calls.get_timezone owner_host m.module_name

  -- `self._verify_emeter()`, then the module that is asked
  unfoldable pub verified_emeter : Exec State Module
  unfolding verify_emeter module_named
  verified_emeter = do read verify_emeter; read (module_named "emeter")

  unfoldable pub get_emeter_realtime : Exec State Fields
  unfolding verified_emeter
  get_emeter_realtime = do
    m ← verified_emeter
    readings ← Calls.get_realtime owner_host m.module_name
    lift (fields_of readings)

  unfoldable pub erase_emeter_stats : Exec State Value
  unfolding verified_emeter requires_update
  erase_emeter_stats = do
    read (requires_update "erase_emeter_stats")
    m ← verified_emeter
    Calls.erase_energy owner_host m.module_name

  module _ (floats : Floats) (now : Date) where
    unfoldable pub get_emeter_daily : Option ℤ → Option ℤ → Bool → Exec State (List (Key × Number))
    unfolding verified_emeter
    get_emeter_daily year month kwh = do
      m ← verified_emeter
      Calls.emeter_daystat owner_host floats m.module_name now year month kwh

    unfoldable pub get_emeter_monthly : Option ℤ → Bool → Exec State (List (Key × Number))
    unfolding verified_emeter requires_update
    get_emeter_monthly year kwh = do
      read (requires_update "get_emeter_monthly")
      m ← verified_emeter
      Calls.emeter_monthstat owner_host floats m.module_name now year kwh
