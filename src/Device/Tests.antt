-- ===== src/Device/Tests.antt =====
-- A device whose protocol answers every request alike, and one whose protocol fails.
use python_kasa.Prelude.{ℕ, ◌+◌, ◌≡◌, refl, ◌⊎◌, List, [], ◌∷◌, none, some, String}
use python_kasa.Prelude.Int.{pos}
use python_kasa.Exec.{ok, err, smart_device, type_error, timeout_error}
use python_kasa.Exec.State.{◌>>=◌}
use python_kasa.Json.{
  Value, null, num, str, obj, Fields, end, field, lookup, put, contains, index, remove,
}
use python_kasa.Json.Merge.{merge}
use python_kasa.Device
use python_kasa.Device.{
  Module, SmartDevice, Protocol, State, is_supported, requires_update, has_emeter, set_sys_info,
  add_module,
}
use python_kasa.Device.Requests.{create_request}
use python_kasa.Device.Answers.{
  query_helper, IsAccepted, IsAcceptedValue, cleaned, query_helper-eq-ok, query_helper-raises,
  unwrap, select, check_err_code, without_err_code,
}
use python_kasa.Device.Batches.{
  request_list, supported_modules, IsSplit, request_list-IsSplit, put_query,
}
use python_kasa.Device.Updates.{ask_all, modular_update, modular_update-keeps}
use python_kasa.Device.Mac.{format_mac, replace_dashes, from_hex, join_hex}
use python_kasa.Device.Children.{update_from_discover_info, discovered_sysinfo}

abbrev sysinfo : Fields
sysinfo = field "alias" (str "lamp") (field "err_code" (num (pos 0)) end)

abbrev response : Fields
response = field "system" (obj (field "get_sysinfo" (obj sysinfo) end)) end

abbrev echo : Protocol
echo = record { World = ℕ; query = λ request w. (ok (obj response), w + 1) }

abbrev silent : Protocol
silent = record { World = ℕ; query = λ request w. (err timeout_error, w + 1) }

abbrev time : Module
time = record {
  module_name = "time";
  query = field "time" (obj (field "get_time" null end)) end;
  response_size = 256;
}

abbrev usage : Module
usage = record {
  module_name = "schedule";
  query = field "schedule" (obj (field "get_realtime" null end)) end;
  response_size = 2048;
}

abbrev fresh : SmartDevice
fresh = record {
  last_update = null;
  sys_info = null;
  discovery_info = null;
  features = none;
  modules = ("time", time) ∷ ("usage", usage) ∷ [];
  emeter = usage;
}

abbrev updated : SmartDevice
updated = record fresh { last_update = obj response; sys_info = obj sysinfo }

answered_lem :
    (query_helper echo "system" "get_sysinfo" null none (updated, 0)).0
    ≡ ok (obj (field "alias" (str "lamp") end))
unfolding query_helper Device.ask unwrap select check_err_code without_err_code contains index
    lookup remove
answered_lem = refl

query_helper-eq-ok_example :
    (r : Fields) × (d : Fields) × (answer : Value) × ((Device.ask echo
        (obj (create_request "system" "get_sysinfo" null none))
        (updated, 0)).0
      ≡ ok (obj r))
    × (lookup "system" r ≡ some (obj d))
    × (lookup "get_sysinfo" d ≡ some answer)
    × IsAccepted d
    × IsAcceptedValue answer
    × (obj (field "alias" (str "lamp") end) ≡ cleaned answer)
query_helper-eq-ok_example =
    query_helper-eq-ok echo "system" "get_sysinfo" null none (updated, 0) answered_lem

refused_lem :
    (query_helper echo "emeter" "get_realtime" null none (updated, 0)).0 ≡ err smart_device
unfolding query_helper Device.ask unwrap select contains lookup
refused_lem = refl

query_helper-raises_example : (smart_device ≡ smart_device) ⊎ (smart_device ≡ type_error)
query_helper-raises_example =
    query_helper-raises echo "emeter" "get_realtime" null none (updated, 0) smart_device refused_lem

abbrev system_request : Value
system_request = obj (field "system" (obj (field "get_sysinfo" null end)) end)

split_lem :
    request_list 2500 (obj response) (time ∷ usage ∷ []) system_request 1024
    ≡ ok (
        obj (field "system" (obj (field "get_sysinfo" null end)) time.query) ∷ obj usage.query ∷ [])
unfolding request_list put_query is_supported contains index lookup merge put
split_lem = refl

request_list-IsSplit_example :
    (kept : List Module) × (supported_modules (obj response) (time ∷ usage ∷ []) ≡ ok kept)
    × IsSplit 2500 system_request 1024 kept (
        obj (field "system" (obj (field "get_sysinfo" null end)) time.query) ∷ obj usage.query ∷ [])
request_list-IsSplit_example =
    request_list-IsSplit 2500 (obj response) (time ∷ usage ∷ []) system_request 1024 split_lem

abbrev system_fields : Fields
system_fields = field "system" (obj (field "get_sysinfo" null end)) end

failed_lem : (modular_update silent 16384 system_fields (updated, 0)).0 ≡ err timeout_error
unfolding modular_update ask_all Device.ask has_emeter requires_update request_list put_query
    is_supported contains index lookup merge put ◌>>=◌
failed_lem = refl

modular_update-keeps_example :
    (modular_update silent 16384 system_fields (updated, 0)).1.0.last_update ≡ updated.last_update
modular_update-keeps_example =
    modular_update-keeps silent 16384 system_fields (updated, 0) timeout_error failed_lem

abbrev plugs : List String
plugs = "left" ∷ "right" ∷ []

discovered_lem : (update_from_discover_info (obj response) fresh).0 ≡ ok tt
unfolding update_from_discover_info discovered_sysinfo contains index lookup set_sys_info
discovered_lem = refl

abbrev discovered : SmartDevice
discovered = (update_from_discover_info (obj response) fresh).1

-- A Tapo address has dashes, and a legacy one neither dashes nor colons.
dashes_lem : format_mac "50-C7-BF-00-01-02" ≡ ok "50:C7:BF:00:01:02"
unfolding format_mac replace_dashes
dashes_lem = refl

plain_lem : format_mac "50C7bf000102" ≡ ok "50:c7:bf:00:01:02"
unfolding format_mac replace_dashes from_hex join_hex
plain_lem = refl
