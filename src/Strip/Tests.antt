-- ===== src/Strip/Tests.antt =====
-- A strip with two sockets, behind a protocol that answers every request alike.
use mathlib.Core.List.{Memᴰ}
use python_kasa.Prelude.{ℕ, ◌+◌, ◌≡◌, refl, true, List, [], ◌∷◌, none, some, String, All, subst, ap}
use python_kasa.Prelude.Int.{ℤ, ◌≤ℤ◌, pos, ◌+ℤ◌, ◌-ℤ◌}
use python_kasa.Exec.{Result, NoneType, ok, err, type_error, zero_division}
use python_kasa.Exec.State.{◌>>=◌}
use python_kasa.Numbers.{Number, int, float, ◌*ℤ◌}
use python_kasa.Numbers.Toy.{toy_floats, whole_float}
use python_kasa.Json.{
  Value, null, num, str, arr, nil, cons, obj, Fields, end, field, lookup, put, contains, index,
}
use python_kasa.Device
use python_kasa.Device.{
  Module, SmartDevice, Protocol, requires_update, has_emeter, set_sys_info, add_module,
}
use python_kasa.Device.Requests.{create_request}
use python_kasa.Device.Batches.{request_list}
use python_kasa.Device.Properties.{sys_info}
use python_kasa.Device.Responses.{spread, spread_all, put_all, merge_responses}
use python_kasa.Device.Updates.{ask_all, modular_update, update, initial_update}
use python_kasa.Modules.Keys
use python_kasa.Modules.Keys.{Key, whole, text}
use python_kasa.Strip.{Socket, Strip, State, new_socket, add_children, update_strip}
use python_kasa.Strip.Laws.{Mirrors, IsListed, update_strip-IsListed}
use python_kasa.Strip.Times.{on_since-latest}
use python_kasa.Strip.Outlets
use python_kasa.Strip.Outlets.{any_on, times_on}
use python_kasa.Strip.Readings.{sum_present, average_voltage}
use python_kasa.Strip.Sockets.{find_child, get_child_info}
use python_kasa.Strip.Sums.{merge_sums, summed, values_at, all_entries, merge_sums-lookup}

abbrev plug : String → ℕ → ℕ → Value
plug id state on_time = obj (
    field "id" (str id) (field "state" (num (pos state)) (field "on_time" (num (pos on_time)) end)))

abbrev sysinfo : Fields
sysinfo = field "model" (str "HS300") (
    field "children" (arr (cons (plug "A" 1 20) (cons (plug "B" 0 5) (cons (plug "C" 1 40) nil))))
      end)

abbrev response : Fields
response = field "system" (obj (field "get_sysinfo" (obj sysinfo) end)) end

abbrev echo : Protocol
echo = record { World = ℕ; query = λ request w. (ok (obj response), w + 1) }

abbrev quiet : String → Module
quiet name = record { module_name = name; query = end; response_size = 256 }

abbrev modules_of : String → Module × Module
modules_of child_id = (quiet "time", quiet "emeter")

abbrev new_strip : Strip
new_strip = record {
  device = record {
    last_update = null;
    sys_info = null;
    discovery_info = null;
    features = none;
    modules = [];
    emeter = quiet "emeter";
  };
  children = [];
}

abbrev updated_device : SmartDevice
updated_device = record new_strip.device { last_update = obj response; sys_info = obj sysinfo }

abbrev socket : String → Socket
socket id = record {
  child_id = id;
  device = record updated_device { modules = ("time", quiet "time") ∷ [] };
}

abbrev updated : Strip
updated = record { device = updated_device; children = socket "A" ∷ socket "B" ∷ socket "C" ∷ [] }

updated_lem : update_strip echo 16384 modules_of true (new_strip, 0) ≡ (ok tt, (updated, 2))
unfolding update_strip add_children new_socket ◌>>=◌ Device.ask update modular_update initial_update
    requires_update has_emeter set_sys_info request_list ask_all merge_responses put_all spread
    spread_all contains index lookup put create_request
updated_lem = refl

update_strip-IsListed_example :
    Mirrors updated × All (IsListed updated_device) (socket "A" ∷ socket "B" ∷ socket "C" ∷ [])
update_strip-IsListed_example =
    subst
      (λ (o : Result NoneType × State echo).
        Mirrors o.1.0 × All (IsListed o.1.0.device) o.1.0.children)
      updated_lem
      (update_strip-IsListed echo 16384 modules_of true (new_strip, 0) refl
        (ap (λ (o : Result NoneType × State echo). o.0) updated_lem))

abbrev days : List (Key × Number)
days = (whole (pos 1), int (pos 3)) ∷ (whole (pos 2), int (pos 4)) ∷ []

abbrev more_days : List (Key × Number)
more_days = (whole (pos 2), int (pos 5)) ∷ []

merge_sums-lookup_example :
    some (float (whole_float (pos 9)))
    ≡ summed toy_floats none (values_at (whole (pos 2)) (all_entries (days ∷ more_days ∷ [])))
unfolding merge_sums Keys.lookup ◌+ℤ◌ Keys.put
merge_sums-lookup_example = merge_sums-lookup toy_floats (whole (pos 2)) (days ∷ more_days ∷ [])

-- A day without statistics of one socket cannot be added up.
no_sum_lem : sum_present toy_floats (int (pos 0)) (some (int (pos 2)) ∷ none ∷ []) ≡ err type_error
unfolding sum_present
no_sum_lem = refl

no_sockets_lem : average_voltage toy_floats 0 [] ≡ err zero_division
unfolding average_voltage
no_sockets_lem = refl

latest_lem : Outlets.on_since (λ x. pos 0) (pos 100) updated ≡ ok (some (pos 80000000))
unfolding Outlets.on_since requires_update any_on times_on sys_info get_child_info find_child index
    contains lookup ◌-ℤ◌ ◌*ℤ◌ ◌+ℤ◌
latest_lem = refl

on_since-latest_example :
    (t : ℤ) × (Outlets.on_since (λ x. pos 0) (pos 100) updated ≡ ok (some t))
    × Memᴰ t (pos 80000000 ∷ pos 60000000 ∷ [])
    × All (λ x. x ≤ℤ t) (pos 80000000 ∷ pos 60000000 ∷ [])
unfolding Outlets.is_on requires_update any_on times_on sys_info get_child_info find_child index
    contains lookup ◌-ℤ◌ ◌*ℤ◌ ◌+ℤ◌
on_since-latest_example = on_since-latest (λ x. pos 0) (pos 100) updated refl refl refl
