-- ===== src/Device.antt =====
-- `SmartDevice` (kasa/smartdevice.py) and its modules' base class (kasa/modules/module.py): requests,
-- their answers, and the update of the cached state. The protocol is a parameter. None is null.
pub mod Requests
pub mod Answers
pub mod Batches
pub mod Responses
pub mod Updates
pub mod Fetched
pub mod Children
pub mod Mac
pub mod Properties
pub mod Readings
pub mod Switch
pub mod Methods
mod Tests
use text.Mathlib.Text.{find?}
use Prim.Native.String.{◌++◌ as text_append}
use python_kasa.Prelude.{
  ℕ, ◌+◌, Bool, true, false, not, List, [], ◌∷◌, ◌++◌, Option, none, some, String, ◌=s=◌, ltb,
  is_some, if◌then◌else◌,
}
use python_kasa.Prelude.Int.{ℤ, pos}
use python_kasa.Exec.{
  Error, Result, NoneType, ok, err, smart_device, type_error, attribute_error, raise_if, ◌>>=◌,
  ◌>>◌,
}
use python_kasa.Exec.State.{Exec, pure, lift, gets, modify, ◌>>=◌ as bind}
use python_kasa.Json.{
  Value, null, flag, num, str, arr, obj, Items, nil, cons, Fields, end, field, lookup, put,
  contains, index, truthy,
}
use python_kasa.Json.Merge.{merge}
use python_kasa.Device.Requests.{create_request}

-- `module_name` is the field `_module`, the target of its requests; `query` is what its method
-- `query` returns at the time of the update.
pub record Module : Type 0 where
  pub module_name : String
  pub query : Fields
  pub response_size : ℕ

pub record SmartDevice : Type 0 where
  pub last_update : Value
  pub sys_info : Value
  pub discovery_info : Value
  -- the text that was split at its colons into the set of features
  pub features : Option String
  -- by name, in the order of insertion
  pub modules : List (String × Module)
  pub emeter : Module

abbrev pub is_none : Value → Bool
is_none null = true
is_none _ = false

-- `key in features`, for a key without colons
abbrev pub has_feature : String → Option String → Bool
has_feature key none = false
has_feature key (some features) =
    is_some
      (find? (text_append ":" (text_append features ":")) (text_append ":" (text_append key ":")))

-- `if name not in modules: modules[name] = module`
unfoldable pub add_module : String → Module → List (String × Module) → List (String × Module)
add_module name module_ [] = (name, module_) ∷ []
add_module name module_ ((other, m) ∷ ms) =
    if other =s= name then (other, m) ∷ ms else (other, m) ∷ add_module name module_ ms

-- `Module.is_supported`, with the property `data` in its last line
unfoldable pub is_supported : Value → Module → Result Bool
is_supported last_update m = do
  known ← contains m.module_name last_update
  data_ ← (if known then index m.module_name last_update else ok (obj end))
  refused ← contains "err_code" data_
  ok (not refused)

-- What the decorator `requires_update` tests before the method `name`.
unfoldable pub requires_update : String → SmartDevice → Result NoneType
requires_update name s =
    if is_none s.last_update
    then (do found ← contains name s.sys_info; raise_if (not found) smart_device)
    else ok tt

unfoldable pub has_emeter : SmartDevice → Result Bool
unfolding requires_update
has_emeter s = do
  requires_update "has_emeter" s
  requires_update "features" s
  ok (has_feature "ENE" s.features)

-- `_verify_emeter`, with the target of the emeter module
unfoldable pub verify_emeter : SmartDevice → Result NoneType
unfolding has_emeter
verify_emeter s = do
  has ← has_emeter s
  raise_if (not has) smart_device
  found ← contains s.emeter.module_name s.last_update
  raise_if (not found) smart_device

-- What `sys_info.get("feature")` becomes: only a text can be split, and a list or a dict is no
-- key of the cache.
abbrev pub parse_features : Value → Result (Option String)
parse_features (str s) = ok (if s =s= "" then none else some s)
parse_features (arr (cons x xs)) = err type_error
parse_features (obj (field k v d)) = err type_error
parse_features v = if truthy v then err attribute_error else ok none

abbrev pub get_feature : Value → Result Value
get_feature (obj d) = ok (elim (lookup "feature" d) [ none ↦ null | some v ↦ v ])
get_feature v = err attribute_error

-- `_set_sys_info`
unfoldable pub set_sys_info : Value → SmartDevice → Result NoneType × SmartDevice
set_sys_info info s = elim (get_feature info >>= parse_features) [
  | ok features ↦ (ok tt, record s { sys_info = info; features = features })
  | err e ↦ (err e, record s { sys_info = info })
]

-- What the device asks over its protocol.
pub record Protocol : Type 1 where
  pub World : Type 0
  pub query : Value → World → Result Value × World

module _ (protocol : Protocol) where
  open protocol use {World}

  -- The device with the world.
  abbrev pub State : Type 0
  State = SmartDevice × World

  unfoldable pub ask : Value → Exec State Value
  ask request (s, w) = let r = protocol.query request w in (r.0, (s, r.1))

  abbrev pub on_device : {A : Type 0} → (SmartDevice → Result A × SmartDevice) → Exec State A
  on_device m (s, w) = let r = m s in (r.0, (r.1, w))

  abbrev pub view : {A : Type 0} → (SmartDevice → Result A) → Exec State A
  view f (s, w) = (f s, (s, w))

  -- `try: … except Exception as ex: raise SmartDeviceException(…) from ex`
  abbrev pub as_smart_device : {A : Type 0} → Result A × State → Result A × State
  as_smart_device (ok a, s) = (ok a, s)
  as_smart_device (err e, s) = (err smart_device, s)
