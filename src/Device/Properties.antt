-- ===== src/Device/Properties.antt =====
-- The read-only properties of `SmartDevice` (kasa/smartdevice.py). `repr` and `parse_int` stand for what
-- Python's str and int do with a value and with a text.
use python_kasa.Prelude.{
  Bool, true, false, not, List, [], ◌∷◌, Option, none, some, String, ◌=s=◌, or_default, ◌||◌, ◌≡◌,
  arith, Option-cases, eq_iff, inl, inr, if◌then◌else◌,
}
use python_kasa.Prelude.Int.{ℤ, pos}
use python_kasa.Exec.{
  Result, NoneType, ok, err, smart_device, type_error, attribute_error, key_error, raise_if, ◌>>=◌,
  ◌>>◌, >>=-eq-ok,
}
use python_kasa.Numbers.{int, float, Floats, div, truncate}
use python_kasa.Json.{
  Value, null, flag, num, real, str, obj, Fields, end, field, lookup, contains, index, truthy,
}
use python_kasa.EmeterStatus.{value_of}
use python_kasa.Modules.Emeter.{number_of}
use python_kasa.Device.{Module, SmartDevice, requires_update}
use python_kasa.Device.Mac.{format_mac}

-- A property with the decorator `requires_update`.
abbrev pub guarded : {A : Type 0} → String → (SmartDevice → Result A) → SmartDevice → Result A
guarded name read s = requires_update name s >>= λ (_ : NoneType). read s

-- d.get(key) of the sysinfo
abbrev pub get_field : String → Value → Result Value
get_field key (obj d) = ok (or_default (lookup key d) null)
get_field key v = err attribute_error

unfoldable pub features : SmartDevice → Result (Option String)
features = guarded "features" (λ s. ok s.features)

abbrev pub names : List (String × Module) → List String
names [] = []
names ((name, m) ∷ ms) = name ∷ names ms

unfoldable pub supported_modules : SmartDevice → Result (List String)
supported_modules = guarded "supported_modules" (λ s. ok (names s.modules))

unfoldable pub sys_info : SmartDevice → Result Value
sys_info = guarded "sys_info" (λ s. ok s.sys_info)

-- self.modules[name]
abbrev find_module : String → List (String × Module) → Result Module
find_module name [] = err key_error
find_module name ((other, m) ∷ ms) = if other =s= name then ok m else find_module name ms

unfoldable pub module_named : String → SmartDevice → Result Module
module_named name s = find_module name s.modules

abbrev pub hw_keys : List String
hw_keys =
    "sw_ver" ∷ "hw_ver" ∷ "mac" ∷ "mic_mac" ∷ "type" ∷ "mic_type" ∷ "hwId" ∷ "fwId" ∷ "oemId"
    ∷ "dev_name" ∷ []

abbrev put_if : String → Bool → Value → Fields → Result Fields
put_if key true info rest = index key info >>= λ (v : Value). ok (field key v rest)
put_if key false info rest = ok rest

-- {key: info[key] for key in keys if key in info}
unfoldable pub restrict : List String → Value → Result Fields
restrict [] info = ok end
restrict (key ∷ keys) info = do
  rest ← restrict keys info
  found ← contains key info
  put_if key found info rest

unfoldable pub hw_info : SmartDevice → Result Fields
unfolding restrict
hw_info = guarded "hw_info" (λ s. restrict hw_keys s.sys_info)

pub record Location : Type 0 where
  pub latitude : Value
  pub longitude : Value

-- `"latitude" in sys_info and "longitude" in sys_info`
abbrev has_both : String → String → Value → Result Bool
has_both k j info = do first ← contains k info; (if first then contains j info else ok false)

module _ (floats : Floats) where
  -- x / 10000
  abbrev scaled : Value → Result Value
  scaled v = do n ← number_of v; q ← div floats n (int (pos 10000)); ok (value_of q)

  abbrev exact_location : Value → Result Location
  exact_location info = do
    latitude ← index "latitude" info
    longitude ← index "longitude" info
    ok (record { latitude = latitude; longitude = longitude })

  abbrev scaled_location : Value → Result Location
  scaled_location info = do
    latitude_i ← index "latitude_i" info
    latitude ← scaled latitude_i
    longitude_i ← index "longitude_i" info
    longitude ← scaled longitude_i
    ok (record { latitude = latitude; longitude = longitude })

  unfoldable pub location_of : Value → Result Location
  location_of info = do
    exact ← has_both "latitude" "longitude" info
    whole ← (if exact then ok false else has_both "latitude_i" "longitude_i" info)
    (if exact
        then exact_location info
        else if whole
        then scaled_location info
        else ok (record { latitude = null; longitude = null }))

  unfoldable pub location : SmartDevice → Result Location
  unfolding location_of
  location = guarded "location" (λ s. location_of s.sys_info)

module _ (repr : Value → String) where
  -- str(x)
  abbrev pub text_of : Value → String
  text_of (str s) = s
  text_of v = repr v

  unfoldable pub model : SmartDevice → Result String
  model = guarded "model" (λ s. index "model" s.sys_info >>= λ (v : Value). ok (text_of v))

  unfoldable pub alias : SmartDevice → Result String
  alias = guarded "alias" (λ s. index "alias" s.sys_info >>= λ (v : Value). ok (text_of v))

module _ (parse_int : String → Result ℤ) where
  -- int(x)
  abbrev int_of : Value → Result ℤ
  int_of (str s) = parse_int s
  int_of (num n) = ok n
  int_of (real x) = ok (truncate (float x))
  int_of (flag true) = ok (pos 1)
  int_of (flag false) = ok (pos 0)
  int_of v = err type_error

  abbrev rssi_of : Value → Result (Option ℤ)
  rssi_of null = ok none
  rssi_of v = int_of v >>= λ (n : ℤ). ok (some n)

  unfoldable pub rssi : SmartDevice → Result (Option ℤ)
  rssi = guarded "rssi" (λ s. get_field "rssi" s.sys_info >>= rssi_of)

-- sys_info.get("mac", sys_info.get("mic_mac"))
abbrev mac_field : Value → Result Value
mac_field (obj d) = ok (or_default (lookup "mac" d) (or_default (lookup "mic_mac" d) null))
mac_field v = err attribute_error

abbrev mac_text : Value → Result String
mac_text (str s) = ok s
mac_text v = err attribute_error

unfoldable pub mac_of : Value → Result String
unfolding format_mac
mac_of info = do
  found ← mac_field info
  raise_if (not (truthy found)) smart_device
  text ← mac_text found
  format_mac text

unfoldable pub mac : SmartDevice → Result String
unfolding mac_of
mac = guarded "mac" (λ s. mac_of s.sys_info)

unfoldable pub device_id : SmartDevice → Result String
unfolding mac
device_id = guarded "device_id" mac

abbrev pub is_listed : String → List String → Bool
is_listed key [] = false
is_listed key (k ∷ ks) = k =s= key || is_listed key ks

restrict-lookup :
    (keys : List String) (d : Fields) (key : String) {r : Fields}
    → restrict keys (obj d) ≡ ok r
    → lookup key r ≡ (if is_listed key keys then lookup key d else none)
unfolding restrict contains index lookup
restrict-lookup [] d key h = ground arith
restrict-lookup (k ∷ ks) d key h =
    let (rest, e, h1) = >>=-eq-ok (restrict ks (obj d)) _ h in
    elim (Option-cases (lookup k d)) [
      | inl missing ↦ ground (arith, eq_iff k key, restrict-lookup ks d key e)
      | inr (v, there) ↦ ground (arith, eq_iff k key, restrict-lookup ks d key e)
    ]

-- The hardware information holds what the sysinfo has under the ten keys, and nothing else.
pub hw_info-lookup :
    (s : SmartDevice) (d : Fields) (key : String) {r : Fields}
    → s.sys_info ≡ obj d
    → hw_info s ≡ ok r
    → lookup key r ≡ (if is_listed key hw_keys then lookup key d else none)
unfolding hw_info
hw_info-lookup s d key shape h =
    let (_, _, h1) = >>=-eq-ok (requires_update "hw_info" s) _ h in
    restrict-lookup hw_keys d key (rw shape at h1)
