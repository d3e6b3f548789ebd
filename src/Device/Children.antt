-- ===== src/Device/Children.antt =====
-- Children, WiFi and the device's own data from discovery (kasa/smartdevice.py).
use python_kasa.Prelude.{
  ℕ, zero, suc, ◌≤◌, ◌<◌, ◌≡◌, refl, Bool, true, ◌||◌, List, [], ◌∷◌, none, some, String, ◌=s=◌,
  get_elem?, length, if◌then◌else◌, arith, inl, inr, ◌⊎◌, or_default, Bool-cases, ltb, ltb→lt,
}
use python_kasa.Prelude.Int.{ℤ, pos, negsuc, ◌+ℤ◌, ltb_ℤ, +ℤ_parts}
use python_kasa.Exec.{
  Result, NoneType, ok, err, smart_device, index_error, attribute_error, is_smart_device_exception,
  or_raise, ◌>>=◌,
}
use python_kasa.Exec.State.{Exec}
use python_kasa.Json.{
  Value, null, flag, num, real, str, arr, obj, end, field, lookup, contains, index, truthy,
}
use python_kasa.Device.{SmartDevice, Protocol, State, set_sys_info}
use python_kasa.Device.Answers.{query_helper}
use python_kasa.Device.Responses.{sysinfo_of}

-- children[index]
abbrev item {ℓ} : {A : Type ℓ} → List A → ℤ → Result A
item children (pos i) = or_raise (get_elem? children i) index_error
item children (negsuc i) = err index_error

module _ {Child : Type 0} where
  unfoldable pub get_plug_by_index : List Child → ℤ → Result Child
  get_plug_by_index children index =
      if ltb_ℤ (pos (length children)) (index +ℤ pos 1) || ltb_ℤ index (pos 0)
      then err smart_device
      else item children index

  get_elem?-some :
      (children : List Child) (i : ℕ)
      → i < length children
      → (c : Child) × (get_elem? children i ≡ some c)
  get_elem?-some [] i h = absurd (omega arith)
  get_elem?-some (c ∷ cs) zero h = (c, refl)
  get_elem?-some (c ∷ cs) (suc i) h = get_elem?-some cs i (omega arith)

  get_elem?-none :
      (children : List Child) (i : ℕ) → length children ≤ i → get_elem? children i ≡ none
  get_elem?-none [] i h = refl
  get_elem?-none (c ∷ cs) zero h = absurd (omega arith)
  get_elem?-none (c ∷ cs) (suc i) h = get_elem?-none cs i (omega arith)

  -- The index of a child gives that child, and every other index, a negative one included, raises
  -- SmartDeviceException: Python's indices from the end and IndexError do not come up.
  pub get_plug_by_index_total :
      (children : List Child) (index : ℤ)
      → ((i : ℕ) × (c : Child) × (index ≡ pos i)
          × (get_elem? children i ≡ some c)
          × (get_plug_by_index children index ≡ ok c))
        ⊎ (((i : ℕ) → index ≡ pos i → get_elem? children i ≡ none)
            × (get_plug_by_index children index ≡ err smart_device))
  unfolding get_plug_by_index
  get_plug_by_index_total children (negsuc i) =
      inr (λ j e. cc, ground (arith, +ℤ_parts (negsuc i) (pos 1)))
  get_plug_by_index_total children (pos i) = elim (Bool-cases (ltb i (length children))) [
    | inl h ↦
        let (c, there) = get_elem?-some children i (ltb→lt i (length children) h) in
        inl (i, c, refl, there, ground (arith, +ℤ_parts (pos i) (pos 1)))
    | inr h ↦
        inr (
          λ j e. ground (arith, get_elem?-none children j),
          ground (arith, +ℤ_parts (pos i) (pos 1)),
        )
  ]

  -- The first child with the alias.
  pub get_plug_by_name : (Child → Result String) → String → List Child → Result Child
  get_plug_by_name alias name [] = err smart_device
  get_plug_by_name alias name (p ∷ ps) =
      let rest = get_plug_by_name alias name ps in
      alias p >>= λ (a : String). if a =s= name then ok p else rest

module _ (protocol : Protocol) where
  -- What follows the first of two attempts, made at two targets.
  abbrev attempt :
      {A : Type 0} → Exec (State protocol) A → Result A × State protocol → Result A × State protocol
  attempt second (ok a, s) = (ok a, s)
  attempt second (err e, s) = if is_smart_device_exception e then second s else (err e, s)

  abbrev scan : String → Exec (State protocol) Value
  scan target =
      query_helper protocol target "get_scaninfo" (obj (field "refresh" (num (pos 1)) end)) none

  abbrev ap_list : Value → Result Value
  ap_list info = contains "ap_list" info >>= λ (found : Bool).
      if found then index "ap_list" info else err smart_device

  -- `wifi_scan`, up to the construction of the networks from the list
  unfoldable pub wifi_scan : Exec (State protocol) Value
  wifi_scan s =
      let r = attempt (scan "smartlife.iot.common.softaponboarding") (scan "netif" s) in
      (r.0 >>= ap_list, r.1)

  unfoldable pub wifi_join : String → String → ℤ → Exec (State protocol) Value
  wifi_join ssid password keytype s =
      let payload = obj (
        field "ssid" (str ssid)
          (field "password" (str password) (field "key_type" (num keytype) end))) in
      let join : String → Exec (State protocol) Value =
        λ target. query_helper protocol target "set_stainfo" payload none in
      attempt (join "smartlife.iot.common.softaponboarding") (join "netif" s)

-- d.get("get_sysinfo")
abbrev get_sysinfo : Value → Result Value
get_sysinfo (obj d) = ok (or_default (lookup "get_sysinfo" d) null)
get_sysinfo v = err attribute_error

-- The sysinfo of a discovery response, and null if there is none.
unfoldable pub discovered_sysinfo : Value → Result Value
discovered_sysinfo info = contains "system" info >>= λ (found : Bool).
    if found then index "system" info >>= get_sysinfo else ok null

unfoldable pub update_from_discover_info : Value → SmartDevice → Result NoneType × SmartDevice
unfolding discovered_sysinfo
update_from_discover_info info s =
    let t = record s { discovery_info = info } in
    elim (discovered_sysinfo info) [
      | err e ↦ (err e, t)
      | ok found ↦
          if truthy found
          then set_sys_info found (record t { last_update = info })
          else set_sys_info info t
    ]

get_sysinfo-index :
    (v found : Value)
    → get_sysinfo v ≡ ok found
    → truthy found ≡ true
    → index "get_sysinfo" v ≡ ok found
unfolding index
get_sysinfo-index (obj d) found h full = ground arith
get_sysinfo-index null found h full = cc
get_sysinfo-index (flag b) found h full = cc
get_sysinfo-index (num n) found h full = cc
get_sysinfo-index (real x) found h full = cc
get_sysinfo-index (str s) found h full = cc
get_sysinfo-index (arr xs) found h full = cc

discovered_sysinfo-sysinfo_of :
    (info found : Value)
    → discovered_sysinfo info ≡ ok found
    → truthy found ≡ true
    → sysinfo_of info ≡ ok found
unfolding discovered_sysinfo
discovered_sysinfo-sysinfo_of info found h full = grind (arith, get_sysinfo-index)

set_sys_info-fields :
    (info : Value) (s : SmartDevice)
    → let t = (set_sys_info info s).1 in
      (t.sys_info ≡ info) × (t.last_update ≡ s.last_update) × (t.discovery_info ≡ s.discovery_info)
unfolding set_sys_info
set_sys_info-fields info s = ground arith

-- The response of a device that tells its sysinfo counts as an update; any other one does not,
-- and is itself what `requires_update` looks for names in.
pub update_from_discover_info-outcome :
    (info : Value) (s : SmartDevice) {r : NoneType}
    → (update_from_discover_info info s).0 ≡ ok r
    → let t = (update_from_discover_info info s).1 in
      (t.discovery_info ≡ info)
      × (((t.last_update ≡ info) × (sysinfo_of info ≡ ok t.sys_info))
          ⊎ ((t.last_update ≡ s.last_update) × (t.sys_info ≡ info)))
unfolding update_from_discover_info
update_from_discover_info-outcome info s h =
    grind (arith, discovered_sysinfo-sysinfo_of info, set_sys_info-fields)
