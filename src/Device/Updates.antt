-- ===== src/Device/Updates.antt =====
-- `update`, `_modular_update` and `update_from_discover_info` (kasa/smartdevice.py).
use python_kasa.Prelude.{
  ℕ, ◌≡◌, refl, Bool, true, false, List, [], ◌∷◌, none, String, if◌then◌else◌, arith, ◌∙◌,
}
use python_kasa.Exec.{Error, Result, NoneType, ok, err}
use python_kasa.Exec.State.{Exec, pure, lift, modify, Keeps, Keeps-bind, ◌>>=◌, ◌>>◌}
use python_kasa.Exec.Triple.{
  Triple, Triple-bind, Triple-modify, Triple-Keeps, Triple-any, Post-ok, Post-err,
}
use python_kasa.Json.{Value, null, obj, Fields, truthy}
use python_kasa.Device
use python_kasa.Device.{
  Module, SmartDevice, Protocol, State, on_device, view, is_none, add_module, has_emeter,
  set_sys_info,
}
use python_kasa.Device.Requests.{create_request}
use python_kasa.Device.Batches.{request_list}
use python_kasa.Device.Responses.{merge_responses, first_size, sysinfo_of}

-- The modules themselves, in the order of the dict.
abbrev pub values : List (String × Module) → List Module
values [] = []
values ((name, m) ∷ ms) = m ∷ values ms

abbrev pub nonempty : List Value → List Value
nonempty [] = []
nonempty (request ∷ requests) =
    if truthy request then request ∷ nonempty requests else nonempty requests

module _ (protocol : Protocol) (max_device_response_size : ℕ) where
  -- `[await self.protocol.query(request) for request in …]`
  unfoldable pub ask_all : List Value → Exec (State protocol) (List Value)
  ask_all [] = pure []
  ask_all (request ∷ requests) = do
    response ← Device.ask protocol request
    responses ← ask_all requests
    pure (response ∷ responses)

  abbrev pub with_emeter : Bool → SmartDevice → SmartDevice
  with_emeter true s = record s { modules = add_module "emeter" s.emeter s.modules }
  with_emeter false s = s

  -- `_modular_update`
  unfoldable pub modular_update : Fields → Exec (State protocol) NoneType
  unfolding ask_all
  modular_update req = do
    has ← view protocol has_emeter
    modify (λ (s, w). (with_emeter has s, w))
    requests ← view protocol (λ s.
        request_list max_device_response_size s.last_update (values s.modules) (obj req)
          (first_size req))
    responses ← ask_all (nonempty requests)
    merged ← view protocol (λ s. merge_responses s.last_update responses)
    modify (λ (s, w). (record s { last_update = merged }, w))

  -- The initial query for the sysinfo alone.
  unfoldable pub initial_update : Fields → Exec (State protocol) NoneType
  initial_update req = do
    response ← Device.ask protocol (obj req)
    modify (λ (s, w). (record s { last_update = response }, w))
    info ← lift (sysinfo_of response)
    on_device protocol (set_sys_info info)

  abbrev pub if_first : Bool → Exec (State protocol) NoneType → Exec (State protocol) NoneType
  if_first true m = m
  if_first false m = pure tt

  -- `update`
  unfoldable pub update : Exec (State protocol) NoneType
  unfolding modular_update initial_update
  update = do
    let req = create_request "system" "get_sysinfo" null none
    first ← view protocol (λ s. ok (is_none s.last_update))
    if_first first (initial_update req)
    modular_update req
    info ← view protocol (λ s. sysinfo_of s.last_update)
    on_device protocol (set_sys_info info)

  -- What an update leaves: the sysinfo is the one in the last response.
  abbrev pub IsUpdated : State protocol → Type 0
  IsUpdated t = sysinfo_of t.0.last_update ≡ ok t.0.sys_info

  abbrev Remembers : Value → State protocol → Type 0
  Remembers last (s, w) = s.last_update ≡ last

  view-Remembers :
      {A : Type 0} (last : Value) (f : SmartDevice → Result A)
      → Keeps (Remembers last) (view protocol f)
  view-Remembers last f = record { at = λ s h. h }

  ask-Remembers : (last request : Value) → Keeps (Remembers last) (Device.ask protocol request)
  ask-Remembers last request = record { at = λ s h. unfold Device.ask in h }

  pure-Remembers :
      {A : Type 0} (last : Value) (a : A) → Keeps {S = State protocol} (Remembers last) (pure a)
  pure-Remembers last a = record { at = λ s h. h }

  ask_all-Remembers :
      (last : Value) (requests : List Value) → Keeps (Remembers last) (ask_all requests)
  unfolding ask_all
  ask_all-Remembers last [] = pure-Remembers last []
  ask_all-Remembers last (request ∷ requests) =
      Keeps-bind _ _ (ask-Remembers last request) λ response.
        Keeps-bind _ _ (ask_all-Remembers last requests)
          λ responses. pure-Remembers last (response ∷ responses)

  pub with_emeter-last :
      (b : Bool) (s : SmartDevice) → (with_emeter b s).last_update ≡ s.last_update
  with_emeter-last true s = refl
  with_emeter-last false s = refl

  modular_update-Triple :
      (req : Fields) (last : Value)
      → Triple (Remembers last) (modular_update req) (λ s. Unit {0}) (Remembers last)
  modular_update-Triple req last =
      unfold modular_update in
      Triple-bind (Remembers last) _ _ (Triple-Keeps _ (view-Remembers last _) (λ s h. h)) λ has.
        Triple-bind (Remembers last) _ _ (Triple-modify _ (λ s h. with_emeter-last has s.0 ∙ h))
          λ _.
            Triple-bind (Remembers last) _ _ (Triple-Keeps _ (view-Remembers last _) (λ s h. h))
              λ requests.
                Triple-bind (Remembers last) _ _
                  (Triple-Keeps _ (ask_all-Remembers last (nonempty requests)) (λ s h. h))
                  λ responses.
                    Triple-bind (Remembers last) _ _
                      (Triple-Keeps _ (view-Remembers last _) (λ s h. h))
                      λ merged. Triple-modify _ (λ s h. tt)

  -- An update of the modules that raises keeps the responses of the update before it.
  pub modular_update-keeps :
      (req : Fields) (s : State protocol) (e : Error)
      → (modular_update req s).0 ≡ err e
      → (modular_update req s).1.0.last_update ≡ s.0.last_update
  modular_update-keeps req s e h =
      Post-err _ _ (modular_update req s) ((modular_update-Triple req s.0.last_update).at s refl) h

  read_sysinfo-IsUpdated :
      Triple
        (λ s. Unit {0})
        (view protocol (λ s. sysinfo_of s.last_update) >>= λ info.
          on_device protocol (set_sys_info info))
        IsUpdated
        (λ s. Unit {0})
  unfolding ◌>>=◌ set_sys_info
  read_sysinfo-IsUpdated = record { at = λ (s, w) h. ground arith }

  update-Triple : Triple (λ s. Unit {0}) update IsUpdated (λ s. Unit {0})
  update-Triple =
      unfold update in
      Triple-bind (λ s. Unit {0}) _ _ (Triple-any _ _)
        λ first.
          Triple-bind (λ s. Unit {0}) _ _ (Triple-any _ _)
            λ _. Triple-bind (λ s. Unit {0}) _ _ (Triple-any _ _) λ _. read_sysinfo-IsUpdated

  -- After an update that returns, the sysinfo is the one in the last response.
  pub update-IsUpdated :
      (s : State protocol) {r : NoneType} → (update s).0 ≡ ok r → IsUpdated (update s).1
  update-IsUpdated s h = Post-ok _ _ (update s) (update-Triple.at s tt) h
