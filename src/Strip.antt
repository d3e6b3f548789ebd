-- ===== src/Strip.antt =====
-- Power strips (kasa/smartstrip.py): the strip with its sockets, their construction and updates. The
-- sockets share the connection of the strip. An id of a socket is a text.
pub mod Sums
pub mod Sockets
pub mod Outlets
pub mod Readings
pub mod Times
pub mod Laws
mod Tests
use python_kasa.Prelude.{
  ℕ, Bool, true, false, not, List, [], ◌∷◌, ◌++◌, Option, none, some, String, if◌then◌else◌,
}
use python_kasa.Exec.{Result, NoneType, ok, err, type_error}
use python_kasa.Exec.State.{Exec, pure, lift, gets, modify, ◌>>=◌, ◌>>◌}
use python_kasa.Json.{Value, null, str, arr, obj, Items, nil, cons, Fields, end, index}
use python_kasa.Device
use python_kasa.Device.{Module, SmartDevice, Protocol, has_emeter, set_sys_info, requires_update}
use python_kasa.Device.Properties.{sys_info}
use python_kasa.Device.Updates.{update, modular_update}

-- `SmartStripPlug`, less its parent
pub record Socket : Type 0 where
  pub child_id : String
  pub device : SmartDevice

pub record Strip : Type 0 where
  pub device : SmartDevice
  pub children : List Socket

abbrev pub id_text : Value → Result String
id_text (str s) = ok s
id_text v = err type_error

-- What is gone through in a loop over the children of the sysinfo.
abbrev pub items : Value → Result Items
items (arr xs) = ok xs
items (obj end) = ok nil
items v = err type_error

module _ (protocol : Protocol) where
  open protocol use {World}

  abbrev pub State : Type 0
  State = Strip × World

  abbrev pub on_parent : {A : Type 0} → Exec (SmartDevice × World) A → Exec State A
  on_parent m (s, w) = let r = m (s.device, w) in (r.0, (record s { device = r.1.0 }, r.1.1))

  -- The modules "time" and "emeter" of the socket with an id, and their queries now.

  abbrev pub when : Bool → Exec State NoneType → Exec State NoneType
  when true m = m
  when false m = pure tt

abbrev pub is_empty : List Socket → Bool
is_empty [] = true
is_empty (c ∷ cs) = false

abbrev pub append : Socket → Strip → Strip
append c s = record s { children = s.children ++ (c ∷ []) }

module _ (modules_of : String → Module × Module) where
  abbrev blank_socket : String → Value → SmartDevice
  blank_socket child_id last_update = record {
    last_update = last_update;
    sys_info = null;
    discovery_info = null;
    features = none;
    modules = ("time", (modules_of child_id).0) ∷ [];
    emeter = (modules_of child_id).1;
  }

  -- SmartStripPlug(self.host, parent=self, child_id=…)
  unfoldable pub new_socket : String → SmartDevice → Result Socket
  unfolding set_sys_info sys_info
  new_socket child_id parent = elim (sys_info parent) [
    | err e ↦ err e
    | ok info ↦
        let r = set_sys_info info (blank_socket child_id parent.last_update) in
        elim r.0 [ err e ↦ err e | ok _ ↦ ok (record { child_id = child_id; device = r.1 }) ]
  ]

module _ (protocol : Protocol) (max_response_size : ℕ) where
  open protocol use {World}

  -- `for plug in self.children: await plug.update()`
  unfoldable pub update_sockets : List Socket → World → Result NoneType × (List Socket × World)
  update_sockets [] w = (ok tt, ([], w))
  update_sockets (c ∷ cs) w =
      let r = modular_update protocol max_response_size end (c.device, w) in
      let updated = record c { device = r.1.0 } in
      elim r.0 [
        | err e ↦ (err e, (updated ∷ cs, r.1.1))
        | ok _ ↦ let rest = update_sockets cs r.1.1 in (rest.0, (updated ∷ rest.1.0, rest.1.1))
      ]

  unfoldable pub update_children : Exec (State protocol) NoneType
  unfolding update_sockets
  update_children (s, w) =
      let r = update_sockets s.children w in (r.0, (record s { children = r.1.0 }, r.1.1))

  module _ (modules_of : String → Module × Module) where
    -- The sockets that were built before one that fails stay.
    unfoldable pub add_children : Items → Exec (State protocol) NoneType
    unfolding new_socket
    add_children nil = pure tt
    add_children (cons child rest) = do
      id ← lift (index "id" child)
      child_id ← lift (id_text id)
      socket ← (λ (s, w). (new_socket modules_of child_id s.device, (s, w)))
      modify (λ (s, w). (append socket s, w))
      add_children rest

    unfoldable pub initialize_children : Exec (State protocol) NoneType
    unfolding add_children
    initialize_children = do
      info ← (λ (s, w). (sys_info s.device, (s, w)))
      children ← lift (index "children" info)
      found ← lift (items children)
      add_children found

    -- `update` of the strip
    unfoldable pub update_strip : Bool → Exec (State protocol) NoneType
    unfolding initialize_children update_children update
    update_strip with_children = do
      on_parent protocol (update protocol max_response_size)
      first ← gets (λ (s, w). is_empty s.children)
      when protocol first initialize_children
      metered ← (λ (s, w). (if with_children then has_emeter s.device else ok false, (s, w)))
      when protocol metered update_children
