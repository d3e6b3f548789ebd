-- ===== src/Modules.antt =====
-- What the functional modules (kasa/modules/) share: `Module` (kasa/modules/module.py) over whatever
-- device they belong to. A device, a socket of a strip and a Tapo device implement the interface.
pub mod Keys
pub mod Time
pub mod Usage
pub mod Emeter
pub mod Rules
pub mod Sensors
pub mod Calls
pub mod Laws
mod Tests
use python_kasa.Prelude.{Bool, true, false, not, String, if◌then◌else◌}
use python_kasa.Exec.{Result, NoneType, ok, err, smart_device, raise_if, ◌>>=◌, ◌>>◌}
use python_kasa.Exec.State.{Exec}
use python_kasa.Json.{Value, null, obj, Fields, index, contains}
use python_kasa.Json.Merge.{merge}

-- What a module uses of its device.
pub record Host : Type 1 where
  pub State : Type 0
  pub last_update : State → Value
  -- `_create_request`, without children's ids
  pub create_request : String → String → Value → State → Fields
  -- `_query_helper`, without children's ids
  pub query_helper : String → String → Value → Exec State Value

-- `data` of the module with the target `name`
unfoldable pub module_data : String → Value → Result Value
module_data name last_update = do
  known ← contains name last_update
  raise_if (not known) smart_device
  index name last_update

-- self.data[key]
unfoldable pub data_at : String → String → Value → Result Value
unfolding module_data
data_at name key last_update = do all ← module_data name last_update; index key all

module _ (host : Host) where
  open host use {State}

  -- `call`
  unfoldable pub call : String → String → Value → Exec State Value
  call name method params = host.query_helper name method params

  -- `query_for_command`
  unfoldable pub query_for_command : String → String → Value → State → Fields
  query_for_command name query params s = host.create_request name query params s

  -- `merge(req, self.query_for_command(query, params))`
  unfoldable pub add_query : String → String → Value → State → Value → Result Value
  unfolding query_for_command merge
  add_query name query params s req = merge req (query_for_command name query params s)
