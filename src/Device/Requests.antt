-- ===== src/Device/Requests.antt =====
-- `_create_request` (kasa/smartdevice.py), and its copy for sockets (kasa/smartstrip.py).
use python_kasa.Prelude.{String, Option, none, some, List, [], ◌∷◌}
use python_kasa.Json.{Value, str, arr, obj, Items, nil, cons, Fields, end, field, put}

abbrev pub items_of : List String → Items
items_of [] = nil
items_of (x ∷ xs) = cons (str x) (items_of xs)

-- A target named "context" would take the place of the children's ids, as the keys of a literal
-- are put one after the other.
unfoldable pub create_request : String → String → Value → Option (List String) → Fields
create_request target cmd arg none = field target (obj (field cmd arg end)) end
create_request target cmd arg (some child_ids) =
    put target (obj (field cmd arg end))
      (field "context" (obj (field "child_ids" (arr (items_of child_ids)) end)) end)
