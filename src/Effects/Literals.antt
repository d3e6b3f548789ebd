-- ===== src/Effects/Literals.antt =====
-- Dicts and lists of numbers, as Python's literals write them.
use python_kasa.Prelude.{ℕ, List, [], ◌∷◌, String}
use python_kasa.Prelude.Int.{pos}
use python_kasa.Json.{Value, num, arr, Items, nil, cons, Fields, end, field}

abbrev pub int : ℕ → Value
int n = num (pos n)

abbrev int_items : List ℕ → Items
int_items [] = nil
int_items (n ∷ ns) = cons (int n) (int_items ns)

abbrev pub ints : List ℕ → Value
ints ns = arr (int_items ns)

abbrev row_items : List (List ℕ) → Items
row_items [] = nil
row_items (r ∷ rs) = cons (ints r) (row_items rs)

abbrev pub rows : List (List ℕ) → Value
rows rs = arr (row_items rs)

-- A literal dict whose keys are distinct.
abbrev pub dict : List (String × Value) → Fields
dict [] = end
dict ((k, v) ∷ kvs) = field k v (dict kvs)
