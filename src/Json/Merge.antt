-- ===== src/Json/Merge.antt =====
-- `merge` of smartdevice.py, and its copy in modules/module.py.
use python_kasa.Prelude.{◌≡◌, refl, String, none, or_default, arith}
use python_kasa.Exec.{Result, ok, err, attribute_error, type_error, ◌>>=◌, >>=-eq-ok}
use python_kasa.Json.{Value, obj, Fields, end, field, lookup, put}
use python_kasa.Json.Laws.{lookup-put}

-- d[k] = v on whatever `d` is
abbrev set_item : String → Value → Value → Result Value
set_item k v (obj d) = ok (obj (put k v d))
set_item k v _ = err type_error

-- d.get(k, {})
abbrev get_or_empty : String → Value → Result Value
get_or_empty k (obj d) = ok (or_default (lookup k d) (obj end))
get_or_empty k _ = err attribute_error

-- The loop over the entries of `u`; `d` need not be a dict where a key of both holds something else.
unfoldable pub merge : Value → Fields → Result Value
merge d end = ok d
merge d (field k (obj fs) u) = do
  old ← get_or_empty k d
  inner ← merge old fs
  new ← set_item k inner d
  merge new u
merge d (field k v u) = do new ← set_item k v d; merge new u

-- Merging into a dict gives a dict, in which every key that the second dict lacks keeps its value.
pub merge-untouched :
    (u d : Fields) (k : String) {v : Value}
    → merge (obj d) u ≡ ok v
    → lookup k u ≡ none
    → (d' : Fields) × (v ≡ obj d') × (lookup k d' ≡ lookup k d)
unfolding merge lookup
merge-untouched end d k h absent = (d, ground arith, refl)
merge-untouched (field i (obj fs) u) d k h absent =
    let (inner, _, rest) = >>=-eq-ok (merge (or_default (lookup i d) (obj end)) fs) _ h in
    let (d', shape, same) = merge-untouched u (put i inner d) k rest (ground arith) in
    (d', shape, ground (arith, same, lookup-put i k inner d))
merge-untouched (field i v u) d k h absent =
    let (d', shape, same) = merge-untouched u (put i v d) k h (ground arith) in
    (d', shape, ground (arith, same, lookup-put i k v d))
