-- ===== src/Device/Responses.antt =====
-- What an update keeps of the responses (kasa/smartdevice.py).
use python_kasa.Prelude.{
  ℕ, ◌≡◌, refl, List, [], ◌∷◌, none, some, String, if◌then◌else◌, arith, eq_iff,
}
use python_kasa.Exec.{Result, ok, err, type_error, attribute_error, ◌>>=◌}
use python_kasa.Json.{Value, arr, obj, Fields, end, field, lookup, put, has, index, truthy, IsDict}
use python_kasa.Json.Laws.{lookup-put}

-- {**a, **b}
unfoldable pub put_all : Fields → Fields → Fields
put_all a end = a
put_all a (field k v b) = put_all (put k v a) b

unfoldable pub spread : Value → Value → Result Value
spread (obj a) (obj b) = ok (obj (put_all a b))
spread _ _ = err type_error

unfoldable pub spread_all : Value → List Value → Result Value
unfolding spread put_all
spread_all update [] = ok update
spread_all update (response ∷ responses) = do
  next ← spread update response
  spread_all next responses

-- `self._last_update.copy() if self._last_update else {}`
abbrev pub copy_or_empty : Value → Result Value
copy_or_empty (obj d) = ok (obj d)
copy_or_empty (arr xs) = if truthy (arr xs) then ok (arr xs) else ok (obj end)
copy_or_empty v = if truthy v then err attribute_error else ok (obj end)

-- The end of `_modular_update`: the last update with the responses on top.
unfoldable pub merge_responses : Value → List Value → Result Value
unfolding spread_all
merge_responses last_update responses = do
  update ← copy_or_empty last_update
  spread_all update responses

-- `1024 if "system" in req else 0`
abbrev pub first_size : Fields → ℕ
first_size req = if has "system" req then 1024 else 0

-- response["system"]["get_sysinfo"]
abbrev pub sysinfo_of : Value → Result Value
sysinfo_of response = index "system" response >>= index "get_sysinfo"

-- A key of the later dict has its value there, and any other key that of the earlier one.
pub lookup-put_all :
    (k : String) (a b : Fields)
    → IsDict b
    → lookup k (put_all a b) ≡ elim (lookup k b) [ none ↦ lookup k a | some v ↦ some v ]
unfolding put_all lookup
lookup-put_all k a end h = refl
lookup-put_all k a (field j v b) h =
    ground (arith, eq_iff j k, lookup-put j k v a, lookup-put_all k (put j v a) b h.1)
