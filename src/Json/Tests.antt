-- ===== src/Json/Tests.antt =====
-- Two queries for one target, merged.
use python_kasa.Prelude.{◌≡◌, refl, none}
use python_kasa.Exec.{ok}
use python_kasa.Json.{null, obj, Fields, end, field, lookup, put}
use python_kasa.Json.Merge.{merge}

abbrev first : Fields
first = field "time" (obj (field "get_time" null end)) (field "system" null end)

abbrev second : Fields
second = field "time" (obj (field "get_timezone" null end)) end

abbrev both : Fields
both =
    field "time" (obj (field "get_time" null (field "get_timezone" null end)))
      (field "system" null end)

merged_lem : merge (obj first) second ≡ ok (obj both)
unfolding merge lookup put
merged_lem = refl

absent_lem : lookup "system" second ≡ none
unfolding lookup
absent_lem = refl
