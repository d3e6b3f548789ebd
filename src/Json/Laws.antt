-- ===== src/Json/Laws.antt =====
-- Dicts: what a write and a deletion do to each key, and that they keep the keys distinct.
use python_kasa.Prelude.{◌≡◌, refl, ◌=s=◌, String, none, some, if◌then◌else◌, arith, eq_iff}
use python_kasa.Json.{Value, Fields, end, field, lookup, put, remove, IsDict}

pub lookup-put :
    (k j : String) (v : Value) (d : Fields)
    → lookup j (put k v d) ≡ (if k =s= j then some v else lookup j d)
unfolding lookup put
lookup-put k j v end = refl
lookup-put k j v (field i w d) =
    ground (arith, eq_iff k j, eq_iff i k, eq_iff i j, lookup-put k j v d)

pub lookup-put_self : (k : String) (v : Value) (d : Fields) → lookup k (put k v d) ≡ some v
lookup-put_self k v d = ground (arith, lookup-put k k v d, eq_iff k k)

pub lookup-remove :
    (k j : String) (d : Fields)
    → IsDict d
    → lookup j (remove k d) ≡ (if k =s= j then none else lookup j d)
unfolding lookup remove
lookup-remove k j end h = ground arith
lookup-remove k j (field i w d) h =
    ground (arith, eq_iff k j, eq_iff i k, eq_iff i j, lookup-remove k j d h.1)

pub put-IsDict : (k : String) (v : Value) (d : Fields) → IsDict d → IsDict (put k v d)
unfolding lookup put
put-IsDict k v end h = (refl, tt)
put-IsDict k v (field i w d) h =
    ground (arith, eq_iff i k, eq_iff k i, lookup-put k i v d, put-IsDict k v d h.1)

pub remove-IsDict : (k : String) (d : Fields) → IsDict d → IsDict (remove k d)
unfolding lookup remove
remove-IsDict k end h = tt
remove-IsDict k (field i w d) h =
    ground (arith, eq_iff i k, eq_iff k i, lookup-remove k i d h.1, remove-IsDict k d h.1)

pub ruleset dict_laws = (lookup-put, lookup-put_self)
