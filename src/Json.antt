-- ===== src/Json.antt =====
-- The values that json.loads returns, and Python's operations on them.
pub mod Merge
pub mod Laws
mod Tests
use text.Mathlib.Text.{find?}
use python_kasa.Prelude.{
  ◌≡◌, Bool, true, false, not, ◌||◌, ◌=s=◌, String, Option, none, some, ◌==◌, if◌then◌else◌,
  is_some,
}
use python_kasa.Prelude.Int.{ℤ, pos, negsuc, eq_ℤ}
use python_kasa.Numbers.{Float}
use python_kasa.Exec.{Result, ok, err, type_error, key_error}

mutual
  pub data Value : Type 0 where
    null : Value
    flag : Bool → Value
    num : ℤ → Value
    real : Float → Value
    str : String → Value
    obj : Fields → Value
    arr : Items → Value

  pub data Items : Type 0 where
    nil : Items
    cons : Value → Items → Items

  -- A dict, in the order of insertion.
  pub data Fields : Type 0 where
    end : Fields
    field : String → Value → Fields → Fields

-- d.get(k)
unfoldable pub lookup : String → Fields → Option Value
lookup k end = none
lookup k (field j v d) = if j =s= k then some v else lookup k d

-- k in d
abbrev pub has : String → Fields → Bool
has k d = is_some (lookup k d)

-- d[k] = v
unfoldable pub put : String → Value → Fields → Fields
put k v end = field k v end
put k v (field j w d) = if j =s= k then field j v d else field j w (put k v d)

-- del d[k]
unfoldable pub remove : String → Fields → Fields
remove k end = end
remove k (field j w d) = if j =s= k then d else field j w (remove k d)

-- A dict as its keys are distinct: no later entry repeats one.
abbrev pub IsDict : Fields → Type 0
IsDict end = Unit
IsDict (field k v d) = (lookup k d ≡ none) × IsDict d

-- x == 0, and `False == 0` holds too
abbrev pub is_zero : Value → Bool
is_zero (num n) = eq_ℤ n (pos 0)
is_zero (real x) = eq_ℤ x.mantissa (pos 0)
is_zero (flag b) = not b
is_zero _ = false

-- bool(x)
abbrev pub truthy : Value → Bool
truthy null = false
truthy (flag b) = b
truthy (num n) = not (eq_ℤ n (pos 0))
truthy (real x) = not (eq_ℤ x.mantissa (pos 0))
truthy (str s) = not (s =s= "")
truthy (arr nil) = false
truthy (arr (cons x xs)) = true
truthy (obj end) = false
truthy (obj (field k v d)) = true

abbrev is_text : String → Value → Bool
is_text k (str s) = s =s= k
is_text k _ = false

has_item : String → Items → Bool
has_item k nil = false
has_item k (cons x xs) = is_text k x || has_item k xs

-- k in x, for a text k
unfoldable pub contains : String → Value → Result Bool
unfolding has_item lookup
contains k (obj d) = ok (has k d)
contains k (arr xs) = ok (has_item k xs)
contains k (str s) = ok (is_some (find? s k))
contains k _ = err type_error

or_key_error : Option Value → Result Value
or_key_error none = err key_error
or_key_error (some v) = ok v

-- x[k], for a text k
unfoldable pub index : String → Value → Result Value
unfolding or_key_error lookup
index k (obj d) = or_key_error (lookup k d)
index k _ = err type_error
