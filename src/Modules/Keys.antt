-- ===== src/Modules/Keys.antt =====
-- Python's dicts that are built from values of a response, as keys of statistics are: equality and
-- hashing of keys, and the order of insertion.
use python_kasa.Prelude.{
  ◌≡◌, refl, Bool, true, false, ◌&&◌, List, [], ◌∷◌, Option, none, some, String, ◌=s=◌,
  if◌then◌else◌, arith, eq_iff, ==_iff, ◌↔◌, ◌==◌,
}
use python_kasa.Prelude.Int.{ℤ, pos, negsuc}
use python_kasa.Exec.{Result, ok, err, type_error}
use python_kasa.Numbers.{Float, float, truncate}
use python_kasa.Json.{Value, null, flag, num, real, str, arr, obj}

-- What equality of values sees: 1, 1.0 and True are one key.
pub data Key : Type 0 where
  nothing : Key
  text : String → Key
  whole : ℤ → Key
  fraction : Float → Key

-- hash(x), which a list and a dict refuse
abbrev pub hash_key : Value → Result Key
hash_key null = ok nothing
hash_key (flag true) = ok (whole (pos 1))
hash_key (flag false) = ok (whole (pos 0))
hash_key (num n) = ok (whole n)
hash_key (real x) = elim x.exponent [
  | pos k ↦ ok (whole (truncate (float x)))
  | negsuc k ↦ ok (fraction x)
]
hash_key (str s) = ok (text s)
hash_key (arr xs) = err type_error
hash_key (obj d) = err type_error

abbrev pub same_int : ℤ → ℤ → Bool
same_int (pos m) (pos n) = m == n
same_int (negsuc m) (negsuc n) = m == n
same_int m n = false

abbrev pub same_key : Key → Key → Bool
same_key nothing nothing = true
same_key (text s) (text t) = s =s= t
same_key (whole m) (whole n) = same_int m n
same_key (fraction x) (fraction y) =
    same_int x.mantissa y.mantissa && same_int x.exponent y.exponent
same_key _ _ = false

-- x == n, for an integer n
abbrev pub equals_int : ℤ → Value → Bool
equals_int n x = elim (hash_key x) [ ok k ↦ same_key k (whole n) | err e ↦ false ]

same_int_iff : (m n : ℤ) → (same_int m n ≡ true) ↔ (m ≡ n)
same_int_iff (pos m) (pos n) = ground (arith, ==_iff m n)
same_int_iff (negsuc m) (negsuc n) = ground (arith, ==_iff m n)
same_int_iff (pos m) (negsuc n) = ground arith
same_int_iff (negsuc m) (pos n) = ground arith

pub same_key_iff : (j k : Key) → (same_key j k ≡ true) ↔ (j ≡ k)
same_key_iff nothing nothing = ground arith
same_key_iff nothing (text t) = ground arith
same_key_iff nothing (whole n) = ground arith
same_key_iff nothing (fraction y) = ground arith
same_key_iff (text s) nothing = ground arith
same_key_iff (text s) (text t) = ground (arith, eq_iff s t)
same_key_iff (text s) (whole n) = ground arith
same_key_iff (text s) (fraction y) = ground arith
same_key_iff (whole m) nothing = ground arith
same_key_iff (whole m) (text t) = ground arith
same_key_iff (whole m) (whole n) = ground (arith, same_int_iff m n)
same_key_iff (whole m) (fraction y) = ground arith
same_key_iff (fraction x) nothing = ground arith
same_key_iff (fraction x) (text t) = ground arith
same_key_iff (fraction x) (whole n) = ground arith
same_key_iff (fraction x) (fraction y) =
    ground (arith, same_int_iff x.mantissa y.mantissa, same_int_iff x.exponent y.exponent)

module _ {V : Type 0} where
  -- d.get(k)
  unfoldable pub lookup : Key → List (Key × V) → Option V
  lookup k [] = none
  lookup k ((j, v) ∷ d) = if same_key j k then some v else lookup k d

  -- d[k] = v
  unfoldable pub put : Key → V → List (Key × V) → List (Key × V)
  put k v [] = (k, v) ∷ []
  put k v ((j, w) ∷ d) = if same_key j k then (j, v) ∷ d else (j, w) ∷ put k v d

  -- What is read after a write.
  pub lookup-put :
      (k i : Key) (v : V) (d : List (Key × V))
      → lookup i (put k v d) ≡ (if same_key k i then some v else lookup i d)
  unfolding lookup put
  lookup-put k i v [] = refl
  lookup-put k i v ((j, w) ∷ d) =
      ground (arith, same_key_iff j k, same_key_iff j i, same_key_iff k i, lookup-put k i v d)
