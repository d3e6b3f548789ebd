-- ===== src/EmeterStatus.antt =====
-- `EmeterStatus` (kasa/emeterstatus.py): readings under the key that is asked for, with or without a
-- unit, from a dict that may have the other one. A reading is a number, as in Modules/Emeter.
mod Tests
use text.Mathlib.Text.{starts_with, find?}
use Prim.Native.String.{slice}
use python_kasa.Prelude.{
  ℕ, ◌≡◌, refl, Bool, true, false, not, ◌||◌, List, [], ◌∷◌, Option, none, some, String, ◌=s=◌,
  is_some, if◌then◌else◌, arith, inl, inr, ◌⊎◌, Bool-cases, Option-cases,
}
use python_kasa.Prelude.Int.{ℤ, pos}
use python_kasa.Exec.{
  Error, Result, ok, err, key_error, value_error, type_error, is_ok, or_raise, ◌>>=◌, >>=-eq-err,
}
use python_kasa.Numbers.{Number, int, float, Floats, mul, div}
use python_kasa.Json.{Value, null, flag, num, real, str, arr, obj, Fields, end, field, lookup, has}
use python_kasa.Modules.Emeter.{number_of}

abbrev pub valid_keys : List String
valid_keys =
    "voltage_mv" ∷ "power_mw" ∷ "current_ma" ∷ "energy_wh" ∷ "total_wh" ∷ "voltage" ∷ "power"
    ∷ "current" ∷ "total" ∷ "energy" ∷ []

abbrev is_one_of : String → List String → Bool
is_one_of item [] = false
is_one_of item (key ∷ keys) = key =s= item || is_one_of item keys

abbrev pub is_valid_key : String → Bool
is_valid_key item = is_one_of item valid_keys

abbrev pub value_of : Number → Value
value_of (int n) = num n
value_of (float x) = real x

abbrev pub has_unit : String → Bool
has_unit item = is_some (find? item "_")

-- item[: item.find("_")]
abbrev pub base_key : String → String
base_key item = elim (find? item "_") [ none ↦ item | some i ↦ slice item 0 i ]

module _ (floats : Floats) where
  -- super().__getitem__(…) * 1000
  abbrev upscaled : String → Fields → Result Value
  upscaled base d = or_raise (lookup base d) key_error >>= λ (v : Value).
      number_of v >>= λ (n : Number). ok (value_of (mul floats n (int (pos 1000))))

  -- self.__getitem__(i) / 1000, for a key `i` that is there
  abbrev downscaled : Value → Result Value
  downscaled v = number_of v >>= λ (n : Number).
      div floats n (int (pos 1000)) >>= λ (q : Number). ok (value_of q)

  -- The loop over the keys; nothing is found at its end.
  abbrev pub scan : String → Fields → Result Value
  scan item end = ok null
  scan item (field i v d) =
      let rest = scan item d in if starts_with i item then downscaled v else rest

  -- `__getitem__` for a key that the dict lacks
  abbrev pub converted : String → Fields → Result Value
  converted item d =
      if not (is_valid_key item)
      then err key_error
      else if has_unit item
      then upscaled (base_key item) d
      else scan item d

  -- `__getitem__`
  unfoldable pub get_item : String → Fields → Result Value
  unfolding mul div
  get_item item d = elim (lookup item d) [ some v ↦ ok v | none ↦ converted item d ]

  -- `try: return self[…] except ValueError: return None`
  abbrev or_none : Result Value → Result Value
  or_none (err value_error) = ok null
  or_none r = r

  unfoldable pub voltage : Fields → Result Value
  unfolding get_item
  voltage d = or_none (get_item "voltage" d)

  unfoldable pub power : Fields → Result Value
  unfolding get_item
  power d = or_none (get_item "power" d)

  unfoldable pub current : Fields → Result Value
  unfolding get_item
  current d = or_none (get_item "current" d)

  unfoldable pub total : Fields → Result Value
  unfolding get_item
  total d = or_none (get_item "total" d)

number_of-eq-err : (v : Value) {e : Error} → number_of v ≡ err e → e ≡ type_error
number_of-eq-err null h = ground arith
number_of-eq-err (flag true) h = cc
number_of-eq-err (flag false) h = cc
number_of-eq-err (num n) h = cc
number_of-eq-err (real x) h = cc
number_of-eq-err (str s) h = ground arith
number_of-eq-err (arr xs) h = ground arith
number_of-eq-err (obj d) h = ground arith

module _ (floats : Floats) where
  downscaled-raises : (v : Value) {e : Error} → downscaled floats v ≡ err e → e ≡ type_error
  unfolding div
  downscaled-raises v h = ground (arith, number_of-eq-err v)

  scan-raises :
      (item : String) (d : Fields) {e : Error} → scan floats item d ≡ err e → e ≡ type_error
  scan-raises item end h = cc
  scan-raises item (field i v d) h = elim (Bool-cases (starts_with i item)) [
    | inl here ↦ downscaled-raises v (rw here at h)
    | inr other ↦ scan-raises item d (rw other at h)
  ]

  upscaled-raises :
      (base : String) (d : Fields) {e : Error}
      → upscaled floats base d ≡ err e
      → ((e ≡ key_error) × (lookup base d ≡ none)) ⊎ (e ≡ type_error)
  upscaled-raises base d h = elim (Option-cases (lookup base d)) [
    | inl missing ↦ inl (ground arith, missing)
    | inr (v, there) ↦ inr (number_of-eq-err v (ground arith))
  ]

  converted-raises :
      (valid united : Bool) (item base : String) (d : Fields) {e : Error}
      → (if not valid
          then err key_error
          else if united
          then upscaled floats base d
          else scan floats item d)
        ≡ err e
      → ((e ≡ key_error) × (valid ≡ false))
        ⊎ ((e ≡ key_error) × (united ≡ true) × (lookup base d ≡ none))
        ⊎ (e ≡ type_error)
  converted-raises false united item base d h = inl (ground arith, refl)
  converted-raises true false item base d h = inr (inr (scan-raises item d h))
  converted-raises true true item base d h = elim (upscaled-raises base d h) [
    | inl (same, missing) ↦ inr (inl (same, refl, missing))
    | inr other ↦ inr (inr other)
  ]

  -- Reading a key raises KeyError only if the key is missing and is no known one, or is one with a unit
  -- and the key without the unit is missing too, and otherwise at most TypeError for a reading that is
  -- no number; it never raises ValueError, the exception that the properties turn into None.
  pub get_item-raises :
      (item : String) (d : Fields) {e : Error}
      → get_item floats item d ≡ err e
      → (lookup item d ≡ none)
        × (((e ≡ key_error) × (is_valid_key item ≡ false))
            ⊎ ((e ≡ key_error) × (has_unit item ≡ true) × (lookup (base_key item) d ≡ none))
            ⊎ (e ≡ type_error))
  unfolding get_item
  get_item-raises item d h = elim (Option-cases (lookup item d)) [
    | inr (v, there) ↦ ground arith
    | inl missing ↦ (
      missing,
      converted-raises (is_valid_key item) (has_unit item) item (base_key item) d
          (rw (missing, get_item) at h),
    )
  ]
