-- ===== src/Numbers.antt =====
-- Python's numbers as JSON and the energy readings use them: integers and floats. A float is exact
-- as a value, and what rounds is a parameter. Infinities and NaN do not come up in responses.
pub mod Toy
use Prim.Native.Nat.{◌*◌}
use python_kasa.Prelude.{
  ℕ, ◌+◌, ◌/◌, ◌^◌, ◌≡◌, refl, Bool, true, false, not, String, ◌=s=◌, ◌&&◌, if◌then◌else◌, ltb,
}
use python_kasa.Prelude.Int.{ℤ, pos, negsuc, pos_part, neg_part, sub_ℕ, eq_ℤ, ◌+ℤ◌}
use python_kasa.Exec.{Result, ok, err, zero_division}

-- mantissa * 2 ^ exponent, with an exponent of 0 or more or an odd mantissa
pub record Float : Type 0 where
  pub mantissa : ℤ
  pub exponent : ℤ

pub data Number : Type 0 where
  int : ℤ → Number
  float : Float → Number

-- The operations that round. An integer that no float can hold is left out.
pub record Floats : Type 0 where
  pub of_int : ℤ → Float
  pub ratio : ℤ → ℤ → Float
  pub plus : Float → Float → Float
  pub times : Float → Float → Float
  pub over : Float → Float → Float

infixl 70 ◌*ℤ◌
unfoldable pub ◌*ℤ◌ : ℤ → ℤ → ℤ
a *ℤ b =
    sub_ℕ (pos_part a * pos_part b + neg_part a * neg_part b)
      (pos_part a * neg_part b + neg_part a * pos_part b)

-- x == 0
abbrev pub is_zero_number : Number → Bool
is_zero_number (int n) = eq_ℤ n (pos 0)
is_zero_number (float x) = eq_ℤ x.mantissa (pos 0)

-- The integer part of m / 2 ^ k, towards 0.
abbrev halved : ℤ → ℕ → ℤ
halved m k = sub_ℕ (pos_part m / 2 ^ k) (neg_part m / 2 ^ k)

-- int(x)
abbrev pub truncate : Number → ℤ
truncate (int n) = n
truncate (float x) = elim x.exponent [
  | pos k ↦ sub_ℕ (pos_part x.mantissa * 2 ^ k) (neg_part x.mantissa * 2 ^ k)
  | negsuc k ↦ halved x.mantissa (k + 1)
]

module _ (floats : Floats) where
  abbrev pub to_float : Number → Float
  to_float (int n) = floats.of_int n
  to_float (float x) = x

  -- x + y
  unfoldable pub add : Number → Number → Number
  unfolding ◌+ℤ◌
  add (int m) (int n) = int (m +ℤ n)
  add (int m) (float y) = float (floats.plus (floats.of_int m) y)
  add (float x) n = float (floats.plus x (to_float n))

  -- x * y
  unfoldable pub mul : Number → Number → Number
  unfolding ◌*ℤ◌
  mul (int m) (int n) = int (m *ℤ n)
  mul (int m) (float y) = float (floats.times (floats.of_int m) y)
  mul (float x) n = float (floats.times x (to_float n))

  abbrev quotient : Number → Number → Float
  quotient (int m) (int n) = floats.ratio m n
  quotient (int m) (float y) = floats.over (floats.of_int m) y
  quotient (float x) n = floats.over x (to_float n)

  -- x / y
  unfoldable pub div : Number → Number → Result Number
  div x y = if is_zero_number y then err zero_division else ok (float (quotient x y))
