-- ===== src/Numbers/Toy.antt =====
-- Floats for the tests: exact integers, and quotients in units of 1 / 1024.
use Prim.Native.Nat.{◌*◌}
use python_kasa.Prelude.{◌/◌}
use python_kasa.Prelude.Int.{ℤ, pos, negsuc, pos_part, neg_part, sub_ℕ, ◌+ℤ◌}
use python_kasa.Numbers.{Float, Floats, ◌*ℤ◌}

abbrev pub whole_float : ℤ → Float
whole_float n = record { mantissa = n; exponent = pos 0 }

-- 1024 * m / n for a positive n
abbrev pub toy_ratio : ℤ → ℤ → Float
toy_ratio m n = record {
  mantissa = sub_ℕ (1024 * pos_part m / pos_part n) (1024 * neg_part m / pos_part n);
  exponent = negsuc 9;
}

abbrev pub toy_floats : Floats
toy_floats = record {
  of_int = whole_float;
  ratio = toy_ratio;
  plus = λ x y. record { mantissa = x.mantissa +ℤ y.mantissa; exponent = x.exponent };
  times =
      λ x y. record { mantissa = x.mantissa *ℤ y.mantissa; exponent = x.exponent +ℤ y.exponent };
  over = λ x y. toy_ratio x.mantissa y.mantissa;
}
