-- ===== src/Factory/Names.antt =====
-- `needle in text.lower()` for a needle of small ASCII letters other than i and k: the one letters
-- outside ASCII that lower to ASCII letters lower to these.
use Prim.Native.Char.{code}
use Prim.Native.String.{[] as empty, ◌∷◌ as ◌:+◌}
use python_kasa.Prelude.{
  ℕ, ◌+◌, Bool, true, false, ◌&&◌, ◌||◌, List, [], ◌∷◌, String, ◌==◌, leb, if◌then◌else◌,
}

abbrev lower : ℕ → ℕ
lower n = if leb 65 n && leb n 90 then n + 32 else n

abbrev codes : String → List ℕ
codes empty = []
codes (c :+ s) = code c ∷ codes s

abbrev lower_codes : String → List ℕ
lower_codes empty = []
lower_codes (c :+ s) = lower (code c) ∷ lower_codes s

abbrev is_prefix : List ℕ → List ℕ → Bool
is_prefix [] ys = true
is_prefix (x ∷ xs) [] = false
is_prefix (x ∷ xs) (y ∷ ys) = x == y && is_prefix xs ys

abbrev is_infix : List ℕ → List ℕ → Bool
is_infix xs [] = is_prefix xs []
is_infix xs (y ∷ ys) = is_prefix xs (y ∷ ys) || is_infix xs ys

unfoldable pub lower_has : String → String → Bool
lower_has needle text = is_infix (codes needle) (lower_codes text)
