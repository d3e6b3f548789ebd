-- ===== src/Device/Mac.antt =====
-- The formatting of a MAC address in `mac` (kasa/smartdevice.py), with Python's `bytes.fromhex`.
use Prim.Native.Char.{Char, code}
use Prim.Native.String.{[] as empty, ◌∷◌ as ◌:+◌}
use python_kasa.Prelude.{
  ℕ, ◌+◌, ◌-◌, ◌*◌, ◌/◌, ◌%◌, ◌≡◌, refl, Bool, true, false, ◌&&◌, ◌||◌, List, [], ◌∷◌, Option, none,
  some, String, ◌==◌, leb, if◌then◌else◌, get_elem?, arith, Bool-cases, inl, inr, or_default, All,
  zero, suc, subst,
}
use python_kasa.Exec.{Result, ok, err, value_error, or_raise, ◌>>=◌, >>=-eq-ok, ok-injective}

-- mac.replace("-", ":")
unfoldable pub replace_dashes : String → String
replace_dashes empty = empty
replace_dashes (c :+ s) =
    (elim (code c == 45) [ true ↦ (let colon : Char = ":" in colon) | false ↦ c ])
    :+ replace_dashes s

-- whether a text has the character of this code
abbrev pub has_code : ℕ → String → Bool
has_code n empty = false
has_code n (c :+ s) = (code c == n) || has_code n s

-- The whitespace of ASCII, which may stand between the bytes.
abbrev is_space : ℕ → Bool
is_space c = (c == 32) || (leb 9 c && leb c 13)

abbrev hex_value : ℕ → Option ℕ
hex_value c =
    if leb 48 c && leb c 57
    then some (c - 48)
    else if leb 97 c && leb c 102
    then some (c - 87)
    else if leb 65 c && leb c 70
    then some (c - 55)
    else none

-- bytes.fromhex
unfoldable pub from_hex : String → Result (List ℕ)
from_hex empty = ok []
from_hex (c :+ empty) = if is_space (code c) then ok [] else err value_error
from_hex (c :+ (d :+ s)) = elim (is_space (code c)) [
  | true ↦ from_hex (d :+ s)
  | false ↦ or_raise (hex_value (code c)) value_error >>= λ (high : ℕ).
      or_raise (hex_value (code d)) value_error >>= λ (low : ℕ).
      from_hex s >>= λ (rest : List ℕ). ok ((high * 16 + low) ∷ rest)
]

abbrev pub digits : List Char
digits =
    "0" ∷ "1" ∷ "2" ∷ "3" ∷ "4" ∷ "5" ∷ "6" ∷ "7" ∷ "8" ∷ "9" ∷ "a" ∷ "b" ∷ "c" ∷ "d" ∷ "e" ∷ "f"
    ∷ []

abbrev pub digit : ℕ → Char
digit n = or_default (get_elem? digits n) "0"

-- format(b, "02x")
abbrev hex_byte : ℕ → String → String
hex_byte b rest = digit (b / 16) :+ (digit (b % 16) :+ rest)

-- ":".join(…)
unfoldable pub join_hex : List ℕ → String
join_hex [] = ""
join_hex (b ∷ []) = hex_byte b ""
join_hex (b ∷ bs) = hex_byte b (let colon : Char = ":" in colon :+ join_hex bs)

-- What is returned for a text that is not empty.
unfoldable pub format_mac : String → Result String
unfolding replace_dashes from_hex join_hex
format_mac mac =
    let replaced = replace_dashes mac in
    if has_code 58 replaced
    then ok replaced
    else (from_hex replaced >>= λ (bytes : List ℕ). ok (join_hex bytes))

replace_dashes-no_dash : (s : String) → has_code 45 (replace_dashes s) ≡ false
unfolding replace_dashes
replace_dashes-no_dash empty = refl
replace_dashes-no_dash (c :+ s) = elim (Bool-cases (code c == 45)) [
  | inl dash ↦ rw dash (replace_dashes-no_dash s)
  | inr other ↦ ground (arith, replace_dashes-no_dash s)
]

replace_dashes-same : (s : String) → has_code 45 s ≡ false → replace_dashes s ≡ s
unfolding replace_dashes
replace_dashes-same empty h = refl
replace_dashes-same (c :+ s) h = ground (arith, replace_dashes-same s)

no_dash :
    (ds : List Char) (n : ℕ)
    → All (λ d. (code d == 45) ≡ false) ds
    → (code (or_default (get_elem? ds n) "0") == 45) ≡ false
no_dash [] n h = refl
no_dash (d ∷ ds) zero h = h.0
no_dash (d ∷ ds) (suc n) h = no_dash ds n h.1

digit-no_dash : (n : ℕ) → (code (digit n) == 45) ≡ false
digit-no_dash n = no_dash digits n (search)

join_hex-no_dash : (bs : List ℕ) → has_code 45 (join_hex bs) ≡ false
unfolding join_hex
join_hex-no_dash [] = refl
join_hex-no_dash (b ∷ []) = rw (digit-no_dash (b / 16), digit-no_dash (b % 16)) refl
join_hex-no_dash (b ∷ c ∷ bs) =
    ground (arith, digit-no_dash (b / 16), digit-no_dash (b % 16), join_hex-no_dash (c ∷ bs))

format_mac-no_dash :
    (mac : String) {formatted : String}
    → format_mac mac ≡ ok formatted
    → has_code 45 formatted ≡ false
unfolding format_mac
format_mac-no_dash mac {formatted} h = elim (Bool-cases (has_code 58 (replace_dashes mac))) [
  | inl colon ↦
      subst (λ (t : String). has_code 45 t ≡ false) (ok-injective (rw (colon, format_mac) at h))
        (replace_dashes-no_dash mac)
  | inr plain ↦
      let (bytes, _, joined) =
        >>=-eq-ok (from_hex (replace_dashes mac)) _ (rw (plain, format_mac) at h) in
      subst (λ (t : String). has_code 45 t ≡ false) (ok-injective joined) (join_hex-no_dash bytes)
]

-- A MAC address that is returned has no dash, and if it has a colon then it is returned unchanged
-- where it is formatted again.
pub format_mac-again :
    (mac : String) {formatted : String}
    → format_mac mac ≡ ok formatted
    → has_code 58 formatted ≡ true
    → (has_code 45 formatted ≡ false) × (format_mac formatted ≡ ok formatted)
unfolding format_mac
format_mac-again mac {formatted} h colon =
    let clean = format_mac-no_dash mac h in
    (clean, rw (replace_dashes-same formatted clean) (rw colon refl))
