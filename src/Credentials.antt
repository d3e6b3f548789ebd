-- ===== src/Credentials.antt =====
-- `Credentials` (kasa/credentials.py); texts are lists of code points.
use python_kasa.Prelude.{ℕ, Bool, true, false, ◌&&◌, List, [], Option, none, some}
use python_kasa.Bytes.{equal}

pub record Credentials : Type 0 where
  pub username : Option (List ℕ)
  pub password : Option (List ℕ)

abbrev pub blank : Credentials
blank = record { username = some []; password = some [] }

-- x or ""
abbrev pub or_empty : Option (List ℕ) → List ℕ
or_empty none = []
or_empty (some s) = s

abbrev pub equal_option : Option (List ℕ) → Option (List ℕ) → Bool
equal_option none none = true
equal_option (some a) (some b) = equal a b
equal_option _ _ = false

-- The `==` of the dataclass.
unfoldable pub equal_credentials : Credentials → Credentials → Bool
unfolding equal
equal_credentials a b = equal_option a.username b.username && equal_option a.password b.password
