-- ===== src/Exec.antt =====
-- Results, and methods that change an object and may raise (exceptions.py and Python's own).
pub mod State
pub mod Triple
use python_kasa.Prelude.{◌≡◌, refl, ◌⊎◌, inl, inr, arith, Bool, true, false, Option, none, some, ℕ}

-- The classes of exceptions that the code raises or catches; the texts are left out.
-- The first three are those of exceptions.py, and the last seven come from the transports.
pub data Error : Type 0 where
  smart_device unsupported_device authentication : Error
  value_error type_error key_error attribute_error index_error overflow_error : Error
  assertion_error not_implemented zero_division runtime_error struct_error unicode_error : Error
  close_error connect_error timeout_error connection_refused connection_lost decode_error : Error
  os_error : ℕ → Error

-- isinstance(ex, SmartDeviceException)
abbrev pub is_smart_device_exception : Error → Bool
is_smart_device_exception smart_device = true
is_smart_device_exception unsupported_device = true
is_smart_device_exception authentication = true
is_smart_device_exception _ = false

pub data Result {ℓ} (A : Type ℓ) : Type ℓ where
  ok : A → Result A
  err : Error → Result A

-- The call returned.
abbrev pub is_ok {ℓ} : {A : Type ℓ} → Result A → Bool
is_ok (ok _) = true
is_ok (err _) = false

infixl 5 ◌>>=◌ ◌>>◌
abbrev pub ◌>>=◌ {ℓ κ} : {A : Type ℓ} {B : Type κ} → Result A → (A → Result B) → Result B
err raised >>= next = err raised
ok value >>= next = next value

abbrev pub ◌>>◌ {ℓ κ} : {A : Type ℓ} {B : Type κ} → Result A → Result B → Result B
first >> second = first >>= λ _. second

-- What a method without a result returns.
abbrev pub NoneType : Type 0
NoneType = Unit

-- `if c: raise e`
abbrev pub raise_if : Bool → Error → Result NoneType
raise_if true e = err e
raise_if false e = ok tt

abbrev pub or_raise {ℓ} : {A : Type ℓ} → Option A → Error → Result A
or_raise none e = err e
or_raise (some a) e = ok a

-- What a chain returned, its first call and then the rest of it have returned.
pub >>=-eq-ok {ℓ κ} :
    {A : Type ℓ} {B : Type κ} (first : Result A) (next : A → Result B) {returned : B}
    → (first >>= next) ≡ ok returned
    → (value : A) × (first ≡ ok value) × (next value ≡ ok returned)
>>=-eq-ok (err raised) next h = cc
>>=-eq-ok (ok value) next h = (value, refl, h)

-- What a chain raised, its first call has raised or the rest of it.
pub >>=-eq-err {ℓ κ} :
    {A : Type ℓ} {B : Type κ} (first : Result A) (next : A → Result B) {raised : Error}
    → (first >>= next) ≡ err raised
    → (first ≡ err raised) ⊎ ((value : A) × (first ≡ ok value) × (next value ≡ err raised))
>>=-eq-err (err e) next h = inl (ground arith)
>>=-eq-err (ok value) next h = inr (value, refl, h)

pub ok-injective {ℓ} : {A : Type ℓ} {a b : A} → ok a ≡ ok b → a ≡ b
ok-injective h = cc
