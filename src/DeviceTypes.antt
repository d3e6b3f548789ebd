-- ===== src/DeviceTypes.antt =====
-- `DeviceType` (kasa/device_type.py), and the properties of a device that look at it
-- (kasa/smartdevice.py).
mod Tests
use python_kasa.Prelude.{
  ◌≡◌, refl, Bool, true, false, List, [], ◌∷◌, String, ◌=s=◌, if◌then◌else◌, eq_iff, ◌≢◌, ◌⊎◌, inl,
  inr, All, Bool-cases,
}

pub data DeviceType : Type 0 where
  plug bulb strip strip_socket dimmer light_strip tapo_plug tapo_bulb unknown : DeviceType

unfoldable pub value : DeviceType → String
value plug = "plug"
value bulb = "bulb"
value strip = "strip"
value strip_socket = "stripsocket"
value dimmer = "dimmer"
value light_strip = "lightstrip"
value tapo_plug = "tapoplug"
value tapo_bulb = "tapobulb"
value unknown = "unknown"

-- The members, in the order of the class.
abbrev pub members : List DeviceType
members =
    plug ∷ bulb ∷ strip ∷ strip_socket ∷ dimmer ∷ light_strip ∷ tapo_plug ∷ tapo_bulb ∷ unknown ∷ []

abbrev first_of : String → List DeviceType → DeviceType
first_of name [] = unknown
first_of name (device_type ∷ rest) =
    if value device_type =s= name then device_type else first_of name rest

unfoldable pub from_value : String → DeviceType
unfolding value
from_value name = first_of name members

abbrev pub is_bulb : DeviceType → Bool
is_bulb bulb = true
is_bulb _ = false

abbrev pub is_light_strip : DeviceType → Bool
is_light_strip light_strip = true
is_light_strip _ = false

abbrev pub is_plug : DeviceType → Bool
is_plug plug = true
is_plug _ = false

abbrev pub is_strip : DeviceType → Bool
is_strip strip = true
is_strip _ = false

abbrev pub is_strip_socket : DeviceType → Bool
is_strip_socket strip_socket = true
is_strip_socket _ = false

abbrev pub is_dimmer : DeviceType → Bool
is_dimmer dimmer = true
is_dimmer _ = false

-- `has_children`
abbrev pub has_children : DeviceType → Bool
has_children t = is_strip t

-- What the loop over some members returns.
first_of-value :
    (name : String) (ts : List DeviceType)
    → (value (first_of name ts) ≡ name)
      ⊎ ((first_of name ts ≡ unknown) × All (λ t. value t ≢ name) ts)
first_of-value name [] = inr (refl, tt)
first_of-value name (t ∷ ts) = elim (Bool-cases (value t =s= name)) [
  | inl same ↦ rw same (inl ((eq_iff (value t) name).0 same))
  | inr other ↦ rw other (elim (first_of-value name ts) [
    | inl found ↦ inl found
    | inr (none_of, others) ↦
        inr (none_of, ((λ e. cc (other, (eq_iff (value t) name).1 e)), others))
  ])
]

-- The name of a type is read back as that type; a text that is read is the name of what it is read as, or
-- it is the name of no type and is read as the unknown one.
pub from_value-value :
    (t : DeviceType) (name : String)
    → (from_value (value t) ≡ t)
      × ((value (from_value name) ≡ name)
          ⊎ ((from_value name ≡ unknown) × All (λ u. value u ≢ name) members))
unfolding from_value value
from_value-value t name = (known t, first_of-value name members)
  where
    known : (t : DeviceType) → from_value (value t) ≡ t
    known plug = refl
    known bulb = refl
    known strip = refl
    known strip_socket = refl
    known dimmer = refl
    known light_strip = refl
    known tapo_plug = refl
    known tapo_bulb = refl
    known unknown = refl
