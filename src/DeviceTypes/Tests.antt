-- ===== src/DeviceTypes/Tests.antt =====
-- A name that the command line uses, and one of no device (kasa/device_type.py).
use python_kasa.Prelude.{◌≡◌, ◌≢◌, ◌⊎◌, All, refl}
use python_kasa.DeviceTypes.{
  light_strip, strip_socket, unknown, value, from_value, members, from_value-value,
}

socket_lem : from_value "stripsocket" ≡ strip_socket
unfolding from_value value
socket_lem = refl

from_value-value_example :
    (from_value "lightstrip" ≡ light_strip)
    × ((value (from_value "toaster") ≡ "toaster")
        ⊎ ((from_value "toaster" ≡ unknown) × All (λ u. value u ≢ "toaster") members))
unfolding value
from_value-value_example = from_value-value light_strip "toaster"
