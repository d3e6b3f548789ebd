-- ===== src/Pcap.antt =====
-- The reader of captured packets (devtools/parse_pcap.py). The capture and its layers are read by a
-- library; the JSON reader is a parameter.
pub mod Laws
mod Tests
use python_kasa.Prelude.{
  ℕ, Bool, true, false, not, ◌&&◌, ◌||◌, List, [], ◌∷◌, Option, none, some, ◌==◌, drop,
  if◌then◌else◌,
}
use python_kasa.Exec.{Result, ok, err}
use python_kasa.Bytes.{Bytes}
use python_kasa.Cipher.{decrypt}
use python_kasa.Json.{Value, truthy}

-- A packet: whether its Ethernet frame holds IP, the number of its transport protocol (`ip.p`), and the
-- ports and data of the layer above.
pub record Packet : Type 0 where
  pub is_ip : Bool
  pub protocol : ℕ
  pub sport : ℕ
  pub dport : ℕ
  pub data_ : Bytes

-- Whether one of the branches sets `transport`: 6 is TCP. The second one compares the packet itself
-- with 17, which no packet is equal to.
abbrev pub has_transport : Packet → Bool
has_transport p = if p.protocol == 6 then true else false

-- not transport.sport != 9999 and transport.dport != 9999
abbrev pub is_kasa : Packet → Bool
is_kasa p = not (not (p.sport == 9999) && not (p.dport == 9999))

-- `try` with a handler that goes on to the next packet.
abbrev pub or_skip : {A : Type 0} → Result A → Option A
or_skip (ok a) = some a
or_skip (err e) = none

module _ (json_loads : List ℕ → Result Value) where
  abbrev pub parsed : List ℕ → Option Value
  parsed [] = none
  parsed decrypted = elim (or_skip (json_loads decrypted)) [
    | none ↦ none
    | some json_payload ↦ if truthy json_payload then some json_payload else none
  ]

  abbrev pub decrypted_payload : Bytes → Option Value
  decrypted_payload data_ = elim (or_skip (decrypt (drop 4 data_))) [
    | none ↦ none
    | some d ↦ parsed d
  ]

  -- What is read from one packet, if anything.
  unfoldable pub payload : Packet → Option Value
  payload p = if p.is_ip && has_transport p && is_kasa p then decrypted_payload p.data_ else none

  unfoldable pub read_payloads : List Packet → List Value
  unfolding payload
  read_payloads [] = []
  read_payloads (p ∷ ps) = elim (payload p) [
    | none ↦ read_payloads ps
    | some v ↦ v ∷ read_payloads ps
  ]
