-- ===== src/Pcap/Tests.antt =====
-- A capture with one message over TCP and the same one over UDP.
use mathlib.Core.List.Memᴰ.{head}
use python_kasa.Prelude.{ℕ, ◌≡◌, refl, List, [], ◌∷◌, true}
use python_kasa.Prelude.Int.{pos}
use python_kasa.Exec.{Result, ok}
use python_kasa.Json.{Value, num}
use python_kasa.Cipher.{decrypt}
use python_kasa.Pcap.{Packet, payload, read_payloads}
use python_kasa.Pcap.Laws.{IsFromTcp, read_payloads-IsFromTcp}

-- A reader that reads every text as 7.
abbrev seven : List ℕ → Result Value
seven text = ok (num (pos 7))

abbrev tcp : Packet
tcp = record {
  is_ip = true;
  protocol = 6;
  sport = 9999;
  dport = 50000;
  data_ = 0 ∷ 0 ∷ 0 ∷ 1 ∷ 208 ∷ [];
}

abbrev udp : Packet
udp = record tcp { protocol = 17 }

-- Only the first one is read.
read_lem : read_payloads seven (tcp ∷ udp ∷ []) ≡ num (pos 7) ∷ []
unfolding read_payloads payload decrypt
read_lem = refl

read_payloads-IsFromTcp_example : IsFromTcp seven (num (pos 7)) (tcp ∷ udp ∷ [])
unfolding read_payloads payload decrypt
read_payloads-IsFromTcp_example =
    read_payloads-IsFromTcp seven (tcp ∷ udp ∷ []) (num (pos 7)) (head refl)
