-- ===== src/Pcap/Laws.antt =====
-- Which packets are read (devtools/parse_pcap.py).
use mathlib.Core.List.{Memᴰ}
use mathlib.Core.List.Memᴰ.{head, tail}
use python_kasa.Prelude.{ℕ, ◌≡◌, refl, ◌⊎◌, inl, inr, List, [], ◌∷◌, some, arith, Option-cases}
use python_kasa.Exec.{Result}
use python_kasa.Json.{Value}
use python_kasa.Pcap.{Packet, payload, read_payloads}

module _ (json_loads : List ℕ → Result Value) where
  payload-is_tcp :
      (p : Packet) {v : Value}
      → payload json_loads p ≡ some v
      → (p.protocol ≡ 6) × ((p.sport ≡ 9999) ⊎ (p.dport ≡ 9999))
  unfolding payload
  payload-is_tcp p h = ground arith

  -- The value is that of a packet among these, which is TCP, from port 9999 or to it.
  abbrev pub IsFromTcp : Value → List Packet → Type 0
  IsFromTcp v ps =
      (p : Packet) × Memᴰ p ps
      × (payload json_loads p ≡ some v)
      × (p.protocol ≡ 6)
      × ((p.sport ≡ 9999) ⊎ (p.dport ≡ 9999))

  IsFromTcp-tail :
      (v : Value) (p : Packet) (ps : List Packet) → IsFromTcp v ps → IsFromTcp v (p ∷ ps)
  IsFromTcp-tail v p ps (q, among, read, tcp, kasa) = (q, tail among, read, tcp, kasa)

  IsFromTcp-head :
      (v : Value) (p : Packet) (ps : List Packet)
      → payload json_loads p ≡ some v
      → IsFromTcp v (p ∷ ps)
  IsFromTcp-head v p ps h = let (tcp, kasa) = payload-is_tcp p h in (p, head refl, h, tcp, kasa)

  -- Each value that is read is that of a TCP packet of the capture, from port 9999 or to it: none comes
  -- from UDP, over which devices are discovered.
  pub read_payloads-IsFromTcp :
      (ps : List Packet) (v : Value) → Memᴰ v (read_payloads json_loads ps) → IsFromTcp v ps
  unfolding read_payloads
  read_payloads-IsFromTcp [] v m = elim m [ ]
  read_payloads-IsFromTcp (p ∷ ps) v m = elim (Option-cases (payload json_loads p)) [
    | inl nothing ↦
        IsFromTcp-tail v p ps (read_payloads-IsFromTcp ps v (rw (nothing, read_payloads) at m))
    | inr (u, there) ↦
        let m1 : Memᴰ v (u ∷ read_payloads json_loads ps) = rw (there, read_payloads) at m in
        elim m1 [
          | head same ↦ IsFromTcp-head v p ps (cc (there, same))
          | tail rest ↦ IsFromTcp-tail v p ps (read_payloads-IsFromTcp ps v rest)
        ]
  ]
