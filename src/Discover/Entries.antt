-- ===== src/Discover/Entries.antt =====
-- What the tables of `_DiscoverProtocol` (kasa/discover.py) have for one address, while datagrams of it
-- and of other hosts arrive.
use python_kasa.Prelude.{
  ℕ, ◌≡◌, refl, sym, ◌∙◌, ap, Bool, true, false, List, [], ◌∷◌, Option, none, some, String, ◌=s=◌,
  ◌==◌, if◌then◌else◌, arith, eq_iff, Bool-cases, inl, inr, subst,
}
use python_kasa.Exec.{Error, Result, ok, err, unsupported_device}
use python_kasa.Discover.{Parsers, Found, get_device_instance, get_device_instance_legacy}
use python_kasa.Discover.Hosts.{
  Datagram, DiscoverProtocol, has_host, put_host, is_seen, record_result, receive_new, receive_all,
  datagram_received, heard, has_host-put_host, record_result-seen,
}
use python_kasa.Discover.Single.{get_host}

module _ {V : Type 0} where
  pub get_host-put_host :
      (ip other : String) (v : V) (table : List (String × V))
      → get_host other (put_host ip v table)
        ≡ (if ip =s= other then some v else get_host other table)
  unfolding get_host put_host
  get_host-put_host ip other v [] = refl
  get_host-put_host ip other v ((host, w) ∷ rest) =
      ground (
        arith,
        eq_iff host ip,
        eq_iff host other,
        eq_iff ip other,
        get_host-put_host ip other v rest,
      )

-- What the three tables have for an address.
abbrev pub Entries : Type 0
Entries = Option Found × Bool × Option Error

abbrev pub entries : String → DiscoverProtocol → Entries
entries ip p = (
  get_host ip p.discovered_devices,
  has_host ip p.unsupported_devices,
  get_host ip p.invalid_device_exceptions,
)

record_result-entries :
    (ip other : String) (r : Result Found) (p : DiscoverProtocol)
    → ip =s= other ≡ false
    → entries other (record_result ip r p).1 ≡ entries other p
record_result-entries ip other (ok found) p h =
    rw (get_host-put_host ip other found p.discovered_devices, h) refl
record_result-entries ip other (err unsupported_device) p h =
    rw (has_host-put_host ip other tt p.unsupported_devices, h) refl
record_result-entries ip other (err e) p h =
    ground (arith, get_host-put_host ip other e p.invalid_device_exceptions)

-- An event that has been set stays set, and the port stays.
record_result-event :
    (ip : String) (r : Result Found) (p : DiscoverProtocol)
    → p.discovered_event ≡ true
    → (record_result ip r p).1.discovered_event ≡ true
record_result-event ip (ok found) p h = refl
record_result-event ip (err unsupported_device) p h = refl
record_result-event ip (err e) p h = ground arith

record_result-port :
    (ip : String) (r : Result Found) (p : DiscoverProtocol)
    → (record_result ip r p).1.discovery_port ≡ p.discovery_port
record_result-port ip (ok found) p = refl
record_result-port ip (err unsupported_device) p = refl
record_result-port ip (err e) p = ground arith

module _ (parsers : Parsers) where
  -- What the handler makes of a datagram, where it comes from one of the two ports.
  abbrev pub answer_of : ℕ → Datagram → Option (Result Found)
  answer_of port d =
      if d.port == port
      then some (get_device_instance_legacy parsers d.payload)
      else if d.port == 20002
      then some (get_device_instance parsers d.payload)
      else none

  abbrev pub record_answer : Option (Result Found) → String → DiscoverProtocol → DiscoverProtocol
  record_answer none ip p = p
  record_answer (some r) ip p = (record_result ip r p).1

  pub receive_new_lem :
      (d : Datagram) (p : DiscoverProtocol)
      → (receive_new parsers d p).1 ≡ record_answer (answer_of p.discovery_port d) d.ip p
  receive_new_lem d p = ground arith

  abbrev KeepsOther : String → DiscoverProtocol → DiscoverProtocol → Type 0
  KeepsOther ip p q =
      (entries ip q ≡ entries ip p)
      × (q.seen_hosts ≡ p.seen_hosts)
      × (q.discovery_port ≡ p.discovery_port)
      × (p.discovered_event ≡ true → q.discovered_event ≡ true)

  record_answer-KeepsOther :
      (a : Option (Result Found)) (host ip : String) (p : DiscoverProtocol)
      → host =s= ip ≡ false
      → KeepsOther ip p (record_answer a host p)
  record_answer-KeepsOther none host ip p h = (refl, refl, refl, λ e. e)
  record_answer-KeepsOther (some r) host ip p h = (
    record_result-entries host ip r p h,
    record_result-seen host r p,
    record_result-port host r p,
    record_result-event host r p,
  )

  receive_new-KeepsOther :
      (d : Datagram) (ip : String) (p : DiscoverProtocol)
      → d.ip =s= ip ≡ false
      → KeepsOther ip p (receive_new parsers d p).1
  receive_new-KeepsOther d ip p h =
      subst (KeepsOther ip p) (sym (receive_new_lem d p))
        (record_answer-KeepsOther (answer_of p.discovery_port d) d.ip ip p h)

  -- Nothing has been heard from the address.
  abbrev pub IsQuiet : ℕ → String → DiscoverProtocol → Type 0
  IsQuiet port ip p =
      (p.discovery_port ≡ port)
      × (is_seen ip p.seen_hosts ≡ false)
      × (entries ip p ≡ (none, false, none))

  -- The address has been heard, and this has been recorded for it.
  abbrev pub IsHeard : Entries → String → DiscoverProtocol → Type 0
  IsHeard e ip p =
      (is_seen ip p.seen_hosts ≡ true) × (p.discovered_event ≡ true) × (entries ip p ≡ e)

  pub datagram_received-IsQuiet :
      (port : ℕ) (ip : String) (d : Datagram) (p : DiscoverProtocol)
      → d.ip =s= ip ≡ false
      → IsQuiet port ip p
      → IsQuiet port ip (datagram_received parsers d p).1
  unfolding datagram_received
  datagram_received-IsQuiet port ip d p other (same, unseen, empty) =
      elim (Bool-cases (is_seen d.ip p.seen_hosts)) [
        | inl seen ↦ rw seen (same, unseen, empty)
        | inr new ↦
            let (e1, e2, e3, _) = receive_new-KeepsOther d ip (heard d.ip p) other in
            rw new (e3 ∙ same, rw e2 (rw other unseen), e1 ∙ empty)
      ]

  datagram_received-IsHeard :
      (e : Entries) (ip : String) (d : Datagram) (p : DiscoverProtocol)
      → IsHeard e ip p
      → IsHeard e ip (datagram_received parsers d p).1
  unfolding datagram_received
  datagram_received-IsHeard e ip d p (known, set, there) =
      elim (Bool-cases (is_seen d.ip p.seen_hosts)) [
        | inl seen ↦ rw seen (known, set, there)
        | inr new ↦ elim (Bool-cases (d.ip =s= ip)) [
          | inl same ↦ cc (new, known, ap (λ x. is_seen x p.seen_hosts) ((eq_iff d.ip ip).0 same))
          | inr other ↦
              let (e1, e2, _, e4) = receive_new-KeepsOther d ip (heard d.ip p) other in
              rw new (rw e2 (rw other known), e4 set, e1 ∙ there)
        ]
      ]

  pub receive_all-IsHeard :
      (e : Entries) (ip : String) (ds : List Datagram) (p : DiscoverProtocol)
      → IsHeard e ip p
      → IsHeard e ip (receive_all parsers ds p)
  unfolding receive_all
  receive_all-IsHeard e ip [] p h = h
  receive_all-IsHeard e ip (d ∷ ds) p h =
      receive_all-IsHeard e ip ds (datagram_received parsers d p).1
        (datagram_received-IsHeard e ip d p h)
