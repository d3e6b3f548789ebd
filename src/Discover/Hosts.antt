-- ===== src/Discover/Hosts.antt =====
-- `_DiscoverProtocol` (kasa/discover.py): the datagram handler and its three tables of hosts.
use python_kasa.Prelude.{
  ℕ, ◌+◌, ◌≤◌, ◌≡◌, refl, inl, inr, Bool, true, false, ◌||◌, List, [], ◌∷◌, String, ◌=s=◌, ◌==◌,
  if◌then◌else◌, arith, eq_iff, Bool-cases, subst,
}
use python_kasa.Exec.{
  Error, Result, NoneType, ok, err, unsupported_device, is_smart_device_exception,
}
use python_kasa.Bytes.{Bytes}
use python_kasa.Discover.{Parsers, Found, get_device_instance, get_device_instance_legacy}

module _ {V : Type 0} where
  abbrev pub has_host : String → List (String × V) → Bool
  has_host ip [] = false
  has_host ip ((host, v) ∷ rest) = host =s= ip || has_host ip rest

  -- table[ip] = v
  unfoldable pub put_host : String → V → List (String × V) → List (String × V)
  put_host ip v [] = (ip, v) ∷ []
  put_host ip v ((host, w) ∷ rest) =
      if host =s= ip then (host, v) ∷ rest else (host, w) ∷ put_host ip v rest

  pub has_host-put_host :
      (ip other : String) (v : V) (table : List (String × V))
      → has_host other (put_host ip v table) ≡ (ip =s= other || has_host other table)
  unfolding put_host
  has_host-put_host ip other v [] = refl
  has_host-put_host ip other v ((host, w) ∷ rest) =
      ground (
        arith,
        eq_iff host ip,
        eq_iff host other,
        eq_iff ip other,
        has_host-put_host ip other v rest,
      )

abbrev pub is_seen : String → List String → Bool
is_seen ip [] = false
is_seen ip (host ∷ hosts) = host =s= ip || is_seen ip hosts

-- The texts of exceptions are left out of the table of unsupported devices.
pub record DiscoverProtocol : Type 0 where
  pub discovery_port : ℕ
  pub seen_hosts : List String
  pub discovered_devices : List (String × Found)
  pub unsupported_devices : List (String × NoneType)
  pub invalid_device_exceptions : List (String × Error)
  -- whether `discovered_event` has been set; without an event nothing reads it
  pub discovered_event : Bool

pub record Datagram : Type 0 where
  pub payload : Bytes
  pub ip : String
  pub port : ℕ

-- `__init__`, with `port or Discover.DISCOVERY_PORT`
abbrev pub new_protocol : ℕ → DiscoverProtocol
new_protocol port = record {
  discovery_port = if port == 0 then 9999 else port;
  seen_hosts = [];
  discovered_devices = [];
  unsupported_devices = [];
  invalid_device_exceptions = [];
  discovered_event = false;
}

-- What the handler does with an instance or an exception.
abbrev pub record_result :
    String → Result Found → DiscoverProtocol → Result NoneType × DiscoverProtocol
record_result ip (ok found) p = (
  ok tt,
  record p { discovered_devices = put_host ip found p.discovered_devices; discovered_event = true },
)
record_result ip (err unsupported_device) p = (
  ok tt,
  record p { unsupported_devices = put_host ip tt p.unsupported_devices; discovered_event = true },
)
record_result ip (err e) p =
    if is_smart_device_exception e
    then (
      ok tt,
      record p {
        invalid_device_exceptions = put_host ip e p.invalid_device_exceptions;
        discovered_event = true;
      },
    )
    else (err e, p)

-- How many of the tables have the host.
abbrev count : Bool → ℕ
count true = 1
count false = 0

abbrev pub times_recorded : String → DiscoverProtocol → ℕ
times_recorded ip p =
    count (has_host ip p.discovered_devices)
    + count (has_host ip p.unsupported_devices)
    + count (has_host ip p.invalid_device_exceptions)

-- A host that has been seen is in one table at most, and any other one in none.
abbrev pub IsTracked : DiscoverProtocol → Type 0
IsTracked p = (ip : String) → times_recorded ip p ≤ count (is_seen ip p.seen_hosts)

module _ (parsers : Parsers) where
  abbrev pub receive_new : Datagram → DiscoverProtocol → Result NoneType × DiscoverProtocol
  receive_new d p =
      if d.port == p.discovery_port
      then record_result d.ip (get_device_instance_legacy parsers d.payload) p
      else if d.port == 20002
      then record_result d.ip (get_device_instance parsers d.payload) p
      else (ok tt, p)

  unfoldable pub datagram_received :
      Datagram → DiscoverProtocol → Result NoneType × DiscoverProtocol
  datagram_received d p =
      if is_seen d.ip p.seen_hosts
      then (ok tt, p)
      else receive_new d (record p { seen_hosts = d.ip ∷ p.seen_hosts })

  -- The datagrams one after another; the event loop goes on after an exception of a handler.
  unfoldable pub receive_all : List Datagram → DiscoverProtocol → DiscoverProtocol
  receive_all [] p = p
  receive_all (d ∷ ds) p = receive_all ds (datagram_received d p).1

record_result-recorded :
    (ip other : String) (r : Result Found) (p : DiscoverProtocol)
    → times_recorded other (record_result ip r p).1 ≤ times_recorded other p + count (ip =s= other)
record_result-recorded ip other (ok found) p =
    ground (arith, has_host-put_host ip other found p.discovered_devices)
record_result-recorded ip other (err unsupported_device) p =
    ground (arith, has_host-put_host ip other tt p.unsupported_devices)
record_result-recorded ip other (err e) p =
    ground (arith, has_host-put_host ip other e p.invalid_device_exceptions)

pub record_result-seen :
    (ip : String) (r : Result Found) (p : DiscoverProtocol)
    → (record_result ip r p).1.seen_hosts ≡ p.seen_hosts
record_result-seen ip (ok found) p = refl
record_result-seen ip (err unsupported_device) p = refl
record_result-seen ip (err e) p = ground arith

abbrev pub heard : String → DiscoverProtocol → DiscoverProtocol
heard host p = record p { seen_hosts = host ∷ p.seen_hosts }

heard-room :
    (host ip : String) (p : DiscoverProtocol)
    → IsTracked p
    → is_seen host p.seen_hosts ≡ false
    → times_recorded ip p + count (host =s= ip) ≤ count (host =s= ip || is_seen ip p.seen_hosts)
heard-room host ip p h new = elim (Bool-cases (host =s= ip)) [
  | inl same ↦
      let here : is_seen ip p.seen_hosts ≡ false =
        subst (λ (x : String). is_seen x p.seen_hosts ≡ false) ((eq_iff host ip).0 same) new in
      let none_yet = h ip in ground arith
  | inr other ↦ let before = h ip in ground arith
]

record_result-IsTracked :
    (host : String) (r : Result Found) (p : DiscoverProtocol)
    → IsTracked p
    → is_seen host p.seen_hosts ≡ false
    → IsTracked (record_result host r (heard host p)).1
record_result-IsTracked host r p h new ip =
    let most = record_result-recorded host ip r (heard host p) in
    let room = heard-room host ip p h new in
    rw (record_result-seen host r (heard host p)) (omega arith)

module _ (parsers : Parsers) where
  receive_new-IsTracked :
      (d : Datagram) (p : DiscoverProtocol)
      → IsTracked p
      → is_seen d.ip p.seen_hosts ≡ false
      → IsTracked (receive_new parsers d (heard d.ip p)).1
  receive_new-IsTracked d p h new = elim (Bool-cases (d.port == p.discovery_port)) [
    | inl first ↦
        rw first
          (record_result-IsTracked d.ip (get_device_instance_legacy parsers d.payload) p h new)
    | inr other ↦ elim (Bool-cases (d.port == 20002)) [
      | inl second ↦
          rw (other, second)
            (record_result-IsTracked d.ip (get_device_instance parsers d.payload) p h new)
      | inr neither ↦ rw (other, neither) (λ ip. omega (arith, heard-room d.ip ip p h new))
    ]
  ]

  datagram_received-IsTracked :
      (d : Datagram) (p : DiscoverProtocol)
      → IsTracked p
      → IsTracked (datagram_received parsers d p).1
  unfolding datagram_received
  datagram_received-IsTracked d p h = elim (Bool-cases (is_seen d.ip p.seen_hosts)) [
    | inl seen ↦ rw seen h
    | inr new ↦ rw new (receive_new-IsTracked d p h new)
  ]

  receive_all-keeps :
      (ds : List Datagram) (p : DiscoverProtocol)
      → IsTracked p
      → IsTracked (receive_all parsers ds p)
  unfolding receive_all
  receive_all-keeps [] p h = h
  receive_all-keeps (d ∷ ds) p h =
      receive_all-keeps ds (datagram_received parsers d p).1 (datagram_received-IsTracked d p h)

  -- Whatever datagrams arrive, from whatever hosts and ports, a host that has been heard of stands in at
  -- most one of the tables of devices, unsupported devices and failures, and another host in none.
  pub receive_all-IsTracked :
      (port : ℕ) (ds : List Datagram) → IsTracked (receive_all parsers ds (new_protocol port))
  receive_all-IsTracked port ds = receive_all-keeps ds (new_protocol port) (λ ip. omega arith)
