-- ===== src/Discover/Single.antt =====
-- `discover_single`, `discover` and the sending of the queries (kasa/discover.py). The resolver of host
-- names, the encoded query and the update of a device with children are parameters.
use python_kasa.Prelude.{
  ℕ, zero, suc, Bool, true, false, ◌&&◌, List, [], ◌∷◌, Option, none, some, String, ◌=s=◌, drop,
  take, if◌then◌else◌,
}
use python_kasa.Exec.{
  Error, Result, NoneType, ok, err, smart_device, unsupported_device, or_raise, ◌>>=◌,
}
use python_kasa.Bytes.{Bytes}
use python_kasa.Cipher.{encrypt}
use python_kasa.Factory.{DeviceClass, smart_strip}
use python_kasa.Discover.{Parsers, Found}
use python_kasa.Discover.Hosts.{
  Datagram, DiscoverProtocol, has_host, new_protocol, receive_all, datagram_received,
}

-- DISCOVERY_QUERY_2
abbrev pub discovery_query_2 : Bytes
discovery_query_2 = 2 ∷ 0 ∷ 0 ∷ 1 ∷ 0 ∷ 0 ∷ 0 ∷ 0 ∷ 0 ∷ 0 ∷ 0 ∷ 0 ∷ 70 ∷ 60 ∷ 181 ∷ 211 ∷ []

-- The loop over the number of packets: a datagram for each of the two ports.
unfoldable pub send_queries : Bytes → String → ℕ → ℕ → List (Bytes × String × ℕ)
send_queries encrypted_req target discovery_port zero = []
send_queries encrypted_req target discovery_port (suc packets) =
    (drop 4 encrypted_req, target, discovery_port)
    ∷ (discovery_query_2, target, 20002)
    ∷ send_queries encrypted_req target discovery_port packets

-- What is sent, for the text that json_dumps makes of DISCOVERY_QUERY.
unfoldable pub do_discover : List ℕ → String → ℕ → ℕ → Result (List (Bytes × String × ℕ))
unfolding send_queries
do_discover query_text target discovery_port packets =
    encrypt query_text >>= λ (req : Bytes). ok (send_queries req target discovery_port packets)

-- table.get(ip)
unfoldable pub get_host : {V : Type 0} → String → List (String × V) → Option V
get_host ip [] = none
get_host ip ((host, v) ∷ rest) = if host =s= ip then some v else get_host ip rest

-- A class whose devices have children.
abbrev pub has_children : DeviceClass → Bool
has_children smart_strip = true
has_children _ = false

pub record Surroundings : Type 0 where
  -- whether ipaddress.ip_address(host) returns
  pub is_address : String → Bool
  -- the first address for the name, or none for socket.gaierror
  pub getaddrinfo : String → Option String
  -- `update` of a device that was found
  pub update : Found → Result NoneType

module _ (around : Surroundings) where
  abbrev pub resolve : String → Result String
  resolve host =
      if around.is_address host then ok host else or_raise (around.getaddrinfo host) smart_device

  abbrev pub with_children : Bool → Found → Result Found
  with_children update_parent_devices dev =
      if update_parent_devices && has_children dev.device_class
      then (around.update dev >>= λ (_ : NoneType). ok dev)
      else ok dev

  -- What is made of the entries of an address in the three tables.
  abbrev pub outcome : Bool → Option Found → Bool → Option Error → Result Found
  outcome update_parent_devices (some dev) unsupported invalid =
      with_children update_parent_devices dev
  outcome update_parent_devices none true invalid = err unsupported_device
  outcome update_parent_devices none false (some e) = err e
  outcome update_parent_devices none false none = err smart_device

  unfoldable pub finish : Bool → String → DiscoverProtocol → Result Found
  unfolding get_host
  finish update_parent_devices ip p =
      outcome update_parent_devices (get_host ip p.discovered_devices)
        (has_host ip p.unsupported_devices) (get_host ip p.invalid_device_exceptions)

  module _ (parsers : Parsers) where
    -- The datagrams that are handled before the wait ends: those up to the first one that sets the event,
    -- whatever host it is from, and `late` further ones, which the event loop handles before the
    -- coroutine that waits is run again.
    unfoldable pub receive_awaited : ℕ → List Datagram → DiscoverProtocol → DiscoverProtocol
    unfolding receive_all
    receive_awaited late [] p = p
    receive_awaited late (d ∷ ds) p =
        let q = (datagram_received parsers d p).1 in
        let rest = receive_awaited late ds q in
        if q.discovered_event then receive_all parsers (take late ds) q else rest

    -- `discover_single`, where these datagrams would be received before the timeout. If none of them
    -- sets the event, the wait times out; afterwards the transport is closed.
    unfoldable pub discover_single : Bool → ℕ → String → ℕ → List Datagram → Result Found
    unfolding finish receive_awaited
    discover_single update_parent_devices port host late received =
        resolve host >>= λ (ip : String).
        let p = receive_awaited late received (new_protocol port) in
        if p.discovered_event then finish update_parent_devices ip p else err smart_device

-- `discover`, which sleeps for its timeout and waits for no event: all datagrams until then are handled
unfoldable pub discover : Parsers → List Datagram → List (String × Found)
unfolding receive_all
discover parsers received = (receive_all parsers received (new_protocol 0)).discovered_devices
