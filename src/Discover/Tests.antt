-- ===== src/Discover/Tests.antt =====
-- Datagrams from two hosts, one of them twice, and a reader that knows no text.
use python_kasa.Prelude.{◌≡◌, refl, List, [], ◌∷◌, true, false, some}
use python_kasa.Exec.{ok, err, value_error, smart_device, unsupported_device}
use python_kasa.Json.{str, obj, end, field, lookup, contains, index}
use python_kasa.Discover.{Parsers, get_device_instance}
use python_kasa.Discover.Hosts.{
  Datagram, IsTracked, new_protocol, receive_all, receive_all-IsTracked, datagram_received,
  put_host,
}
use python_kasa.Discover.Single.{
  Surroundings, discover_single, finish, receive_awaited, send_queries, discovery_query_2,
}
use python_kasa.Discover.Answers.{discover_single-answered}
use python_kasa.Factory.{smart_bulb, get_device_class_from_sys_info}
use python_kasa.Factory.Names.{lower_has}

abbrev illiterate : Parsers
illiterate = record {
  json_loads = λ text. err value_error;
  json_loads_bytes = λ bytes. err value_error;
  discovery_result = λ v. err value_error;
}

abbrev datagrams : List Datagram
datagrams =
    record { payload = []; ip = "10.0.0.2"; port = 20002 }
    ∷ record { payload = []; ip = "10.0.0.3"; port = 5000 }
    ∷ record { payload = []; ip = "10.0.0.2"; port = 9999 }
    ∷ []

-- The host that answered from the new port is recorded once, and the other one is only seen.
received_lem : receive_all illiterate datagrams (new_protocol 0) ≡ record (new_protocol 0) {
  seen_hosts = "10.0.0.3" ∷ "10.0.0.2" ∷ [];
  unsupported_devices = ("10.0.0.2", tt) ∷ [];
  discovered_event = true;
}
unfolding receive_all datagram_received get_device_instance put_host
received_lem = refl

receive_all-IsTracked_example : IsTracked (receive_all illiterate datagrams (new_protocol 0))
receive_all-IsTracked_example = receive_all-IsTracked illiterate 0 datagrams

bulb_lem :
    get_device_class_from_sys_info (
      obj (
        field "system"
          (obj (field "get_sysinfo" (obj (field "mic_type" (str "IOT.SMARTBULB") end)) end))
          end))
    ≡ ok smart_bulb
unfolding get_device_class_from_sys_info contains index lookup lower_has
bulb_lem = refl

abbrev neighbour : Datagram
neighbour = record { payload = []; ip = "10.0.0.3"; port = 20002 }

abbrev answer : Datagram
answer = record { payload = []; ip = "10.0.0.2"; port = 20002 }

-- The name "lamp" stands for the address of the host.
abbrev around : Surroundings
around = record {
  is_address = λ host. false;
  getaddrinfo = λ host. some "10.0.0.2";
  update = λ dev. ok tt;
}

-- A datagram from a port that the handler ignores.
abbrev stray : Datagram
stray = record neighbour { port = 5000 }

-- An ignored datagram of another host does not keep the answer away, and no later datagram changes it.
discover_single-answered_example :
    discover_single around illiterate true 0 "lamp" 1 (stray ∷ answer ∷ neighbour ∷ answer ∷ [])
    ≡ err unsupported_device
unfolding get_device_instance
discover_single-answered_example =
    discover_single-answered illiterate around true 0 1 "lamp" (stray ∷ [])
      (neighbour ∷ answer ∷ []) answer refl ((refl, λ r e. cc), tt) refl refl

-- A recorded datagram of another host ends the wait, and the host's own answer comes too late, unless the
-- event loop handles it in the same turn.
beaten_lem :
    discover_single around illiterate true 0 "lamp" 0 (neighbour ∷ answer ∷ []) ≡ err smart_device
unfolding discover_single finish receive_awaited datagram_received get_device_instance put_host
beaten_lem = refl

in_time_lem :
    discover_single around illiterate true 0 "lamp" 1 (neighbour ∷ answer ∷ [])
    ≡ err unsupported_device
unfolding discover_single finish receive_awaited receive_all datagram_received get_device_instance
    put_host
in_time_lem = refl

-- Without an answer the wait times out.
silence_lem : discover_single around illiterate true 0 "lamp" 0 [] ≡ err smart_device
unfolding discover_single finish receive_awaited
silence_lem = refl

queries_lem :
    send_queries (9 ∷ 9 ∷ 9 ∷ 9 ∷ 1 ∷ []) "10.0.0.2" 9999 1
    ≡ (1 ∷ [], "10.0.0.2", 9999) ∷ (discovery_query_2, "10.0.0.2", 20002) ∷ []
unfolding send_queries
queries_lem = refl
