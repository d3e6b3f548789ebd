-- ===== src/Protocol/Tests.antt =====
-- The protocol on a network whose device echoes each message after some failures.
use python_kasa.Prelude.{
  ℕ, ◌+◌, ◌-◌, ◌≤◌, ◌≡◌, refl, Bool, true, false, List, [], ◌∷◌, take, drop, ltb, if◌then◌else◌,
  arith,
}
use python_kasa.Exec.{Result, NoneType, ok, err, connection_refused, connection_lost}
use python_kasa.Exec.State.{◌>>=◌}
use python_kasa.Json.{null}
use python_kasa.Retry.Runs.{Run}
use python_kasa.Cipher.{encrypt, decrypt, unpack_length}
use python_kasa.Protocol
use python_kasa.Protocol.{Network, Connection, raw}
use python_kasa.Protocol.Laws.{IsSettled, query_text-Run, query-IsSettled, query_text-reconnects}
use python_kasa.Protocol.Attempts.{IsCounter, query_text-opens}

-- A device that refuses connections, or drops the next messages, or echoes.
record Device : Type 0 where
  refuses : Bool
  drops : ℕ
  opened : ℕ
  inbox : List ℕ

abbrev dial : Device → Result NoneType × Device
dial d = (if d.refuses then err connection_refused else ok tt, record d { opened = d.opened + 1 })

abbrev take_in : List ℕ → Device → Result NoneType × Device
take_in bs d =
    if ltb 0 d.drops
    then (err connection_lost, record d { drops = d.drops - 1 })
    else (ok tt, record d { inbox = bs })

abbrev give : ℕ → Device → Result (List ℕ) × Device
give n d = (ok (take n d.inbox), record d { inbox = drop n d.inbox })

abbrev echo : Network
echo = record {
  World = Device;
  open_connection = dial;
  set_nodelay = λ d. (ok tt, d);
  send = take_in;
  readexactly = give;
  close_writer = λ d. d;
  json_loads = λ bs. ok null;
  json_dumps = λ fields. [];
}

-- `{}`
abbrev request : List ℕ
request = 0x7b ∷ 0x7d ∷ []

abbrev stale : Connection echo
stale = record {
  connected = true;
  world = record { refuses = false; drops = 1; opened = 1; inbox = [] };
}

abbrev refused : Connection echo
refused = record {
  connected = false;
  world = record { refuses = true; drops = 0; opened = 0; inbox = [] };
}

query_text-Run_example :
    (k : ℕ) × (k ≤ 3 + 1)
    × Run (Protocol.round echo request 3) 0 k stale (Protocol.query_text echo request 3 stale)
query_text-Run_example = query_text-Run echo request 3 stale

query-IsSettled_example : IsSettled echo (Protocol.query echo (raw request) 3 stale)
query-IsSettled_example = query-IsSettled echo (raw request) 3 stale

-- After the lost message there is one more connection, and the echo is read.
abbrev answered : Connection echo
answered = record {
  connected = true;
  world = record { refuses = false; drops = 0; opened = 2; inbox = [] };
}

query_text-reconnects_example : Protocol.query_text echo request 3 stale ≡ (ok null, answered)
unfolding Protocol.execute_query Protocol.read_response Protocol.connect Protocol.close encrypt
    decrypt unpack_length ◌>>=◌
query_text-reconnects_example =
    query_text-reconnects echo request 3 stale connection_lost null (omega arith) refl refl refl
      refl

echo-IsCounter : IsCounter echo (λ d. d.opened)
echo-IsCounter = record {
  counted = λ d. refl;
  on_nodelay = λ d. refl;
  on_send = λ bs d. ground arith;
  on_read = λ n d. refl;
  on_close = λ d. refl;
}

query_text-opens_example : (Protocol.query_text echo request 3 stale).1.world.opened ≤ 1 + 3 + 1
query_text-opens_example = query_text-opens echo (λ d. d.opened) echo-IsCounter request 3 stale
