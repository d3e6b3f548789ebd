-- ===== src/Lib.antt =====
-- Verification of python-kasa, a library that controls TP-Link Kasa and Tapo smart home devices.
--
-- A device object (kasa/smartdevice.py and its subclasses) asks a protocol object to send a JSON
-- request and to return the JSON response. There are three protocols: the legacy one over a TCP
-- socket (kasa/protocol.py), and two over HTTP (kasa/iotprotocol.py, kasa/smartprotocol.py), which
-- use a transport that does the handshake and the encryption (kasa/klaptransport.py,
-- kasa/aestransport.py). Discovery (kasa/discover.py) and kasa/device_factory.py choose the class
-- of a device, and kasa/modules/ and kasa/tapo/ hold the functional modules and the Tapo devices.
--
-- Files and code:
--   Prelude, Exec, Bytes   shared: numbers, lists, integers, bits; Python's exceptions as values
--                          (Result), methods that change their object (Exec.State) and what they
--                          keep (Keeps, Triple); byte strings and the cryptography that is assumed
--   Json, Json/Merge       JSON values and dicts, `merge` (kasa/smartdevice.py)
--   Retry                  `for retry in range(retry_count + 1)`: a round returns, raises or goes
--                          on; Retry/Runs has its runs as an indexed relation
--   Cipher                 `encrypt`, `decrypt` and the generators (kasa/protocol.py); Cipher/Utf8
--                          is Python's `encode` and `decode`
--   Protocol               `TPLinkSmartHomeProtocol` (kasa/protocol.py): the fields `reader` and
--                          `writer` as one flag, `_connect`, `_execute_query`, `close`, `_query`
--   Snowflake              `SnowflakeId` (kasa/smartprotocol.py)
--   Http                   `IotProtocol` (kasa/iotprotocol.py), `SmartProtocol`
--                          (kasa/smartprotocol.py) and the `_query` loop of both
--   Klap, Credentials      `KlapTransport`, its version 2 and `KlapEncryptionSession`
--                          (kasa/klaptransport.py), `Credentials` (kasa/credentials.py);
--                          Klap/Reachable has the states that sequences of calls lead to
--   Device                 `SmartDevice` (kasa/smartdevice.py) and `Module` (kasa/modules/module.py)
--                          over any protocol: Requests, Answers (`_query_helper`), Batches and
--                          Updates (`_modular_update`, `update`), Responses, Children (discovery
--                          data, child lookup, WiFi)
--   Aes                    `AesTransport` (kasa/aestransport.py): handshake, requests; Aes/Login the
--                          two kinds of login, Aes/Hashes the hashed credentials, Aes/Session
--                          `AesEncyptionSession`
--   Lights                 commands of `SmartBulb`, `SmartDimmer` and `SmartPlug` (kasa/smartbulb.py,
--                          kasa/smartdimmer.py, kasa/smartplug.py): Bulb, Dimmer
--   Factory                the choice of classes (kasa/device_factory.py); Factory/Names the test of a
--                          lowered text
--   Discover               `Discover` and `_DiscoverProtocol` (kasa/discover.py): from datagrams to
--                          devices; Discover/Hosts the handler and its tables
--   Numbers                Python's numbers: integers and floats, whose operations are a parameter
--   Modules                `Module` and its subclasses (kasa/modules/): Keys are the keys of a dict,
--                          Usage and Emeter the statistics, Time the clock and the cloud, Rules the
--                          schedules, Sensors motion and light, Calls the coroutines
--   EmeterStatus           `EmeterStatus` (kasa/emeterstatus.py)
--   DeviceTypes            `DeviceType` (kasa/device_type.py)
--   Device/Mac and others  the rest of kasa/smartdevice.py: Properties reads the sysinfo, Readings the
--                          modules, Switch the relay and the led, Methods has the coroutines
--   Strip                  `SmartStrip` and `SmartStripPlug` (kasa/smartstrip.py): Sums is
--                          `merge_sums`, Sockets one socket, Outlets and Readings the whole strip
--   LightStrip, Effects    `SmartLightStrip` (kasa/smartlightstrip.py) and kasa/effects.py
--   Lights/Reports, Calls  the properties, presets and behaviours of bulbs, and the coroutines of
--                          bulbs and dimmers
--   Tapo                   kasa/tapo/: the device, Plug and Bulb
--   Factory/Connect        `connect` (kasa/device_factory.py)
--   Discover/Single        `discover`, `discover_single` and the queries (kasa/discover.py)
--   Cli                    the decisions of kasa/cli.py: Targets for devices and sockets, Bulbs for
--                          lights, Statistics for energy, usage and rules
--   DevInfo, Pcap          `scrub` (devtools/dump_devinfo.py) and the reader of captures
--                          (devtools/parse_pcap.py)
--
-- Parameters: sockets, HTTP clients, clocks, random numbers, hashes, ciphers and the JSON codec are
-- not part of the repository. They are fields of records (Network, BaseTransport, Surroundings,
-- Crypto) over a world of their own, and where a theorem relies on them it says so in a hypothesis
-- (IsSound: a SHA256 digest has 32 bytes, and decryption undoes encryption under the same key). The
-- operations on floats, base64 and the validation of pydantic models are parameters too. A coroutine
-- that holds its lock runs to its end before the next one, so a call is a function of the
-- state that the call before it left; a timeout is an operation that raises. Closing an HTTP client may
-- raise too; `close` of a stream writer is taken not to, as asyncio documents.
--
-- Bounds and fuel: numbers are natural numbers or integers, as Python's are; the four bytes of a
-- length or of a sequence number have their overflow written out. The retry loop has fuel
-- `retry_count + 1`, the length of the range, and its theorems show that no more is used. The wait
-- of SnowflakeId reads the clock until it passes the last timestamp; its fuel is enough when one of
-- the readings within it does, which is a hypothesis on the clock.
--
-- Not modelled: logging, printing, the texts of exceptions, `__repr__`, `__del__` and the cancellation
-- of coroutines; the commands of kasa/cli.py that mostly print (state, discover, wifi); the scripts of
-- devtools/ that write files, and the documentation (docs/).
-- Floats are finite: NaN and the infinities, which JSON
-- readers accept, are left out. Of a device's sysinfo only the fields that a modelled operation reads have a
-- meaning. A text is a list of code points where it is encoded, and a native string where it is a
-- key or a value of a dict.
pub mod Prelude
pub mod Exec
pub mod Json
pub mod Numbers
pub mod Cipher
pub mod Retry
pub mod Protocol
pub mod Snowflake
pub mod Http
pub mod Bytes
pub mod Credentials
pub mod Klap
pub mod Device
pub mod Aes
pub mod Modules
pub mod EmeterStatus
pub mod Strip
pub mod Effects
pub mod LightStrip
pub mod Tapo
pub mod DeviceTypes
pub mod Lights
pub mod Factory
pub mod Discover
pub mod DevInfo
pub mod Cli
pub mod Pcap
