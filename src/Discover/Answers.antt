-- ===== src/Discover/Answers.antt =====
-- What `discover_single` (kasa/discover.py) returns for a host that answers, whatever else arrives.
use python_kasa.Prelude.{
  ℕ, ◌≡◌, refl, ◌∙◌, ap, Bool, true, false, List, [], ◌∷◌, ◌++◌, none, some, String, ◌=s=◌, arith,
  eq_iff, All, take, Option, Bool-cases, inl, inr, sym, subst,
}
use python_kasa.Exec.{Result, ok, err, unsupported_device, is_smart_device_exception, ◌>>=◌}
use python_kasa.Discover.{Parsers, Found}
use python_kasa.Discover.Hosts.{
  Datagram, DiscoverProtocol, is_seen, new_protocol, record_result, receive_new, datagram_received,
  heard, has_host-put_host, record_result-seen,
}
use python_kasa.Discover.Single.{
  Surroundings, resolve, with_children, outcome, finish, discover_single, receive_awaited,
}
use python_kasa.Discover.Entries.{
  Entries, entries, answer_of, record_answer, IsQuiet, IsHeard, get_host-put_host, receive_new_lem,
  receive_all-IsHeard, datagram_received-IsQuiet,
}

-- The handler turns the answer into an entry, and does not raise.
abbrev pub is_recorded : Result Found → Bool
is_recorded (ok found) = true
is_recorded (err e) = is_smart_device_exception e

abbrev recorded : Result Found → Entries
recorded (ok found) = (some found, false, none)
recorded (err unsupported_device) = (none, true, none)
recorded (err e) = (none, false, some e)

outcome-recorded :
    (around : Surroundings) (update_parent_devices : Bool) (r : Result Found)
    → (let (a, b, c) = recorded r in outcome around update_parent_devices a b c)
      ≡ (r >>= with_children around update_parent_devices)
outcome-recorded around update_parent_devices (ok found) = refl
outcome-recorded around update_parent_devices (err unsupported_device) = refl
outcome-recorded around update_parent_devices (err e) = refl

record_result-recorded :
    (ip : String) (r : Result Found) (p : DiscoverProtocol)
    → is_recorded r ≡ true
    → entries ip p ≡ (none, false, none)
    → ((record_result ip r p).1.discovered_event ≡ true)
      × (entries ip (record_result ip r p).1 ≡ recorded r)
record_result-recorded ip (ok found) p fits empty =
    ground (arith, get_host-put_host ip ip found p.discovered_devices, eq_iff ip ip)
record_result-recorded ip (err unsupported_device) p fits empty =
    ground (arith, has_host-put_host ip ip tt p.unsupported_devices, eq_iff ip ip)
record_result-recorded ip (err e) p fits empty =
    ground (arith, get_host-put_host ip ip e p.invalid_device_exceptions, eq_iff ip ip)

module _ (parsers : Parsers) where
  datagram_received-answer :
      (port : ℕ) (d : Datagram) (p : DiscoverProtocol) {r : Result Found}
      → IsQuiet parsers port d.ip p
      → answer_of parsers port d ≡ some r
      → is_recorded r ≡ true
      → IsHeard parsers (recorded r) d.ip (datagram_received parsers d p).1
  unfolding datagram_received
  datagram_received-answer port d p {r} (same, unseen, empty) answered fits =
      let here = heard d.ip p in
      let (set, there) = record_result-recorded d.ip r here fits empty in
      let e : (receive_new parsers d here).1 ≡ (record_result d.ip r here).1 =
        receive_new_lem parsers d here
        ∙ ap (λ x. record_answer parsers x d.ip here)
            (ap (λ n. answer_of parsers n d) same ∙ answered) in
      rw (unseen, e, record_result-seen d.ip r here)
        (rw ((eq_iff d.ip d.ip).1 refl) refl, set, there)

  -- A datagram that the handler ignores or cannot record sets no event.
  abbrev pub IsUnrecorded : ℕ → Datagram → Type 0
  IsUnrecorded port d =
      (r : Result Found) → answer_of parsers port d ≡ some r → is_recorded r ≡ false

  record_result-quiet :
      (ip : String) (r : Result Found) (p : DiscoverProtocol)
      → is_recorded r ≡ false
      → p.discovered_event ≡ false
      → (record_result ip r p).1.discovered_event ≡ false
  record_result-quiet ip (ok found) p h quiet = cc
  record_result-quiet ip (err unsupported_device) p h quiet = cc
  record_result-quiet ip (err e) p h quiet = ground arith

  record_answer-quiet :
      (a : Option (Result Found)) (ip : String) (p : DiscoverProtocol)
      → ((r : Result Found) → a ≡ some r → is_recorded r ≡ false)
      → p.discovered_event ≡ false
      → (record_answer parsers a ip p).discovered_event ≡ false
  record_answer-quiet none ip p h quiet = quiet
  record_answer-quiet (some r) ip p h quiet = record_result-quiet ip r p (h r refl) quiet

  datagram_received-quiet :
      (port : ℕ) (d : Datagram) (p : DiscoverProtocol)
      → p.discovery_port ≡ port
      → IsUnrecorded port d
      → p.discovered_event ≡ false
      → (datagram_received parsers d p).1.discovered_event ≡ false
  unfolding datagram_received
  datagram_received-quiet port d p same h quiet = elim (Bool-cases (is_seen d.ip p.seen_hosts)) [
    | inl seen ↦ rw seen quiet
    | inr new ↦
        let unrecorded : (r : Result Found)
            → answer_of parsers p.discovery_port d ≡ some r
            → is_recorded r ≡ false =
          subst (IsUnrecorded_at d) (sym same) h in
        rw (new, receive_new_lem parsers d (heard d.ip p))
          (record_answer-quiet (answer_of parsers p.discovery_port d) d.ip (heard d.ip p) unrecorded
            quiet)
  ]
    where
      IsUnrecorded_at : Datagram → ℕ → Type 0
      IsUnrecorded_at d n = IsUnrecorded n d

  -- Before the host answers, and while nothing has been recorded, all datagrams are handled.
  receive_awaited-IsQuiet :
      (around : Surroundings) (late port : ℕ) (ip : String) (ds rest : List Datagram)
      (p : DiscoverProtocol)
      → All (λ b. (b.ip =s= ip ≡ false) × IsUnrecorded port b) ds
      → IsQuiet parsers port ip p
      → p.discovered_event ≡ false
      → (q : DiscoverProtocol) × IsQuiet parsers port ip q
        × (receive_awaited around parsers late (ds ++ rest) p
            ≡ receive_awaited around parsers late rest q)
  unfolding receive_awaited
  receive_awaited-IsQuiet around late port ip [] rest p others quiet unset = (p, quiet, refl)
  receive_awaited-IsQuiet around late port ip (d ∷ ds) rest p ((other, ignored), others) quiet
        unset =
      let still = datagram_received-quiet port d p quiet.0 ignored unset in
      let (q, quiet_q, same) =
        receive_awaited-IsQuiet around late port ip ds rest (datagram_received parsers d p).1 others
          (datagram_received-IsQuiet parsers port ip d p other quiet) still in
      (q, quiet_q, rw still same)

  -- If the first datagram that the handler can record is from the host, it decides what `discover_single`
  -- returns or raises, however many datagrams are handled after it before the wait ends: the device,
  -- updated if it has children and this is asked for, or the exception of the answer. The wait does not
  -- time out.
  pub discover_single-answered :
      (around : Surroundings) (update_parent_devices : Bool) (port late : ℕ) (host : String)
      (before after : List Datagram) (d : Datagram) {r : Result Found}
      → resolve around host ≡ ok d.ip
      → All
          (λ b. (b.ip =s= d.ip ≡ false) × IsUnrecorded (new_protocol port).discovery_port b)
          before
      → answer_of parsers (new_protocol port).discovery_port d ≡ some r
      → is_recorded r ≡ true
      → discover_single around parsers update_parent_devices port host late (before ++ d ∷ after)
        ≡ (r >>= with_children around update_parent_devices)
  unfolding discover_single finish receive_awaited
  discover_single-answered around update_parent_devices port late host before after d {r} found
        others answered fits =
      let fresh = new_protocol port in
      let (q, quiet, same) =
        receive_awaited-IsQuiet around late fresh.discovery_port d.ip before (d ∷ after) fresh
          others (refl, refl, refl) refl in
      let first = datagram_received-answer fresh.discovery_port d q quiet answered fits in
      let (_, set, there) =
        receive_all-IsHeard parsers (recorded r) d.ip (take late after)
          (datagram_received parsers d q).1 first in
      rw (found, same, first.1, set)
        (ap (λ (e : Entries). let (a, b, c) = e in outcome around update_parent_devices a b c) there
          ∙ outcome-recorded around update_parent_devices r)
